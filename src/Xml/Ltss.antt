-- ===== src/Xml/Ltss.antt =====
-- XML::ltssCust: the list of the LTSS customers.
use kueued.Prelude.{Text, lit, List, [], ◌∷◌, ◌++◌, map, true, ◌≡◌, refl}
use kueued.Items.{LtssCustomer}
use kueued.QString.Cdata.{is_open}
use kueued.Xml.Markup.{concat, cdata_line}
use kueued.Xml.Scan.{scan, IsBalanced}
use kueued.Xml.Balanced.{
  is_tag, cdata_line-IsBalanced, wrap-IsBalanced, concat-IsBalanced, AllBalanced, done, ◌&◌,
}

unfoldable pub ltss_lines : LtssCustomer → List Text
ltss_lines cu =
    cdata_line "account_name" cu.account_name
    ∷ cdata_line "oracle_customer_nr" cu.oracle_customer_nr
    ∷ cdata_line "geo" cu.geo
    ∷ cdata_line "support_program" cu.support_program
    ∷ cdata_line "agreement_nr" cu.agreement_nr
    ∷ cdata_line "agreement_status" cu.agreement_status
    ∷ cdata_line "entitlement_id" cu.entitlement_id
    ∷ cdata_line "entitlement_name" cu.entitlement_name
    ∷ cdata_line "entitlement_start_date" cu.entitlement_start_date
    ∷ cdata_line "entitlement_end_date" cu.entitlement_end_date
    ∷ []

unfoldable pub customer_element : LtssCustomer → Text
customer_element cu = lit "  <customer>\n" ++ (concat (ltss_lines cu) ++ lit "  </customer>\n")

unfoldable pub ltss_cust : List LtssCustomer → Text
ltss_cust list =
    lit "<ltsscustomers>\n" ++ (concat (map customer_element list) ++ lit "</ltsscustomers>\n")

-- No value completes "]]>".
pub record CustomerFits (cu : LtssCustomer) : Type 0 where
  pub at_account_name : is_open 0 cu.account_name ≡ true
  pub at_oracle_customer_nr : is_open 0 cu.oracle_customer_nr ≡ true
  pub at_geo : is_open 0 cu.geo ≡ true
  pub at_support_program : is_open 0 cu.support_program ≡ true
  pub at_agreement_nr : is_open 0 cu.agreement_nr ≡ true
  pub at_agreement_status : is_open 0 cu.agreement_status ≡ true
  pub at_entitlement_id : is_open 0 cu.entitlement_id ≡ true
  pub at_entitlement_name : is_open 0 cu.entitlement_name ≡ true
  pub at_entitlement_start_date : is_open 0 cu.entitlement_start_date ≡ true
  pub at_entitlement_end_date : is_open 0 cu.entitlement_end_date ≡ true

ltss_lines-AllBalanced : (cu : LtssCustomer) → CustomerFits cu → AllBalanced (ltss_lines cu)
unfolding ltss_lines lit is_tag
ltss_lines-AllBalanced cu h =
    cdata_line-IsBalanced "account_name" cu.account_name refl h.at_account_name
    & cdata_line-IsBalanced "oracle_customer_nr" cu.oracle_customer_nr refl h.at_oracle_customer_nr
    & cdata_line-IsBalanced "geo" cu.geo refl h.at_geo
    & cdata_line-IsBalanced "support_program" cu.support_program refl h.at_support_program
    & cdata_line-IsBalanced "agreement_nr" cu.agreement_nr refl h.at_agreement_nr
    & cdata_line-IsBalanced "agreement_status" cu.agreement_status refl h.at_agreement_status
    & cdata_line-IsBalanced "entitlement_id" cu.entitlement_id refl h.at_entitlement_id
    & cdata_line-IsBalanced "entitlement_name" cu.entitlement_name refl h.at_entitlement_name
    & cdata_line-IsBalanced "entitlement_start_date" cu.entitlement_start_date refl
        h.at_entitlement_start_date
    & cdata_line-IsBalanced "entitlement_end_date" cu.entitlement_end_date refl
        h.at_entitlement_end_date
    & done

customer_element-IsBalanced :
    (cu : LtssCustomer) → CustomerFits cu → IsBalanced (customer_element cu)
unfolding customer_element scan lit
customer_element-IsBalanced cu h =
    wrap-IsBalanced (lit "  <customer>\n") (concat (ltss_lines cu)) (lit "  </customer>\n")
      (b'r' ∷ b'e' ∷ b'm' ∷ b'o' ∷ b't' ∷ b's' ∷ b'u' ∷ b'c' ∷ []) (λ names. refl) (λ names. refl)
      (concat-IsBalanced (ltss_lines-AllBalanced cu h))

abbrev pub AllCustomersFit : List LtssCustomer → Type 0
AllCustomersFit [] = Unit
AllCustomersFit (cu ∷ list) = CustomerFits cu × AllCustomersFit list

elements-AllBalanced :
    (list : List LtssCustomer) → AllCustomersFit list → AllBalanced (map customer_element list)
elements-AllBalanced [] h = done
elements-AllBalanced (cu ∷ list) h =
    customer_element-IsBalanced cu h.0 & elements-AllBalanced list h.1

-- The document of the LTSS customers closes every element that it opens, and nothing but its own
-- markup opens one, if no value completes a CDATA section.
pub ltss_cust-IsBalanced :
    (list : List LtssCustomer) → AllCustomersFit list → IsBalanced (ltss_cust list)
unfolding ltss_cust scan lit
ltss_cust-IsBalanced list h =
    wrap-IsBalanced (lit "<ltsscustomers>\n") (concat (map customer_element list))
      (lit "</ltsscustomers>\n")
      (b's' ∷ b'r' ∷ b'e' ∷ b'm' ∷ b'o' ∷ b't' ∷ b's' ∷ b'u' ∷ b'c' ∷ b's' ∷ b's' ∷ b't' ∷ b'l'
        ∷ [])
      (λ names. refl) (λ names. refl) (concat-IsBalanced (elements-AllBalanced list h))
