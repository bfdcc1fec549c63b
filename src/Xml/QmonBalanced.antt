-- ===== src/Xml/QmonBalanced.antt =====
-- The document of XML::qmon is well formed, if the values fit where they stand.
use kueued.Prelude.{
  Text, lit, List, [], ◌∷◌, ◌++◌, map, ℤ, pos, ltb_ℤ, Bool, true, false, ◌≡◌, refl, not, is_empty,
  if◌then◌else◌,
}
use kueued.Items.{SiebelItem}
use kueued.Sql.{DateTimes}
use kueued.QString.Cdata.{is_open}
use kueued.QString.Number.{number}
use kueued.Xml.Markup.{concat, raw_line, cdata_line, is_given}
use kueued.Xml.Scan.{scan, IsBalanced, is_plain}
use kueued.Xml.Balanced.{
  is_tag, raw_line-IsBalanced, cdata_line-IsBalanced, wrap-IsBalanced, append-IsBalanced,
  when-IsBalanced, concat-IsBalanced, AllBalanced, done, ◌&◌,
}
use kueued.Xml.Numbers.{is_plain-number}
use kueued.Xml.Qmon.{
  Ages, ages_of, qmon_cr_lines, qmon_customer_lines, qmon_lines, sr_element, qmon_element, qmon,
}

-- The values that go into CDATA sections never complete "]]>", and those that go between bare tags
-- have no '<' and no '&'.
pub record Fits (si : SiebelItem) : Type 0 where
  pub at_id : is_open 0 si.id ≡ true
  pub at_queue : is_open 0 si.queue ≡ true
  pub at_severity : is_open 0 si.severity ≡ true
  pub at_status : is_open 0 si.status ≡ true
  pub at_brief_desc : is_open 0 si.brief_desc ≡ true
  pub at_detailed_desc : is_open 0 si.detailed_desc ≡ true
  pub at_geo : is_open 0 si.geo ≡ true
  pub at_hours : is_open 0 si.hours ≡ true
  pub at_source : is_open 0 si.source ≡ true
  pub at_support_program : is_open 0 si.support_program ≡ true
  pub at_support_program_long : is_open 0 si.support_program_long ≡ true
  pub at_routing_product : is_open 0 si.routing_product ≡ true
  pub at_support_group_routing : is_open 0 si.support_group_routing ≡ true
  pub at_int_type : is_open 0 si.int_type ≡ true
  pub at_subtype : is_open 0 si.subtype ≡ true
  pub at_service_level : is_open 0 si.service_level ≡ true
  pub at_category : is_open 0 si.category ≡ true
  pub at_respond_via : is_open 0 si.respond_via ≡ true
  pub at_bug_id : is_open 0 si.bug_id ≡ true
  pub at_subowner : is_open 0 si.subowner ≡ true
  pub at_crsrcust : is_open 0 si.crsrcust ≡ true
  pub at_crsrdesc : is_open 0 si.crsrdesc ≡ true
  pub at_customer : is_open 0 si.customer ≡ true
  pub at_cst_num : is_open 0 si.cst_num ≡ true
  pub at_alt_contact : is_open 0 si.alt_contact ≡ true
  pub at_contact_firstname : is_open 0 si.contact_firstname ≡ true
  pub at_contact_lastname : is_open 0 si.contact_lastname ≡ true
  pub at_contact_title : is_open 0 si.contact_title ≡ true
  pub at_contact_email : is_open 0 si.contact_email ≡ true
  pub at_contact_phone : is_open 0 si.contact_phone ≡ true
  pub at_onsite_phone : is_open 0 si.onsite_phone ≡ true
  pub at_contact_lang : is_open 0 si.contact_lang ≡ true
  pub at_bomgar_q : is_plain si.bomgar_q ≡ true
  pub at_creator : is_plain si.creator ≡ true
  pub at_crsr : is_plain si.crsr ≡ true
  pub at_created : is_plain si.created ≡ true
  pub at_last_update : is_plain si.last_update ≡ true
  pub at_sla : is_plain si.sla ≡ true

qmon_cr_lines-AllBalanced : (si : SiebelItem) → Fits si → AllBalanced (qmon_cr_lines si)
unfolding qmon_cr_lines lit is_tag is_plain
qmon_cr_lines-AllBalanced si h =
    raw_line-IsBalanced "srtype" (lit "cr") refl refl
    & raw_line-IsBalanced "creator" si.creator refl h.at_creator
    & raw_line-IsBalanced "crsr" si.crsr refl h.at_crsr
    & cdata_line-IsBalanced "crsr_cust" si.crsrcust refl h.at_crsrcust
    & cdata_line-IsBalanced "crsr_desc" si.crsrdesc refl h.at_crsrdesc
    & done

qmon_customer_lines-AllBalanced : (si : SiebelItem) → Fits si → AllBalanced (qmon_customer_lines si)
unfolding qmon_customer_lines lit is_tag is_plain
qmon_customer_lines-AllBalanced si h =
    raw_line-IsBalanced "srtype" (lit "sr") refl refl
    & cdata_line-IsBalanced "cus_account" si.customer refl h.at_customer
    & cdata_line-IsBalanced "cus_num" si.cst_num refl h.at_cst_num
    & when-IsBalanced (is_given si.contact_firstname)
        (cdata_line "cus_firstname" si.contact_firstname)
        (cdata_line-IsBalanced "cus_firstname" si.contact_firstname refl h.at_contact_firstname)
    & when-IsBalanced (is_given si.contact_lastname) (cdata_line "cus_lastname" si.contact_lastname)
        (cdata_line-IsBalanced "cus_lastname" si.contact_lastname refl h.at_contact_lastname)
    & when-IsBalanced (is_given si.contact_title) (cdata_line "cus_title" si.contact_title)
        (cdata_line-IsBalanced "cus_title" si.contact_title refl h.at_contact_title)
    & when-IsBalanced (is_given si.contact_email) (cdata_line "cus_email" si.contact_email)
        (cdata_line-IsBalanced "cus_email" si.contact_email refl h.at_contact_email)
    & when-IsBalanced (is_given si.contact_phone) (cdata_line "cus_phone" si.contact_phone)
        (cdata_line-IsBalanced "cus_phone" si.contact_phone refl h.at_contact_phone)
    & when-IsBalanced (is_given si.onsite_phone) (cdata_line "cus_onsitephone" si.onsite_phone)
        (cdata_line-IsBalanced "cus_onsitephone" si.onsite_phone refl h.at_onsite_phone)
    & when-IsBalanced (is_given si.contact_lang) (cdata_line "cus_lang" si.contact_lang)
        (cdata_line-IsBalanced "cus_lang" si.contact_lang refl h.at_contact_lang)
    & when-IsBalanced (not (is_empty si.alt_contact)) (cdata_line "alt_contact" si.alt_contact)
        (cdata_line-IsBalanced "alt_contact" si.alt_contact refl h.at_alt_contact)
    & done

branch :
    (b : Bool) (t u : List Text)
    → AllBalanced t
    → AllBalanced u
    → IsBalanced (concat (if b then t else u))
branch true t u ht hu = concat-IsBalanced ht
branch false t u ht hu = concat-IsBalanced hu

qmon_lines-AllBalanced :
    (ages : Ages) (si : SiebelItem) → Fits si → AllBalanced (qmon_lines ages si)
unfolding qmon_lines lit is_tag is_plain
qmon_lines-AllBalanced ages si h =
    cdata_line-IsBalanced "id" si.id refl h.at_id
    & cdata_line-IsBalanced "queue" si.queue refl h.at_queue
    & when-IsBalanced si.is_chat (raw_line "bomgarQ" si.bomgar_q)
        (raw_line-IsBalanced "bomgarQ" si.bomgar_q refl h.at_bomgar_q)
    & branch si.is_cr (qmon_cr_lines si) (qmon_customer_lines si) (qmon_cr_lines-AllBalanced si h)
        (qmon_customer_lines-AllBalanced si h)
    & cdata_line-IsBalanced "severity" si.severity refl h.at_severity
    & cdata_line-IsBalanced "status" si.status refl h.at_status
    & cdata_line-IsBalanced "bdesc" si.brief_desc refl h.at_brief_desc
    & when-IsBalanced (is_given si.detailed_desc) (cdata_line "ddesc" si.detailed_desc)
        (cdata_line-IsBalanced "ddesc" si.detailed_desc refl h.at_detailed_desc)
    & cdata_line-IsBalanced "geo" si.geo refl h.at_geo
    & cdata_line-IsBalanced "hours" si.hours refl h.at_hours
    & cdata_line-IsBalanced "source" si.source refl h.at_source
    & cdata_line-IsBalanced "support_program" si.support_program refl h.at_support_program
    & cdata_line-IsBalanced "support_program_long" si.support_program_long refl
        h.at_support_program_long
    & cdata_line-IsBalanced "routing_product" si.routing_product refl h.at_routing_product
    & cdata_line-IsBalanced "support_group_routing" si.support_group_routing refl
        h.at_support_group_routing
    & cdata_line-IsBalanced "int_type" si.int_type refl h.at_int_type
    & cdata_line-IsBalanced "subtype" si.subtype refl h.at_subtype
    & cdata_line-IsBalanced "service_level" si.service_level refl h.at_service_level
    & cdata_line-IsBalanced "category" si.category refl h.at_category
    & when-IsBalanced (not (is_empty si.respond_via)) (cdata_line "respond_via" si.respond_via)
        (cdata_line-IsBalanced "respond_via" si.respond_via refl h.at_respond_via)
    & when-IsBalanced (not (is_empty si.bug_id)) (cdata_line "bug" si.bug_id)
        (cdata_line-IsBalanced "bug" si.bug_id refl h.at_bug_id)
    & raw_line-IsBalanced "age" (number ages.age) refl (is_plain-number ages.age)
    & raw_line-IsBalanced "agedate" si.created refl h.at_created
    & raw_line-IsBalanced "lastupdate" (number ages.lu) refl (is_plain-number ages.lu)
    & raw_line-IsBalanced "lastupdatedate" si.last_update refl h.at_last_update
    & raw_line-IsBalanced "timeinQ" (number ages.qt) refl (is_plain-number ages.qt)
    & when-IsBalanced (ltb_ℤ (pos 0) ages.sla)
        (raw_line "sla" (number ages.sla) ++ raw_line "sladate" si.sla)
        (append-IsBalanced (raw_line "sla" (number ages.sla)) (raw_line "sladate" si.sla)
          (raw_line-IsBalanced "sla" (number ages.sla) refl (is_plain-number ages.sla))
          (raw_line-IsBalanced "sladate" si.sla refl h.at_sla))
    & when-IsBalanced si.high_value (raw_line "highvalue" (lit "1"))
        (raw_line-IsBalanced "highvalue" (lit "1") refl refl)
    & when-IsBalanced si.critsit (raw_line "critsit" (lit "1"))
        (raw_line-IsBalanced "critsit" (lit "1") refl refl)
    & when-IsBalanced (not (is_empty si.subowner)) (cdata_line "subowner" si.subowner)
        (cdata_line-IsBalanced "subowner" si.subowner refl h.at_subowner)
    & done

sr_element-IsBalanced : {lines : List Text} → AllBalanced lines → IsBalanced (sr_element lines)
unfolding sr_element scan lit
sr_element-IsBalanced {lines} h =
    wrap-IsBalanced (lit "  <sr>\n") (concat lines) (lit "  </sr>\n") (b'r' ∷ b's' ∷ [])
      (λ names. refl) (λ names. refl) (concat-IsBalanced h)

qmon_element-IsBalanced : {srs : List Text} → AllBalanced srs → IsBalanced (qmon_element srs)
unfolding qmon_element scan lit
qmon_element-IsBalanced {srs} h =
    wrap-IsBalanced (lit "<qmon>\n") (concat srs) (lit "</qmon>\n") (b'n' ∷ b'o' ∷ b'm' ∷ b'q' ∷ [])
      (λ names. refl) (λ names. refl) (concat-IsBalanced h)

abbrev pub AllFit : List SiebelItem → Type 0
AllFit [] = Unit
AllFit (si ∷ list) = Fits si × AllFit list

module _ {D : Type 0} (times : DateTimes D) (now : D) (timezone : ℤ) where
  srs-AllBalanced :
      (list : List SiebelItem)
      → AllFit list
      → AllBalanced (map (λ si. sr_element (qmon_lines (ages_of times now timezone si) si)) list)
  srs-AllBalanced [] h = done
  srs-AllBalanced (si ∷ list) h =
      sr_element-IsBalanced (qmon_lines-AllBalanced (ages_of times now timezone si) si h.0)
      & srs-AllBalanced list h.1

  -- The document of the SR list closes every element that it opens, and nothing but its own markup
  -- opens one, whatever the dates are, if the values of its requests fit where they stand.
  pub qmon-IsBalanced :
      (list : List SiebelItem) → AllFit list → IsBalanced (qmon times now timezone list)
  unfolding qmon
  qmon-IsBalanced list h = qmon_element-IsBalanced (srs-AllBalanced list h)
