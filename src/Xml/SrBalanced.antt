-- ===== src/Xml/SrBalanced.antt =====
-- The documents of XML::sr and XML::queue are well formed, if the values fit where they stand.
use kueued.Prelude.{
  Text, lit, List, [], ◌∷◌, ◌++◌, map, pos, length, Bool, true, false, ◌≡◌, refl, not, is_empty,
  if◌then◌else◌,
}
use kueued.Items.{QueueItem}
use kueued.QString.Cdata.{is_open}
use kueued.QString.Number.{number}
use kueued.Xml.Markup.{concat, raw_line, cdata_line, is_given}
use kueued.Xml.Scan.{scan, IsBalanced, is_plain}
use kueued.Xml.Balanced.{
  is_tag, raw_line-IsBalanced, raw_in-IsBalanced, cdata_line-IsBalanced, wrap-IsBalanced,
  append-IsBalanced, nil-IsBalanced, when-IsBalanced, concat-IsBalanced, AllBalanced, done, ◌&◌,
}
use kueued.Xml.Numbers.{is_open-number, is_plain-number}
use kueued.Xml.Sr.{cr_lines, customer_lines, bug_lines, sr_lines, sr, total, queue}

-- The values that go into CDATA sections never complete "]]>", and those that go between bare tags
-- have no '<' and no '&'.
pub record Fits (qi : QueueItem) : Type 0 where
  pub at_id : is_open 0 qi.id ≡ true
  pub at_customer : is_open 0 qi.customer ≡ true
  pub at_cst_num : is_open 0 qi.cst_num ≡ true
  pub at_contact_firstname : is_open 0 qi.contact_firstname ≡ true
  pub at_contact_lastname : is_open 0 qi.contact_lastname ≡ true
  pub at_contact_title : is_open 0 qi.contact_title ≡ true
  pub at_contact_email : is_open 0 qi.contact_email ≡ true
  pub at_contact_phone : is_open 0 qi.contact_phone ≡ true
  pub at_onsite_phone : is_open 0 qi.onsite_phone ≡ true
  pub at_contact_lang : is_open 0 qi.contact_lang ≡ true
  pub at_alt_contact : is_open 0 qi.alt_contact ≡ true
  pub at_owner : is_open 0 qi.owner ≡ true
  pub at_sub_owner : is_open 0 qi.sub_owner ≡ true
  pub at_severity : is_open 0 qi.severity ≡ true
  pub at_status : is_open 0 qi.status ≡ true
  pub at_brief_desc : is_open 0 qi.brief_desc ≡ true
  pub at_detailed_desc : is_open 0 qi.detailed_desc ≡ true
  pub at_bug_id : is_open 0 qi.bug_id ≡ true
  pub at_bug_desc : is_open 0 qi.bug_desc ≡ true
  pub at_geo : is_open 0 qi.geo ≡ true
  pub at_hours : is_open 0 qi.hours ≡ true
  pub at_support_program : is_open 0 qi.support_program ≡ true
  pub at_crsrcust : is_open 0 qi.crsrcust ≡ true
  pub at_crsrdesc : is_open 0 qi.crsrdesc ≡ true
  pub at_creator : is_plain qi.creator ≡ true
  pub at_crsr : is_plain qi.crsr ≡ true
  pub at_created : is_plain qi.created ≡ true
  pub at_last_update : is_plain qi.last_update ≡ true

cr_lines-IsBalanced : (qi : QueueItem) → Fits qi → IsBalanced (cr_lines qi)
unfolding cr_lines lit is_tag is_plain
cr_lines-IsBalanced qi h = concat-IsBalanced (
    raw_line-IsBalanced "srtype" (lit "cr") refl refl
    & raw_line-IsBalanced "creator" qi.creator refl h.at_creator
    & raw_line-IsBalanced "crsr" qi.crsr refl h.at_crsr
    & cdata_line-IsBalanced "crsr_cust" qi.crsrcust refl h.at_crsrcust
    & cdata_line-IsBalanced "crsr_desc" qi.crsrdesc refl h.at_crsrdesc
    & done)

customer_lines-IsBalanced : (qi : QueueItem) → Fits qi → IsBalanced (customer_lines qi)
unfolding customer_lines lit is_tag is_plain
customer_lines-IsBalanced qi h = concat-IsBalanced (
    raw_line-IsBalanced "srtype" (lit "sr") refl refl
    & cdata_line-IsBalanced "cus_account" qi.customer refl h.at_customer
    & cdata_line-IsBalanced "cus_num" qi.cst_num refl h.at_cst_num
    & when-IsBalanced (is_given qi.contact_firstname)
        (cdata_line "cus_firstname" qi.contact_firstname)
        (cdata_line-IsBalanced "cus_firstname" qi.contact_firstname refl h.at_contact_firstname)
    & when-IsBalanced (is_given qi.contact_lastname) (cdata_line "cus_lastname" qi.contact_lastname)
        (cdata_line-IsBalanced "cus_lastname" qi.contact_lastname refl h.at_contact_lastname)
    & when-IsBalanced (is_given qi.contact_title) (cdata_line "cus_title" qi.contact_title)
        (cdata_line-IsBalanced "cus_title" qi.contact_title refl h.at_contact_title)
    & when-IsBalanced (is_given qi.contact_email) (cdata_line "cus_email" qi.contact_email)
        (cdata_line-IsBalanced "cus_email" qi.contact_email refl h.at_contact_email)
    & when-IsBalanced (is_given qi.contact_phone) (cdata_line "cus_phone" qi.contact_phone)
        (cdata_line-IsBalanced "cus_phone" qi.contact_phone refl h.at_contact_phone)
    & when-IsBalanced (is_given qi.onsite_phone) (cdata_line "cus_onsitephone" qi.onsite_phone)
        (cdata_line-IsBalanced "cus_onsitephone" qi.onsite_phone refl h.at_onsite_phone)
    & when-IsBalanced (is_given qi.contact_lang) (cdata_line "cus_lang" qi.contact_lang)
        (cdata_line-IsBalanced "cus_lang" qi.contact_lang refl h.at_contact_lang)
    & when-IsBalanced (not (is_empty qi.alt_contact)) (cdata_line "alt_contact" qi.alt_contact)
        (cdata_line-IsBalanced "alt_contact" qi.alt_contact refl h.at_alt_contact)
    & done)

bug_lines-IsBalanced : (qi : QueueItem) → Fits qi → IsBalanced (bug_lines qi)
unfolding bug_lines lit is_tag
bug_lines-IsBalanced qi h = when-IsBalanced (not (is_empty qi.bug_id)) _ (
    append-IsBalanced _ _ (cdata_line-IsBalanced "bug" qi.bug_id refl h.at_bug_id) (
      when-IsBalanced (not (is_empty qi.bug_desc)) (cdata_line "bug_desc" qi.bug_desc)
        (cdata_line-IsBalanced "bug_desc" qi.bug_desc refl h.at_bug_desc)))

branch : (b : Bool) (t u : Text) → IsBalanced t → IsBalanced u → IsBalanced (if b then t else u)
branch true t u ht hu = ht
branch false t u ht hu = hu

sr_lines-AllBalanced : (qi : QueueItem) → Fits qi → AllBalanced (sr_lines qi)
unfolding sr_lines lit is_tag is_plain
sr_lines-AllBalanced qi h =
    cdata_line-IsBalanced "id" qi.id refl h.at_id
    & branch qi.is_cr (cr_lines qi) (customer_lines qi) (cr_lines-IsBalanced qi h)
        (customer_lines-IsBalanced qi h)
    & cdata_line-IsBalanced "owner" qi.owner refl h.at_owner
    & when-IsBalanced (not (is_empty qi.sub_owner)) (cdata_line "subowner" qi.sub_owner)
        (cdata_line-IsBalanced "subowner" qi.sub_owner refl h.at_sub_owner)
    & cdata_line-IsBalanced "severity" qi.severity refl h.at_severity
    & cdata_line-IsBalanced "status" qi.status refl h.at_status
    & cdata_line-IsBalanced "bdesc" qi.brief_desc refl h.at_brief_desc
    & when-IsBalanced (is_given qi.detailed_desc) (cdata_line "ddesc" qi.detailed_desc)
        (cdata_line-IsBalanced "ddesc" qi.detailed_desc refl h.at_detailed_desc)
    & bug_lines-IsBalanced qi h
    & cdata_line-IsBalanced "geo" qi.geo refl h.at_geo
    & cdata_line-IsBalanced "hours" qi.hours refl h.at_hours
    & cdata_line-IsBalanced "contract" qi.support_program refl h.at_support_program
    & cdata_line-IsBalanced "service_level" (number qi.service_level) refl
        (is_open-number qi.service_level)
    & raw_line-IsBalanced "created" qi.created refl h.at_created
    & raw_line-IsBalanced "lastupdate" qi.last_update refl h.at_last_update
    & when-IsBalanced qi.high_value (raw_line "highvalue" (lit "1"))
        (raw_line-IsBalanced "highvalue" (lit "1") refl refl)
    & when-IsBalanced qi.critsit (raw_line "critsit" (lit "1"))
        (raw_line-IsBalanced "critsit" (lit "1") refl refl)
    & done

-- The element of one request is well formed.
pub sr-IsBalanced : (qi : QueueItem) → Fits qi → IsBalanced (sr qi)
unfolding sr scan lit
sr-IsBalanced qi h =
    wrap-IsBalanced (lit "  <sr>\n") (concat (sr_lines qi)) (lit "  </sr>\n") (b'r' ∷ b's' ∷ [])
      (λ names. refl) (λ names. refl) (concat-IsBalanced (sr_lines-AllBalanced qi h))

abbrev pub AllFit : List QueueItem → Type 0
AllFit [] = Unit
AllFit (qi ∷ list) = Fits qi × AllFit list

srs-IsBalanced : (list : List QueueItem) → AllFit list → IsBalanced (concat (map sr list))
unfolding concat
srs-IsBalanced [] h = nil-IsBalanced
srs-IsBalanced (qi ∷ list) h =
    append-IsBalanced (sr qi) (concat (map sr list)) (sr-IsBalanced qi h.0)
      (srs-IsBalanced list h.1)

-- The document of a queue closes every element that it opens, and nothing but its own markup opens
-- one, if the values of its requests fit where they stand.
pub queue-IsBalanced : (list : List QueueItem) → AllFit list → IsBalanced (queue list)
unfolding queue total scan lit is_tag is_plain
queue-IsBalanced list h =
    wrap-IsBalanced (lit "<queue>\n") (total list ++ concat (map sr list)) (lit "</queue>\n")
      (b'e' ∷ b'u' ∷ b'e' ∷ b'u' ∷ b'q' ∷ []) (λ names. refl) (λ names. refl)
      (append-IsBalanced (total list) (concat (map sr list))
        (raw_in-IsBalanced "" "total" (number (pos (length list))) "\n" refl refl refl
          (is_plain-number (pos (length list))))
        (srs-IsBalanced list h))
