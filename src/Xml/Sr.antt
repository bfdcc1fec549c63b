-- ===== src/Xml/Sr.antt =====
-- XML::sr and XML::queue
use kueued.Prelude.{Text, lit, is_empty, List, [], ◌∷◌, ◌++◌, map, length, not, pos, if◌then◌else◌}
use kueued.Items.{QueueItem}
use kueued.QString.Number.{number}
use kueued.Xml.Markup.{concat, when, raw_in, raw_line, cdata_line, is_given}

-- the branch for a collaboration request
unfoldable pub cr_lines : QueueItem → Text
cr_lines qi = concat (
    raw_line "srtype" (lit "cr")
    ∷ raw_line "creator" qi.creator
    ∷ raw_line "crsr" qi.crsr
    ∷ cdata_line "crsr_cust" qi.crsrcust
    ∷ cdata_line "crsr_desc" qi.crsrdesc
    ∷ [])

-- the branch for a service request
unfoldable pub customer_lines : QueueItem → Text
customer_lines qi = concat (
    raw_line "srtype" (lit "sr")
    ∷ cdata_line "cus_account" qi.customer
    ∷ cdata_line "cus_num" qi.cst_num
    ∷ when (is_given qi.contact_firstname) (cdata_line "cus_firstname" qi.contact_firstname)
    ∷ when (is_given qi.contact_lastname) (cdata_line "cus_lastname" qi.contact_lastname)
    ∷ when (is_given qi.contact_title) (cdata_line "cus_title" qi.contact_title)
    ∷ when (is_given qi.contact_email) (cdata_line "cus_email" qi.contact_email)
    ∷ when (is_given qi.contact_phone) (cdata_line "cus_phone" qi.contact_phone)
    ∷ when (is_given qi.onsite_phone) (cdata_line "cus_onsitephone" qi.onsite_phone)
    ∷ when (is_given qi.contact_lang) (cdata_line "cus_lang" qi.contact_lang)
    ∷ when (not (is_empty qi.alt_contact)) (cdata_line "alt_contact" qi.alt_contact)
    ∷ [])

-- if ( !qi.bugId.isEmpty() ) …
unfoldable pub bug_lines : QueueItem → Text
bug_lines qi = when (not (is_empty qi.bug_id)) (
    cdata_line "bug" qi.bug_id
    ++ when (not (is_empty qi.bug_desc)) (cdata_line "bug_desc" qi.bug_desc))

unfoldable pub sr_lines : QueueItem → List Text
sr_lines qi =
    cdata_line "id" qi.id
    ∷ (if qi.is_cr then cr_lines qi else customer_lines qi)
    ∷ cdata_line "owner" qi.owner
    ∷ when (not (is_empty qi.sub_owner)) (cdata_line "subowner" qi.sub_owner)
    ∷ cdata_line "severity" qi.severity
    ∷ cdata_line "status" qi.status
    ∷ cdata_line "bdesc" qi.brief_desc
    ∷ when (is_given qi.detailed_desc) (cdata_line "ddesc" qi.detailed_desc)
    ∷ bug_lines qi
    ∷ cdata_line "geo" qi.geo
    ∷ cdata_line "hours" qi.hours
    ∷ cdata_line "contract" qi.support_program
    ∷ cdata_line "service_level" (number qi.service_level)
    ∷ raw_line "created" qi.created
    ∷ raw_line "lastupdate" qi.last_update
    ∷ when qi.high_value (raw_line "highvalue" (lit "1"))
    ∷ when qi.critsit (raw_line "critsit" (lit "1"))
    ∷ []

unfoldable pub sr : QueueItem → Text
sr qi = lit "  <sr>\n" ++ (concat (sr_lines qi) ++ lit "  </sr>\n")

-- "<total>…</total>\n"
unfoldable pub total : List QueueItem → Text
total list = raw_in "" "total" (number (pos (length list))) "\n"

unfoldable pub queue : List QueueItem → Text
queue list = lit "<queue>\n" ++ ((total list ++ concat (map sr list)) ++ lit "</queue>\n")
