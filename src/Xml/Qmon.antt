-- ===== src/Xml/Qmon.antt =====
-- XML::qmon and XML::qmonDate: the SR list, with ages in seconds or with dates.
use kueued.Prelude.{
  Text, lit, is_empty, List, [], ◌∷◌, ◌++◌, map, not, Bool, Option, none, some, ℤ, pos, ◌-ℤ◌, ◌*ℤ◌,
  ltb_ℤ, if◌then◌else◌,
}
use kueued.Items.{SiebelItem}
use kueued.Sql.{DateTimes}
use kueued.QString.Number.{number}
use kueued.Xml.Markup.{concat, when, raw_line, cdata_line, is_given}

-- XML::qmon: the branch for a collaboration request
unfoldable pub qmon_cr_lines : SiebelItem → List Text
qmon_cr_lines si =
    raw_line "srtype" (lit "cr")
    ∷ raw_line "creator" si.creator
    ∷ raw_line "crsr" si.crsr
    ∷ cdata_line "crsr_cust" si.crsrcust
    ∷ cdata_line "crsr_desc" si.crsrdesc
    ∷ []

-- the branch for a service request
unfoldable pub qmon_customer_lines : SiebelItem → List Text
qmon_customer_lines si =
    raw_line "srtype" (lit "sr")
    ∷ cdata_line "cus_account" si.customer
    ∷ cdata_line "cus_num" si.cst_num
    ∷ when (is_given si.contact_firstname) (cdata_line "cus_firstname" si.contact_firstname)
    ∷ when (is_given si.contact_lastname) (cdata_line "cus_lastname" si.contact_lastname)
    ∷ when (is_given si.contact_title) (cdata_line "cus_title" si.contact_title)
    ∷ when (is_given si.contact_email) (cdata_line "cus_email" si.contact_email)
    ∷ when (is_given si.contact_phone) (cdata_line "cus_phone" si.contact_phone)
    ∷ when (is_given si.onsite_phone) (cdata_line "cus_onsitephone" si.onsite_phone)
    ∷ when (is_given si.contact_lang) (cdata_line "cus_lang" si.contact_lang)
    ∷ when (not (is_empty si.alt_contact)) (cdata_line "alt_contact" si.alt_contact)
    ∷ []

-- XML::qmonDate: the branch for a collaboration request
unfoldable pub qmon_date_cr_lines : SiebelItem → List Text
qmon_date_cr_lines si =
    raw_line "srtype" (lit "cr")
    ∷ raw_line "creator" si.creator
    ∷ raw_line "crsr" si.crsr
    ∷ raw_line "crsr_cust" si.crsrcust
    ∷ raw_line "crsr_desc" si.crsrdesc
    ∷ []

-- the branch for a service request
unfoldable pub qmon_date_customer_lines : SiebelItem → List Text
qmon_date_customer_lines si =
    raw_line "srtype" (lit "sr")
    ∷ cdata_line "cus_account" si.customer
    ∷ cdata_line "cus_num" si.cst_num
    ∷ when (is_given si.contact_firstname) (cdata_line "cus_firstname" si.contact_firstname)
    ∷ when (is_given si.contact_lastname) (cdata_line "cus_lastname" si.contact_lastname)
    ∷ when (is_given si.contact_title) (cdata_line "cus_title" si.contact_title)
    ∷ when (is_given si.contact_email) (cdata_line "cus_email" si.contact_email)
    ∷ when (is_given si.contact_phone) (cdata_line "cus_phone" si.contact_phone)
    ∷ when (is_given si.onsite_phone) (cdata_line "cus_onsitephone" si.onsite_phone)
    ∷ when (is_given si.contact_lang) (cdata_line "cus_lang" si.contact_lang)
    ∷ []

-- the seconds that qmon prints for one item
pub record Ages : Type 0 where
  pub age : ℤ
  pub lu : ℤ
  pub qt : ℤ
  pub sla : ℤ

unfoldable pub qmon_lines : Ages → SiebelItem → List Text
qmon_lines ages si =
    cdata_line "id" si.id
    ∷ cdata_line "queue" si.queue
    ∷ when si.is_chat (raw_line "bomgarQ" si.bomgar_q)
    ∷ concat (if si.is_cr then qmon_cr_lines si else qmon_customer_lines si)
    ∷ cdata_line "severity" si.severity
    ∷ cdata_line "status" si.status
    ∷ cdata_line "bdesc" si.brief_desc
    ∷ when (is_given si.detailed_desc) (cdata_line "ddesc" si.detailed_desc)
    ∷ cdata_line "geo" si.geo
    ∷ cdata_line "hours" si.hours
    ∷ cdata_line "source" si.source
    ∷ cdata_line "support_program" si.support_program
    ∷ cdata_line "support_program_long" si.support_program_long
    ∷ cdata_line "routing_product" si.routing_product
    ∷ cdata_line "support_group_routing" si.support_group_routing
    ∷ cdata_line "int_type" si.int_type
    ∷ cdata_line "subtype" si.subtype
    ∷ cdata_line "service_level" si.service_level
    ∷ cdata_line "category" si.category
    ∷ when (not (is_empty si.respond_via)) (cdata_line "respond_via" si.respond_via)
    ∷ when (not (is_empty si.bug_id)) (cdata_line "bug" si.bug_id)
    ∷ raw_line "age" (number ages.age)
    ∷ raw_line "agedate" si.created
    ∷ raw_line "lastupdate" (number ages.lu)
    ∷ raw_line "lastupdatedate" si.last_update
    ∷ raw_line "timeinQ" (number ages.qt)
    ∷ when (ltb_ℤ (pos 0) ages.sla) (raw_line "sla" (number ages.sla) ++ raw_line "sladate" si.sla)
    ∷ when si.high_value (raw_line "highvalue" (lit "1"))
    ∷ when si.critsit (raw_line "critsit" (lit "1"))
    ∷ when (not (is_empty si.subowner)) (cdata_line "subowner" si.subowner)
    ∷ []

-- `sla_ahead` is now.secsTo( sladate ) > 0
unfoldable pub qmon_date_lines : Bool → SiebelItem → List Text
qmon_date_lines sla_ahead si =
    cdata_line "id" si.id
    ∷ cdata_line "queue" si.queue
    ∷ when si.is_chat (raw_line "bomgarQ" si.bomgar_q)
    ∷ concat (if si.is_cr then qmon_date_cr_lines si else qmon_date_customer_lines si)
    ∷ cdata_line "severity" si.severity
    ∷ cdata_line "status" si.status
    ∷ cdata_line "bdesc" si.brief_desc
    ∷ when (is_given si.detailed_desc) (cdata_line "ddesc" si.detailed_desc)
    ∷ cdata_line "geo" si.geo
    ∷ cdata_line "hours" si.hours
    ∷ cdata_line "source" si.source
    ∷ cdata_line "support_program" si.support_program
    ∷ cdata_line "support_program_long" si.support_program_long
    ∷ cdata_line "routing_product" si.routing_product
    ∷ cdata_line "support_group_routing" si.support_group_routing
    ∷ cdata_line "int_type" si.int_type
    ∷ cdata_line "subtype" si.subtype
    ∷ cdata_line "service_level" si.service_level
    ∷ cdata_line "category" si.category
    ∷ when (not (is_empty si.respond_via)) (cdata_line "respond_via" si.respond_via)
    ∷ raw_line "created" si.created
    ∷ raw_line "lastupdate" si.last_update
    ∷ raw_line "queuedate" si.inqueue
    ∷ when sla_ahead (raw_line "sla" si.sla)
    ∷ when si.high_value (raw_line "highvalue" (lit "1"))
    ∷ when si.critsit (raw_line "critsit" (lit "1"))
    ∷ []

-- "  <sr>\n" … "  </sr>\n"
unfoldable pub sr_element : List Text → Text
sr_element lines = lit "  <sr>\n" ++ (concat lines ++ lit "  </sr>\n")

-- "<qmon>\n" … "</qmon>\n"
unfoldable pub qmon_element : List Text → Text
qmon_element srs = lit "<qmon>\n" ++ (concat srs ++ lit "</qmon>\n")

module _ {D : Type 0} (times : DateTimes D) (now : D) where
  -- secsTo with an invalid date is 0.
  since : Option D → ℤ
  since none = pos 0
  since (some d) = times.secs_to d now

  until : Option D → ℤ
  until none = pos 0
  until (some d) = times.secs_to now d

  stored_date : Text → Option D
  stored_date t = times.from_string t (lit "yyyy-MM-dd hh:mm:ss")

  -- `timezone` is Settings::timezoneCorrection(), in hours
  unfoldable pub ages_of : ℤ → SiebelItem → Ages
  unfolding since until stored_date
  ages_of timezone si = record {
    age = since (stored_date si.created) -ℤ timezone *ℤ pos 3600;
    lu = since (stored_date si.last_update) -ℤ timezone *ℤ pos 3600;
    qt = since (stored_date si.inqueue);
    sla = until (stored_date si.sla);
  }

  unfoldable pub qmon : ℤ → List SiebelItem → Text
  qmon timezone list =
      qmon_element (map (λ si. sr_element (qmon_lines (ages_of timezone si) si)) list)

  unfoldable pub qmon_date : List SiebelItem → Text
  unfolding until stored_date
  qmon_date list = qmon_element (
      map (λ si. sr_element (qmon_date_lines (ltb_ℤ (pos 0) (until (stored_date si.sla))) si)) list)
