-- ===== src/Items.antt =====
-- The classes of database.h: what the queries of database.cpp fill and what xml.cpp prints. A bool
-- or an int that no constructor initialises starts as an argument of the blank items below.
use kueued.Prelude.{Text, Bool, ℤ, []}

pub record SiebelItem : Type 0 where
  pub id : Text
  pub queue : Text
  pub geo : Text
  pub hours : Text
  pub status : Text
  pub severity : Text
  pub source : Text
  pub respond_via : Text
  pub created : Text
  pub last_update : Text
  pub inqueue : Text
  pub sla : Text
  pub support_program : Text
  pub support_program_long : Text
  pub routing_product : Text
  pub support_group_routing : Text
  pub int_type : Text
  pub subtype : Text
  pub service_level : Text
  pub brief_desc : Text
  pub customer : Text
  pub contact_phone : Text
  pub contact_firstname : Text
  pub contact_lastname : Text
  pub contact_email : Text
  pub contact_title : Text
  pub contact_lang : Text
  pub onsite_phone : Text
  pub detailed_desc : Text
  pub category : Text
  pub row_idetailed_desc : Text
  pub row_id : Text
  pub creator : Text
  pub bomgar_q : Text
  pub alt_contact : Text
  pub bug_id : Text
  pub cst_num : Text
  pub crsr : Text
  pub crsrcust : Text
  pub crsrdesc : Text
  pub subowner : Text
  pub is_cr : Bool
  pub is_chat : Bool
  pub critsit : Bool
  pub high_value : Bool

pub record QueueItem : Type 0 where
  pub id : Text
  pub status : Text
  pub geo : Text
  pub hours : Text
  pub severity : Text
  pub created : Text
  pub last_update : Text
  pub support_program : Text
  pub subtype : Text
  pub service_level : ℤ
  pub brief_desc : Text
  pub detailed_desc : Text
  pub customer : Text
  pub contact_phone : Text
  pub contact_firstname : Text
  pub contact_lastname : Text
  pub contact_email : Text
  pub contact_title : Text
  pub contact_lang : Text
  pub onsite_phone : Text
  pub creator : Text
  pub format_string : Text
  pub alt_contact : Text
  pub bug_id : Text
  pub bug_desc : Text
  pub cst_num : Text
  pub owner : Text
  pub sub_owner : Text
  pub crsr : Text
  pub crsrcust : Text
  pub crsrdesc : Text
  pub is_cr : Bool
  pub critsit : Bool
  pub high_value : Bool

pub record BomgarItem : Type 0 where
  pub id : Text
  pub sr : Text
  pub name : Text
  pub date : Text

pub record LtssCustomer : Type 0 where
  pub entitlement_name : Text
  pub agreement_nr : Text
  pub entitlement_id : Text
  pub entitlement_end_date : Text
  pub agreement_status : Text
  pub account_name : Text
  pub entitlement_start_date : Text
  pub support_program : Text
  pub geo : Text
  pub oracle_customer_nr : Text

-- `SiebelItem si;`: the texts are empty, the flags hold whatever the memory held.
unfoldable pub blank_siebel_item : Bool → SiebelItem
blank_siebel_item junk = record {
  id = [];
  queue = [];
  geo = [];
  hours = [];
  status = [];
  severity = [];
  source = [];
  respond_via = [];
  created = [];
  last_update = [];
  inqueue = [];
  sla = [];
  support_program = [];
  support_program_long = [];
  routing_product = [];
  support_group_routing = [];
  int_type = [];
  subtype = [];
  service_level = [];
  brief_desc = [];
  customer = [];
  contact_phone = [];
  contact_firstname = [];
  contact_lastname = [];
  contact_email = [];
  contact_title = [];
  contact_lang = [];
  onsite_phone = [];
  detailed_desc = [];
  category = [];
  row_idetailed_desc = [];
  row_id = [];
  creator = [];
  bomgar_q = [];
  alt_contact = [];
  bug_id = [];
  cst_num = [];
  crsr = [];
  crsrcust = [];
  crsrdesc = [];
  subowner = [];
  is_cr = junk;
  is_chat = junk;
  critsit = junk;
  high_value = junk;
}

-- `QueueItem i;`, likewise.
unfoldable pub blank_queue_item : Bool → ℤ → QueueItem
blank_queue_item junk level = record {
  id = [];
  status = [];
  geo = [];
  hours = [];
  severity = [];
  created = [];
  last_update = [];
  support_program = [];
  subtype = [];
  service_level = level;
  brief_desc = [];
  detailed_desc = [];
  customer = [];
  contact_phone = [];
  contact_firstname = [];
  contact_lastname = [];
  contact_email = [];
  contact_title = [];
  contact_lang = [];
  onsite_phone = [];
  creator = [];
  format_string = [];
  alt_contact = [];
  bug_id = [];
  bug_desc = [];
  cst_num = [];
  owner = [];
  sub_owner = [];
  crsr = [];
  crsrcust = [];
  crsrdesc = [];
  is_cr = junk;
  critsit = junk;
  high_value = junk;
}
