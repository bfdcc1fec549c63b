-- ===== src/Database/Queue.antt =====
-- getSrsForQueue: the SR list as the clients see it, from the local tables.
pub mod Facts
use kueued.Prelude.{
  Text, lit, ◌==◌, List, [], ◌∷◌, map, Bool, true, false, Option, none, some, value, if◌then◌else◌,
}
use kueued.Items.{SiebelItem, blank_siebel_item}
use kueued.Sql.{Env, Mysql}
use kueued.Sql.Rows.{SrRow, CustomerRow}
use kueued.QString.Cdata.{escape_cdata}
use kueued.Database.Chat.{get_bomgar_queue}
use kueued.Database.Lookups.{get_sr_for_cr_mysql}

-- WHERE ( QUEUE = :queue )
unfoldable pub in_queue : (Text → Text → Bool) → Text → List SrRow → List SrRow
in_queue matches queue [] = []
in_queue matches queue (r ∷ rows) =
    let rest = in_queue matches queue rows in if matches r.queue queue then r ∷ rest else rest

-- the columns of QMON_SIEBEL
unfoldable pub listed_item : Bool → SrRow → SiebelItem
unfolding blank_siebel_item
listed_item junk r = record (blank_siebel_item junk) {
  id = r.id;
  queue = r.queue;
  geo = r.geo;
  hours = r.hours;
  status = r.status;
  severity = r.severity;
  source = r.source;
  respond_via = r.respond_via;
  created = r.created;
  last_update = r.last_update;
  inqueue = r.inqueue;
  sla = r.sla;
  support_program = r.support_program;
  support_program_long = r.support_program_long;
  routing_product = r.routing_product;
  support_group_routing = r.support_group_routing;
  int_type = r.int_type;
  subtype = r.subtype;
  service_level = r.service_level;
  brief_desc = escape_cdata r.brief_desc;
  critsit = r.critsit;
  high_value = r.high_value;
  detailed_desc = escape_cdata r.detailed_desc;
  category = r.category;
  row_id = r.row_id;
  subowner = r.subowner;
}

-- the chat that waits for the SR; "NOCHAT" is the name of none
unfoldable pub with_chat : Text → SiebelItem → SiebelItem
with_chat name si =
    if name == lit "NOCHAT"
    then record si { is_chat = false }
    else record si { is_chat = true; bomgar_q = name }

-- the branch of a collaboration request; an `nfo` that is not empty has three texts
unfoldable pub with_related : SrRow → List Text → SiebelItem → SiebelItem
with_related r nfo si = record si {
  is_cr = true;
  creator = r.creator;
  crsr = value 0 nfo;
  crsrcust = value 1 nfo;
  crsrdesc = value 2 nfo;
}

-- the branch of a service request, with the row of CUSTOMER
unfoldable pub with_customer : Option CustomerRow → SiebelItem → SiebelItem
with_customer none si = record si { is_cr = false }
with_customer (some c) si = record si {
  is_cr = false;
  customer = c.customer;
  contact_phone = c.contact_phone;
  contact_firstname = c.contact_firstname;
  contact_lastname = c.contact_lastname;
  contact_email = c.contact_email;
  contact_title = c.contact_title;
  contact_lang = c.contact_lang;
  onsite_phone = c.onsite_phone;
  cst_num = c.oracle_id;
}

module _ {D : Type 0} {S : Type 0 → Type 0} (env : Env D S) (junk : Bool) where
  -- one round of the loop over the result
  unfoldable pub queue_item : Mysql S → SrRow → SiebelItem
  unfolding with_chat with_related with_customer listed_item
  queue_item db r =
      let si = with_chat (get_bomgar_queue env r.id db) (listed_item junk r) in
      if r.subtype == lit "Collaboration"
      then with_related r (get_sr_for_cr_mysql env r.id db) si
      else with_customer (env.tables.customer.select r.id db.customer) si

  unfoldable pub get_srs_for_queue : Text → Mysql S → List SiebelItem
  unfolding in_queue
  get_srs_for_queue queue db = map (queue_item db) (
      env.tables.by_created (
        if queue == lit "NONE"
        then env.tables.siebel.rows db.siebel
        else in_queue env.tables.matches queue (env.tables.siebel.rows db.siebel)))
