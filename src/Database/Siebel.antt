-- ===== src/Database/Siebel.antt =====
-- The statements on QMON_SIEBEL and CUSTOMER: insert, update, delete and the tests that the update
-- of the SR list makes. `now` is QDateTime::currentDateTime() when the statement binds it.
use mathlib.Core.Option
use kueued.Prelude.{
  Text, lit, [], ◌==◌, List, map, Option, none, some, Bool, true, false, is_some, if◌then◌else◌,
}
use kueued.Items.{SiebelItem}
use kueued.Sql.{Env, Mysql}
use kueued.Sql.Rows.{SrRow, CustomerRow}
use kueued.Database.Time.{convert_time}

-- getCreator
unfoldable pub login_or_error : Option Text → Text
login_or_error (some login) = login
login_or_error none = lit "ERROR"

-- siebelQueueChanged and siebelSeverityChanged: the stored text against the new one
unfoldable pub changed : Option Text → Text → Bool
changed (some old) new = if old == new then false else true
changed none new = true

module _ {D : Type 0} {S : Type 0 → Type 0} (env : Env D S) where
  unfoldable pub get_creator : Text → Text
  unfolding login_or_error
  get_creator sr = login_or_error (env.remote.creator_login sr)

  -- the row of the INSERT INTO QMON_SIEBEL
  unfoldable pub inserted_row : Text → SiebelItem → SrRow
  inserted_row now item = record {
    id = item.id;
    queue = item.queue;
    geo = item.geo;
    hours = item.hours;
    status = item.status;
    severity = item.severity;
    source = item.source;
    respond_via = item.respond_via;
    created = convert_time env.times item.created;
    last_update = convert_time env.times item.last_update;
    inqueue = now;
    sla = convert_time env.times item.sla;
    support_program = item.support_program;
    support_program_long = item.support_program_long;
    routing_product = item.routing_product;
    support_group_routing = item.support_group_routing;
    int_type = item.int_type;
    subtype = item.subtype;
    service_level = item.service_level;
    brief_desc = item.brief_desc;
    critsit = item.critsit;
    high_value = item.high_value;
    detailed_desc = item.detailed_desc;
    category = item.category;
    creator = item.creator;
    row_id = item.row_id;
    subowner = item.subowner;
  }

  -- the row of the INSERT INTO CUSTOMER
  unfoldable pub customer_row : SiebelItem → CustomerRow
  customer_row item = record {
    id = item.id;
    customer = item.customer;
    contact_phone = item.contact_phone;
    contact_firstname = item.contact_firstname;
    contact_lastname = item.contact_lastname;
    contact_email = item.contact_email;
    contact_title = item.contact_title;
    contact_lang = item.contact_lang;
    onsite_phone = item.onsite_phone;
    oracle_id = item.cst_num;
  }

  unfoldable pub insert_siebel_item_into_db : Text → SiebelItem → Mysql S → Mysql S
  insert_siebel_item_into_db now item db = record db {
    siebel = env.tables.siebel.insert (inserted_row now item) db.siebel;
    customer = env.tables.customer.insert (customer_row item) db.customer;
  }

  -- :creator is bound for a collaboration request only; a placeholder with no value is NULL, which
  -- reads back as the empty text.
  unfoldable pub bound_creator : SiebelItem → Text
  bound_creator item = if item.subtype == lit "Collaboration" then get_creator item.id else []

  -- the SET list of the UPDATE QMON_SIEBEL: all columns but ID, QUEUE and INQUEUE
  unfoldable pub refreshed_row : SiebelItem → SrRow → SrRow
  refreshed_row item r = record r {
    geo = item.geo;
    hours = item.hours;
    status = item.status;
    severity = item.severity;
    source = item.source;
    respond_via = item.respond_via;
    created = convert_time env.times item.created;
    last_update = convert_time env.times item.last_update;
    sla = convert_time env.times item.sla;
    support_program = item.support_program;
    support_program_long = item.support_program_long;
    routing_product = item.routing_product;
    support_group_routing = item.support_group_routing;
    int_type = item.int_type;
    subtype = item.subtype;
    service_level = item.service_level;
    brief_desc = item.brief_desc;
    critsit = item.critsit;
    high_value = item.high_value;
    detailed_desc = item.detailed_desc;
    category = item.category;
    creator = bound_creator item;
    row_id = item.row_id;
    subowner = item.subowner;
  }

  -- the SET list of the UPDATE CUSTOMER
  unfoldable pub refreshed_customer : SiebelItem → CustomerRow → CustomerRow
  refreshed_customer item r = record r {
    customer = item.customer;
    contact_phone = item.contact_phone;
    contact_firstname = item.contact_firstname;
    contact_lastname = item.contact_lastname;
    contact_email = item.contact_email;
    contact_title = item.contact_title;
    contact_lang = item.contact_lang;
    onsite_phone = item.onsite_phone;
    oracle_id = item.cst_num;
  }

  unfoldable pub update_siebel_item : SiebelItem → Mysql S → Mysql S
  update_siebel_item item db = record db {
    siebel = env.tables.siebel.update item.id (refreshed_row item) db.siebel;
    customer = env.tables.customer.update item.id (refreshed_customer item) db.customer;
  }

  -- the SET list of updateSiebelQueue
  unfoldable pub requeued_row : Text → SiebelItem → SrRow → SrRow
  requeued_row now si r = record r { queue = si.queue; inqueue = now }

  unfoldable pub update_siebel_queue : Text → SiebelItem → Mysql S → Mysql S
  update_siebel_queue now si db = record db {
    siebel = env.tables.siebel.update si.id (requeued_row now si) db.siebel;
  }

  unfoldable pub delete_siebel_item_from_db : Text → Mysql S → Mysql S
  delete_siebel_item_from_db id db = record db {
    siebel = env.tables.siebel.delete id db.siebel;
    customer = env.tables.customer.delete id db.customer;
  }

  unfoldable pub get_qmon_siebel_list : Mysql S → List Text
  get_qmon_siebel_list db = map (λ r. r.id) (env.tables.siebel.rows db.siebel)

  unfoldable pub siebel_exists_in_db : Text → Mysql S → Bool
  siebel_exists_in_db id db = is_some (env.tables.siebel.select id db.siebel)

  unfoldable pub siebel_queue_changed : SiebelItem → Mysql S → Bool
  unfolding changed
  siebel_queue_changed si db =
      changed (Option.map (λ r. r.queue) (env.tables.siebel.select si.id db.siebel)) si.queue

  unfoldable pub siebel_severity_changed : SiebelItem → Mysql S → Bool
  unfolding changed
  siebel_severity_changed si db =
      changed (Option.map (λ r. r.severity) (env.tables.siebel.select si.id db.siebel)) si.severity
