-- ===== src/Database/Qmon.antt =====
-- getQmonSrs: the open requests of the pseudo queues, from the remote database. `junk` is what the
-- uninitialised flags of a new item hold.
pub mod Frame
use kueued.Prelude.{
  Text, lit, ◌==◌, is_empty, List, [], ◌∷◌, Bool, true, false, not, ◌&&◌, Option, some, value, ℕ,
  if◌then◌else◌, ◌>>=◌,
}
use kueued.Items.{SiebelItem, blank_siebel_item}
use kueued.Sql.{Env, Mysql}
use kueued.Database.Siebel.{get_creator}
use kueued.Database.Lookups.{related_or_blank, get_sr_for_cr}
use kueued.Database.Phone.{format_phone}

-- query.value( i ).toString() == "Y"
abbrev pub is_yes : Text → Bool
is_yes t = if t == lit "Y" then true else false

-- if ( p != f && !f.isEmpty() ) formatPhone( p, f ) else p
unfoldable pub phone_or_plain : ℕ → Text → Text → Text
phone_or_plain off p f = if not (p == f) && not (is_empty f) then format_phone off p f else p

module _ {D : Type 0} {S : Type 0 → Type 0} (env : Env D S) (junk : Bool) (off : ℕ) where
  -- the columns that are copied whatever the subtype is
  unfoldable pub plain_item : List Text → SiebelItem
  plain_item row = record (blank_siebel_item junk) {
    id = value 0 row;
    queue = value 1 row;
    geo = value 2 row;
    hours = value 3 row;
    status = value 4 row;
    severity = value 5 row;
    source = value 6 row;
    respond_via = value 7 row;
    created = value 8 row;
    last_update = value 9 row;
    sla = value 10 row;
    support_program = value 11 row;
    support_program_long = value 12 row;
    routing_product = value 13 row;
    support_group_routing = value 14 row;
    int_type = value 15 row;
    subtype = value 16 row;
    service_level = value 17 row;
    brief_desc = value 18 row;
    critsit = is_yes (value 19 row);
    high_value = is_yes (value 20 row);
    customer = value 21 row;
    contact_phone = phone_or_plain off (value 22 row) (value 23 row);
    contact_firstname = value 24 row;
    contact_lastname = value 25 row;
    contact_email = value 26 row;
    contact_title = value 27 row;
    contact_lang = value 28 row;
    onsite_phone = phone_or_plain off (value 29 row) (value 30 row);
    detailed_desc = value 31 row;
    category = value 32 row;
    row_id = value 33 row;
    alt_contact = value 34 row;
    bug_id = value 35 row;
    cst_num = value 36 row;
    subowner = value 37 row;
  }

  -- the item of a collaboration request, with the three texts of the related request
  unfoldable pub related_item : List Text → Text × Text × Text → SiebelItem
  related_item row (sr, cust, desc) = record (plain_item row) {
    is_cr = true;
    creator = get_creator env (value 0 row);
    crsr = sr;
    crsrcust = cust;
    crsrdesc = desc;
  }

  -- the item of a service request
  unfoldable pub own_item : List Text → SiebelItem
  own_item row = record (plain_item row) { is_cr = false }

  -- the branch of a collaboration request
  unfoldable pub cr_item : List Text → List Text × Mysql S → Option (SiebelItem × Mysql S)
  cr_item row (nfo, db) = do t ← related_or_blank nfo; some (related_item row t, db)

  -- one round of the loop over the result
  unfoldable pub qmon_item : List Text → Mysql S → Option (SiebelItem × Mysql S)
  unfolding cr_item related_item own_item plain_item blank_siebel_item
  qmon_item row db =
      if value 16 row == lit "Collaboration"
      then (get_sr_for_cr env (value 0 row) db >>= cr_item row)
      else some (own_item row, db)

  unfoldable pub qmon_items : List (List Text) → Mysql S → Option (List SiebelItem × Mysql S)
  unfolding qmon_item
  qmon_items [] db = some ([], db)
  qmon_items (row ∷ rows) db = do
    (item, db1) ← qmon_item row db
    (items, db2) ← qmon_items rows db1
    some (item ∷ items, db2)

  unfoldable pub get_qmon_srs : Mysql S → Option (List SiebelItem × Mysql S)
  unfolding qmon_items
  get_qmon_srs db = qmon_items env.remote.open_srs db
