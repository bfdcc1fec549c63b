-- ===== src/Database/Engineer.antt =====
-- getUserQueue and getSrInfo: requests of one engineer, and one request, from the remote database.
-- `junk` and `level` are what the uninitialised members of a new item hold.
pub mod Facts
pub mod Frame
use kueued.Prelude.{
  Text, lit, ◌==◌, is_empty, ℕ, ℤ, List, [], ◌∷◌, Bool, true, false, not, ◌&&◌, Option, none, some,
  value, if◌then◌else◌, ◌>>=◌,
}
use kueued.Items.{QueueItem, blank_queue_item}
use kueued.Sql.{Env, Mysql}
use kueued.QString.Cdata.{escape_cdata}
use kueued.Database.Time.{convert_time}
use kueued.Database.Siebel.{get_creator}
use kueued.Database.Lookups.{first_three, get_sr_for_cr, get_bug_desc, is_bug_id}
use kueued.Database.Qmon.{is_yes, phone_or_plain}
use kueued.Database.Escape.{escape_string}

-- the members that the branch of a service request fills
with_contact : ℕ → List Text → QueueItem → QueueItem
unfolding phone_or_plain
with_contact off row i = record i {
  is_cr = false;
  customer = value 14 row;
  contact_phone = phone_or_plain off (value 15 row) (value 16 row);
  contact_firstname = value 17 row;
  contact_lastname = value 18 row;
  contact_email = value 19 row;
  contact_title = value 20 row;
  contact_lang = value 21 row;
  onsite_phone = phone_or_plain off (value 22 row) (value 23 row);
}

module _ {D : Type 0} {S : Type 0 → Type 0} (env : Env D S) (junk : Bool) (level : ℤ)
    (off : ℕ) where
  -- the members that both methods copy whatever the subtype is
  unfoldable pub common_item : List Text → QueueItem
  unfolding blank_queue_item
  common_item row = record (blank_queue_item junk level) {
    id = value 0 row;
    geo = value 1 row;
    hours = value 2 row;
    status = value 3 row;
    severity = value 4 row;
    created = convert_time env.times (value 5 row);
    last_update = convert_time env.times (value 7 row);
    support_program = value 8 row;
    subtype = value 9 row;
    service_level = env.to_int (value 10 row);
    brief_desc = escape_cdata (value 11 row);
    high_value = is_yes (value 13 row);
    alt_contact = value 25 row;
    cst_num = value 27 row;
  }

  -- getUserQueue: the branch of a collaboration request, whose list is read with no test
  engineer_cr : List Text → List Text × Mysql S → Option (QueueItem × Mysql S)
  engineer_cr row (srcrinfo, db) = do
    (sr, cust, desc) ← first_three srcrinfo
    some (
      record (common_item row) {
        is_cr = true;
        creator = get_creator env (value 0 row);
        crsr = sr;
        crsrcust = cust;
        crsrdesc = desc;
      },
      db,
    )

  engineer_branch : List Text → Mysql S → Option (QueueItem × Mysql S)
  unfolding engineer_cr with_contact
  engineer_branch row db =
      if value 9 row == lit "Collaboration"
      then (get_sr_for_cr env (value 0 row) db >>= engineer_cr row)
      else some (with_contact off row (common_item row), db)

  -- behind the branches, but for the bug's title
  engineer_rest : List Text → QueueItem → QueueItem
  engineer_rest row i = record i {
    critsit = is_yes (value 12 row) && not i.is_cr;
    detailed_desc = escape_cdata (value 24 row);
    bug_id = value 26 row;
    owner = value 28 row;
    sub_owner = value 29 row;
  }

  -- if ( !i.bugId.isEmpty() ) i.bugDesc = getBugDesc( … )
  with_bug : QueueItem → Mysql S → QueueItem × Mysql S
  with_bug i db = if is_empty i.bug_id then (i, db) else (
    record i { bug_desc = (get_bug_desc env i.bug_id db).0 },
    (get_bug_desc env i.bug_id db).1,
  )

  -- one round of the loop of getUserQueue
  unfoldable pub engineer_item : List Text → Mysql S → Option (QueueItem × Mysql S)
  unfolding engineer_branch engineer_rest with_bug
  engineer_item row db = do
    (i, db1) ← engineer_branch row db
    some (with_bug (engineer_rest row i) db1)

  engineer_items : List (List Text) → Mysql S → Option (List QueueItem × Mysql S)
  unfolding engineer_item
  engineer_items [] db = some ([], db)
  engineer_items (row ∷ rows) db = do
    (i, db1) ← engineer_item row db
    (items, db2) ← engineer_items rows db1
    some (i ∷ items, db2)

  unfoldable pub get_user_queue : Bool → Text → Mysql S → Option (List QueueItem × Mysql S)
  unfolding engineer_items
  get_user_queue subowner engineer db = engineer_items (env.remote.user_queue subowner engineer) db

  -- getSrInfo: the branches
  info_branch : List Text → QueueItem
  unfolding with_contact
  info_branch row =
      if value 9 row == lit "Collaboration"
      then record (common_item row) { is_cr = true; creator = get_creator env (value 0 row) }
      else with_contact off row (common_item row)

  -- behind the branches; `none`: the loop of escapeString ran out of fuel
  info_rest : List Text → Option QueueItem
  unfolding info_branch
  info_rest row = do
    detailed ← escape_string (escape_cdata (value 24 row))
    some (record (info_branch row) {
      critsit = is_yes (value 12 row);
      detailed_desc = detailed;
      bug_id = if is_bug_id (value 26 row) then value 26 row else [];
    })

  -- if ( !i.bugId.isEmpty() && isBugID( i.bugId ) ) i.bugDesc = getBugDesc( … )
  info_bug : QueueItem → Mysql S → QueueItem × Mysql S
  info_bug i db =
      if not (is_empty i.bug_id) && is_bug_id i.bug_id
      then (
        record i { bug_desc = (get_bug_desc env i.bug_id db).0 },
        (get_bug_desc env i.bug_id db).1,
      )
      else (i, db)

  info_found : Option (List Text) → Mysql S → Option (QueueItem × Mysql S)
  unfolding info_rest info_bug
  info_found none db = some (blank_queue_item junk level, db)
  info_found (some row) db = do i ← info_rest row; some (info_bug i db)

  unfoldable pub get_sr_info : Text → Mysql S → Option (QueueItem × Mysql S)
  unfolding info_found
  get_sr_info sr db = info_found (env.remote.sr_details sr) db
