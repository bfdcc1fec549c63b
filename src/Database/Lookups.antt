-- ===== src/Database/Lookups.antt =====
-- The lookups that keep what they found in a local table: the SR behind a collaboration request
-- (CRSR) and the title of a bug (BUG). Also the plain lookups on the remote side.
use kueued.Prelude.{
  Text, lit, List, [], ◌∷◌, Bool, ◌&&◌, Option, none, some, value, length, nat_eq, if◌then◌else◌,
  ◌>>=◌,
}
use kueued.QString.Trim.{trimmed, all_digits}
use kueued.Sql.{Env, Mysql}
use kueued.Sql.Rows.{CrsrRow, BugRow}

-- list.at( i ), which faults past the end
unfoldable pub at_0 : List Text → Option Text
at_0 [] = none
at_0 (a ∷ l) = some a

unfoldable pub at_3 : List Text → Option Text
at_3 (a ∷ b ∷ c ∷ d ∷ l) = some d
at_3 l = none

-- list.at( 0 ), list.at( 1 ) and list.at( 2 )
unfoldable pub first_three : List Text → Option (Text × Text × Text)
first_three (a ∷ b ∷ c ∷ l) = some (a, b, c)
first_three l = none

-- if ( !nfo.isEmpty() ) { nfo.at( 0 ), nfo.at( 1 ), nfo.at( 2 ) }, on fields that were empty
unfoldable pub related_or_blank : List Text → Option (Text × Text × Text)
unfolding first_three
related_or_blank [] = some ([], [], [])
related_or_blank (a ∷ l) = first_three (a ∷ l)

abbrev pub text_or : Text → Option Text → Text
text_or other none = other
text_or other (some t) = t

-- the columns that getSrForCrMysql appends
unfoldable pub cached_columns : Option CrsrRow → List Text
cached_columns none = []
cached_columns (some r) = r.sr ∷ r.cust ∷ r.bdesc ∷ []

title_columns : Option (List Text) → List Text
title_columns none = []
title_columns (some row) = value 0 row ∷ value 1 row ∷ value 2 row ∷ value 3 row ∷ []

-- the regular expression ^[0-9]{6}$
unfoldable pub is_bug_id : Text → Bool
unfolding trimmed all_digits
is_bug_id bug = nat_eq (length (trimmed bug)) 6 && all_digits (trimmed bug)

module _ {D : Type 0} {S : Type 0 → Type 0} (env : Env D S) where
  -- srInfo
  unfoldable pub sr_info : Text → List Text
  unfolding title_columns
  sr_info sr = title_columns (env.remote.sr_title sr)

  unfoldable pub get_sr_for_cr_mysql : Text → Mysql S → List Text
  unfolding cached_columns
  get_sr_for_cr_mysql cr db = cached_columns (env.tables.crsr.select cr db.crsr)

  -- getSrForCrReport behind its query, whose answer is the second argument
  related_found : Text → Option Text → Mysql S → Option (List Text × Mysql S)
  unfolding at_0 at_3 sr_info
  related_found cr none db = some ([], db)
  related_found cr (some sr) db = do
    desc ← at_0 (sr_info sr)
    cust ← at_3 (sr_info sr)
    some (
      sr ∷ cust ∷ desc ∷ [],
      record db {
        crsr =
            env.tables.crsr.insert (record { cr = cr; sr = sr; cust = cust; bdesc = desc }) db.crsr;
      },
    )

  unfoldable pub get_sr_for_cr_report : Text → Mysql S → Option (List Text × Mysql S)
  unfolding related_found
  get_sr_for_cr_report cr db = related_found cr (env.remote.related_sr cr) db

  -- if ( sr.isEmpty() ) sr = getSrForCrReport( … )
  unfoldable pub report_if_empty : Text → List Text → Mysql S → Option (List Text × Mysql S)
  report_if_empty cr [] db = get_sr_for_cr_report cr db
  report_if_empty cr (a ∷ l) db = some (a ∷ l, db)

  unfoldable pub get_sr_for_cr : Text → Mysql S → Option (List Text × Mysql S)
  unfolding report_if_empty get_sr_for_cr_mysql
  get_sr_for_cr cr db = report_if_empty cr (get_sr_for_cr_mysql cr db) db

  -- getBugDesc behind its query on BUG
  bug_found : Text → Option BugRow → Mysql S → Text × Mysql S
  bug_found bug (some r) db = (r.title, db)
  bug_found bug none db = (
    trimmed (env.remote.bug_page_title bug),
    record db {
      bug =
          env.tables.bug.insert
            (record { id = bug; title = trimmed (env.remote.bug_page_title bug) }) db.bug;
    },
  )

  unfoldable pub get_bug_desc : Text → Mysql S → Text × Mysql S
  unfolding bug_found
  get_bug_desc bug db =
      if is_bug_id (trimmed bug)
      then bug_found (trimmed bug) (env.tables.bug.select (trimmed bug) db.bug) db
      else ([], db)

  unfoldable pub get_det_desc : Text → Text
  get_det_desc sr = text_or (lit "ERROR") (env.remote.desc_text sr)

  unfoldable pub get_sr_status : Text → Text
  get_sr_status sr = text_or (lit "NOT FOUND") (env.remote.sr_stat sr)

  -- the loop of updatePseudoQueues; a name that is there already is refused by the table
  unfoldable pub insert_pseudo_queues : List (List Text) → Mysql S → Mysql S
  insert_pseudo_queues [] db = db
  insert_pseudo_queues (row ∷ rows) db = insert_pseudo_queues rows (record db {
    pseudo = env.tables.pseudo.insert (record { queuename = value 0 row }) db.pseudo;
  })

  unfoldable pub update_pseudo_queues : Mysql S → Mysql S
  unfolding insert_pseudo_queues
  update_pseudo_queues db = insert_pseudo_queues env.remote.pseudo_queues db
