-- ===== src/Database/Queue/Facts.antt =====
-- What getSrsForQueue hands out: the numbers of the table, and descriptions fit for a document.
use kueued.Prelude.{Text, lit, eq_refl, List, [], ◌∷◌, map, contains, Bool, true, ◌≡◌, refl, arith}
use kueued.Items.{SiebelItem}
use kueued.Sql.{Env, Mysql}
use kueued.Sql.Rows.{SrRow}
use kueued.Sql.Laws.{contains-by_created}
use kueued.QString.Cdata.{is_open, escape_cdata, is_open-escape_cdata}
use kueued.Database.Siebel.{get_qmon_siebel_list}
use kueued.Database.Queue.{queue_item, get_srs_for_queue}

-- Both descriptions can stand in a CDATA section.
abbrev pub AreEscaped : List SiebelItem → Type 0
AreEscaped [] = Unit
AreEscaped (si ∷ list) =
    ((is_open 0 si.brief_desc ≡ true) × (is_open 0 si.detailed_desc ≡ true)) × AreEscaped list

module _ {D : Type 0} {S : Type 0 → Type 0} (env : Env D S) (junk : Bool) where
  id-queue_item : (db : Mysql S) (r : SrRow) → (queue_item env junk db r).id ≡ r.id
  unfolding queue_item
  id-queue_item db r = ground arith

  brief-queue_item :
      (db : Mysql S) (r : SrRow) → (queue_item env junk db r).brief_desc ≡ escape_cdata r.brief_desc
  unfolding queue_item
  brief-queue_item db r = ground arith

  detailed-queue_item :
      (db : Mysql S) (r : SrRow)
      → (queue_item env junk db r).detailed_desc ≡ escape_cdata r.detailed_desc
  unfolding queue_item
  detailed-queue_item db r = ground arith

  ids-queue_item :
      (db : Mysql S) (rows : List SrRow)
      → map (λ si. si.id) (map (queue_item env junk db) rows) ≡ map (λ r. r.id) rows
  ids-queue_item db [] = refl
  ids-queue_item db (r ∷ rows) = ground (arith, id-queue_item db r, ids-queue_item db rows)

  -- The whole list, which is what the clients get under the name NONE, has exactly the numbers of
  -- QMON_SIEBEL.
  pub contains-get_srs_for_queue :
      (j : Text) (db : Mysql S)
      → contains j (map (λ si. si.id) (get_srs_for_queue env junk (lit "NONE") db))
        ≡ contains j (get_qmon_siebel_list env db)
  unfolding get_srs_for_queue get_qmon_siebel_list
  contains-get_srs_for_queue j db =
      rw
        (
          eq_refl (lit "NONE"),
          ids-queue_item db (env.tables.by_created (env.tables.siebel.rows db.siebel)),
        )
        (contains-by_created env.tables j (env.tables.siebel.rows db.siebel))

  items-AreEscaped :
      (db : Mysql S) (rows : List SrRow) → AreEscaped (map (queue_item env junk db) rows)
  items-AreEscaped db [] = tt
  items-AreEscaped db (r ∷ rows) = (
    (
      ground (arith, brief-queue_item db r, is_open-escape_cdata r.brief_desc),
      ground (arith, detailed-queue_item db r, is_open-escape_cdata r.detailed_desc),
    ),
    items-AreEscaped db rows,
  )

  -- Whatever the queue and the tables are, every request that getSrsForQueue returns has
  -- descriptions that fit in a CDATA section.
  pub get_srs_for_queue-AreEscaped :
      (queue : Text) (db : Mysql S) → AreEscaped (get_srs_for_queue env junk queue db)
  unfolding get_srs_for_queue
  get_srs_for_queue-AreEscaped queue db = items-AreEscaped db _
