-- ===== src/Database/Lists.antt =====
-- The lists of names and numbers: getSrnumsForQueue and getPseudoQueues.
use mathlib.Core.Path.{fun_ext}
use kueued.Prelude.{
  Text, eq_iff, All, Bool, false, Option, none, some, refl, List, [], ◌∷◌, map, contains, value,
  ◌&&◌, ◌||◌, is_some, if◌then◌else◌, ◌≡◌, ◌∙◌, arith,
}
use kueued.Sql.{Env, Mysql}
use kueued.Sql.Rows.{SrRow, PseudoRow}
use kueued.Database.Lookups.{update_pseudo_queues, insert_pseudo_queues}

-- WHERE ( GEO = :geo ) AND ( QUEUE = :queue )
in_geo_queue : (Text → Text → Bool) → Text → Text → List SrRow → List SrRow
in_geo_queue matches queue geo [] = []
in_geo_queue matches queue geo (r ∷ rows) =
    let rest = in_geo_queue matches queue geo rows in
    if matches r.geo geo && matches r.queue queue then r ∷ rest else rest

module _ {D : Type 0} {S : Type 0 → Type 0} (env : Env D S) where
  unfoldable pub get_srnums_for_queue : Text → Text → Mysql S → List Text
  unfolding in_geo_queue
  get_srnums_for_queue queue geo db =
      map (λ r. r.id) (in_geo_queue env.tables.matches queue geo (env.tables.siebel.rows db.siebel))

  -- The row is there, and waits in the queue and the geo.
  abbrev pub waits_in : Text → Text → Option SrRow → Bool
  waits_in queue geo none = false
  waits_in queue geo (some r) = env.tables.matches r.queue queue && env.tables.matches r.geo geo

  contains-in_geo_queue :
      (queue geo j : Text) (s : S SrRow) (rows : List SrRow)
      → All (λ r. env.tables.siebel.select (env.tables.siebel.key r) s ≡ some r) rows
      → contains j (map (λ r. r.id) (in_geo_queue env.tables.matches queue geo rows))
        ≡ contains j (map (λ r. r.id) rows) && waits_in queue geo (env.tables.siebel.select j s)
  unfolding in_geo_queue contains
  contains-in_geo_queue queue geo j s [] h = refl
  contains-in_geo_queue queue geo j s (r ∷ rows) h = ground (
    arith,
    contains-in_geo_queue queue geo j s rows h.1,
    h.0,
    env.tables.key-siebel r,
    eq_iff r.id j,
  )

  -- The numbers of the requests that wait in the queue and the geo.
  pub contains-get_srnums_for_queue :
      (queue geo j : Text) (db : Mysql S)
      → contains j (get_srnums_for_queue queue geo db)
        ≡ waits_in queue geo (env.tables.siebel.select j db.siebel)
  unfolding get_srnums_for_queue
  contains-get_srnums_for_queue queue geo j db =
      let t = env.tables.siebel in
      let named : contains j (map (λ r. r.id) (t.rows db.siebel)) ≡ is_some (t.select j db.siebel) =
        rw (← fun_ext env.tables.key-siebel) (t.contains-rows j db.siebel) in
      ground (
        arith,
        contains-in_geo_queue queue geo j db.siebel (t.rows db.siebel) (t.select-rows db.siebel),
        named,
      )

  unfoldable pub get_pseudo_queues : Mysql S → List Text
  get_pseudo_queues db =
      map (λ r. r.queuename) (env.tables.by_queuename (env.tables.pseudo.rows db.pseudo))

  contains-get_pseudo_queues :
      (j : Text) (db : Mysql S)
      → contains j (get_pseudo_queues db) ≡ is_some (env.tables.pseudo.select j db.pseudo)
  unfolding get_pseudo_queues
  contains-get_pseudo_queues j db =
      env.tables.contains-by_queuename j (env.tables.pseudo.rows db.pseudo)
      ∙ rw (← fun_ext env.tables.key-pseudo) (env.tables.pseudo.contains-rows j db.pseudo)

  pseudo-insert :
      (j : Text) (rows : List (List Text)) (db : Mysql S)
      → is_some (env.tables.pseudo.select j (insert_pseudo_queues env rows db).pseudo)
        ≡ is_some (env.tables.pseudo.select j db.pseudo) || contains j (map (value 0) rows)
  unfolding insert_pseudo_queues contains
  pseudo-insert j [] db = ground arith
  pseudo-insert j (row ∷ rows) db =
      let t = env.tables.pseudo in
      let r : PseudoRow = record { queuename = value 0 row } in
      ground (
        arith,
        pseudo-insert j rows (record db { pseudo = t.insert r db.pseudo }),
        t.select-insert r j db.pseudo,
        env.tables.key-pseudo r,
      )

  -- After an update the list of pseudo queues has the remote names and all that it had before, and
  -- no others.
  pub pseudo_queues-update :
      (j : Text) (db : Mysql S)
      → contains j (get_pseudo_queues (update_pseudo_queues env db))
        ≡ contains j (get_pseudo_queues db) || contains j (map (value 0) env.remote.pseudo_queues)
  unfolding update_pseudo_queues
  pseudo_queues-update j db = ground (
    arith,
    contains-get_pseudo_queues j db,
    contains-get_pseudo_queues j (insert_pseudo_queues env env.remote.pseudo_queues db),
    pseudo-insert j env.remote.pseudo_queues db,
  )
