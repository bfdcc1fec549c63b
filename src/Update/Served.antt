-- ===== src/Update/Served.antt =====
-- /updateDB and then /qmon or /qmon_date: the numbers of the list that the handlers print.
use kueued.Prelude.{Text, lit, ℕ, map, contains, value, Bool, some, ◌≡◌, ◌∙◌}
use kueued.Sql.{Env, Mysql}
use kueued.Database.Cache.{AreTitled}
use kueued.Database.Queue.{get_srs_for_queue}
use kueued.Database.Queue.Facts.{
  AreEscaped, contains-get_srs_for_queue, get_srs_for_queue-AreEscaped,
}
use kueued.Update.Request.{update_db, update_db_total}

module _ {D : Type 0} {S : Type 0 → Type 0} (env : Env D S) where
  -- If each related request has a title, /updateDB ends, and the list that is handed to XML::qmon
  -- next has exactly the SR numbers of the remote list, with descriptions that fit in a CDATA
  -- section.
  pub update_db_served :
      (junk : Bool) (off : ℕ) (clock : ℕ → Text) (full : Bool) (db : Mysql S)
      → AreTitled env
      → (db' : Mysql S) × (update_db env junk off clock full db ≡ some db')
        × ((j : Text)
            → contains j (map (λ si. si.id) (get_srs_for_queue env junk (lit "NONE") db'))
              ≡ contains j (map (value 0) env.remote.open_srs))
        × AreEscaped (get_srs_for_queue env junk (lit "NONE") db')
  update_db_served junk off clock full db titles =
      let (db', runs, listed, chats) = update_db_total env junk off clock full db titles in
      (
        db',
        runs,
        λ j. contains-get_srs_for_queue env junk j db' ∙ listed j,
        get_srs_for_queue-AreEscaped env junk (lit "NONE") db',
      )
