-- ===== src/Thread/Replies/Documents.antt =====
-- /updateDB and then /qmon: the document that the clients read.
use kueued.Prelude.{Text, lit, ◌++◌, map, contains, value, some, ◌≡◌}
use kueued.Sql.{Env, Mysql}
use kueued.Database.Cache.{AreTitled}
use kueued.Database.Queue.{get_srs_for_queue}
use kueued.Update.Served.{update_db_served}
use kueued.Update.Fits.{TablesFit, RemoteFits}
use kueued.Update.Fits.Kept.{update_db-TablesFit}
use kueued.Update.Fits.Listed.{get_srs_for_queue-AllFit}
use kueued.Xml.Scan.{IsBalanced}
use kueued.Xml.QmonBalanced.{qmon-IsBalanced}
use kueued.Thread.Arguments.{is_full}
use kueued.Thread.Out.{Host, xml, head_lines}
use kueued.Thread.Replies.{update_lines, serve}
use kueued.Thread.Replies.Wire.{fresh, qmon_document, serve-update_db, serve-qmon}

module _ {D : Type 0} {S : Type 0 → Type 0} (env : Env D S) (host : Host D) where
  -- The document of /qmon closes every element that it opens, if the rows of the tables fit.
  qmon_document-IsBalanced :
      (db : Mysql S) → TablesFit env db → IsBalanced (qmon_document env host db)
  unfolding qmon_document
  qmon_document-IsBalanced db fits =
      qmon-IsBalanced env.times host.now host.timezone _
        (get_srs_for_queue-AllFit env host.junk db fits (lit "NONE"))

  -- If each related request has a title, what the remote side hands out fits in a document and so do
  -- the rows of the local tables, then a GET of any path of /updateDB is answered, the rows fit
  -- afterwards too, and a GET of /qmon right after it is answered with the lines of the head and a
  -- document that closes every element that it opens, of a list that has exactly the SR numbers of
  -- the remote list.
  pub qmon_after_update_db :
      (rest : Text) (db : Mysql S)
      → AreTitled env
      → RemoteFits env
      → TablesFit env db
      → (sent : Text) × (db' : Mysql S) × (serve env host (lit "/updateDB" ++ rest) db
          ≡ some (sent, db'))
        × TablesFit env db'
        × (serve env host (lit "/qmon") db'
            ≡ some (head_lines host.hostname ++ (xml ++ qmon_document env host db'), db'))
        × IsBalanced (qmon_document env host db')
        × ((j : Text)
            → contains j (map (λ si. si.id) (get_srs_for_queue env host.junk (lit "NONE") db'))
              ≡ contains j (map (value 0) env.remote.open_srs))
  qmon_after_update_db rest db titles remote fits =
      let full = is_full (lit "/updateDB" ++ rest) in
      let (db', runs, listed, escaped) =
        update_db_served env host.junk host.off host.clock full db titles in
      let fits' =
        update_db-TablesFit env remote host.junk host.off host.clock full db db' runs fits in
      (
        (update_lines env host full (fresh env host)).sent,
        db',
        serve-update_db env host rest db db' runs,
        fits',
        serve-qmon env host db',
        qmon_document-IsBalanced db' fits',
        listed,
      )
