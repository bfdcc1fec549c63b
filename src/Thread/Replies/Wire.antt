-- ===== src/Thread/Replies/Wire.antt =====
-- /updateDB and then /qmon, by what is sent.
use mathlib.Core.List.{append_assoc}
use kueued.Prelude.{
  Text, lit, [], ◌∷◌, ◌++◌, map, contains, value, true, false, some, ◌>>=◌, ◌≡◌, refl, ap, ◌∙◌,
}
use kueued.Sql.{Env, Mysql}
use kueued.Database.Cache.{AreTitled}
use kueued.Database.Chat.{get_bomgar_queue}
use kueued.Database.Lookups.{get_sr_for_cr_mysql}
use kueued.Database.Queue.{queue_item, get_srs_for_queue}
use kueued.Database.Queue.Facts.{AreEscaped}
use kueued.Update.Request.{update_db}
use kueued.Update.Served.{update_db_served}
use kueued.Xml.Qmon
use kueued.Thread.Arguments.{is_full}
use kueued.Thread.Out.{Host, Out, put, close, xml, head_lines}
use kueued.Thread.Routes.{Handler, handlers, update_db_runs, qmon_runs}
use kueued.Thread.Connections.{none_open, opening, within}
use kueued.Thread.Replies.{update_lines, answer_update_db, answer_qmon, answer, answer_all, serve}

module _ {D : Type 0} {S : Type 0 → Type 0} (env : Env D S) (host : Host D) where
  abbrev pub fresh : Out
  fresh = put (head_lines host.hostname) (record { sent = []; is_open = true })

  serve_one :
      (cmd : Text) (h : Handler) (db db' : Mysql S) (out : Out)
      → handlers cmd ≡ h ∷ []
      → answer (within (opening h none_open) env) host h cmd db fresh ≡ some (out, db')
      → serve env host cmd db ≡ some (out.sent, db')
  unfolding serve
  serve_one cmd h db db' out runs found =
      let all : answer_all env host none_open (handlers cmd) cmd db fresh ≡ some (out, db') =
        ap (λ hs. answer_all env host none_open hs cmd db fresh) runs
        ∙ unfold answer_all in rw found refl in
      ap (λ o. o >>= λ r. some (r.0.sent, r.1)) all

  answer-update_db :
      (cmd : Text) (db db' : Mysql S)
      → update_db env host.junk host.off host.clock (is_full cmd) db ≡ some db'
      → answer
          (within (opening Handler.update_db none_open) env)
          host
          Handler.update_db
          cmd
          db
          fresh
        ≡ some (update_lines env host (is_full cmd) fresh, db')
  unfolding answer answer_update_db within opening update_lines
  answer-update_db cmd db db' runs = rw runs refl

  -- XML::qmon( Database::getSrsForQueue( "NONE" ) )
  unfoldable pub qmon_document : Mysql S → Text
  qmon_document db =
      Qmon.qmon env.times host.now host.timezone (get_srs_for_queue env host.junk (lit "NONE") db)

  answer-qmon :
      (cmd : Text) (db : Mysql S)
      → answer (within (opening Handler.qmon none_open) env) host Handler.qmon cmd db fresh
        ≡ some (
          record { sent = head_lines host.hostname ++ (xml ++ qmon_document db); is_open = false },
          db,
        )
  unfolding answer answer_qmon within opening qmon_document get_srs_for_queue queue_item
      get_bomgar_queue get_sr_for_cr_mysql put close
  answer-qmon cmd db =
      ap (λ s. some (record { sent = s; is_open = false }, db))
        (append_assoc (head_lines host.hostname) xml (qmon_document db))

  pub serve-update_db :
      (rest : Text) (db db' : Mysql S)
      → update_db env host.junk host.off host.clock (is_full (lit "/updateDB" ++ rest)) db
        ≡ some db'
      → serve env host (lit "/updateDB" ++ rest) db
        ≡ some ((update_lines env host (is_full (lit "/updateDB" ++ rest)) fresh).sent, db')
  serve-update_db rest db db' runs =
      let path = lit "/updateDB" ++ rest in
      serve_one path Handler.update_db db db' (update_lines env host (is_full path) fresh)
        (update_db_runs rest) (answer-update_db path db db' runs)

  pub serve-qmon :
      (db : Mysql S)
      → serve env host (lit "/qmon") db
        ≡ some (head_lines host.hostname ++ (xml ++ qmon_document db), db)
  serve-qmon db =
      serve_one (lit "/qmon") Handler.qmon db db
        (record { sent = head_lines host.hostname ++ (xml ++ qmon_document db); is_open = false })
        qmon_runs (answer-qmon (lit "/qmon") db)

  -- If each related request has a title, a GET of any path of /updateDB is answered, and a GET of /qmon
  -- right after it is answered with the lines of the head and the document of a list that has exactly
  -- the SR numbers of the remote list, with descriptions that fit in a CDATA section.
  pub update_db_then_qmon :
      (rest : Text) (db : Mysql S)
      → AreTitled env
      → (sent : Text) × (db' : Mysql S) × (serve env host (lit "/updateDB" ++ rest) db
          ≡ some (sent, db'))
        × (serve env host (lit "/qmon") db'
            ≡ some (head_lines host.hostname ++ (xml ++ qmon_document db'), db'))
        × ((j : Text)
            → contains j (map (λ si. si.id) (get_srs_for_queue env host.junk (lit "NONE") db'))
              ≡ contains j (map (value 0) env.remote.open_srs))
        × AreEscaped (get_srs_for_queue env host.junk (lit "NONE") db')
  update_db_then_qmon rest db titles =
      let full = is_full (lit "/updateDB" ++ rest) in
      let (db', runs, listed, escaped) =
        update_db_served env host.junk host.off host.clock full db titles in
      (
        (update_lines env host full fresh).sent,
        db',
        serve-update_db rest db db' runs,
        serve-qmon db',
        listed,
        escaped,
      )
