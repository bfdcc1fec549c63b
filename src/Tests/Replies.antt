-- ===== src/Tests/Replies.antt =====
-- The theorems on the answers of the server at concrete paths.
use kueued.Prelude.{
  map, contains, Text, lit, ◌==◌, List, [], ◌∷◌, ◌++◌, true, false, none, some, ◌≡◌, refl,
}
use kueued.QString.Replace.{starts_with}
use kueued.QString.Split.{lacks}
use kueued.QString.Tokens.{is_word}
use kueued.QString.Trim.{all_digits}
use kueued.Sql.{Mysql}
use kueued.Sql.Rows.{ChatRow}
use kueued.Database.Frame.{Agree}
use kueued.Database.Lists.{waits_in}
use kueued.Database.Siebel.{insert_siebel_item_into_db}
use kueued.Database.Ltss.{update_ltss_customers}
use kueued.Xml.Scan.{IsBalanced, is_plain}
use kueued.Database.Queue.{get_srs_for_queue}
use kueued.Database.Queue.Facts.{AreEscaped}
use kueued.Thread.Replies.Wire.{qmon_document, update_db_then_qmon}
use kueued.Thread.Out.{Out, head_lines, put, text, xml, lines}
use kueued.Thread.Routes.{chain}
use kueued.Thread.Replies.{answer_chat, answer_srnrs, serve}
use kueued.Thread.Replies.Frame.{after, serve-after}
use kueued.Thread.Replies.Totals.{is_guarded, serve_total}
use kueued.Thread.Replies.Related.{serve_srforcr_faults}
use kueued.Thread.Replies.Chats.{ChatFits, chat_document, answer_chat_rows}
use kueued.Thread.Replies.Numbers.{answer_srnrs_given}
use kueued.Thread.Line.{run, run_request}
use kueued.Tests.Data.{env, host, titled, no_rows, two_rows, item_7}

serve_total_example :
    (sent : Text) × (db' : Mysql List) × (serve env host (lit "/ltssupdate") two_rows
      ≡ some (sent, db'))
unfolding is_guarded chain lit starts_with
serve_total_example = serve_total env host (lit "/ltssupdate") two_rows titled refl

-- The answer to /ltssupdate.
abbrev updated :
    (sent : Text) × (db' : Mysql List) × (serve env host (lit "/ltssupdate") two_rows
      ≡ some (sent, db'))
unfolding is_guarded chain lit starts_with
updated = serve_total env host (lit "/ltssupdate") two_rows titled refl

serve-after_example : Agree (update_ltss_customers env two_rows) updated.1
unfolding after chain lit starts_with
serve-after_example =
    serve-after env host (lit "/ltssupdate") updated.0 two_rows updated.1 (λ e. absurd cc) updated.2

update_db_then_qmon_example :
    (sent : Text) × (db' : Mysql List) × (serve env host (lit "/updateDB/full") two_rows
      ≡ some (sent, db'))
    × (serve env host (lit "/qmon") db'
        ≡ some (head_lines (lit "host") ++ (xml ++ qmon_document env host db'), db'))
    × ((j : Text)
        → contains j (map (λ si. si.id) (get_srs_for_queue env true (lit "NONE") db'))
          ≡ contains j (lit "7" ∷ lit "8" ∷ []))
    × AreEscaped (get_srs_for_queue env true (lit "NONE") db')
unfolding lit
update_db_then_qmon_example = update_db_then_qmon env host (lit "/full") two_rows titled

serve_srforcr_faults_example : serve env host (lit "/srforcr/10123456789") no_rows ≡ none
unfolding all_digits lit ◌==◌
serve_srforcr_faults_example =
    serve_srforcr_faults env host (lit "10123456789") no_rows refl refl refl

abbrev chat_7 : ChatRow
chat_7 = record { id = lit "c"; sr = lit "7"; name = lit "desk"; date = lit "d" }

abbrev one_chat : Mysql List
one_chat = record no_rows { chat = chat_7 ∷ [] }

chat_7-ChatFits : ChatFits chat_7
unfolding lacks lit is_plain
chat_7-ChatFits = record { sr_lacks = refl; name_lacks = refl; sr_plain = refl; name_plain = refl }

abbrev fresh : Out
fresh = record { sent = lit "head"; is_open = true }

answer_chat_rows_example :
    (answer_chat env host one_chat fresh
      ≡ some
          (record { sent = lit "head" ++ (xml ++ chat_document (chat_7 ∷ [])); is_open = false }))
    × IsBalanced (chat_document (chat_7 ∷ []))
answer_chat_rows_example = answer_chat_rows env host one_chat fresh refl (chat_7-ChatFits, tt)

-- A third row, in the queue q and the geo EMEA.
abbrev three_rows : Mysql List
three_rows =
    insert_siebel_item_into_db env (lit "v") (record item_7 { id = lit "9"; geo = lit "EMEA" })
      two_rows

answer_srnrs_given_example :
    (numbers : List Text) × (answer_srnrs env host
        (lit "/srnrs/" ++ (lit "q" ++ b'|' ∷ lit "EMEA"))
        three_rows
        fresh
      ≡ some (put (lines numbers) (put text fresh)))
    × ((j : Text)
        → contains j numbers
          ≡ waits_in env (lit "q") (lit "EMEA") (env.tables.siebel.select j three_rows.siebel))
unfolding lacks starts_with lit
answer_srnrs_given_example =
    answer_srnrs_given env host (lit "q") (lit "EMEA") three_rows fresh refl refl refl refl

run_request_example :
    run env host (lit "GET" ++ b' ' ∷ ((b'/' ∷ lit "qmon") ++ b' ' ∷ lit "HTTP/1.1\r\n")) two_rows
    ≡ serve env host (b'/' ∷ lit "qmon") two_rows
unfolding is_word lit ◌==◌
run_request_example =
    run_request env host (lit "GET") (lit "qmon") (lit "HTTP/1.1\r\n") b'/' two_rows refl refl
