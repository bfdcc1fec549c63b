-- ===== src/Thread/Replies.antt =====
-- The handlers of ServerThread::run: what each writes and what it leaves in the local tables.
-- `none` is an access past the end of a list.
pub mod Frame
pub mod Chats
pub mod Related
pub mod Wire
pub mod Documents
pub mod Totals
pub mod Numbers
use kueued.Prelude.{
  Text, lit, ◌==◌, is_empty, ◌++◌, List, [], ◌∷◌, Bool, true, false, not, Option, none, some, ℕ, ℤ,
  if◌then◌else◌, ◌>>=◌,
}
use kueued.QString.Number.{number}
use kueued.QString.Replace.{starts_with, remove, replace, has_part}
use kueued.QString.Split.{split, at_1}
use kueued.Sql.{Env, Mysql}
use kueued.Database.Lookups.{at_0, get_sr_for_cr, get_sr_status, get_det_desc, update_pseudo_queues}
use kueued.Database.Chat.{get_current_bomgars}
use kueued.Database.Lists.{get_srnums_for_queue, get_pseudo_queues}
use kueued.Database.Ltss.{get_ltss_customers_ext, update_ltss_customers}
use kueued.Database.Queue.{get_srs_for_queue}
use kueued.Database.Engineer.{get_user_queue, get_sr_info}
use kueued.Update.Request.{update_db}
use kueued.Xml.Markup.{concat, raw_in}
use kueued.Xml.Qmon
use kueued.Xml.Sr
use kueued.Xml.Ltss.{ltss_cust}
use kueued.Thread.Routes.{Handler, handlers}
use kueued.Thread.Arguments.{sr_argument, is_full}
use kueued.Thread.Out.{Host, Out, put, close, text, xml, head_lines, lines}
use kueued.Thread.Connections.{Opened, none_open, opening, within}
use kueued.Thread.Survey.{answer_stats}
use kueued.Thread.Welcome.{welcome_page}

-- "… took " + QString::number( seconds ) + " sec" + tail
unfoldable pub took : Text → ℤ → Text → Text
took what seconds tail = what ++ (lit " took " ++ (number seconds ++ (lit " sec" ++ tail)))

-- the element that /chat writes for a chat
unfoldable pub bomgar_lines : Text → Text → List Text
bomgar_lines name sr = raw_in "    " "bomgarQ" name "\n" ∷ raw_in "    " "sr" sr "\n" ∷ []

unfoldable pub bomgar_element : Text → Text → Text
unfolding bomgar_lines
bomgar_element name sr =
    lit "  <bomgar>\n" ++ (concat (bomgar_lines name sr) ++ lit "  </bomgar>\n")

-- one round of the loop of /chat
unfoldable pub chat_element : Text → Option Text
unfolding at_0 bomgar_element
chat_element l = do
  name ← at_1 (split (lit "|||") l)
  sr ← at_0 (split (lit "|||") l)
  some (bomgar_element name sr)

unfoldable pub chat_elements : List Text → Option Text
unfolding chat_element
chat_elements [] = some []
chat_elements (l ∷ ls) = do
  element ← chat_element l
  rest ← chat_elements ls
  some (element ++ rest)

module _ {D : Type 0} {S : Type 0 → Type 0} (env : Env D S) (host : Host D) where
  answer_qmon_date : Mysql S → Out → Out
  answer_qmon_date db out = close (
      put (Qmon.qmon_date env.times host.now (get_srs_for_queue env host.junk (lit "NONE") db))
        (put xml out))

  answer_ltsscustomers : Out → Out
  answer_ltsscustomers out = close (put (ltss_cust (get_ltss_customers_ext env)) (put xml out))

  answer_qmon : Mysql S → Out → Out
  answer_qmon db out = close (
      put
        (Qmon.qmon env.times host.now host.timezone
          (get_srs_for_queue env host.junk (lit "NONE") db))
        (put xml out))

  unfoldable pub answer_srnrs : Text → Mysql S → Out → Option Out
  unfolding at_0
  answer_srnrs cmd db out =
      let q = remove (lit "/") (remove (lit "/srnrs") cmd) in
      let begun = put text out in
      if is_empty q
      then some (put (lit "Please specify queue") begun)
      else (if has_part (lit "|") q
          then (at_0 (split (lit "|") q) >>= λ queue. at_1 (split (lit "|") q) >>= λ geo.
              some (put (lines (get_srnums_for_queue env queue geo db)) begun))
          else some (put (lit "Please specify geo") begun))

  srforcr_found : Option Text → Mysql S → Out → Option (Out × Mysql S)
  unfolding at_0
  srforcr_found none db out = some (put (lit "No SR number") (put text out), db)
  srforcr_found (some q) db out = do
    (l, db') ← get_sr_for_cr env q db
    sr ← at_0 l
    some (put sr (put text out), db')

  srinfo_found : Option Text → Mysql S → Out → Option (Out × Mysql S)
  srinfo_found none db out = some (put (lit "No SR number") (put text out), db)
  srinfo_found (some q) db out = do
    (i, db') ← get_sr_info env host.junk host.level host.off q db
    some (put (Sr.sr i) (put xml out), db')

  srstatus_found : Option Text → Out → Out
  srstatus_found none out = put (lit "No SR number") (put text out)
  srstatus_found (some q) out = put (get_sr_status env q) (put text out)

  answer_detailed : Text → Out → Out
  answer_detailed cmd out =
      let q = remove (lit "/") (remove (lit "/detailed") cmd) in
      close (
        if is_empty q
        then put (lit "Please specify sr number") out
        else put (get_det_desc env q) (put text out))

  answer_ltssupdate : Mysql S → Out → Out × Mysql S
  answer_ltssupdate db out = (
    close (
        put (lit "LTSS Customer List updated.\n")
          (put (took (lit "LTSS update") (host.seconds 0) (lit "\n")) (put text out))),
    update_ltss_customers env db,
  )

  -- the lines that the steps of /updateDB write
  unfoldable pub update_lines : Bool → Out → Out
  update_lines full out =
      let begun =
        if full
        then put (took (lit "PseudoQ update") (host.seconds 0) (lit "\n")) (put text out)
        else out in
      close (
        put (lit "UPDATE FINISHED\n") (
          put (took (lit "Unity update") (host.seconds 2) (lit "\n\n"))
            (put (took (lit "Bomgar update") (host.seconds 1) (lit "\n")) begun)))

  answer_update_db : Text → Mysql S → Out → Option (Out × Mysql S)
  unfolding update_lines
  answer_update_db cmd db out = do
    db' ← update_db env host.junk host.off host.clock (is_full cmd) db
    some (update_lines (is_full cmd) out, db')

  unfoldable pub answer_chat : Mysql S → Out → Option Out
  answer_chat db out = do
    elements ← chat_elements (get_current_bomgars env db)
    some (close (put (lit "</chat>") (put elements (put (lit "<chat>\n") (put xml out)))))

  answer_pseudo_q : Mysql S → Out → Out
  answer_pseudo_q db out = close (put (lines (get_pseudo_queues env db)) (put text out))

  answer_unity_url : Out → Out
  answer_unity_url out = close (put (host.unity_url ++ lit "\n") (put text out))

  assign_found : Text → Out → Option Out
  unfolding at_0
  assign_found q out = do
    sr ← at_0 (split (lit "|") q)
    owner ← at_1 (split (lit "|") q)
    let reply = host.body (
        lit "http://proetus.provo.novell.com/qmon/assign2.asp?sr="
        ++ (sr ++ (lit "&owner=" ++ (owner ++ lit "&force=1"))))
    some (close (put reply (put text out)))

  unfoldable pub answer_assign : Text → Out → Option Out
  unfolding assign_found
  answer_assign cmd out =
      let q = remove (lit "/") (replace (lit "%7C") (lit "|") (remove (lit "/assign") cmd)) in
      if is_empty q
      then some (put (lit "Please specify sr number and engineer delimited by |") out)
      else (if has_part (lit "|") q
          then assign_found q out
          else some (put (lit "Please specify engineer") out))

  user_queue_of : Bool → Text → Mysql S → Out → Option (Out × Mysql S)
  user_queue_of subowner engineer db out = do
    (items, db') ← get_user_queue env host.junk host.level host.off subowner engineer db
    some (close (put (Sr.queue items) (put xml out)), db')

  answer_userqueue : Text → Mysql S → Out → Option (Out × Mysql S)
  unfolding user_queue_of
  answer_userqueue cmd db out =
      let q = remove (lit "/userqueue") cmd in
      if starts_with q (lit "/full/")
      then user_queue_of true (host.to_upper (remove (lit "/") (remove (lit "/full/") q))) db out
      else (if is_empty (remove (lit "/") q)
          then some (close (put (lit "Please specify engineer.") out), db)
          else user_queue_of false (host.to_upper (remove (lit "/") q)) db out)

  -- a handler that leaves the tables as they are
  abbrev beside : Mysql S → Option Out → Option (Out × Mysql S)
  beside db none = none
  beside db (some out) = some (out, db)

  unfoldable pub answer : Handler → Text → Mysql S → Out → Option (Out × Mysql S)
  unfolding answer_qmon_date answer_ltsscustomers answer_qmon srforcr_found srinfo_found
      srstatus_found answer_detailed answer_ltssupdate answer_update_db answer_pseudo_q
      answer_unity_url answer_userqueue
  answer Handler.qmon_date cmd db out = some (answer_qmon_date db out, db)
  answer Handler.ltsscustomers cmd db out = some (answer_ltsscustomers out, db)
  answer Handler.qmon cmd db out = some (answer_qmon db out, db)
  answer Handler.srnrs cmd db out = beside db (answer_srnrs cmd db out)
  answer Handler.srforcr cmd db out = srforcr_found (sr_argument (lit "/srforcr") cmd) db out
  answer Handler.srinfo cmd db out = srinfo_found (sr_argument (lit "/srinfo") cmd) db out
  answer Handler.srstatus cmd db out =
      some (srstatus_found (sr_argument (lit "/srstatus") cmd) out, db)
  answer Handler.latestkueue cmd db out = some (put host.latest_version (put text out), db)
  answer Handler.detailed cmd db out = some (answer_detailed cmd out, db)
  answer Handler.ltssupdate cmd db out = some (answer_ltssupdate db out)
  answer Handler.update_db cmd db out = answer_update_db cmd db out
  answer Handler.chat cmd db out = beside db (answer_chat db out)
  answer Handler.pseudo_q cmd db out = some (answer_pseudo_q db out, db)
  answer Handler.unity_url cmd db out = some (answer_unity_url out, db)
  answer Handler.assign cmd db out = beside db (answer_assign cmd out)
  answer Handler.userqueue cmd db out = answer_userqueue cmd db out
  answer Handler.stats cmd db out = beside db (answer_stats env host cmd out)
  answer Handler.welcome cmd db out = some (close (put welcome_page (put text out)), db)

module _ {D : Type 0} {S : Type 0 → Type 0} (env : Env D S) (host : Host D) where
  -- the branches that are taken, one behind the other, over the connections that are open
  unfoldable pub answer_all : Opened → List Handler → Text → Mysql S → Out → Option (Out × Mysql S)
  unfolding opening within
  answer_all opened [] cmd db out = some (out, db)
  answer_all opened (h ∷ hs) cmd db out = do
    (out', db') ← answer (within (opening h opened) env) host h cmd db out
    answer_all (opening h opened) hs cmd db' out'

  -- a GET request for the path
  unfoldable pub serve : Text → Mysql S → Option (Text × Mysql S)
  unfolding answer_all
  serve cmd db = do
    (out, db') ←
        answer_all none_open (handlers cmd) cmd db
          (put (head_lines host.hostname) (record { sent = []; is_open = true }))
    some (out.sent, db')
