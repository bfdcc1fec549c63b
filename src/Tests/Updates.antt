-- ===== src/Tests/Updates.antt =====
-- The theorems on /updateDB at one remote side and at tables in memory.
use kueued.Prelude.{
  Text, lit, ◌==◌, List, [], ◌∷◌, contains, true, false, Option, none, some, ◌≡◌, ◌≢◌, refl, ap,
  ◌∙◌,
}
use kueued.Sql.{Mysql}
use kueued.Sql.Rows.{SrRow}
use kueued.Items.{SiebelItem, BomgarItem, blank_siebel_item}
use kueued.Database.Siebel.{
  insert_siebel_item_into_db, inserted_row, customer_row, bound_creator, delete_siebel_item_from_db,
}
use kueued.Database.Qmon.{get_qmon_srs}
use kueued.Database.Listing.{AreItemsOf, get_qmon_srs_total}
use kueued.Update.Loop.{trace}
use kueued.Update.Steps.{update_unity, update_bomgars}
use kueued.Update.Rows.{entry, visit}
use kueued.Update.Mirror.{entry-update_unity}
use kueued.Update.Effects.{HasSr, IsPaired, Shows, update_unity-Shows, update_unity_again}
use kueued.Update.Waits.{
  WaitsSince, WaitsSinceRound, inqueue-update_unity_same, inqueue-update_unity_moved,
}
use kueued.Update.Chats.{chat_of, visit_chat, chat_of-update_bomgars}
use kueued.Update.Statements.{here, later, inserts, deletes, Reach-IsPaired}
use kueued.Tests.Data.{env, titled, clock, no_rows, item, item_6, item_7, two_rows}

entry-update_unity_example :
    entry env (update_unity env clock (item_7 ∷ item_7 ∷ []) two_rows) (lit "7")
    ≡ trace
        (visit env clock)
        (λ x. x.id)
        (lit "7")
        0
        (item_7 ∷ item_7 ∷ [])
        (entry env two_rows (lit "7"))
unfolding blank_siebel_item contains ◌==◌ lit
entry-update_unity_example = entry-update_unity env clock (item_7 ∷ item_7 ∷ []) two_rows (lit "7")

update_unity-Shows_example :
    HasSr
      (Shows env item_7)
      (entry env (update_unity env clock (item_6 ∷ item_7 ∷ []) two_rows) (lit "7"))
unfolding bound_creator blank_siebel_item contains ◌==◌ lit
update_unity-Shows_example =
    update_unity-Shows env clock (item_6 ∷ item_7 ∷ []) two_rows (lit "7") item_7 refl
      ((λ h. absurd cc), ((λ h. refl), tt)) refl

inqueue-update_unity_same_example :
    HasSr
      (WaitsSince (lit "q") (lit "u"))
      (entry env (update_unity env clock (item_7 ∷ []) two_rows) (lit "7"))
unfolding blank_siebel_item insert_siebel_item_into_db inserted_row contains ◌==◌ lit
inqueue-update_unity_same_example =
    inqueue-update_unity_same env clock (item_7 ∷ []) two_rows (lit "7") (lit "q") (lit "u")
      ((λ h. refl), tt) refl (_, refl, (refl, refl))

abbrev queue_of : Option SrRow → Text
queue_of none = []
queue_of (some r) = r.queue

is_apart : lit "q" ≢ lit "p"
unfolding lit ◌==◌
is_apart h = let e : true ≡ false = ap (λ t. t == lit "q") h in absurd cc

inqueue-update_unity_moved_example :
    HasSr
      (WaitsSinceRound clock (lit "p"))
      (entry env (update_unity env clock (item (lit "7") (lit "p") ∷ []) two_rows) (lit "7"))
unfolding blank_siebel_item insert_siebel_item_into_db inserted_row contains ◌==◌ lit
inqueue-update_unity_moved_example =
    inqueue-update_unity_moved env clock (item (lit "7") (lit "p") ∷ []) two_rows (lit "7")
      (lit "p") ((λ h. refl), tt) refl (λ r is_r at_p. is_apart (ap queue_of is_r ∙ at_p))

update_unity_again_example :
    entry env
      (update_unity env
        (λ i. lit "v")
        (item_6 ∷ item_7 ∷ [])
        (update_unity env clock (item_6 ∷ item_7 ∷ []) two_rows))
      (lit "7")
    ≡ entry env (update_unity env clock (item_6 ∷ item_7 ∷ []) two_rows) (lit "7")
unfolding blank_siebel_item bound_creator insert_siebel_item_into_db inserted_row customer_row
    contains ◌==◌ lit
update_unity_again_example =
    update_unity_again env clock (λ i. lit "v") (item_6 ∷ item_7 ∷ []) two_rows (lit "7")
      (refl, (refl, tt)) ((λ h. refl), ((λ h. refl), tt)) refl

-- A chat of the queue "desk", and the same chat in the queue "lab".
abbrev chat : Text → BomgarItem
unfolding lit
chat name = record { id = lit "c"; sr = lit "7"; name = name; date = lit "d" }

chat_of-update_bomgars_example :
    chat_of env (update_bomgars env (chat (lit "desk") ∷ chat (lit "lab") ∷ []) two_rows) (lit "c")
    ≡ trace visit_chat
        (λ bi. bi.id)
        (lit "c")
        0
        (chat (lit "desk") ∷ chat (lit "lab") ∷ [])
        (chat_of env two_rows (lit "c"))
unfolding blank_siebel_item contains ◌==◌ lit
chat_of-update_bomgars_example =
    chat_of-update_bomgars env (chat (lit "desk") ∷ chat (lit "lab") ∷ []) two_rows (lit "c")

get_qmon_srs_total_example :
    (items : List SiebelItem) × (db' : Mysql List) × (get_qmon_srs env true 5 two_rows
      ≡ some (items, db'))
    × AreItemsOf env true 5 env.remote.open_srs items
    × (record two_rows { crsr = db'.crsr } ≡ db')
get_qmon_srs_total_example = get_qmon_srs_total env true 5 two_rows titled

-- Two threads insert 6 and 7, and a third deletes 6.
Reach-IsPaired_example :
    IsPaired (entry env (delete_siebel_item_from_db env (lit "6") two_rows) (lit "7"))
Reach-IsPaired_example = Reach-IsPaired env (lit "7") {db = no_rows} refl (
    later (later (later here (inserts (lit "t") item_6)) (inserts (lit "u") item_7))
      (deletes (lit "6")))
