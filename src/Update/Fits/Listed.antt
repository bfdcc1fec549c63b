-- ===== src/Update/Fits/Listed.antt =====
-- getSrsForQueue: from tables whose rows fit it makes a list that fits in the document of XML::qmon.
use kueued.Prelude.{
  Text, lit, ◌==◌, List, [], ◌∷◌, map, value, All, All-perm, Bool, true, false, Option, none, some,
  if◌then◌else◌, ◌≡◌, refl, arith, Bool-cases, Option-cases, inl, inr,
}
use kueued.Items.{SiebelItem, blank_siebel_item}
use kueued.Sql.{Env, Mysql}
use kueued.Sql.Rows.{SrRow, CustomerRow, ChatRow}
use kueued.Sql.Laws.{All-rows}
use kueued.QString.Cdata.{is_open, is_open-escape_cdata}
use kueued.Xml.Scan.{is_plain}
use kueued.Xml.QmonBalanced.{Fits, AllFit}
use kueued.Database.Chat.{first_with_sr, name_or_nochat, get_bomgar_queue}
use kueued.Database.Lookups.{get_sr_for_cr_mysql, cached_columns}
use kueued.Database.Queue.{
  in_queue, listed_item, with_chat, with_related, with_customer, queue_item, get_srs_for_queue,
}
use kueued.Update.Fits.{SrFits, CustomerRowFits, TablesFit}

listed_item-Fits : (junk : Bool) (r : SrRow) → SrFits r → Fits (listed_item junk r)
unfolding listed_item blank_siebel_item is_open is_plain
listed_item-Fits junk r h =
    ground (arith, is_open-escape_cdata r.brief_desc, is_open-escape_cdata r.detailed_desc)

with_chat-Fits :
    (name : Text) (si : SiebelItem) → is_plain name ≡ true → Fits si → Fits (with_chat name si)
unfolding with_chat
with_chat-Fits name si plain h = elim (Bool-cases (name == lit "NOCHAT")) [
  | inl e ↦ rw e (ground arith)
  | inr e ↦ rw e (ground arith)
]

with_related-Fits :
    (r : SrRow) (nfo : List Text) (si : SiebelItem)
    → SrFits r
    → is_plain (value 0 nfo) ≡ true
    → is_open 0 (value 1 nfo) ≡ true
    → is_open 0 (value 2 nfo) ≡ true
    → Fits si
    → Fits (with_related r nfo si)
unfolding with_related
with_related-Fits r nfo si row sr cust desc h = ground arith

with_customer-Fits :
    (o : Option CustomerRow) (si : SiebelItem)
    → ((c : CustomerRow) → o ≡ some c → CustomerRowFits c)
    → Fits si
    → Fits (with_customer o si)
unfolding with_customer
with_customer-Fits none si fits h = ground arith
with_customer-Fits (some c) si fits h = let row = fits c refl in ground arith

is_plain-first_with_sr :
    (matches : Text → Text → Bool) (sr : Text) (rows : List ChatRow)
    → All (λ r. is_plain r.name ≡ true) rows
    → is_plain (name_or_nochat (first_with_sr matches sr rows)) ≡ true
unfolding first_with_sr name_or_nochat
is_plain-first_with_sr matches sr [] h = unfold is_plain lit in refl
is_plain-first_with_sr matches sr (r ∷ rows) h = elim (Bool-cases (matches r.sr sr)) [
  | inl e ↦ rw e h.0
  | inr e ↦ rw e (is_plain-first_with_sr matches sr rows h.1)
]

module _ {D : Type 0} {S : Type 0 → Type 0} (env : Env D S) (junk : Bool) (db : Mysql S)
    (tables : TablesFit env db) where
  is_plain-get_bomgar_queue : (sr : Text) → is_plain (get_bomgar_queue env sr db) ≡ true
  unfolding get_bomgar_queue
  is_plain-get_bomgar_queue sr =
      is_plain-first_with_sr env.tables.matches sr (env.tables.chat.rows db.chat)
        (All-rows env.tables.chat (λ r. is_plain r.name ≡ true) db.chat tables.chats)

  -- The three texts that CRSR gives for a collaboration request.
  related-Fits :
      (cr : Text)
      → let nfo = get_sr_for_cr_mysql env cr db in
        (is_plain (value 0 nfo) ≡ true)
        × (is_open 0 (value 1 nfo) ≡ true)
        × (is_open 0 (value 2 nfo) ≡ true)
  unfolding get_sr_for_cr_mysql cached_columns
  related-Fits cr = elim (Option-cases (env.tables.crsr.select cr db.crsr)) [
    | inl e ↦ rw e (unfold is_open is_plain in (refl, refl, refl))
    | inr (r, e) ↦ let row = tables.related cr r e in rw e (row.at_sr, row.at_cust, row.at_bdesc)
  ]

  queue_item-Fits : (r : SrRow) → SrFits r → Fits (queue_item env junk db r)
  unfolding queue_item
  queue_item-Fits r h =
      let si = with_chat (get_bomgar_queue env r.id db) (listed_item junk r) in
      let fits : Fits si =
        with_chat-Fits (get_bomgar_queue env r.id db) (listed_item junk r)
          (is_plain-get_bomgar_queue r.id) (listed_item-Fits junk r h) in
      elim (Bool-cases (r.subtype == lit "Collaboration")) [
        | inl e ↦
            let nfo = get_sr_for_cr_mysql env r.id db in
            let (sr, cust, desc) = related-Fits r.id in
            rw e (with_related-Fits r nfo si h sr cust desc fits)
        | inr e ↦ rw e (
            with_customer-Fits (env.tables.customer.select r.id db.customer) si
              (tables.customers r.id) fits)
      ]

  items-AllFit : (rows : List SrRow) → All SrFits rows → AllFit (map (queue_item env junk db) rows)
  items-AllFit [] h = tt
  items-AllFit (r ∷ rows) h = (queue_item-Fits r h.0, items-AllFit rows h.1)

  All-in_queue :
      (queue : Text) (rows : List SrRow)
      → All SrFits rows
      → All SrFits (in_queue env.tables.matches queue rows)
  unfolding in_queue
  All-in_queue queue [] h = tt
  All-in_queue queue (r ∷ rows) h = elim (Bool-cases (env.tables.matches r.queue queue)) [
    | inl e ↦ rw e (h.0, All-in_queue queue rows h.1)
    | inr e ↦ rw e (All-in_queue queue rows h.1)
  ]

  -- Every request that getSrsForQueue returns fits, if the rows of the tables do.
  pub get_srs_for_queue-AllFit : (queue : Text) → AllFit (get_srs_for_queue env junk queue db)
  unfolding get_srs_for_queue
  get_srs_for_queue-AllFit queue = items-AllFit (env.tables.by_created chosen) (
      All-perm SrFits (env.tables.by_created chosen) chosen (env.tables.by_created-perm chosen)
        (fits (queue == lit "NONE")))
    where
      stored : List SrRow
      stored = env.tables.siebel.rows db.siebel

      chosen : List SrRow
      chosen = if queue == lit "NONE" then stored else in_queue env.tables.matches queue stored

      all_stored : All SrFits stored
      all_stored = All-rows env.tables.siebel SrFits db.siebel tables.srs

      fits :
          (b : Bool) → All SrFits (if b then stored else in_queue env.tables.matches queue stored)
      fits true = all_stored
      fits false = All-in_queue queue stored all_stored
