-- ===== src/Thread/Replies/Totals.antt =====
-- Which requests are answered, and one that faults.
use kueued.Prelude.{
  Text, lit, List, [], ◌∷◌, ◌++◌, map, Bool, true, false, ◌&&◌, Option, none, some, ◌≡◌, ◌≢◌, refl,
  sym, ap, ◌∙◌, arith, Option-cases, inl, inr,
}
use kueued.QString.Replace.{starts_with, replace, remove, has_part}
use kueued.QString.Split.{split, at_1-split, split_from-ne-nil}
use kueued.Sql.{Env, Mysql}
use kueued.Sql.Rows.{ChatRow}
use kueued.Database.Lookups.{at_0}
use kueued.Database.Cache.{AreTitled}
use kueued.Database.Chat.{get_current_bomgars}
use kueued.Database.Engineer.Facts.{get_sr_info_total, get_sr_info_unknown}
use kueued.Update.Request.{update_db_total}
use kueued.Thread.Out.{Host, Out, put, head_lines}
use kueued.Thread.Routes.{Handler, chain, handlers, firsts, handlers-firsts}
use kueued.Thread.Arguments.{sr_argument, is_full}
use kueued.Thread.Connections.{Opened, none_open, opening, within}
use kueued.Thread.Replies.{
  chat_element, chat_elements, answer_chat, answer_srnrs, answer_assign, assign_found, srinfo_found,
  answer_update_db, beside, answer, answer_all, serve,
}

at_0_filled : (l : List Text) → l ≢ [] → at_0 l ≢ none
unfolding at_0
at_0_filled [] filled h = filled refl
at_0_filled (a ∷ l) filled h = ground arith

at_0-split : (sep s : Text) → at_0 (split sep s) ≢ none
unfolding split
at_0-split sep s = at_0_filled (split sep s) (split_from-ne-nil 0 sep s)

has_bars : (sr name : Text) → has_part (lit "|||") (sr ++ (lit "|||" ++ name)) ≡ true
unfolding has_part lit starts_with
has_bars [] name = ground arith
has_bars (c ∷ sr) name = ground (arith, has_bars sr name)

chat_element_total : (sr name : Text) → chat_element (sr ++ (lit "|||" ++ name)) ≢ none
unfolding chat_element lit
chat_element_total sr name h =
    let second =
      at_1-split b'|' (b'|' ∷ b'|' ∷ []) (sr ++ (lit "|||" ++ name)) (has_bars sr name) in
    let first = at_0-split (lit "|||") (sr ++ (lit "|||" ++ name)) in ground (arith, second, first)

chat_elements_total :
    (rows : List ChatRow) → chat_elements (map (λ r. r.sr ++ (lit "|||" ++ r.name)) rows) ≢ none
unfolding chat_elements
chat_elements_total [] h = ground arith
chat_elements_total (r ∷ rows) h =
    elim (Option-cases (chat_element (r.sr ++ (lit "|||" ++ r.name)))) [
      | inl e ↦ chat_element_total r.sr r.name e
      | inr (t, e) ↦
          elim (Option-cases (chat_elements (map (λ r. r.sr ++ (lit "|||" ++ r.name)) rows))) [
            | inl f ↦ chat_elements_total rows f
            | inr (u, f) ↦ ground arith
          ]
    ]

-- The handlers that read no list whose length the remote side decides.
unfoldable pub is_guarded : Handler → Bool
is_guarded Handler.srforcr = false
is_guarded Handler.userqueue = false
is_guarded Handler.stats = false
is_guarded h = true

module _ {D : Type 0} {S : Type 0 → Type 0} (env : Env D S) (host : Host D) where
  answer_chat_total : (db : Mysql S) (out : Out) → answer_chat env host db out ≢ none
  unfolding answer_chat get_current_bomgars
  answer_chat_total db out h =
      let rows = env.tables.chat.rows db.chat in
      elim (Option-cases (chat_elements (map (λ r. r.sr ++ (lit "|||" ++ r.name)) rows))) [
        | inl e ↦ chat_elements_total rows e
        | inr (t, e) ↦ ground arith
      ]

  answer_srnrs_total :
      (cmd : Text) (db : Mysql S) (out : Out) → answer_srnrs env host cmd db out ≢ none
  unfolding answer_srnrs lit
  answer_srnrs_total cmd db out h =
      let q = remove (lit "/") (remove (lit "/srnrs") cmd) in
      let queue = at_0-split (lit "|") q in
      let geo = at_1-split b'|' [] q in ground (arith, queue, geo)

  answer_assign_total : (cmd : Text) (out : Out) → answer_assign env host cmd out ≢ none
  unfolding answer_assign assign_found lit
  answer_assign_total cmd out h =
      let q = remove (lit "/") (replace (lit "%7C") (lit "|") (remove (lit "/assign") cmd)) in
      let sr = at_0-split (lit "|") q in
      let owner = at_1-split b'|' [] q in ground (arith, sr, owner)

  srinfo_total :
      (q : Option Text) (db : Mysql S) (out : Out) → srinfo_found env host q db out ≢ none
  unfolding srinfo_found
  srinfo_total none db out h = ground arith
  srinfo_total (some q) db out h = elim (Option-cases (env.remote.sr_details q)) [
    | inl e ↦
        let found = get_sr_info_unknown env host.junk host.level host.off q db e in
        ground (arith, found)
    | inr (row, e) ↦
        let (i, db', found, brief, detailed, bug) =
          get_sr_info_total env host.junk host.level host.off q row db e in
        ground (arith, found)
  ]

  update_db_runs :
      (cmd : Text) (db : Mysql S) (out : Out)
      → AreTitled env
      → answer_update_db env host cmd db out ≢ none
  unfolding answer_update_db
  update_db_runs cmd db out titles h =
      let (db', runs, listed, chats) =
        update_db_total env host.junk host.off host.clock (is_full cmd) db titles in
      ground (arith, runs)

  beside_total : (db : Mysql S) (o : Option Out) → o ≢ none → beside env host db o ≢ none
  beside_total db none h e = h refl
  beside_total db (some out) h e = ground arith

  answer_total :
      (h : Handler) (cmd : Text) (db : Mysql S) (out : Out)
      → (h ≡ Handler.update_db → AreTitled env)
      → is_guarded h ≡ true
      → answer env host h cmd db out ≢ none
  unfolding answer is_guarded
  answer_total Handler.srnrs cmd db out titles g =
      beside_total db (answer_srnrs env host cmd db out) (answer_srnrs_total cmd db out)
  answer_total Handler.chat cmd db out titles g =
      beside_total db (answer_chat env host db out) (answer_chat_total db out)
  answer_total Handler.assign cmd db out titles g =
      beside_total db (answer_assign env host cmd out) (answer_assign_total cmd out)
  answer_total Handler.srinfo cmd db out titles g =
      srinfo_total (sr_argument (lit "/srinfo") cmd) db out
  answer_total Handler.update_db cmd db out titles g = update_db_runs cmd db out (titles refl)
  answer_total Handler.srforcr cmd db out titles g = absurd (ground arith)
  answer_total Handler.userqueue cmd db out titles g = absurd (ground arith)
  answer_total Handler.stats cmd db out titles g = absurd (ground arith)
  answer_total Handler.qmon_date cmd db out titles g = λ e. ground arith
  answer_total Handler.ltsscustomers cmd db out titles g = λ e. ground arith
  answer_total Handler.qmon cmd db out titles g = λ e. ground arith
  answer_total Handler.srstatus cmd db out titles g = λ e. ground arith
  answer_total Handler.latestkueue cmd db out titles g = λ e. ground arith
  answer_total Handler.detailed cmd db out titles g = λ e. ground arith
  answer_total Handler.ltssupdate cmd db out titles g = λ e. ground arith
  answer_total Handler.pseudo_q cmd db out titles g = λ e. ground arith
  answer_total Handler.unity_url cmd db out titles g = λ e. ground arith
  answer_total Handler.welcome cmd db out titles g = λ e. ground arith

all_guarded : List Handler → Bool
all_guarded [] = true
all_guarded (h ∷ hs) = is_guarded h && all_guarded hs

firsts-guarded :
    (cmd : Text) (h : Handler) → is_guarded h ≡ true → all_guarded (firsts cmd ++ h ∷ []) ≡ true
unfolding firsts all_guarded is_guarded
firsts-guarded cmd h g = ground arith

module _ {D : Type 0} {S : Type 0 → Type 0} (env : Env D S) (host : Host D) where
  -- /updateDB has every connection open.
  titled-within :
      (h : Handler) (o : Opened)
      → AreTitled env
      → h ≡ Handler.update_db
      → AreTitled (within (opening h o) env)
  unfolding within opening
  titled-within Handler.update_db o titles e = titles
  titled-within Handler.qmon_date o titles e = absurd (cc)
  titled-within Handler.ltsscustomers o titles e = absurd (cc)
  titled-within Handler.qmon o titles e = absurd (cc)
  titled-within Handler.srnrs o titles e = absurd (cc)
  titled-within Handler.srforcr o titles e = absurd (cc)
  titled-within Handler.srinfo o titles e = absurd (cc)
  titled-within Handler.srstatus o titles e = absurd (cc)
  titled-within Handler.latestkueue o titles e = absurd (cc)
  titled-within Handler.detailed o titles e = absurd (cc)
  titled-within Handler.ltssupdate o titles e = absurd (cc)
  titled-within Handler.chat o titles e = absurd (cc)
  titled-within Handler.pseudo_q o titles e = absurd (cc)
  titled-within Handler.unity_url o titles e = absurd (cc)
  titled-within Handler.assign o titles e = absurd (cc)
  titled-within Handler.userqueue o titles e = absurd (cc)
  titled-within Handler.stats o titles e = absurd (cc)
  titled-within Handler.welcome o titles e = absurd (cc)

  answer_all_total :
      (o : Opened) (hs : List Handler) (cmd : Text) (db : Mysql S) (out : Out)
      → AreTitled env
      → all_guarded hs ≡ true
      → answer_all env host o hs cmd db out ≢ none
  unfolding answer_all all_guarded
  answer_all_total o [] cmd db out titles g e = ground arith
  answer_all_total o (h ∷ hs) cmd db out titles g e =
      let env' = within (opening h o) env in
      elim (Option-cases (answer env' host h cmd db out)) [
        | inl stuck ↦
            answer_total env' host h cmd db out (titled-within h o titles) (ground arith) stuck
        | inr ((out1, db1), found) ↦
            answer_all_total (opening h o) hs cmd db1 out1 titles (ground arith) (ground arith)
      ]

  -- If each related request has a title, every GET request gets its answer, whatever its path is,
  -- but for the paths of /srforcr, /userqueue and /stats, which read lists whose length the remote
  -- side decides.
  pub serve_total :
      (cmd : Text) (db : Mysql S)
      → AreTitled env
      → is_guarded (chain cmd) ≡ true
      → (sent : Text) × (db' : Mysql S) × (serve env host cmd db ≡ some (sent, db'))
  unfolding serve
  serve_total cmd db titles g =
      let first = put (head_lines host.hostname) (record { sent = []; is_open = true }) in
      elim (Option-cases (answer_all env host none_open (handlers cmd) cmd db first)) [
        | inl stuck ↦ absurd (
            answer_all_total none_open (firsts cmd ++ chain cmd ∷ []) cmd db first titles
              (firsts-guarded cmd (chain cmd) g)
              (ap (λ hs. answer_all env host none_open hs cmd db first) (sym (handlers-firsts cmd))
                ∙ stuck))
        | inr ((out, db'), found) ↦ (out.sent, db', rw found refl)
      ]
