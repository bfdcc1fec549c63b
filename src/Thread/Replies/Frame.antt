-- ===== src/Thread/Replies/Frame.antt =====
-- What the handlers leave in the local tables.
use mathlib.Core.Path.{subst}
use kueued.Prelude.{
  Text, is_empty, [], ◌∷◌, ◌++◌, Bool, true, false, Option, none, some, if◌then◌else◌, lit, ◌≡◌,
  ◌≢◌, refl, sym, arith, Option-cases, Bool-cases, inl, inr,
}
use kueued.QString.Replace.{starts_with, remove}
use kueued.Sql.{Env, Mysql}
use kueued.Database.Lookups.{at_0, get_sr_for_cr}
use kueued.Database.Engineer.{get_user_queue, get_sr_info}
use kueued.Database.Frame.{Agree, get_sr_for_cr-Agree}
use kueued.Database.Engineer.Frame.{get_user_queue-Agree, get_sr_info-Agree}
use kueued.Database.Ltss.{update_ltss_customers, update_ltss_customers-remote}
use kueued.Thread.Out.{Host, Out, put, head_lines}
use kueued.Thread.Routes.{Handler, chain, handlers, firsts, handlers-firsts}
use kueued.Thread.Arguments.{sr_argument}
use kueued.Thread.Connections.{Opened, none_open, opening, within}
use kueued.Thread.Replies.{
  srforcr_found, srinfo_found, answer_ltssupdate, user_queue_of, answer_userqueue, beside, answer,
  answer_all, serve,
}

module _ {D : Type 0} {S : Type 0 → Type 0} (env : Env D S) (host : Host D) where
  -- What a handler but that of /updateDB does to the tables other than CRSR and BUG.
  unfoldable pub after : Handler → Mysql S → Mysql S
  after Handler.ltssupdate db = update_ltss_customers env db
  after h db = db

  beside-same :
      (db db' : Mysql S) (o : Option Out) (out' : Out)
      → beside env host db o ≡ some (out', db')
      → Agree db db'
  beside-same db db' none out' h = absurd (ground arith)
  beside-same db db' (some out) out' h = ground arith

  srforcr-Agree :
      (q : Option Text) (db db' : Mysql S) (out out' : Out)
      → srforcr_found env host q db out ≡ some (out', db')
      → Agree db db'
  unfolding srforcr_found
  srforcr-Agree none db db' out out' h = ground arith
  srforcr-Agree (some q) db db' out out' h = elim (Option-cases (get_sr_for_cr env q db)) [
    | inl e ↦ absurd (ground arith)
    | inr ((l, db1), e) ↦ elim (Option-cases (at_0 l)) [
      | inl f ↦ absurd (ground arith)
      | inr (sr, f) ↦
          let last : db1 ≡ db' = ground arith in
          rw (sym last) (get_sr_for_cr-Agree env q db db1 l e)
    ]
  ]

  srinfo-Agree :
      (q : Option Text) (db db' : Mysql S) (out out' : Out)
      → srinfo_found env host q db out ≡ some (out', db')
      → Agree db db'
  unfolding srinfo_found
  srinfo-Agree none db db' out out' h = ground arith
  srinfo-Agree (some q) db db' out out' h =
      elim (Option-cases (get_sr_info env host.junk host.level host.off q db)) [
        | inl e ↦ absurd (ground arith)
        | inr ((i, db1), e) ↦
            let last : db1 ≡ db' = ground arith in
            rw (sym last) (get_sr_info-Agree env host.junk host.level host.off q db db1 i e)
      ]

  user_queue-Agree :
      (subowner : Bool) (engineer : Text) (db db' : Mysql S) (out out' : Out)
      → user_queue_of env host subowner engineer db out ≡ some (out', db')
      → Agree db db'
  unfolding user_queue_of
  user_queue-Agree subowner engineer db db' out out' h =
      elim (Option-cases (get_user_queue env host.junk host.level host.off subowner engineer db)) [
        | inl e ↦ absurd (ground arith)
        | inr ((items, db1), e) ↦
            let last : db1 ≡ db' = ground arith in
            rw (sym last) (
              get_user_queue-Agree env host.junk host.level host.off subowner engineer db db1 items
                e)
      ]

  userqueue-Agree :
      (cmd : Text) (db db' : Mysql S) (out out' : Out)
      → answer_userqueue env host cmd db out ≡ some (out', db')
      → Agree db db'
  unfolding answer_userqueue
  userqueue-Agree cmd db db' out out' h =
      let q = remove (lit "/userqueue") cmd in
      elim (Bool-cases (starts_with q (lit "/full/"))) [
        | inl e ↦
            user_queue-Agree true (host.to_upper (remove (lit "/") (remove (lit "/full/") q))) db
              db' out out' (ground arith)
        | inr e ↦ elim (Bool-cases (is_empty (remove (lit "/") q))) [
          | inl f ↦ ground arith
          | inr f ↦
              user_queue-Agree false (host.to_upper (remove (lit "/") q)) db db' out out'
                (ground arith)
        ]
      ]

  pub answer-after :
      (h : Handler) (cmd : Text) (db db' : Mysql S) (out out' : Out)
      → h ≢ Handler.update_db
      → answer env host h cmd db out ≡ some (out', db')
      → Agree (after h db) db'
  unfolding answer after answer_ltssupdate
  answer-after Handler.srnrs cmd db db' out out' ne h = beside-same db db' _ out' h
  answer-after Handler.chat cmd db db' out out' ne h = beside-same db db' _ out' h
  answer-after Handler.assign cmd db db' out out' ne h = beside-same db db' _ out' h
  answer-after Handler.stats cmd db db' out out' ne h = beside-same db db' _ out' h
  answer-after Handler.srforcr cmd db db' out out' ne h =
      srforcr-Agree (sr_argument (lit "/srforcr") cmd) db db' out out' h
  answer-after Handler.srinfo cmd db db' out out' ne h =
      srinfo-Agree (sr_argument (lit "/srinfo") cmd) db db' out out' h
  answer-after Handler.userqueue cmd db db' out out' ne h = userqueue-Agree cmd db db' out out' h
  answer-after Handler.update_db cmd db db' out out' ne h = absurd (ne refl)
  answer-after Handler.qmon_date cmd db db' out out' ne h = ground arith
  answer-after Handler.ltsscustomers cmd db db' out out' ne h = ground arith
  answer-after Handler.qmon cmd db db' out out' ne h = ground arith
  answer-after Handler.srstatus cmd db db' out out' ne h = ground arith
  answer-after Handler.latestkueue cmd db db' out out' ne h = ground arith
  answer-after Handler.detailed cmd db db' out out' ne h = ground arith
  answer-after Handler.ltssupdate cmd db db' out out' ne h = ground arith
  answer-after Handler.pseudo_q cmd db db' out out' ne h = ground arith
  answer-after Handler.unity_url cmd db db' out out' ne h = ground arith
  answer-after Handler.welcome cmd db db' out out' ne h = ground arith

module _ {D : Type 0} {S : Type 0 → Type 0} (env : Env D S) (host : Host D) where
  -- /ltssupdate has the connection open that it reads from.
  after-within :
      (h : Handler) (o : Opened) (db : Mysql S)
      → after (within (opening h o) env) host h db ≡ after env host h db
  unfolding after within opening
  after-within Handler.ltssupdate o db =
      update_ltss_customers-remote env (within (opening Handler.ltssupdate o) env).remote db refl
  after-within Handler.qmon_date o db = refl
  after-within Handler.ltsscustomers o db = refl
  after-within Handler.qmon o db = refl
  after-within Handler.srnrs o db = refl
  after-within Handler.srforcr o db = refl
  after-within Handler.srinfo o db = refl
  after-within Handler.srstatus o db = refl
  after-within Handler.latestkueue o db = refl
  after-within Handler.detailed o db = refl
  after-within Handler.update_db o db = refl
  after-within Handler.chat o db = refl
  after-within Handler.pseudo_q o db = refl
  after-within Handler.unity_url o db = refl
  after-within Handler.assign o db = refl
  after-within Handler.userqueue o db = refl
  after-within Handler.stats o db = refl
  after-within Handler.welcome o db = refl

  last-after :
      (h : Handler) (o : Opened) (cmd : Text) (db db' : Mysql S) (out out' : Out)
      → h ≢ Handler.update_db
      → answer_all env host o (h ∷ []) cmd db out ≡ some (out', db')
      → Agree (after env host h db) db'
  unfolding answer_all
  last-after h o cmd db db' out out' ne e =
      let env' = within (opening h o) env in
      elim (Option-cases (answer env' host h cmd db out)) [
        | inl f ↦ absurd (ground arith)
        | inr ((out1, db1), f) ↦
            let last : db1 ≡ db' = ground arith in
            rw (sym last, sym (after-within h o db))
              (answer-after env' host h cmd db db1 out out1 ne f)
      ]

  -- The two handlers whose tests have no else write to the socket alone.
  firsts-after :
      (d l : Bool) (h : Handler) (cmd : Text) (db db' : Mysql S) (out out' : Out)
      → h ≢ Handler.update_db
      → answer_all env host none_open
          (((if d then Handler.qmon_date ∷ [] else [])
              ++ (if l then Handler.ltsscustomers ∷ [] else []))
            ++ h ∷ [])
          cmd
          db
          out
        ≡ some (out', db')
      → Agree (after env host h db) db'
  unfolding answer_all answer
  firsts-after true true h cmd db db' out out' ne e = last-after h _ cmd db db' _ out' ne e
  firsts-after true false h cmd db db' out out' ne e = last-after h _ cmd db db' _ out' ne e
  firsts-after false true h cmd db db' out out' ne e = last-after h _ cmd db db' _ out' ne e
  firsts-after false false h cmd db db' out out' ne e =
      last-after h none_open cmd db db' out out' ne e

  -- A GET request leaves QMON_SIEBEL, CUSTOMER, QMON_CHAT and PSEUDOQ as they are unless its path is
  -- one of /updateDB, and the table of LTSS customers unless it is one of /ltssupdate, which brings
  -- that table up to date.
  pub serve-after :
      (cmd sent : Text) (db db' : Mysql S)
      → chain cmd ≢ Handler.update_db
      → serve env host cmd db ≡ some (sent, db')
      → Agree (after env host (chain cmd) db) db'
  unfolding serve firsts
  serve-after cmd sent db db' ne h =
      let first = put (head_lines host.hostname) (record { sent = []; is_open = true }) in
      elim (Option-cases (answer_all env host none_open (handlers cmd) cmd db first)) [
        | inl e ↦ absurd (ground arith)
        | inr ((out, db1), e) ↦
            let last : db1 ≡ db' = ground arith in
            let runs =
              subst (λ hs. answer_all env host none_open hs cmd db first ≡ some (out, db1))
                (handlers-firsts cmd) e in
            rw (sym last) (
              firsts-after (starts_with cmd (lit "/qmon_date"))
                (starts_with cmd (lit "/ltsscustomers")) (chain cmd) cmd db db1 first out ne runs)
      ]
