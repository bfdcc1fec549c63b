-- ===== src/Update/Waits.antt =====
-- What an /updateDB promises of the time in the queue: it is that of the last change of the queue.
use mathlib.Core.Path.{subst}
use kueued.Prelude.{Text, eq_iff, ℕ, List, contains, true, none, some, ◌≡◌, ◌≢◌, refl, sym, arith}
use kueued.Items.{SiebelItem}
use kueued.Sql.{Env, Mysql}
use kueued.Sql.Rows.{SrRow}
use kueued.Database.Siebel.{inserted_row, refreshed_row, requeued_row}
use kueued.Update.Loop.{trace_keeps, trace_gives, AllAt}
use kueued.Update.Steps.{update_unity}
use kueued.Update.Rows.{Entry, entry, visit, settled}
use kueued.Update.Mirror.{ids}
use kueued.Update.Effects.{HasSr, entry_listed}

-- `r` waits in the queue `q` since `t`.
abbrev pub WaitsSince : Text → Text → SrRow → Type 0
WaitsSince q t r = (r.queue ≡ q) × (r.inqueue ≡ t)

-- `r` waits in the queue `q` since the time that some round of the loop read.
abbrev pub WaitsSinceRound : (ℕ → Text) → Text → SrRow → Type 0
WaitsSinceRound clock q r = (r.queue ≡ q) × ((i : ℕ) × (r.inqueue ≡ clock i))

-- The row, if there is one, is in another queue.
abbrev pub IsElsewhere : Text → Entry → Type 0
IsElsewhere q e = (r : SrRow) → e.0 ≡ some r → r.queue ≢ q

module _ {D : Type 0} {S : Type 0 → Type 0} (env : Env D S) where
  visit-kept :
      (clock : ℕ → Text) (q t : Text) (i : ℕ) (x : SiebelItem) (e : Entry)
      → x.queue ≡ q
      → HasSr (WaitsSince q t) e
      → HasSr (WaitsSince q t) (visit env clock i x e)
  unfolding visit refreshed_row requeued_row
  visit-kept clock q t i x (none, c) same h = absurd (ground arith)
  visit-kept clock q t i x (some r, c) same h =
      (settled env (clock i) x (some r), refl, ground (arith, eq_iff r.queue x.queue))

  -- An SR that is still in its queue keeps the time since when it waits there.
  pub inqueue-update_unity_same :
      (clock : ℕ → Text) (list : List SiebelItem) (db : Mysql S) (j q t : Text)
      → AllAt (λ x. x.id) j (λ x. x.queue ≡ q) list
      → contains j (ids list) ≡ true
      → HasSr (WaitsSince q t) (entry env db j)
      → HasSr (WaitsSince q t) (entry env (update_unity env clock list db) j)
  inqueue-update_unity_same clock list db j q t same listed h =
      subst (HasSr (WaitsSince q t)) (sym (entry_listed env clock list db j listed)) (
        trace_keeps (visit env clock) (λ x. x.id) j (HasSr (WaitsSince q t)) (λ x. x.queue ≡ q)
          (λ i x e s w. visit-kept clock q t i x e s w) 0 list (entry env db j) same h)

  visit-moved :
      (clock : ℕ → Text) (q : Text) (i : ℕ) (x : SiebelItem) (e : Entry)
      → x.queue ≡ q
      → IsElsewhere q e
      → HasSr (WaitsSinceRound clock q) (visit env clock i x e)
  unfolding visit inserted_row refreshed_row requeued_row
  visit-moved clock q i x (none, c) same h = (settled env (clock i) x none, refl, (same, (i, refl)))
  visit-moved clock q i x (some r, c) same h = (
    settled env (clock i) x (some r),
    refl,
    (ground (arith, eq_iff r.queue x.queue), (i, ground (arith, eq_iff r.queue x.queue, h r))),
  )

  visit-still :
      (clock : ℕ → Text) (q : Text) (i : ℕ) (x : SiebelItem) (e : Entry)
      → x.queue ≡ q
      → HasSr (WaitsSinceRound clock q) e
      → HasSr (WaitsSinceRound clock q) (visit env clock i x e)
  visit-still clock q i x e same (r, is_r, (at_q, (k, since))) =
      let after = visit-kept clock q (clock k) i x e same (r, is_r, (at_q, since)) in
      (after.0, after.1, (after.2.0, (k, after.2.1)))

  -- An SR that is new, or that has come to another queue, waits there since a time that the update
  -- read.
  pub inqueue-update_unity_moved :
      (clock : ℕ → Text) (list : List SiebelItem) (db : Mysql S) (j q : Text)
      → AllAt (λ x. x.id) j (λ x. x.queue ≡ q) list
      → contains j (ids list) ≡ true
      → IsElsewhere q (entry env db j)
      → HasSr (WaitsSinceRound clock q) (entry env (update_unity env clock list db) j)
  inqueue-update_unity_moved clock list db j q same listed h =
      subst (HasSr (WaitsSinceRound clock q)) (sym (entry_listed env clock list db j listed)) (
        trace_gives (visit env clock) (λ x. x.id) j (IsElsewhere q)
          (HasSr (WaitsSinceRound clock q)) (λ x. x.queue ≡ q)
          (λ i x e s w. visit-moved clock q i x e s w) (λ i x e s w. visit-still clock q i x e s w)
          0 list (entry env db j) same listed h)
