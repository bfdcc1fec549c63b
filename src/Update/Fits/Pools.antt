-- ===== src/Update/Fits/Pools.antt =====
-- Any number of requests at once: at every time of every schedule the rows of the tables fit in the
-- documents, and so does what XML::qmon makes of them.
use kueued.Prelude.{Text, ℕ, ℤ, List, All, Bool, true, ◌≡◌, sym, ◌⊎◌, inl, inr}
use mathlib.Core.Path.{subst}
use kueued.Items.{SiebelItem, BomgarItem}
use kueued.Sql.{Env, Mysql}
use kueued.Xml.Scan.{IsBalanced, is_plain}
use kueued.Xml.Qmon.{qmon}
use kueued.Xml.QmonBalanced.{qmon-IsBalanced}
use kueued.Database.Queue.{get_srs_for_queue}
use kueued.Update.Programs.{Prog, done, Pool, runs}
use kueued.Update.Programs.Rely.{Safe, runs_keep}
use kueued.Update.Programs.Request.{update_program}
use kueued.Update.Fits.{TablesFit, RemoteFits}
use kueued.Update.Fits.Items.{ItemFits}
use kueued.Update.Fits.Tables.{
  KeyFits, KeyFits-TablesFit, TablesFit-KeyFits, unity-KeyFits, bomgars-KeyFits,
}
use kueued.Update.Fits.Lookups.{update_pseudo_queues-KeyFits, reported-KeyFits}
use kueued.Update.Programs.Lookups.{update_program-Safe, lookups-Safe}
use kueued.Update.Fits.Listed.{get_srs_for_queue-AllFit}

module _ {D : Type 0} {S : Type 0 → Type 0} (env : Env D S) (remote : RemoteFits env) where
  -- The thread runs an /updateDB whose items and chats fit, or a request that keeps fit what is
  -- there under each key.
  abbrev pub KeepsFit : Prog (Mysql S) → Type 0
  KeepsFit prog =
      ((clock : ℕ → Text) × (full : Bool) × (chats : List BomgarItem) × (list : List SiebelItem)
        × (prog ≡ update_program env clock full chats list)
        × All (λ x. is_plain x.name ≡ true) chats
        × All ItemFits list)
      ⊎ ((j : Text) → Safe (KeyFits env j) prog)

  KeepsFit-KeyFits : (j : Text) (prog : Prog (Mysql S)) → KeepsFit prog → Safe (KeyFits env j) prog
  KeepsFit-KeyFits j prog (inl (clock, full, chats, list, same, plain, fits)) =
      subst (Safe (KeyFits env j)) (sym same) (
        update_program-Safe env (KeyFits env j) (update_pseudo_queues-KeyFits env j) clock full
          chats list
          (bomgars-KeyFits env j chats _ plain (
            lookups-Safe env (KeyFits env j) (reported-KeyFits env j remote) env.remote.open_srs _
              (unity-KeyFits env j remote clock list done fits tt))))
  KeepsFit-KeyFits j prog (inr safe) = safe j

  -- Threads of any number run at once, each an /updateDB whose items and chats fit, or a request that
  -- keeps fit what is there under each key. If what the remote side hands out fits, and every row of
  -- the tables fits at the start, then at every time, also in the middle of an update, the document
  -- that XML::qmon makes of the tables for a queue closes every element that it opens.
  pub qmon_at_any_time :
      (schedule : ℕ → ℕ) (t : ℕ) (p : Pool (Mysql S)) (junk : Bool) (now : D) (timezone : ℤ)
      (queue : Text)
      → TablesFit env p.shared
      → ((i : ℕ) → KeepsFit (p.threads i))
      → IsBalanced (
          qmon env.times now timezone (get_srs_for_queue env junk queue (runs schedule t p).shared))
  qmon_at_any_time schedule t p junk now timezone queue fits keep =
      qmon-IsBalanced env.times now timezone _ (
        get_srs_for_queue-AllFit env junk (runs schedule t p).shared
          (KeyFits-TablesFit env _ λ j.
            runs_keep (KeyFits env j) schedule t p (λ i. KeepsFit-KeyFits j (p.threads i) (keep i))
              (TablesFit-KeyFits env p.shared fits j))
          queue)
