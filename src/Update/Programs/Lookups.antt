-- ===== src/Update/Programs/Lookups.antt =====
-- The parts of /updateDB that write other tables: the pseudo queues, and the lookups of getQmonSrs.
use kueued.Prelude.{
  Text, lit, ◌==◌, ℕ, List, [], ◌∷◌, value, Bool, Option, none, some, ◌≡◌, refl, ap, inr,
}
use kueued.Items.{SiebelItem, BomgarItem}
use kueued.Sql.{Env, Mysql}
use kueued.Sql.Rows.{SrRow, CustomerRow, ChatRow}
use kueued.Database.Lookups.{
  get_sr_for_cr_mysql, get_sr_for_cr_report, update_pseudo_queues, insert_pseudo_queues,
}
use kueued.Database.Frame.{report-Agree}
use kueued.Update.Programs.{Prog, done, write}
use kueued.Update.Programs.Rely.{Safe, Gives}
use kueued.Update.Programs.Loops.{if_Safe, if_Gives}
use kueued.Update.Programs.Request.{
  no_texts, reported, unless_fault, lookup, lookups, bomgars, unity, update_program,
}

module _ {S : Type 0 → Type 0} where
  -- The tables of SRs and chats.
  abbrev pub main_tables : Mysql S → S SrRow × S CustomerRow × S ChatRow
  main_tables m = (m.siebel, m.customer, m.chat)

  -- A condition on those tables alone.
  abbrev pub ReadsMain : (Mysql S → Type 0) → Type 0
  ReadsMain P = (m n : Mysql S) → main_tables m ≡ main_tables n → P m → P n

module _ {D : Type 0} {S : Type 0 → Type 0} (env : Env D S) where
  pub main_tables-reported :
      (cr : Text) (m : Mysql S)
      → main_tables m ≡ main_tables (reported env m (get_sr_for_cr_report env cr m))
  unfolding reported
  main_tables-reported cr m = go (get_sr_for_cr_report env cr m) refl
    where
      go :
          (o : Option (List Text × Mysql S))
          → get_sr_for_cr_report env cr m ≡ o
          → main_tables m ≡ main_tables (reported env m o)
      go none e = refl
      go (some (l, n)) e = ap main_tables (report-Agree env cr m n l e)

  main_tables-insert_pseudo_queues :
      (rows : List (List Text)) (m : Mysql S)
      → main_tables m ≡ main_tables (insert_pseudo_queues env rows m)
  unfolding insert_pseudo_queues
  main_tables-insert_pseudo_queues [] m = refl
  main_tables-insert_pseudo_queues (row ∷ rows) m = main_tables-insert_pseudo_queues rows _

  pub main_tables-update_pseudo_queues :
      (m : Mysql S) → main_tables m ≡ main_tables (update_pseudo_queues env m)
  unfolding update_pseudo_queues
  main_tables-update_pseudo_queues m = main_tables-insert_pseudo_queues env.remote.pseudo_queues m

  module _ (P : Mysql S → Type 0) where
    unless_fault-Safe :
        (o : Option (List Text × Mysql S)) (rest : Prog (Mysql S))
        → Safe P rest
        → Safe P (unless_fault env o rest)
    unfolding unless_fault
    unless_fault-Safe none rest s = tt
    unless_fault-Safe (some answer) rest s = s

    unless_fault-Gives :
        (o : Option (List Text × Mysql S)) (rest : Prog (Mysql S))
        → Gives P rest
        → Gives P (unless_fault env o rest)
    unfolding unless_fault
    unless_fault-Gives none rest g = tt
    unless_fault-Gives (some answer) rest g = g

    pub lookups-Safe :
        ((cr : Text) (m : Mysql S) → P m → P (reported env m (get_sr_for_cr_report env cr m)))
        → (rows : List (List Text)) (rest : Prog (Mysql S)) → Safe P rest
        → Safe P (lookups env rows rest)
    unfolding lookups lookup
    lookups-Safe keeps [] rest s = s
    lookups-Safe keeps (row ∷ rows) rest s =
        let later = lookups-Safe keeps rows rest s in
        if_Safe P (value 16 row == lit "Collaboration")
          (lookup env (value 0 row) (lookups env rows rest)) (lookups env rows rest)
          (λ e m. (
            λ h. h,
            if_Safe P (no_texts (get_sr_for_cr_mysql env (value 0 row) m)) _ _
                (λ f n. (
                  keeps (value 0 row) n,
                  unless_fault-Safe (get_sr_for_cr_report env (value 0 row) n) _ later,
                ))
                (λ f. later),
          ))
          (λ e. later)

    pub lookups-Gives_later :
        (rows : List (List Text)) (rest : Prog (Mysql S))
        → Gives P rest
        → Gives P (lookups env rows rest)
    unfolding lookups lookup
    lookups-Gives_later [] rest g = g
    lookups-Gives_later (row ∷ rows) rest g =
        let later = lookups-Gives_later rows rest g in
        if_Gives P (value 16 row == lit "Collaboration")
          (lookup env (value 0 row) (lookups env rows rest)) (lookups env rows rest)
          (λ e m. inr (
            if_Gives P (no_texts (get_sr_for_cr_mysql env (value 0 row) m)) _ _
              (λ f n. inr (unless_fault-Gives (get_sr_for_cr_report env (value 0 row) n) _ later))
              (λ f. later)))
          (λ e. later)

    -- The whole request, for the program of its two parts.
    abbrev pub parts : (ℕ → Text) → List BomgarItem → List SiebelItem → Prog (Mysql S)
    parts clock chats list =
        bomgars env chats (lookups env env.remote.open_srs (unity env clock list done))

    pub update_program-Safe :
        ((m : Mysql S) → P m → P (update_pseudo_queues env m))
        → (clock : ℕ → Text) (full : Bool) (chats : List BomgarItem) (list : List SiebelItem)
        → Safe P (parts clock chats list)
        → Safe P (update_program env clock full chats list)
    unfolding update_program
    update_program-Safe keeps clock full chats list s =
        if_Safe P full (write (update_pseudo_queues env) (parts clock chats list))
          (parts clock chats list) (λ e m. (keeps m, s)) (λ e. s)

    pub update_program-Gives :
        (clock : ℕ → Text) (full : Bool) (chats : List BomgarItem) (list : List SiebelItem)
        → Gives P (parts clock chats list)
        → Gives P (update_program env clock full chats list)
    unfolding update_program
    update_program-Gives clock full chats list g =
        if_Gives P full (write (update_pseudo_queues env) (parts clock chats list))
          (parts clock chats list) (λ e m. inr g) (λ e. g)

    -- For a condition on the tables of SRs and chats, the two loops are enough.
    pub update_program-SafeMain :
        ReadsMain P
        → (clock : ℕ → Text) (full : Bool) (chats : List BomgarItem) (list : List SiebelItem)
        → ((rest : Prog (Mysql S)) → Safe P rest → Safe P (bomgars env chats rest))
        → Safe P (unity env clock list done)
        → Safe P (update_program env clock full chats list)
    update_program-SafeMain main clock full chats list first second =
        update_program-Safe (λ m. main m _ (main_tables-update_pseudo_queues m)) clock full chats
          list
          (first _ (
            lookups-Safe (λ cr m. main m _ (main_tables-reported cr m)) env.remote.open_srs _
              second))
