-- ===== src/Update/Programs/Faultless.antt =====
-- While each related request has a title, no /updateDB faults.
use kueued.Prelude.{
  Text, lit, ◌==◌, ℕ, suc, List, [], ◌∷◌, contains, value, Bool, true, false, Option, none, some,
  if◌then◌else◌, ◌≢◌, refl, arith, Option-cases, inl, inr,
}
use kueued.Items.{SiebelItem, BomgarItem}
use kueued.Sql.{Env, Mysql}
use kueued.Database.Siebel.{
  delete_siebel_item_from_db, get_qmon_siebel_list, siebel_exists_in_db, siebel_queue_changed,
}
use kueued.Database.Chat.{
  delete_bomgar_item_from_db, get_qmon_bomgar_list, bomgar_exists_in_db, get_bomgar_queue_by_id,
}
use kueued.Database.Cache.{AreTitled}
use kueued.Database.Lookups.{
  at_0, at_3, get_sr_for_cr_mysql, get_sr_for_cr_report, update_pseudo_queues,
}
use kueued.Update.Mirror.{ids}
use kueued.Update.Chats.{chat_ids}
use kueued.Update.Programs.{Prog, done, write}
use kueued.Update.Programs.Fair.{NoFault}
use kueued.Update.Programs.Request.{
  no_texts, visits, deletions, bomgar_visit, bomgars, siebel_visit, unity, unless_fault, lookup,
  lookups, update_program,
}

module _ {M : Type 0} where
  if_NoFault : (b : Bool) (p q : Prog M) → NoFault p → NoFault q → NoFault (if b then p else q)
  if_NoFault true p q h k = h
  if_NoFault false p q h k = k

  visits-NoFault :
      {Item : Type 0} (visit : ℕ → Item → Prog M → Prog M)
      → ((i : ℕ) (x : Item) (rest : Prog M) → NoFault rest → NoFault (visit i x rest))
      → (i : ℕ) (xs : List Item) (rest : Prog M) → NoFault rest
      → NoFault (visits visit i xs rest)
  unfolding visits
  visits-NoFault visit h i [] rest s = s
  visits-NoFault visit h i (x ∷ xs) rest s =
      h i x (visits visit (suc i) xs rest) (visits-NoFault visit h (suc i) xs rest s)

  deletions-NoFault :
      (del : Text → M → M) (keep ids : List Text) (rest : Prog M)
      → NoFault rest
      → NoFault (deletions del keep ids rest)
  unfolding deletions
  deletions-NoFault del keep [] rest s = s
  deletions-NoFault del keep (id ∷ ids) rest s =
      let later = deletions-NoFault del keep ids rest s in
      if_NoFault (contains id keep) _ _ later (λ m. later)

module _ {D : Type 0} {S : Type 0 → Type 0} (env : Env D S) where
  bomgar_visit-NoFault :
      (i : ℕ) (bi : BomgarItem) (rest : Prog (Mysql S))
      → NoFault rest
      → NoFault (bomgar_visit env i bi rest)
  unfolding bomgar_visit
  bomgar_visit-NoFault i bi rest s m =
      if_NoFault (bomgar_exists_in_db env bi.id m) _ _
        (λ now. if_NoFault (get_bomgar_queue_by_id env bi.id now == bi.name) _ _ s (λ n. s))
        (λ now. s)

  bomgars-NoFault :
      (list : List BomgarItem) (rest : Prog (Mysql S))
      → NoFault rest
      → NoFault (bomgars env list rest)
  unfolding bomgars
  bomgars-NoFault list rest s = visits-NoFault (bomgar_visit env) bomgar_visit-NoFault 0 list _ λ m.
      deletions-NoFault (delete_bomgar_item_from_db env) (chat_ids list)
        (get_qmon_bomgar_list env m) rest s

  siebel_visit-NoFault :
      (clock : ℕ → Text) (i : ℕ) (item : SiebelItem) (rest : Prog (Mysql S))
      → NoFault rest
      → NoFault (siebel_visit env clock i item rest)
  unfolding siebel_visit
  siebel_visit-NoFault clock i item rest s m =
      if_NoFault (siebel_exists_in_db env item.id m) _ _
        (λ now. if_NoFault (siebel_queue_changed env item now) _ _ (λ n o. s) (λ n. s)) (λ now. s)

  unity-NoFault :
      (clock : ℕ → Text) (list : List SiebelItem) (rest : Prog (Mysql S))
      → NoFault rest
      → NoFault (unity env clock list rest)
  unfolding unity
  unity-NoFault clock list rest s =
      visits-NoFault (siebel_visit env clock) (siebel_visit-NoFault clock) 0 list _ λ m.
        deletions-NoFault (delete_siebel_item_from_db env) (ids list) (get_qmon_siebel_list env m)
          rest s

  module _ (titles : AreTitled env) where
    report_answers : (cr : Text) (m : Mysql S) → get_sr_for_cr_report env cr m ≢ none
    unfolding get_sr_for_cr_report at_0 at_3
    report_answers cr m h = elim (Option-cases (env.remote.related_sr cr)) [
      | inl lone ↦ absurd (ground arith)
      | inr (sr, related) ↦ elim (Option-cases (env.remote.sr_title sr)) [
        | inl untitled ↦ titles cr sr related untitled
        | inr (row, titled) ↦ absurd (ground arith)
      ]
    ]

    unless_fault-NoFault :
        (o : Option (List Text × Mysql S)) (rest : Prog (Mysql S))
        → o ≢ none
        → NoFault rest
        → NoFault (unless_fault env o rest)
    unfolding unless_fault
    unless_fault-NoFault none rest h s = absurd (h refl)
    unless_fault-NoFault (some answer) rest h s = s

    lookups-NoFault :
        (rows : List (List Text)) (rest : Prog (Mysql S))
        → NoFault rest
        → NoFault (lookups env rows rest)
    unfolding lookups lookup
    lookups-NoFault [] rest s = s
    lookups-NoFault (row ∷ rows) rest s =
        let later = lookups-NoFault rows rest s in
        if_NoFault (value 16 row == lit "Collaboration")
          (lookup env (value 0 row) (lookups env rows rest)) (lookups env rows rest)
          (λ m.
            if_NoFault (no_texts (get_sr_for_cr_mysql env (value 0 row) m)) _ _
              (λ n. unless_fault-NoFault _ _ (report_answers (value 0 row) n) later) later)
          later

    pub update_program-NoFault :
        (clock : ℕ → Text) (full : Bool) (chats : List BomgarItem) (list : List SiebelItem)
        → NoFault (update_program env clock full chats list)
    unfolding update_program
    update_program-NoFault clock full chats list =
        let parts =
          bomgars-NoFault chats _
            (lookups-NoFault env.remote.open_srs _ (unity-NoFault clock list done tt)) in
        if_NoFault full
          (write (update_pseudo_queues env)
            (bomgars env chats (lookups env env.remote.open_srs (unity env clock list done))))
          (bomgars env chats (lookups env env.remote.open_srs (unity env clock list done)))
          (λ m. parts) parts
