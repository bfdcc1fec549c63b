-- ===== src/Update/Programs/Alone.antt =====
-- With no other thread beside it, the two loops of /updateDB as programs do what Update/Steps has them do.
use kueued.Prelude.{
  Text, ◌==◌, Bool, if◌then◌else◌, ℕ, suc, List, [], ◌∷◌, contains, true, false, ◌≡◌, refl, ◌∙◌,
  Bool-cases, inl, inr,
}
use kueued.Items.{SiebelItem, BomgarItem}
use kueued.Sql.{Env, Mysql}
use kueued.Database.Siebel.{
  update_siebel_item, update_siebel_queue, delete_siebel_item_from_db, siebel_exists_in_db,
  siebel_queue_changed,
}
use kueued.Database.Chat.{delete_bomgar_item_from_db, bomgar_exists_in_db, get_bomgar_queue_by_id}
use kueued.Update.Loop.{for_each, prune}
use kueued.Update.Steps.{bomgar_step, update_bomgars, siebel_step, update_unity}
use kueued.Update.Programs.{Prog, write, alone}
use kueued.Update.Programs.Request.{visits, deletions, bomgar_visit, bomgars, siebel_visit, unity}

module _ {M Item : Type 0} where
  alone-visits :
      (visit : ℕ → Item → Prog M → Prog M) (step : ℕ → Item → M → M)
      → ((i : ℕ) (x : Item) (rest : Prog M) (m : M)
          → alone (visit i x rest) m ≡ alone rest (step i x m))
      → (i : ℕ) (xs : List Item) (rest : Prog M) (m : M)
      → alone (visits visit i xs rest) m ≡ alone rest (for_each step i xs m)
  unfolding visits for_each
  alone-visits visit step h i [] rest m = refl
  alone-visits visit step h i (x ∷ xs) rest m =
      h i x (visits visit (suc i) xs rest) m
      ∙ alone-visits visit step h (suc i) xs rest (step i x m)

module _ {M : Type 0} where
  alone-if :
      (b : Bool) (p q rest : Prog M) (m x y : M)
      → alone p m ≡ alone rest x
      → alone q m ≡ alone rest y
      → alone (if b then p else q) m ≡ alone rest (if b then x else y)
  alone-if true p q rest m x y h k = h
  alone-if false p q rest m x y h k = k

  alone-deletions :
      (del : Text → M → M) (keep ids : List Text) (rest : Prog M) (m : M)
      → alone (deletions del keep ids rest) m ≡ alone rest (prune del keep ids m)
  unfolding deletions prune alone
  alone-deletions del keep [] rest m = refl
  alone-deletions del keep (id ∷ ids) rest m = elim (Bool-cases (contains id keep)) [
    | inl e ↦ rw e (alone-deletions del keep ids rest m)
    | inr e ↦ rw e (alone-deletions del keep ids rest (del id m))
  ]

module _ {D : Type 0} {S : Type 0 → Type 0} (env : Env D S) where
  alone-bomgar_visit :
      (i : ℕ) (bi : BomgarItem) (rest : Prog (Mysql S)) (m : Mysql S)
      → alone (bomgar_visit env i bi rest) m ≡ alone rest (bomgar_step env i bi m)
  unfolding bomgar_visit bomgar_step alone
  alone-bomgar_visit i bi rest m =
      alone-if (bomgar_exists_in_db env bi.id m) _ _ rest _ _ _
        (alone-if (get_bomgar_queue_by_id env bi.id m == bi.name) _ _ rest _ _ _ refl refl) refl

  alone-siebel_visit :
      (clock : ℕ → Text) (i : ℕ) (item : SiebelItem) (rest : Prog (Mysql S)) (m : Mysql S)
      → alone (siebel_visit env clock i item rest) m ≡ alone rest (siebel_step env clock i item m)
  unfolding siebel_visit siebel_step alone
  alone-siebel_visit clock i item rest m =
      alone-if (siebel_exists_in_db env item.id m) _ _ rest _ _ _
        (requeue_if (siebel_queue_changed env item m)) refl
    where
      requeue_if :
          (b : Bool)
          → alone
              (if b
                then write
                    (update_siebel_queue env (clock i) item)
                    (write (update_siebel_item env item) rest)
                else write (update_siebel_item env item) rest)
              m
            ≡ alone rest (
                update_siebel_item env item
                  (if b then update_siebel_queue env (clock i) item m else m))
      requeue_if true = refl
      requeue_if false = refl

  pub alone-bomgars :
      (list : List BomgarItem) (rest : Prog (Mysql S)) (m : Mysql S)
      → alone (bomgars env list rest) m ≡ alone rest (update_bomgars env list m)
  unfolding bomgars update_bomgars
  alone-bomgars list rest m =
      alone-visits (bomgar_visit env) (bomgar_step env) alone-bomgar_visit 0 list _ m
      ∙ (unfold alone in alone-deletions (delete_bomgar_item_from_db env) _ _ rest _)

  pub alone-unity :
      (clock : ℕ → Text) (list : List SiebelItem) (rest : Prog (Mysql S)) (m : Mysql S)
      → alone (unity env clock list rest) m ≡ alone rest (update_unity env clock list m)
  unfolding unity update_unity
  alone-unity clock list rest m =
      alone-visits (siebel_visit env clock) (siebel_step env clock) (alone-siebel_visit clock) 0
        list _ m
      ∙ (unfold alone in alone-deletions (delete_siebel_item_from_db env) _ _ rest _)
