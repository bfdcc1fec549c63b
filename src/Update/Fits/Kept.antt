-- ===== src/Update/Fits/Kept.antt =====
-- /updateDB keeps the tables fit for the documents, if the remote rows fit.
use kueued.Prelude.{
  Text, ℕ, List, [], ◌∷◌, map, value, All, Bool, true, false, some, if◌then◌else◌, ◌≡◌, refl, ap,
  ◌∙◌, arith, Option-cases, inl, inr,
}
use mathlib.Core.Path.{subst}
use kueued.Items.{SiebelItem, BomgarItem}
use kueued.Sql.{Env, Mysql}
use kueued.Sql.Rows.{CrsrRow}
use kueued.Xml.Scan.{is_plain}
use kueued.Database.Chat.{bomgar_item, get_chats}
use kueued.Database.Lookups.{update_pseudo_queues, insert_pseudo_queues}
use kueued.Database.Qmon.{get_qmon_srs}
use kueued.Database.Qmon.Frame.{get_qmon_srs-Agree}
use kueued.Update.Steps.{update_unity, update_bomgars}
use kueued.Update.Request.{update_db}
use kueued.Update.Fits.{RelatedFits, TablesFit, RemoteFits}
use kueued.Update.Fits.Items.{ItemFits}
use kueued.Update.Fits.Remote.{get_qmon_srs-ItemFits}
use kueued.Update.Fits.Tables.{
  KeyFits-TablesFit, TablesFit-KeyFits, update_unity-KeyFits, update_bomgars-KeyFits,
}

module _ {D : Type 0} {S : Type 0 → Type 0} (env : Env D S) (remote : RemoteFits env) where
  get_chats-IsPlain : All (λ bi. is_plain bi.name ≡ true) (get_chats env)
  unfolding get_chats bomgar_item
  get_chats-IsPlain = go env.remote.chats remote.chats
    where
      go :
          (rows : List (List Text))
          → All (λ row. is_plain (value 2 row) ≡ true) rows
          → All (λ bi. is_plain bi.name ≡ true) (map (bomgar_item env) rows)
      go [] h = tt
      go (row ∷ rows) h = (h.0, go rows h.1)

  update_bomgars-TablesFit :
      (list : List BomgarItem) (m : Mysql S)
      → All (λ bi. is_plain bi.name ≡ true) list
      → TablesFit env m
      → TablesFit env (update_bomgars env list m)
  update_bomgars-TablesFit list m plain h =
      KeyFits-TablesFit env _
        λ k. update_bomgars-KeyFits env k list m plain (TablesFit-KeyFits env m h k)

  update_unity-TablesFit :
      (clock : ℕ → Text) (list : List SiebelItem) (m : Mysql S)
      → All ItemFits list
      → TablesFit env m
      → TablesFit env (update_unity env clock list m)
  update_unity-TablesFit clock list m fits h =
      KeyFits-TablesFit env _
        λ k. update_unity-KeyFits env k remote clock list m fits (TablesFit-KeyFits env m h k)

  -- What a step that writes only other tables keeps.
  TablesFit-others :
      (m n : Mysql S)
      → record m { crsr = n.crsr; bug = n.bug; pseudo = n.pseudo } ≡ n
      → ((k : Text) (r : CrsrRow) → env.tables.crsr.select k n.crsr ≡ some r → RelatedFits r)
      → TablesFit env m
      → TablesFit env n
  TablesFit-others m n same related h = record {
    srs = λ k r e. h.srs k r (ap (λ (x : Mysql S). env.tables.siebel.select k x.siebel) same ∙ e);
    customers = λ k r e.
        h.customers k r (ap (λ (x : Mysql S). env.tables.customer.select k x.customer) same ∙ e);
    related = related;
    chats = λ k r e. h.chats k r (ap (λ (x : Mysql S). env.tables.chat.select k x.chat) same ∙ e);
  }

  insert_pseudo_queues-TablesFit :
      (rows : List (List Text)) (m : Mysql S)
      → TablesFit env m
      → TablesFit env (insert_pseudo_queues env rows m)
  unfolding insert_pseudo_queues
  insert_pseudo_queues-TablesFit [] m h = h
  insert_pseudo_queues-TablesFit (row ∷ rows) m h =
      insert_pseudo_queues-TablesFit rows _ (TablesFit-others m _ refl h.related h)

  start-TablesFit :
      (full : Bool) (m : Mysql S)
      → TablesFit env m
      → TablesFit env (if full then update_pseudo_queues env m else m)
  unfolding update_pseudo_queues
  start-TablesFit true m h = insert_pseudo_queues-TablesFit env.remote.pseudo_queues m h
  start-TablesFit false m h = h

  -- If the remote rows fit and every row of the tables fits, then every row fits after /updateDB.
  pub update_db-TablesFit :
      (junk : Bool) (off : ℕ) (clock : ℕ → Text) (full : Bool) (db db' : Mysql S)
      → update_db env junk off clock full db ≡ some db'
      → TablesFit env db
      → TablesFit env db'
  unfolding update_db
  update_db-TablesFit junk off clock full db db' h fits =
      let start : Mysql S = if full then update_pseudo_queues env db else db in
      let chatted = update_bomgars env (get_chats env) start in
      let chats_fit : TablesFit env chatted =
        update_bomgars-TablesFit (get_chats env) start get_chats-IsPlain
          (start-TablesFit full db fits) in
      elim (Option-cases (get_qmon_srs env junk off chatted)) [
        | inl e ↦ absurd (ground arith)
        | inr ((items, listed), e) ↦
            let last : update_unity env clock items listed ≡ db' = ground arith in
            let agree = get_qmon_srs-Agree env junk off chatted listed items e in
            let (items_fit, related) =
              get_qmon_srs-ItemFits env remote junk off chatted listed items e chats_fit.related in
            let listed_fit : TablesFit env listed =
              TablesFit-others chatted listed
                (ap (λ (x : Mysql S). record x { pseudo = listed.pseudo }) agree) related
                chats_fit in
            subst (TablesFit env) last
              (update_unity-TablesFit clock items listed items_fit listed_fit)
      ]
