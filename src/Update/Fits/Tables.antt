-- ===== src/Update/Fits/Tables.antt =====
-- /updateDB leaves rows that fit in the documents, if its items and chats fit.
use kueued.Prelude.{Text, ◌==◌, ℕ, List, All, true, ◌≡◌, sym, ◌∙◌}
use mathlib.Core.Path.{subst}
use kueued.Items.{SiebelItem, BomgarItem}
use kueued.Sql.{Env, Mysql}
use kueued.Sql.Rows.{ChatRow}
use kueued.Xml.Scan.{is_plain}
use kueued.Database.Siebel.{
  insert_siebel_item_into_db, update_siebel_item, update_siebel_queue, delete_siebel_item_from_db,
  customer_row, refreshed_customer,
}
use kueued.Database.Chat.{
  chat_row, renamed_row, update_bomgar_item_in_db, update_bomgar_queue, delete_bomgar_item_from_db,
}
use kueued.Update.Loop.{AllAt-All}
use kueued.Update.Rows.{key-customer_row, key-refreshed_customer}
use kueued.Update.Steps.{update_unity, update_bomgars}
use kueued.Update.Programs.{Prog, done, alone}
use kueued.Update.Programs.Alone.{alone-unity, alone-bomgars}
use kueued.Update.Programs.Rely.{Safe, alone_keeps}
use kueued.Update.Programs.Request.{unity, bomgars}
use kueued.Update.Programs.Visits.{unity-Safe, bomgars-Safe}
use kueued.Update.Programs.Rows.{
  Each, Each-kept, Each-map, Each-gone, Each-some, Each-all, RowHas, RowHas-insert, RowHas-refresh,
  RowHas-requeue, RowHas-delete,
}
use kueued.Update.Fits.{SrFits, CustomerRowFits, RelatedFits, TablesFit, RemoteFits}
use kueued.Update.Fits.Items.{
  ItemFits, SrFits-IsKept, customer_row-CustomerRowFits, refreshed_customer-CustomerRowFits,
}

module _ {D : Type 0} {S : Type 0 → Type 0} (env : Env D S) (j : Text) where
  -- The row of the number in CUSTOMER, and of the id in QMON_CHAT, fits if it is there.
  abbrev pub CustomerHas : Mysql S → Type 0
  CustomerHas m = Each CustomerRowFits (env.tables.customer.select j m.customer)

  -- The name is plain.
  abbrev pub IsPlainName : ChatRow → Type 0
  IsPlainName r = is_plain r.name ≡ true

  abbrev pub ChatHas : Mysql S → Type 0
  ChatHas m = Each IsPlainName (env.tables.chat.select j m.chat)

  -- The row of CRSR for the number fits if it is there.
  abbrev pub RelatedHas : Mysql S → Type 0
  RelatedHas m = Each RelatedFits (env.tables.crsr.select j m.crsr)

  -- What is there under the key fits, in each table.
  abbrev pub KeyFits : Mysql S → Type 0
  KeyFits m = RowHas SrFits env j m × CustomerHas m × ChatHas m × RelatedHas m

  module _ (remote : RemoteFits env) where
    CustomerHas-insert :
        (now : Text) (x : SiebelItem) (m : Mysql S)
        → ((x.id == j) ≡ true → ItemFits x)
        → CustomerHas m
        → CustomerHas (insert_siebel_item_into_db env now x m)
    unfolding insert_siebel_item_into_db
    CustomerHas-insert now x m own h =
        rw
          (
            env.tables.customer.select-insert (customer_row env x) j m.customer,
            key-customer_row env x,
          )
          (Each-kept CustomerRowFits (x.id == j) (env.tables.customer.select j m.customer)
            (customer_row env x) (λ e. customer_row-CustomerRowFits env remote x (own e)) h)

    CustomerHas-refresh :
        (x : SiebelItem) (m : Mysql S)
        → ((x.id == j) ≡ true → ItemFits x)
        → CustomerHas m
        → CustomerHas (update_siebel_item env x m)
    unfolding update_siebel_item
    CustomerHas-refresh x m own h =
        rw
          (env.tables.customer.select-update x.id (refreshed_customer env x) j m.customer
            (key-refreshed_customer env x))
          (Each-map CustomerRowFits (x.id == j) (refreshed_customer env x)
            (env.tables.customer.select j m.customer)
            (λ e r _. refreshed_customer-CustomerRowFits env remote x (own e) r) h)

    CustomerHas-delete :
        (k : Text) (m : Mysql S) → CustomerHas m → CustomerHas (delete_siebel_item_from_db env k m)
    unfolding delete_siebel_item_from_db
    CustomerHas-delete k m h =
        rw (env.tables.customer.select-delete k j m.customer)
          (Each-gone CustomerRowFits (k == j) (env.tables.customer.select j m.customer) h)

    pub unity-KeyFits :
        (clock : ℕ → Text) (list : List SiebelItem) (rest : Prog (Mysql S))
        → All ItemFits list
        → Safe KeyFits rest
        → Safe KeyFits (unity env clock list rest)
    unity-KeyFits clock list rest fits s =
        unity-Safe env KeyFits j ItemFits inserts requeues refreshes deletes clock list rest
          (AllAt-All (λ x. x.id) j ItemFits list fits) s
      where
        inserts :
            (now : Text) (x : SiebelItem) (m : Mysql S)
            → ((x.id == j) ≡ true → ItemFits x)
            → KeyFits m
            → KeyFits (insert_siebel_item_into_db env now x m)
        inserts now x m own (sr, customer, chat, related) = (
          RowHas-insert SrFits env j now x m
              (λ e. (SrFits-IsKept env remote x (own e)).at_insert now) sr,
          CustomerHas-insert now x m own customer,
          unfold insert_siebel_item_into_db in chat,
          unfold insert_siebel_item_into_db in related,
        )

        requeues :
            (now : Text) (x : SiebelItem) (m : Mysql S)
            → ((x.id == j) ≡ true → ItemFits x)
            → KeyFits m
            → KeyFits (update_siebel_queue env now x m)
        requeues now x m own (sr, customer, chat, related) = (
          RowHas-requeue SrFits env j now x m
              (λ e. (SrFits-IsKept env remote x (own e)).at_requeue now) sr,
          unfold update_siebel_queue in customer,
          unfold update_siebel_queue in chat,
          unfold update_siebel_queue in related,
        )

        refreshes :
            (x : SiebelItem) (m : Mysql S)
            → ((x.id == j) ≡ true → ItemFits x)
            → KeyFits m
            → KeyFits (update_siebel_item env x m)
        refreshes x m own (sr, customer, chat, related) = (
          RowHas-refresh SrFits env j x m (λ e. (SrFits-IsKept env remote x (own e)).at_refresh) sr,
          CustomerHas-refresh x m own customer,
          unfold update_siebel_item in chat,
          unfold update_siebel_item in related,
        )

        deletes :
            (k : Text) (m : Mysql S) → KeyFits m → KeyFits (delete_siebel_item_from_db env k m)
        deletes k m (sr, customer, chat, related) = (
          RowHas-delete SrFits env j k m sr,
          CustomerHas-delete k m customer,
          unfold delete_siebel_item_from_db in chat,
          unfold delete_siebel_item_from_db in related,
        )

  -- A chat whose name is plain.
  abbrev pub IsPlainChat : BomgarItem → Type 0
  IsPlainChat x = is_plain x.name ≡ true

  ChatHas-insert :
      (x : BomgarItem) (m : Mysql S)
      → ((x.id == j) ≡ true → IsPlainChat x)
      → ChatHas m
      → ChatHas (update_bomgar_item_in_db env x m)
  unfolding update_bomgar_item_in_db
  ChatHas-insert x m own h =
      rw (env.tables.chat.select-insert (chat_row x) j m.chat, env.tables.key-chat (chat_row x))
        (Each-kept IsPlainName (x.id == j) (env.tables.chat.select j m.chat) (chat_row x) own h)

  ChatHas-rename :
      (x : BomgarItem) (m : Mysql S)
      → ((x.id == j) ≡ true → IsPlainChat x)
      → ChatHas m
      → ChatHas (update_bomgar_queue env x m)
  unfolding update_bomgar_queue
  ChatHas-rename x m own h =
      rw
        (env.tables.chat.select-update x.id (renamed_row x) j m.chat
          (λ r. env.tables.key-chat _ ∙ sym (env.tables.key-chat r)))
        (Each-map IsPlainName (x.id == j) (renamed_row x) (env.tables.chat.select j m.chat)
          (λ e r _. own e) h)

  ChatHas-delete :
      (k : Text) (m : Mysql S) → ChatHas m → ChatHas (delete_bomgar_item_from_db env k m)
  unfolding delete_bomgar_item_from_db
  ChatHas-delete k m h =
      rw (env.tables.chat.select-delete k j m.chat)
        (Each-gone IsPlainName (k == j) (env.tables.chat.select j m.chat) h)

  pub bomgars-KeyFits :
      (list : List BomgarItem) (rest : Prog (Mysql S))
      → All IsPlainChat list
      → Safe KeyFits rest
      → Safe KeyFits (bomgars env list rest)
  bomgars-KeyFits list rest plain s =
      bomgars-Safe env KeyFits j IsPlainChat
        (λ x m own h.
          unfold update_bomgar_item_in_db in (h.0, h.1, ChatHas-insert x m own h.2, h.3))
        (λ x m own h. unfold update_bomgar_queue in (h.0, h.1, ChatHas-rename x m own h.2, h.3))
        (λ k m h. unfold delete_bomgar_item_from_db in (h.0, h.1, ChatHas-delete k m h.2, h.3)) list
        rest (AllAt-All (λ bi. bi.id) j IsPlainChat list plain) s

  pub update_unity-KeyFits :
      (remote : RemoteFits env) (clock : ℕ → Text) (list : List SiebelItem) (m : Mysql S)
      → All ItemFits list
      → KeyFits m
      → KeyFits (update_unity env clock list m)
  unfolding alone
  update_unity-KeyFits remote clock list m fits h =
      subst KeyFits (alone-unity env clock list done m) (
        alone_keeps KeyFits (unity env clock list done) m
          (unity-KeyFits remote clock list done fits tt) h)

  pub update_bomgars-KeyFits :
      (list : List BomgarItem) (m : Mysql S)
      → All IsPlainChat list
      → KeyFits m
      → KeyFits (update_bomgars env list m)
  unfolding alone
  update_bomgars-KeyFits list m plain h =
      subst KeyFits (alone-bomgars env list done m)
        (alone_keeps KeyFits (bomgars env list done) m (bomgars-KeyFits list done plain tt) h)

-- The rows fit just if what is there under each key does.
module _ {D : Type 0} {S : Type 0 → Type 0} (env : Env D S) (m : Mysql S) where
  pub TablesFit-KeyFits : TablesFit env m → (j : Text) → KeyFits env j m
  TablesFit-KeyFits h j = (
    Each-all SrFits _ (h.srs j),
    Each-all CustomerRowFits _ (h.customers j),
    Each-all (IsPlainName env j) _ (h.chats j),
    Each-all RelatedFits _ (h.related j),
  )

  pub KeyFits-TablesFit : ((j : Text) → KeyFits env j m) → TablesFit env m
  KeyFits-TablesFit h = record {
    srs = λ k r. Each-some SrFits _ r (h k).0;
    customers = λ k r. Each-some CustomerRowFits _ r (h k).1;
    related = λ k r. Each-some RelatedFits _ r (h k).3;
    chats = λ k r. Each-some (IsPlainName env k) _ r (h k).2;
  }
