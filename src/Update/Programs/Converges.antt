-- ===== src/Update/Programs/Converges.antt =====
-- Any number of requests at once: threads that run /updateDB, beside threads that leave the tables
-- of SRs and chats alone, in any order of turns.
use kueued.Prelude.{Text, ℕ, ◌≤◌, List, contains, Bool, ◌≡◌, sym, ◌∙◌, ◌⊎◌, inl, inr}
use mathlib.Core.Path.{subst}
use kueued.Items.{SiebelItem, BomgarItem}
use kueued.Sql.{Env, Mysql}
use kueued.Database.Siebel.{get_qmon_siebel_list}
use kueued.Database.Chat.{get_qmon_bomgar_list}
use kueued.Update.Mirror.{ids}
use kueued.Update.Chats.{chat_ids}
use kueued.Update.Programs.{Prog, done, fault, atom, Pool, runs}
use kueued.Update.Programs.Rely.{Safe, Gives, runs_finished}
use kueued.Update.Programs.Keys.{sr_listed_of, chat_listed_of}
use kueued.Update.Programs.Listed.{
  SrListed, ChatListed, update_program-SafeSr, update_program-GivesSr, update_program-SafeChat,
  update_program-GivesChat,
}
use kueued.Update.Programs.Request.{update_program}
use kueued.Update.Programs.Fair.{NoFault, Fair, finishes}
use kueued.Update.Programs.Faultless.{update_program-NoFault}
use kueued.Database.Cache.{AreTitled}

module _ {S : Type 0 → Type 0} where
  -- The thread leaves QMON_SIEBEL, CUSTOMER and QMON_CHAT as they are.
  abbrev pub Leaves : Prog (Mysql S) → Type 0
  Leaves done = Unit
  Leaves fault = Unit
  Leaves (atom effect next) =
      (m : Mysql S)
      → ((effect m).siebel ≡ m.siebel)
        × ((effect m).customer ≡ m.customer)
        × ((effect m).chat ≡ m.chat)
        × Leaves (next m)

module _ {D : Type 0} {S : Type 0 → Type 0} (env : Env D S) where
  pub Leaves-SafeSr :
      (j : Text) (b : Bool) (prog : Prog (Mysql S)) → Leaves prog → Safe (SrListed env j b) prog
  Leaves-SafeSr j b done = λ h. tt
  Leaves-SafeSr j b fault = λ h. tt
  Leaves-SafeSr j b (atom effect next) = λ h m.
      let (siebel, customer, chat, rest) = h m in
      ((λ p. sr_listed_of env j (effect m) m siebel ∙ p), Leaves-SafeSr j b (next m) rest)

  Leaves-SafeChat :
      (j : Text) (b : Bool) (prog : Prog (Mysql S)) → Leaves prog → Safe (ChatListed env j b) prog
  Leaves-SafeChat j b done = λ h. tt
  Leaves-SafeChat j b fault = λ h. tt
  Leaves-SafeChat j b (atom effect next) = λ h m.
      let (siebel, customer, chat, rest) = h m in
      ((λ p. chat_listed_of env j (effect m) m chat ∙ p), Leaves-SafeChat j b (next m) rest)

module _ {D : Type 0} {S : Type 0 → Type 0} (env : Env D S) (srs chats : List Text) where
  -- The thread runs /updateDB with lists that name these numbers and these chats.
  pub record Updates (prog : Prog (Mysql S)) : Type 0 where
    pub clock : ℕ → Text
    pub full : Bool
    pub chat_list : List BomgarItem
    pub sr_list : List SiebelItem
    pub is_update : prog ≡ update_program env clock full chat_list sr_list
    pub same_srs : (j : Text) → contains j (ids sr_list) ≡ contains j srs
    pub same_chats : (j : Text) → contains j (chat_ids chat_list) ≡ contains j chats

  -- Or it leaves the tables of SRs and chats alone and does not fault.
  abbrev pub Joins : Prog (Mysql S) → Type 0
  Joins prog = Updates prog ⊎ (Leaves prog × NoFault prog)

  Joins-NoFault : AreTitled env → (prog : Prog (Mysql S)) → Joins prog → NoFault prog
  Joins-NoFault titles prog (inl u) =
      subst NoFault (sym u.is_update)
        (update_program-NoFault env titles u.clock u.full u.chat_list u.sr_list)
  Joins-NoFault titles prog (inr (l, sound)) = sound

  Joins-SafeSr :
      (j : Text) (prog : Prog (Mysql S)) → Joins prog → Safe (SrListed env j (contains j srs)) prog
  Joins-SafeSr j prog (inl u) = subst (Safe (SrListed env j (contains j srs))) (sym u.is_update) (
      update_program-SafeSr env j (contains j srs) u.clock u.full u.chat_list u.sr_list
        (u.same_srs j))
  Joins-SafeSr j prog (inr (l, sound)) = Leaves-SafeSr env j (contains j srs) prog l

  Joins-SafeChat :
      (j : Text) (prog : Prog (Mysql S))
      → Joins prog
      → Safe (ChatListed env j (contains j chats)) prog
  Joins-SafeChat j prog (inl u) =
      subst (Safe (ChatListed env j (contains j chats))) (sym u.is_update) (
        update_program-SafeChat env j (contains j chats) u.clock u.full u.chat_list u.sr_list
          (u.same_chats j))
  Joins-SafeChat j prog (inr (l, sound)) = Leaves-SafeChat env j (contains j chats) prog l

  -- Once one thread's /updateDB has ended, and however the turns fell, QMON_SIEBEL and QMON_CHAT name
  -- what the remote lists name.
  pub Updates-mirror :
      (schedule : ℕ → ℕ) (t k : ℕ) (p : Pool (Mysql S))
      → ((i : ℕ) → Joins (p.threads i))
      → Updates (p.threads k)
      → (runs schedule t p).threads k ≡ done
      → ((j : Text)
          → contains j (get_qmon_siebel_list env (runs schedule t p).shared) ≡ contains j srs)
        × ((j : Text)
            → contains j (get_qmon_bomgar_list env (runs schedule t p).shared) ≡ contains j chats)
  Updates-mirror schedule t k p joins u ended = (
    λ j.
        runs_finished (SrListed env j (contains j srs)) schedule t k p
          (λ i. Joins-SafeSr j (p.threads i) (joins i))
          (subst (Gives (SrListed env j (contains j srs))) (sym u.is_update) (
            update_program-GivesSr env j (contains j srs) u.clock u.full u.chat_list u.sr_list
              (u.same_srs j)))
          ended,
    λ j.
        runs_finished (ChatListed env j (contains j chats)) schedule t k p
          (λ i. Joins-SafeChat j (p.threads i) (joins i))
          (subst (Gives (ChatListed env j (contains j chats))) (sym u.is_update) (
            update_program-GivesChat env j (contains j chats) u.clock u.full u.chat_list u.sr_list
              (u.same_chats j)))
          ended,
  )

  -- Threads of any number run at once, each an /updateDB whose lists name the same SRs and chats, or
  -- a request that leaves those tables alone and does not fault. If each related request has a title
  -- and the thread `k` runs /updateDB and gets its turn again and again, then from some time on it has
  -- ended, and QMON_SIEBEL and QMON_CHAT name exactly what the lists name, also while the others go on.
  pub all_converge :
      (schedule : ℕ → ℕ) (k : ℕ) (p : Pool (Mysql S))
      → AreTitled env
      → ((i : ℕ) → Joins (p.threads i))
      → Updates (p.threads k)
      → Fair schedule k
      → (t : ℕ) × ((s : ℕ)
          → t ≤ s
          → ((runs schedule s p).threads k ≡ done)
            × ((j : Text)
                → contains j (get_qmon_siebel_list env (runs schedule s p).shared) ≡ contains j srs)
            × ((j : Text)
                → contains j (get_qmon_bomgar_list env (runs schedule s p).shared)
                  ≡ contains j chats))
  all_converge schedule k p titles joins u fair =
      let (t, ended) =
        finishes schedule k p (λ i. Joins-NoFault titles (p.threads i) (joins i)) fair in
      (
        t,
        λ s h.
            let (names_srs, names_chats) = Updates-mirror schedule s k p joins u (ended s h) in
            (ended s h, names_srs, names_chats),
      )
