-- ===== src/Tests/Pools.antt =====
-- The theorems on threads that run side by side, with two updates and a request that leaves the tables
-- of SRs and chats alone.
use kueued.Prelude.{
  true, false, Text, lit, ◌==◌, ℕ, zero, suc, ◌≤◌, List, [], ◌∷◌, contains, ◌≡◌, refl, ap, inl, inr,
  arith,
}
use kueued.Sql.{Mysql}
use kueued.Items.{blank_siebel_item}
use kueued.Database.Siebel.{
  insert_siebel_item_into_db, customer_row, inserted_row, bound_creator, get_qmon_siebel_list,
}
use kueued.Database.Chat.{get_qmon_bomgar_list}
use kueued.Update.Rows.{entry}
use kueued.Update.Effects.{IsPaired, Shows, HasSr}
use kueued.Update.Programs.{Prog, done, write, Pool, runs}
use kueued.Update.Programs.Fair.{Fair}
use kueued.Update.Programs.Request.{update_program}
use kueued.Update.Programs.Converges.{Updates, Joins, all_converge}
use kueued.Update.Programs.Settles.{UpdatesItem, JoinsItem, all_settle}
use kueued.Update.Programs.Reaches.{Serves, runs-IsPaired}
use kueued.Tests.Data.{env, clock, item_7, two_rows, titled}

-- Threads 0, 1 and 2 in turn.
next : ℕ → ℕ
next zero = 1
next (suc zero) = 2
next (suc (suc i)) = 0

in_turn : ℕ → ℕ
unfolding next
in_turn zero = 0
in_turn (suc t) = next (in_turn t)

Fair-in_turn : Fair in_turn 0
unfolding in_turn next
Fair-in_turn t = go (in_turn t) refl
  where
    go : (i : ℕ) → in_turn t ≡ i → (s : ℕ) × (t ≤ s) × (in_turn s ≡ 0)
    go zero e = (t, omega arith, e)
    go (suc zero) e = (suc (suc t), omega arith, ap (λ i. next (next i)) e)
    go (suc (suc i)) e = (suc t, omega arith, ap next e)

-- The update of each thread, and the request of the third, which empties the titles of bugs.
abbrev program : ℕ → Prog (Mysql List)
program zero = update_program env clock true [] (item_7 ∷ [])
program (suc zero) = update_program env (λ i. lit "v") false [] (item_7 ∷ item_7 ∷ [])
program (suc (suc zero)) = write (λ m. record m { bug = [] }) done
program (suc (suc (suc i))) = done

abbrev pool : Pool (Mysql List)
pool = record { shared = two_rows; threads = program }

abbrev sevens : List Text
sevens = lit "7" ∷ []

first_update : Updates env sevens [] (program 0)
unfolding blank_siebel_item contains
first_update = record {
  clock = clock;
  full = true;
  chat_list = [];
  sr_list = item_7 ∷ [];
  is_update = refl;
  same_srs = λ j. refl;
  same_chats = λ j. refl;
}

second_update : Updates env sevens [] (program 1)
unfolding blank_siebel_item contains
second_update = record {
  clock = λ i. lit "v";
  full = false;
  chat_list = [];
  sr_list = item_7 ∷ item_7 ∷ [];
  is_update = refl;
  same_srs = λ j. ground arith;
  same_chats = λ j. refl;
}

all_join : (i : ℕ) → Joins env sevens [] (program i)
all_join zero = inl first_update
all_join (suc zero) = inl second_update
all_join (suc (suc zero)) = inr ((λ m. (refl, refl, refl, tt)), λ m. tt)
all_join (suc (suc (suc i))) = inr (tt, tt)

item_0 : UpdatesItem env (lit "7") item_7 (program 0)
unfolding blank_siebel_item contains ◌==◌ lit
item_0 = record {
  clock = clock;
  full = true;
  chat_list = [];
  sr_list = item_7 ∷ [];
  is_update = refl;
  listed = refl;
  one_item = (λ h. refl, tt);
}

item_1 : UpdatesItem env (lit "7") item_7 (program 1)
unfolding blank_siebel_item contains ◌==◌ lit
item_1 = record {
  clock = λ i. lit "v";
  full = false;
  chat_list = [];
  sr_list = item_7 ∷ item_7 ∷ [];
  is_update = refl;
  listed = refl;
  one_item = (λ h. refl, (λ h. refl, tt));
}

all_item : (i : ℕ) → JoinsItem env (lit "7") item_7 (program i)
all_item zero = inl item_0
all_item (suc zero) = inl item_1
all_item (suc (suc zero)) = inr ((λ m. (refl, refl, refl, tt)), λ m. tt)
all_item (suc (suc (suc i))) = inr (tt, tt)

all_serve : (i : ℕ) → Serves env two_rows (program i)
all_serve zero = inl (clock, true, [], item_7 ∷ [], refl)
all_serve (suc zero) = inl ((λ i. lit "v"), false, [], item_7 ∷ item_7 ∷ [], refl)
all_serve (suc (suc zero)) = inr (λ m. (refl, refl, refl, tt))
all_serve (suc (suc (suc i))) = inr tt

all_converge_example :
    (t : ℕ) × ((s : ℕ)
      → t ≤ s
      → ((runs in_turn s pool).threads 0 ≡ done)
        × ((j : Text)
            → contains j (get_qmon_siebel_list env (runs in_turn s pool).shared)
              ≡ contains j sevens)
        × ((j : Text)
            → contains j (get_qmon_bomgar_list env (runs in_turn s pool).shared) ≡ contains j []))
all_converge_example =
    all_converge env sevens [] in_turn 0 pool titled all_join first_update Fair-in_turn

all_settle_example :
    (t : ℕ) × ((s : ℕ)
      → t ≤ s
      → HasSr (Shows env item_7) (entry env (runs in_turn s pool).shared (lit "7")))
unfolding bound_creator blank_siebel_item ◌==◌ lit
all_settle_example =
    all_settle env (lit "7") item_7 in_turn 0 pool titled refl all_item item_0 Fair-in_turn

runs-IsPaired_example : IsPaired (entry env (runs in_turn 40 pool).shared (lit "7"))
unfolding blank_siebel_item ◌==◌ lit insert_siebel_item_into_db customer_row inserted_row
runs-IsPaired_example = runs-IsPaired env in_turn 40 pool (lit "7") all_serve refl
