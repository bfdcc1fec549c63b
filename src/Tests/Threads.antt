-- ===== src/Tests/Threads.antt =====
-- The theorems on the connections of the threads, with a list of connections in memory.
use kueued.Prelude.{
  Text, lit, ◌==◌, eq_iff, List, [], ◌∷◌, true, false, Option, none, some, if◌then◌else◌, ◌≡◌, refl,
  arith,
}
use kueued.Settings.{Values}
use kueued.Database.Connections.{
  Connection, Registry, mysql_connection, is_open, destroy, construct,
}
use kueued.Database.Connections.Main.{construct-open}
use kueued.Database.Connections.Lifecycle.{Call, is_own, call_all, is_open-destroy}

abbrev Named : Type 0
Named = List (Text × Connection)

abbrev find : Text → Named → Option Connection
find j [] = none
find j (p ∷ ps) = if p.0 == j then some p.1 else find j ps

abbrev remove : Text → Named → Named
remove n [] = []
remove n (p ∷ ps) = let rest = remove n ps in if p.0 == n then rest else p ∷ rest

find-remove : (n j : Text) (r : Named) → find j (remove n r) ≡ (if n == j then none else find j r)
find-remove n j [] = ground arith
find-remove n j (p ∷ ps) =
    ground (arith, eq_iff n j, eq_iff p.0 n, eq_iff p.0 j, find-remove n j ps)

abbrev in_memory : Registry Named
in_memory = record {
  find = find;
  store = λ n c r. (n, c) ∷ r;
  remove = remove;
  accepts = λ c. true;
  find-store = λ n j c r. refl;
  find-remove = find-remove;
}

abbrev values : Values
values key = key

-- The connection of the main thread.
abbrev of_main : Named
of_main = (lit "mysqlDB", record (mysql_connection values) { is_open = true }) ∷ []

is_open-destroy_example :
    is_open in_memory values (lit "mysqlDB") (
      destroy in_memory values
        (lit "1")
        (call_all in_memory values (lit "1") (Call.mysql ∷ Call.report ∷ Call.mysql ∷ []) of_main))
    ≡ is_open in_memory values (lit "mysqlDB") of_main
unfolding is_own ◌==◌ lit
is_open-destroy_example =
    is_open-destroy in_memory values (lit "1") (lit "mysqlDB")
      (Call.mysql ∷ Call.report ∷ Call.mysql ∷ []) of_main

construct-open_example :
    (is_open in_memory values (lit "mysqlDB") (construct in_memory values []) ≡ true)
    × (is_open in_memory values (lit "qmonDB") (construct in_memory values []) ≡ true)
    × (is_open in_memory values (lit "siebelDB") (construct in_memory values []) ≡ true)
    × (is_open in_memory values (lit "reportDB") (construct in_memory values []) ≡ false)
construct-open_example = construct-open in_memory values []
