-- ===== src/Database/Connections/Lifecycle.antt =====
-- The connections of a thread, from its first call to open one to its destructor.
use kueued.Prelude.{
  Text, ◌==◌, eq_sound, eq_refl, List, [], ◌∷◌, Bool, false, ◌||◌, if◌then◌else◌, ◌≡◌, refl, ap,
  ◌∙◌, arith, Option-cases, Bool-cases, inl, inr,
}
use kueued.Settings.{Values}
use kueued.Database.Connections.{
  Connection, Registry, mysql_name, siebel_name, qmon_name, report_name, says_open, opened,
  database, is_open, open_as, open_mysql_db, open_qmon_db, open_siebel_db, open_report_db, close_as,
  destroy,
}

-- The calls that a thread makes.
pub data Call : Type 0 where
  mysql : Call
  qmon : Call
  siebel : Call
  report : Call

abbrev pub name_of : Text → Call → Text
name_of id mysql = mysql_name id
name_of id qmon = qmon_name id
name_of id siebel = siebel_name id
name_of id report = report_name id

-- Whether the name is one of the thread's.
unfoldable pub is_own : Text → Text → Bool
is_own id j =
    mysql_name id == j || (qmon_name id == j || (siebel_name id == j || report_name id == j))

module _ {R : Type 0} (registry : Registry R) (value : Values) where
  -- what the call returns, and the list of connections then
  unfoldable pub opens : Text → Call → R → Bool × R
  opens id mysql r = open_mysql_db registry value (mysql_name id) r
  opens id qmon r = open_qmon_db registry value (qmon_name id) r
  opens id siebel r = open_siebel_db registry value (siebel_name id) r
  opens id report r = open_report_db registry value (report_name id) r

  unfoldable pub call : Text → Call → R → R
  call id c r = (opens id c r).1

  unfoldable pub call_all : Text → List Call → R → R
  call_all id [] r = r
  call_all id (c ∷ cs) r = call_all id cs (call id c r)

  find-database :
      (n j : Text) (r : R)
      → (n == j) ≡ false
      → registry.find j (database registry value n r) ≡ registry.find j r
  unfolding database
  find-database n j r other = elim (Option-cases (registry.find n r)) [
    | inl e ↦ ground arith
    | inr (c, e) ↦ ground (arith, registry.find-store n j (opened registry value c) r)
  ]

  find-open_as :
      (c : Connection) (n j : Text) (r : R)
      → (n == j) ≡ false
      → registry.find j (open_as registry value c n r).1 ≡ registry.find j r
  unfolding open_as
  find-open_as c n j r other =
      let found = database registry value n r in
      ground
        (arith, find-database n j r other, registry.find-store n j (opened registry value c) found)

  pub is_open-close_as :
      (n j : Text) (r : R)
      → is_open registry value j (close_as registry value n r)
        ≡ (if n == j then false else is_open registry value j r)
  unfolding close_as is_open says_open
  is_open-close_as n j r =
      let found = database registry value n r in
      elim (Bool-cases (n == j)) [
        | inl e ↦ let same = eq_sound n j e in ground (arith, registry.find-remove n j found)
        | inr e ↦ ground (arith, find-database n j r e, registry.find-remove n j found)
      ]

  open_as-open :
      (c : Connection) (n : Text) (r : R)
      → is_open registry value n (open_as registry value c n r).1 ≡ (open_as registry value c n r).0
  unfolding open_as is_open says_open opened
  open_as-open c n r =
      let found = database registry value n r in
      ground (arith, eq_refl n, registry.find-store n n (opened registry value c) found)

  -- Each of openMysqlDB, openQmonDB, openSiebelDB and openReportDB returns true just if the connection
  -- of its name is open then.
  pub opens-open :
      (id : Text) (c : Call) (r : R)
      → is_open registry value (name_of id c) (opens id c r).1 ≡ (opens id c r).0
  unfolding opens open_mysql_db open_qmon_db open_siebel_db open_report_db
  opens-open id mysql r = open_as-open _ (mysql_name id) r
  opens-open id qmon r = open_as-open _ (qmon_name id) r
  opens-open id siebel r = open_as-open _ (siebel_name id) r
  opens-open id report r = open_as-open _ (report_name id) r

  is_open-call :
      (id j : Text) (c : Call) (r : R)
      → is_own id j ≡ false
      → is_open registry value j (call id c r) ≡ is_open registry value j r
  unfolding call opens is_own is_open open_mysql_db open_qmon_db open_siebel_db open_report_db
  is_open-call id j mysql r other = ap says_open (find-open_as _ (mysql_name id) j r (ground arith))
  is_open-call id j qmon r other = ap says_open (find-open_as _ (qmon_name id) j r (ground arith))
  is_open-call id j siebel r other =
      ap says_open (find-open_as _ (siebel_name id) j r (ground arith))
  is_open-call id j report r other =
      ap says_open (find-open_as _ (report_name id) j r (ground arith))

  is_open-call_all :
      (id j : Text) (cs : List Call) (r : R)
      → is_own id j ≡ false
      → is_open registry value j (call_all id cs r) ≡ is_open registry value j r
  unfolding call_all
  is_open-call_all id j [] r other = refl
  is_open-call_all id j (c ∷ cs) r other =
      is_open-call_all id j cs (call id c r) other ∙ is_open-call id j c r other

  -- Whatever connections a thread opens, in whatever order and whether or not the databases accept
  -- them, after its destructor none of its four names stands for an open connection, and the
  -- connections of all other names are as open as they were.
  pub is_open-destroy :
      (id j : Text) (cs : List Call) (r : R)
      → is_open registry value j (destroy registry value id (call_all id cs r))
        ≡ (if is_own id j then false else is_open registry value j r)
  unfolding destroy is_own
  is_open-destroy id j cs r =
      let r0 = call_all id cs r in
      let r1 = close_as registry value (mysql_name id) r0 in
      let r2 = close_as registry value (qmon_name id) r1 in
      let r3 = close_as registry value (siebel_name id) r2 in
      ground (
        arith,
        is_open-close_as (report_name id) j r3,
        is_open-close_as (siebel_name id) j r2,
        is_open-close_as (qmon_name id) j r1,
        is_open-close_as (mysql_name id) j r0,
        is_open-call_all id j cs r,
      )
