-- ===== src/Database/Connections/Main.antt =====
-- The connections of the main thread, which the object of Database adds and removes.
use kueued.Prelude.{Text, lit, ◌==◌, Bool, false, ◌||◌, if◌then◌else◌, ◌≡◌, refl, arith}
use kueued.Settings.{Values}
use kueued.Database.Connections.{
  Registry, says_open, opened, is_open, mysql_connection, qmon_connection, siebel_connection,
  report_connection, close_as, construct, destruct,
}
use kueued.Database.Connections.Lifecycle.{is_open-close_as}

unfoldable pub is_main : Text → Bool
is_main j =
    lit "mysqlDB" == j || (lit "qmonDB" == j || (lit "siebelDB" == j || lit "reportDB" == j))

module _ {R : Type 0} (registry : Registry R) (value : Values) where
  -- After the constructor the connections to MySQL, Qmon and Siebel are open just if the databases
  -- accept them. That to the report database is closed, whether or not it would be accepted.
  pub construct-open :
      (r : R)
      → (is_open registry value (lit "mysqlDB") (construct registry value r)
          ≡ registry.accepts (mysql_connection value))
        × (is_open registry value (lit "qmonDB") (construct registry value r)
            ≡ registry.accepts (qmon_connection value))
        × (is_open registry value (lit "siebelDB") (construct registry value r)
            ≡ registry.accepts (siebel_connection value))
        × (is_open registry value (lit "reportDB") (construct registry value r) ≡ false)
  unfolding construct is_open says_open opened report_connection lit ◌==◌
  construct-open r = simp (registry.find-store) (refl, refl, refl, refl)

  -- After the destructor none of the four names stands for an open connection, and all others are as
  -- open as they were.
  pub is_open-destruct :
      (j : Text) (r : R)
      → is_open registry value j (destruct registry value r)
        ≡ (if is_main j then false else is_open registry value j r)
  unfolding destruct is_main
  is_open-destruct j r =
      let close = close_as registry value in
      let r1 = close (lit "mysqlDB") r in
      let r2 = close (lit "qmonDB") r1 in
      let r3 = close (lit "siebelDB") r2 in
      ground (
        arith,
        is_open-close_as registry value (lit "reportDB") j r3,
        is_open-close_as registry value (lit "siebelDB") j r2,
        is_open-close_as registry value (lit "qmonDB") j r1,
        is_open-close_as registry value (lit "mysqlDB") j r,
      )
