-- ===== src/Database/Connections.antt =====
-- The connections to the databases: the constructor and the destructor of Database, openMysqlDB,
-- openQmonDB, openSiebelDB and openReportDB, and the destructor of ServerThread. Qt's list of named connections is a parameter.
pub mod Lifecycle
pub mod Main
use kueued.Prelude.{
  Text, lit, ◌==◌, ◌++◌, ℕ, List, [], ◌∷◌, Bool, true, false, Option, none, some, if◌then◌else◌,
  ◌≡◌,
}
use kueued.Settings

-- What addDatabase and the setters store; a port that is not set is the driver's own.
pub record Connection : Type 0 where
  pub driver : Text
  pub host_name : Text
  pub database_name : Text
  pub port : Option ℕ
  pub user_name : Text
  pub password : Text
  pub is_open : Bool

-- The list of connections, which all threads share, in the state `R`.
pub record Registry (R : Type 0) : Type 0 where
  pub find : Text → R → Option Connection
  -- a connection that is added under the name takes the place of the one that was there
  pub store : Text → Connection → R → R
  -- QSqlDatabase::removeDatabase( name )
  pub remove : Text → R → R
  -- whether open() succeeds
  pub accepts : Connection → Bool
  pub find-store :
      (n j : Text) (c : Connection) (r : R)
      → find j (store n c r) ≡ (if n == j then some c else find j r)
  pub find-remove : (n j : Text) (r : R) → find j (remove n r) ≡ (if n == j then none else find j r)

unfoldable pub mysql_connection : Settings.Values → Connection
mysql_connection value = record {
  driver = lit "QMYSQL";
  host_name = Settings.mysql_host value;
  database_name = Settings.mysql_database value;
  port = none;
  user_name = Settings.mysql_user value;
  password = Settings.mysql_password value;
  is_open = false;
}

unfoldable pub qmon_connection : Settings.Values → Connection
qmon_connection value = record {
  driver = lit "QODBC";
  host_name = [];
  database_name = Settings.qmon_db_database value;
  port = none;
  user_name = Settings.qmon_db_user value;
  password = Settings.qmon_db_password value;
  is_open = false;
}

unfoldable pub siebel_connection : Settings.Values → Connection
siebel_connection value = record {
  driver = lit "QOCI";
  host_name = Settings.siebel_host value;
  database_name = Settings.siebel_database value;
  port = some 1521;
  user_name = Settings.siebel_user value;
  password = Settings.siebel_password value;
  is_open = false;
}

unfoldable pub report_connection : Settings.Values → Connection
report_connection value = record {
  driver = lit "QOCI";
  host_name = Settings.report_host value;
  database_name = Settings.report_database value;
  port = some 1521;
  user_name = Settings.report_user value;
  password = Settings.report_password value;
  is_open = false;
}

unfoldable pub says_open : Option Connection → Bool
says_open none = false
says_open (some c) = c.is_open

-- "mysqlDB-" + mThreadID, and so on
abbrev pub mysql_name : Text → Text
mysql_name id = lit "mysqlDB-" ++ id

abbrev pub siebel_name : Text → Text
siebel_name id = lit "siebelDB-" ++ id

abbrev pub qmon_name : Text → Text
qmon_name id = lit "qmonDB-" ++ id

abbrev pub report_name : Text → Text
report_name id = lit "reportDB-" ++ id

module _ {R : Type 0} (registry : Registry R) (value : Settings.Values) where
  unfoldable pub opened : Connection → Connection
  opened c = record c { is_open = registry.accepts c }

  -- QSqlDatabase::database( name ) opens a connection that it finds closed.
  reopened : Text → Option Connection → R → R
  reopened name none r = r
  reopened name (some c) r = if c.is_open then r else registry.store name (opened c) r

  unfoldable pub database : Text → R → R
  unfolding reopened
  database name r = reopened name (registry.find name r) r

  -- QSqlDatabase::database( name ).isOpen(), on the list that database( name ) leaves
  unfoldable pub is_open : Text → R → Bool
  is_open name r = says_open (registry.find name r)

  -- the body that the four methods have in common, with their results
  open_as : Connection → Text → R → Bool × R
  open_as c name r =
      let found = database name r in
      if is_open name found
      then (true, found)
      else (registry.accepts c, registry.store name (opened c) found)

  unfoldable pub open_mysql_db : Text → R → Bool × R
  unfolding open_as
  open_mysql_db name r = open_as (mysql_connection value) name r

  unfoldable pub open_qmon_db : Text → R → Bool × R
  unfolding open_as
  open_qmon_db name r = open_as (qmon_connection value) name r

  unfoldable pub open_siebel_db : Text → R → Bool × R
  unfolding open_as
  open_siebel_db name r = open_as (siebel_connection value) name r

  unfoldable pub open_report_db : Text → R → Bool × R
  unfolding open_as
  open_report_db name r = open_as (report_connection value) name r

  -- if ( QSqlDatabase::database( name ).isOpen() ) { close(); removeDatabase( name ); }
  unfoldable pub close_as : Text → R → R
  close_as name r =
      let found = database name r in
      if is_open name found then registry.remove name found else found

  -- ~ServerThread
  unfoldable pub destroy : Text → R → R
  unfolding close_as
  destroy id r =
      close_as (report_name id)
        (close_as (siebel_name id) (close_as (qmon_name id) (close_as (mysql_name id) r)))

  -- Database::Database. The last condition opens siebelDB a second time; reportDB is only stored.
  unfoldable pub construct : R → R
  construct r =
      let main = registry.store (lit "mysqlDB") (opened (mysql_connection value)) r in
      let chats = registry.store (lit "qmonDB") (opened (qmon_connection value)) main in
      let siebel = registry.store (lit "siebelDB") (opened (siebel_connection value)) chats in
      let report = registry.store (lit "reportDB") (report_connection value) siebel in
      registry.store (lit "siebelDB") (opened (siebel_connection value)) report

  -- Database::~Database
  unfoldable pub destruct : R → R
  unfolding close_as
  destruct r =
      close_as (lit "reportDB")
        (close_as (lit "siebelDB") (close_as (lit "qmonDB") (close_as (lit "mysqlDB") r)))
