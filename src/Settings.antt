-- ===== src/Settings.antt =====
-- settings.cpp: the keys of /etc/kueued.conf. `value` is settings.value( key ).toString(). What the
-- sources have of Qt and of simplecrypt here are parameters: toInt, toLower and decryptToString.
use kueued.Prelude.{
  Text, lit, [], ◌==◌, is_empty, ℤ, pos, Bool, ◌||◌, not, Option, none, some, if◌then◌else◌,
}

-- The texts of the file, by their keys; the empty text for a key that is not there.
abbrev pub Values : Type 0
Values = Text → Text

unfoldable pub db_server : Values → Text
db_server value = value (lit "DBServer")

unfoldable pub mysql_host : Values → Text
mysql_host value = value (lit "mysqlHost")

unfoldable pub mysql_user : Values → Text
mysql_user value = value (lit "mysqlUser")

unfoldable pub mysql_database : Values → Text
mysql_database value = value (lit "mysqlDatabase")

unfoldable pub mysql_password : Values → Text
mysql_password value = value (lit "mysqlPassword")

unfoldable pub report_host : Values → Text
report_host value = value (lit "reportHost")

unfoldable pub report_user : Values → Text
report_user value = value (lit "reportUser")

unfoldable pub report_password : Values → Text
report_password value = value (lit "reportPassword")

unfoldable pub report_database : Values → Text
report_database value = value (lit "reportDatabase")

unfoldable pub latest_version : Values → Text
latest_version value = value (lit "latestVersion")

unfoldable pub siebel_database : Values → Text
siebel_database value = value (lit "siebelDatabase")

unfoldable pub siebel_host : Values → Text
siebel_host value = value (lit "siebelHost")

unfoldable pub siebel_user : Values → Text
siebel_user value = value (lit "siebelUser")

unfoldable pub siebel_password : Values → Text
siebel_password value = value (lit "siebelPassword")

unfoldable pub qmon_db_database : Values → Text
qmon_db_database value = value (lit "qmonDbDatabase")

unfoldable pub qmon_db_user : Values → Text
qmon_db_user value = value (lit "qmonDbUser")

unfoldable pub qmon_db_password : Values → Text
qmon_db_password value = value (lit "qmonDbPassword")

unfoldable pub unity_url : Values → Text
unity_url value = value (lit "unityURL")

unfoldable pub bugzilla_user : Values → Text
bugzilla_user value = value (lit "bugzillaUser")

unfoldable pub l3_server : Values → Text
l3_server value = value (lit "l3Server")

unfoldable pub l3_user : Values → Text
l3_user value = value (lit "l3User")

unfoldable pub l3_api_key : Values → Text
l3_api_key value = value (lit "l3ApiKey")

-- the default of settings.value( key, default ) is for a key that is not in the file
refresh_seconds : (Text → ℤ) → Option Text → ℤ
refresh_seconds to_int none = pos 60
refresh_seconds to_int (some t) = to_int t

timezone_correction : (Text → ℤ) → Values → ℤ
timezone_correction to_int value = to_int (value (lit "timezoneCorrection"))

-- QVariant::toBool of a text: false for the empty text, "0" and "false", in letters of any case
abbrev to_bool : (Text → Text) → Text → Bool
to_bool to_lower t = not (is_empty t || to_lower t == lit "0" || to_lower t == lit "false")

unfoldable pub log_queries : (Text → Text) → Values → Bool
log_queries to_lower value = to_bool to_lower (value (lit "logQueries"))

unfoldable pub debug_log : (Text → Text) → Values → Bool
debug_log to_lower value = to_bool to_lower (value (lit "debugLog"))

-- an empty entry is not decrypted
bugzilla_password : (Text → Text) → Values → Text
bugzilla_password decrypt value =
    let stored = value (lit "bugzillaPassword") in
    if not (is_empty stored) then decrypt stored else []
