-- ===== src/Sql.antt =====
-- What the program is run against and does not implement: Qt's date parser, the MySQL tables, and
-- the remote databases and servers. Each is a parameter; a table's laws are the documented
-- behaviour of SQL statements on a table with a primary key, on a connection that stays up.
pub mod Rows
pub mod Laws
use kueued.Prelude.{
  Text, ◌==◌, contains, All, List, map, Option, none, some, Bool, false, ◌||◌, ◌≡◌, is_some,
  if◌then◌else◌, ℤ,
}
use kueued.Items.{LtssCustomer}
use Rows.{SrRow, CustomerRow, ChatRow, CrsrRow, BugRow, PseudoRow}
use mathlib.Core.Option
use mathlib.Core.List.{Permᴰ}

-- A duplicate of a primary key is refused, and the row that is there stays.
abbrev pub kept {ℓ} : {A : Type ℓ} → Option A → A → A
kept none r = r
kept (some old) r = old

pub record Table (Row S : Type 0) : Type 0 where
  pub key : Row → Text
  -- SELECT … WHERE key = k
  pub select : Text → S → Option Row
  -- SELECT with no condition, in the order of the engine
  pub rows : S → List Row
  pub insert : Row → S → S
  -- UPDATE … SET … WHERE key = k
  pub update : Text → (Row → Row) → S → S
  -- DELETE … WHERE key = k
  pub delete : Text → S → S
  pub select-insert :
      (r : Row) (j : Text) (s : S)
      → select j (insert r s) ≡ (if key r == j then some (kept (select j s) r) else select j s)
  pub select-update :
      (k : Text) (f : Row → Row) (j : Text) (s : S)
      → ((r : Row) → key (f r) ≡ key r)
      → select j (update k f s) ≡ (if k == j then Option.map f (select j s) else select j s)
  pub select-delete :
      (k j : Text) (s : S) → select j (delete k s) ≡ (if k == j then none else select j s)
  pub contains-rows : (k : Text) (s : S) → contains k (map key (rows s)) ≡ is_some (select k s)
  pub select-rows : (s : S) → All (λ r. select (key r) s ≡ some r) (rows s)

-- A table that no statement addresses by a key.
pub record Bag (Row S : Type 0) : Type 0 where
  -- SELECT … WHERE p: whether there is a row
  pub holds : (Row → Bool) → S → Bool
  pub append : Row → S → S
  -- DELETE with no condition
  pub clear : S → S
  pub holds-append : (p : Row → Bool) (r : Row) (s : S) → holds p (append r s) ≡ p r || holds p s
  pub holds-clear : (p : Row → Bool) (s : S) → holds p (clear s) ≡ false

-- QDateTime::fromString( text, format ), `none` for an invalid date, and toString( format ).
pub record DateTimes (D : Type 0) : Type 0 where
  pub from_string : Text → Text → Option D
  pub to_string : D → Text → Text
  -- a.secsTo( b )
  pub secs_to : D → D → ℤ

-- The answers of the remote side during one request. A result row is the list of its columns.
pub record Remote : Type 0 where
  -- getQmonSrs: all open service requests of the pseudo queues
  pub open_srs : List (List Text)
  -- getUserQueue: the flag is `subowner`
  pub user_queue : Bool → Text → List (List Text)
  -- getSrInfo
  pub sr_details : Text → Option (List Text)
  -- getCreator
  pub creator_login : Text → Option Text
  -- getDetDesc
  pub desc_text : Text → Option Text
  -- getSrStatus
  pub sr_stat : Text → Option Text
  -- srInfo
  pub sr_title : Text → Option (List Text)
  -- getSrForCrReport
  pub related_sr : Text → Option Text
  -- getChats
  pub chats : List (List Text)
  -- getLTSScustomersExt
  pub ltss_customers : List (List Text)
  -- updatePseudoQueues
  pub pseudo_queues : List (List Text)
  -- the text of the first `short_desc` of the bug's page
  pub bug_page_title : Text → Text

pub record Tables (S : Type 0 → Type 0) : Type 0 where
  -- WHERE ( column = :text ), for a column that is no key: what is equal is up to the collation of
  -- the column, and an empty column may be NULL
  pub matches : Text → Text → Bool
  pub siebel : Table SrRow (S SrRow)
  pub customer : Table CustomerRow (S CustomerRow)
  pub chat : Table ChatRow (S ChatRow)
  pub crsr : Table CrsrRow (S CrsrRow)
  pub bug : Table BugRow (S BugRow)
  pub pseudo : Table PseudoRow (S PseudoRow)
  pub ltss : Bag LtssCustomer (S LtssCustomer)
  -- the keys of the tables
  pub key-siebel : (r : SrRow) → siebel.key r ≡ r.id
  pub key-customer : (r : CustomerRow) → customer.key r ≡ r.id
  pub key-chat : (r : ChatRow) → chat.key r ≡ r.id
  pub key-crsr : (r : CrsrRow) → crsr.key r ≡ r.cr
  pub key-bug : (r : BugRow) → bug.key r ≡ r.id
  pub key-pseudo : (r : PseudoRow) → pseudo.key r ≡ r.queuename
  -- ORDER BY QUEUENAME ASC
  pub by_queuename : List PseudoRow → List PseudoRow
  pub contains-by_queuename :
      (k : Text) (rows : List PseudoRow)
      → contains k (map (λ r. r.queuename) (by_queuename rows))
        ≡ contains k (map (λ r. r.queuename) rows)
  -- ORDER BY CREATED ASC
  pub by_created : List SrRow → List SrRow
  pub by_created-perm : (rows : List SrRow) → Permᴰ (by_created rows) rows

-- The contents of the local tables.
pub record Mysql (S : Type 0 → Type 0) : Type 0 where
  pub siebel : S SrRow
  pub customer : S CustomerRow
  pub chat : S ChatRow
  pub crsr : S CrsrRow
  pub bug : S BugRow
  pub pseudo : S PseudoRow
  pub ltss : S LtssCustomer

pub record Env (D : Type 0) (S : Type 0 → Type 0) : Type 0 where
  pub times : DateTimes D
  -- QString::toInt, 0 for a text that is no number
  pub to_int : Text → ℤ
  pub tables : Tables S
  pub remote : Remote
