-- ===== src/Tests/Data.antt =====
-- One remote side and two contents of the local tables. Texts are short; dates are texts, and the
-- seconds from one to another are always 0.
use mathlib.Core.List.Permᴰ
use kueued.Prelude.{
  Text, lit, ◌==◌, List, [], ◌∷◌, ℕ, pos, none, some, true, false, refl, if◌then◌else◌,
}
use kueued.Items.{SiebelItem, blank_siebel_item}
use kueued.Sql.{Env, Mysql, Remote, Tables, DateTimes}
use kueued.Sql.Rows.{SrRow, CustomerRow, ChatRow, CrsrRow, BugRow, PseudoRow}
use kueued.Database.Cache.{AreTitled}
use kueued.Database.Siebel.{insert_siebel_item_into_db}
use kueued.Thread.Out.{Host}
use kueued.Tests.Memory.{in_memory, heap}

abbrev pub dates : DateTimes Text
dates = record { from_string = λ t f. some t; to_string = λ d f. d; secs_to = λ a b. pos 0 }

abbrev memory_tables : Tables List
memory_tables = record {
  matches = λ a b. a == b;
  siebel = in_memory (λ (r : SrRow). r.id);
  customer = in_memory (λ (r : CustomerRow). r.id);
  chat = in_memory (λ (r : ChatRow). r.id);
  crsr = in_memory (λ (r : CrsrRow). r.cr);
  bug = in_memory (λ (r : BugRow). r.id);
  pseudo = in_memory (λ (r : PseudoRow). r.queuename);
  ltss = heap;
  by_queuename = λ rows. rows;
  contains-by_queuename = λ k rows. refl;
  key-siebel = λ r. refl;
  key-customer = λ r. refl;
  key-chat = λ r. refl;
  key-crsr = λ r. refl;
  key-bug = λ r. refl;
  key-pseudo = λ r. refl;
  by_created = λ rows. rows;
  by_created-perm = Permᴰ.refl;
}

-- A row of the SR list: number, queue and subtype.
abbrev sr_row : Text → Text → Text → List Text
sr_row id queue subtype =
    id ∷ queue ∷ [] ∷ [] ∷ [] ∷ [] ∷ [] ∷ [] ∷ [] ∷ [] ∷ [] ∷ [] ∷ [] ∷ [] ∷ [] ∷ [] ∷ subtype ∷ []

-- A row of an engineer's queue: number and subtype.
abbrev pub engineer_row : Text → Text → List Text
engineer_row id subtype = id ∷ [] ∷ [] ∷ [] ∷ [] ∷ [] ∷ [] ∷ [] ∷ [] ∷ subtype ∷ []

-- The details of one number, with "]]>" and a control unit in them.
abbrev pub details : List Text
details =
    lit "7"
    ∷ []
    ∷ []
    ∷ []
    ∷ []
    ∷ []
    ∷ []
    ∷ []
    ∷ []
    ∷ []
    ∷ []
    ∷ lit "a]]>b"
    ∷ []
    ∷ []
    ∷ []
    ∷ []
    ∷ []
    ∷ []
    ∷ []
    ∷ []
    ∷ []
    ∷ []
    ∷ []
    ∷ []
    ∷ (b'x' ∷ 27 ∷ b'y' ∷ [])
    ∷ []
    ∷ lit "123456"
    ∷ []

-- Number 7 waits in the queue q, and 8 is a collaboration request for it. An engineer has the
-- service request 3 and the request 8; a subowner has the collaboration request 9, which has no related request.
abbrev pub remote_side : Remote
remote_side = record {
  open_srs = sr_row (lit "7") (lit "q") [] ∷ sr_row (lit "8") (lit "q") (lit "Collaboration") ∷ [];
  user_queue = λ subowner engineer.
      if subowner
      then engineer_row (lit "9") (lit "Collaboration") ∷ []
      else engineer_row (lit "3") [] ∷ engineer_row (lit "8") (lit "Collaboration") ∷ [];
  sr_details = λ sr. some details;
  creator_login = λ sr. some (lit "LOGIN");
  desc_text = λ sr. some (lit "text");
  sr_stat = λ sr. some (lit "open");
  sr_title = λ sr. some (lit "title" ∷ [] ∷ [] ∷ lit "customer" ∷ []);
  related_sr = λ cr. if cr == lit "8" then some (lit "7") else none;
  chats = (lit "c" ∷ lit "7" ∷ lit "desk" ∷ lit "d" ∷ []) ∷ [];
  ltss_customers = ([] ∷ [] ∷ [] ∷ [] ∷ [] ∷ [] ∷ [] ∷ [] ∷ [] ∷ lit "77" ∷ []) ∷ [];
  pseudo_queues = (lit "p" ∷ []) ∷ [];
  bug_page_title = λ bug. lit " a bug ";
}

abbrev pub env : Env Text List
env = record { times = dates; to_int = λ t. pos 0; tables = memory_tables; remote = remote_side }

pub titled : AreTitled env
titled = λ cr sr related untitled. cc

abbrev pub clock : ℕ → Text
clock i = i ∷ []

-- Items of the SR list, with a number and a queue.
abbrev pub item : Text → Text → SiebelItem
item id queue = record (blank_siebel_item false) { id = id; queue = queue }

abbrev pub item_7 : SiebelItem
item_7 = item (lit "7") (lit "q")

abbrev pub item_6 : SiebelItem
item_6 = item (lit "6") (lit "q")

abbrev pub no_rows : Mysql List
no_rows = record {
  siebel = [];
  customer = [];
  chat = [];
  crsr = [];
  bug = [];
  pseudo = [];
  ltss = [];
}

-- The tables after an insertion of 6 and 7, at the times "t" and "u".
abbrev pub two_rows : Mysql List
two_rows =
    insert_siebel_item_into_db env (lit "u") item_7
      (insert_siebel_item_into_db env (lit "t") item_6 no_rows)

-- A server whose web requests fail.
abbrev pub host : Host Text
host = record {
  hostname = lit "host";
  junk = true;
  off = 5;
  level = pos 7;
  timezone = pos 0;
  now = lit "now";
  clock = clock;
  seconds = λ i. pos i;
  latest_version = lit "1";
  unity_url = lit "unity";
  db_server = lit "server";
  to_upper = λ t. t;
  without_tags = λ t. t;
  body = λ url. [];
  has_error = λ url. true;
  first_bytes = λ url. [];
}
