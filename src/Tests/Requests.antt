-- ===== src/Tests/Requests.antt =====
-- The theorems on the queries and on the texts at small inputs.
use kueued.QString.Replace.{starts_with}
use kueued.Prelude.{
  arith, Text, lit, ◌==◌, ◌++◌, List, [], ◌∷◌, true, false, none, some, ◌≡◌, refl, if◌then◌else◌,
  pos,
}
use kueued.Items.{QueueItem}
use kueued.Sql.{Mysql}
use kueued.QString.Cdata.{is_open, escape_cdata, is_open-escape_cdata}
use kueued.Database.Lookups.{is_bug_id}
use kueued.Database.Escape.{escape_string, strip}
use kueued.Database.Escape.Loop.{escape_string-eq-strip}
use kueued.Database.Escape.Clears.{
  is_spaced, has_control, escape_string_clears, escape_string_misses,
}
use kueued.Database.Engineer.{get_user_queue, get_sr_info}
use kueued.Database.Engineer.Facts.{
  All, IsEscaped, get_user_queue_faults, get_user_queue_total, get_sr_info_total,
}
use kueued.Database.Queue.{get_srs_for_queue}
use kueued.Database.Queue.Facts.{AreEscaped, get_srs_for_queue-AreEscaped}
use kueued.Database.Phone.{format_phone, format_phone-weave, format_phone_unset-weave}
use kueued.Tests.Data.{env, titled, no_rows, two_rows, details, engineer_row}

-- The tables after a request for 8, whose related request is 7.
abbrev related_8 : Mysql List
related_8 = record no_rows {
  crsr = record { cr = lit "8"; sr = lit "7"; cust = lit "customer"; bdesc = lit "title" } ∷ [];
}

escape_string-eq-strip_example :
    escape_string (b'a' ∷ 27 ∷ 17 ∷ 3 ∷ 17 ∷ []) ≡ some (b'a' ∷ 17 ∷ 3 ∷ [])
unfolding strip
escape_string-eq-strip_example = escape_string-eq-strip (b'a' ∷ 27 ∷ 17 ∷ 3 ∷ 17 ∷ [])

escape_string_clears_example :
    (r : Text) × (escape_string (b'a' ∷ 17 ∷ b'b' ∷ b'c' ∷ 27 ∷ []) ≡ some r)
    × (has_control r ≡ false)
unfolding is_spaced
escape_string_clears_example = escape_string_clears (b'a' ∷ 17 ∷ b'b' ∷ b'c' ∷ 27 ∷ []) refl

escape_string_misses_example :
    (r : Text) × (escape_string ((b'a' ∷ []) ++ 27 ∷ 17 ∷ b'z' ∷ []) ≡ some r)
    × (has_control r ≡ true)
unfolding has_control
escape_string_misses_example = escape_string_misses (b'a' ∷ []) (b'z' ∷ []) 27 17 refl refl refl

get_user_queue_faults_example : get_user_queue env true (pos 0) 5 true (lit "LOGIN") no_rows ≡ none
unfolding ◌==◌ lit
get_user_queue_faults_example =
    get_user_queue_faults env true (pos 0) 5 true (lit "LOGIN")
      (engineer_row (lit "9") (lit "Collaboration")) [] no_rows refl refl refl refl

get_user_queue_total_example :
    (items : List QueueItem) × (db' : Mysql List) × (get_user_queue env true
        (pos 0)
        5
        false
        (lit "LOGIN")
        no_rows
      ≡ some (items, db'))
    × All IsEscaped items
unfolding ◌==◌ lit
get_user_queue_total_example =
    get_user_queue_total env true (pos 0) 5 false (lit "LOGIN") no_rows titled
      ((λ is_cr alone. absurd (cc)), ((λ is_cr alone. absurd (cc)), tt))

get_srs_for_queue-AreEscaped_example : AreEscaped (get_srs_for_queue env true (lit "q") two_rows)
get_srs_for_queue-AreEscaped_example = get_srs_for_queue-AreEscaped env true (lit "q") two_rows

get_sr_info_total_example :
    (i : QueueItem) × (db' : Mysql List) × (get_sr_info env true (pos 0) 5 (lit "7") no_rows
      ≡ some (i, db'))
    × (is_open 0 i.brief_desc ≡ true)
    × (i.detailed_desc ≡ strip (escape_cdata (b'x' ∷ 27 ∷ b'y' ∷ [])))
    × (i.bug_id ≡ (if is_bug_id (lit "123456") then lit "123456" else []))
get_sr_info_total_example = get_sr_info_total env true (pos 0) 5 (lit "7") details no_rows refl

format_phone-weave_example :
    format_phone 7 (lit "+49911740530") (lit "000 000 0") ≡ lit "+49 911 7405 30"
unfolding lit
format_phone-weave_example =
    format_phone-weave 7 b'4' b'9' (lit "911740530") (lit "000 000 0") (omega arith)

format_phone_unset-weave_example : format_phone 2 (lit "49911") (lit "00 0") ≡ lit "4991 1"
unfolding lit starts_with
format_phone_unset-weave_example =
    format_phone_unset-weave (lit "49") (lit "911") (lit "00 0") refl (omega arith)

is_open-escape_cdata_example : is_open 0 (escape_cdata (lit "a]]>b]]>")) ≡ true
is_open-escape_cdata_example = is_open-escape_cdata (lit "a]]>b]]>")
