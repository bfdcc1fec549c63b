-- ===== src/Tests/Served.antt =====
-- /updateDB and then /qmon, at a remote side whose texts fit in the documents.
use mathlib.Core.Path.{subst}
use Prim.Native.Nat.{◌%◌}
use kueued.Prelude.{
  map, contains, value, Text, lit, ◌==◌, ℕ, zero, suc, pos, List, [], ◌∷◌, ◌++◌, All-map, ◌&&◌,
  Bool, true, false, some, ◌≡◌, refl, arith, Bool-cases, inl, inr,
}
use kueued.Sql.{Env, Mysql}
use kueued.QString.Cdata.{is_open}
use kueued.Xml.Scan.{IsBalanced, is_plain}
use kueued.Database.Queue.{get_srs_for_queue}
use kueued.Thread.Out.{head_lines, xml}
use kueued.Thread.Replies.{serve}
use kueued.Thread.Replies.Wire.{qmon_document}
use kueued.Thread.Replies.Documents.{qmon_after_update_db}
use kueued.Update.Fits.{has_no_close, is_description, RemoteFits, TablesFit}
use kueued.Items.{BomgarItem, blank_siebel_item}
use kueued.Xml.Qmon.{qmon}
use kueued.Update.Programs.{Prog, done, write, runs}
use kueued.Update.Programs.Request.{update_program}
use kueued.Update.Fits.Items.{ItemFits}
use kueued.Update.Fits.Pools.{KeepsFit, qmon_at_any_time}
use kueued.Tests.Data.{env, host, titled, no_rows, clock, item_7}

-- The same remote side, with a date of Qt's.
abbrev dated : Env Text List
dated = record env {
  times = record {
    from_string = λ t f. some t;
    to_string = λ d f. lit "2015-01-02 03:04:05";
    secs_to = λ a b. pos 0;
  };
}

none_closes : List Text → Bool
none_closes [] = true
none_closes (t ∷ row) = has_no_close t && none_closes row

has_no_close-value :
    (row : List Text) (i : ℕ) → none_closes row ≡ true → has_no_close (value i row) ≡ true
unfolding none_closes
has_no_close-value [] i h = unfold has_no_close in refl
has_no_close-value (t ∷ row) zero h = ground arith
has_no_close-value (t ∷ row) (suc i) h = has_no_close-value row i (ground arith)

dated-RemoteFits : RemoteFits dated
unfolding none_closes has_no_close is_plain is_open lit ◌==◌
dated-RemoteFits = record {
  open_srs =
      All-map {P = λ row. none_closes row ≡ true}
        {Q = λ row. (i : ℕ) → is_description i ≡ false → has_no_close (value i row) ≡ true}
        env.remote.open_srs (λ row h i _. has_no_close-value row i h) (refl, (refl, tt));
  chats = (refl, tt);
  logins = λ sr t e.
      let same : lit "LOGIN" ≡ t = ground (arith, e) in subst (λ x. is_plain x ≡ true) same refl;
  related = λ cr sr e. elim (Bool-cases (cr == lit "8")) [
    | inl eight ↦
        let same : lit "7" ≡ sr = ground (arith, e) in subst (λ x. is_plain x ≡ true) same refl
    | inr other ↦ absurd (ground (arith, e))
  ];
  titles = λ sr row e.
      let same : lit "title" ∷ [] ∷ [] ∷ lit "customer" ∷ [] ≡ row = ground (arith, e) in
      subst (λ x. (is_open 0 (value 0 x) ≡ true) × (is_open 0 (value 3 x) ≡ true)) same
        (refl, refl);
  dates = λ d. refl;
}

no_rows-TablesFit : TablesFit dated no_rows
no_rows-TablesFit = record {
  srs = λ k r e. absurd (cc);
  customers = λ k r e. absurd (cc);
  related = λ k r e. absurd (cc);
  chats = λ k r e. absurd (cc);
}

qmon_after_update_db_example :
    (sent : Text) × (db' : Mysql List) × (serve dated host (lit "/updateDB/full") no_rows
      ≡ some (sent, db'))
    × TablesFit dated db'
    × (serve dated host (lit "/qmon") db'
        ≡ some (head_lines (lit "host") ++ (xml ++ qmon_document dated host db'), db'))
    × IsBalanced (qmon_document dated host db')
    × ((j : Text)
        → contains j (map (λ si. si.id) (get_srs_for_queue dated true (lit "NONE") db'))
          ≡ contains j (lit "7" ∷ lit "8" ∷ []))
unfolding lit
qmon_after_update_db_example =
    qmon_after_update_db dated host (lit "/full") no_rows titled dated-RemoteFits no_rows-TablesFit

item_7-ItemFits : ItemFits item_7
unfolding blank_siebel_item is_plain is_open lit
item_7-ItemFits = ground arith

abbrev desk : BomgarItem
unfolding lit
desk = record { id = lit "c"; sr = lit "7"; name = lit "desk"; date = lit "d" }

-- Two updates, and a request that empties the titles of bugs.
abbrev program : ℕ → Prog (Mysql List)
program zero = update_program dated clock true [] (item_7 ∷ [])
program (suc zero) = update_program dated clock false (desk ∷ []) []
program (suc (suc zero)) = write (λ m. record m { bug = [] }) done
program (suc (suc (suc i))) = done

all_keep : (i : ℕ) → KeepsFit dated dated-RemoteFits (program i)
unfolding is_plain lit
all_keep zero = inl (clock, true, [], item_7 ∷ [], refl, tt, (item_7-ItemFits, tt))
all_keep (suc zero) = inl (clock, false, desk ∷ [], [], refl, (refl, tt), tt)
all_keep (suc (suc zero)) = inr (λ j m. ((λ h. h), tt))
all_keep (suc (suc (suc i))) = inr (λ j. tt)

qmon_at_any_time_example : IsBalanced (
    qmon dated.times (lit "now") (pos 0) (
      get_srs_for_queue dated true
        (lit "q")
        (runs (λ t. t % 3) 20 (record { shared = no_rows; threads = program })).shared))
qmon_at_any_time_example =
    qmon_at_any_time dated dated-RemoteFits (λ t. t % 3) 20
      (record { shared = no_rows; threads = program }) true (lit "now") (pos 0) (lit "q")
      no_rows-TablesFit all_keep
