-- ===== src/Thread/Replies/Numbers.antt =====
-- The list of numbers that /srnrs answers with.
use kueued.Prelude.{
  List, contains, Text, lit, is_empty, [], ◌∷◌, ◌++◌, true, false, some, ◌≡◌, refl, arith,
}
use kueued.QString.Replace.{starts_with, has_part}
use kueued.QString.Split.{lacks, split-append, split-lacks, at_1}
use kueued.Sql.{Env, Mysql}
use kueued.Database.Lookups.{at_0}
use kueued.Database.Lists.{get_srnums_for_queue, waits_in, contains-get_srnums_for_queue}
use kueued.Thread.Arguments.{argument_given}
use kueued.Thread.Out.{Host, Out, put, text, lines}
use kueued.Thread.Replies.{answer_srnrs}

has_bar : (queue geo : Text) → has_part (lit "|") (queue ++ b'|' ∷ geo) ≡ true
unfolding has_part lit starts_with
has_bar [] geo = ground arith
has_bar (c ∷ queue) geo = ground (arith, has_bar queue geo)

not_empty : (queue geo : Text) → is_empty (queue ++ b'|' ∷ geo) ≡ false
not_empty [] geo = refl
not_empty (c ∷ queue) geo = refl

module _ {D : Type 0} {S : Type 0 → Type 0} (env : Env D S) where
  -- /srnrs/QUEUE|GEO sends a list of numbers, one in each line, that has a number just if
  -- QMON_SIEBEL has a row of it whose QUEUE matches QUEUE and whose GEO matches GEO, if neither has a
  -- slash or a bar in it and the path does not repeat the name of the handler.
  pub answer_srnrs_given :
      (host : Host D) (queue geo : Text) (db : Mysql S) (out : Out)
      → lacks b'|' queue ≡ true
      → lacks b'|' geo ≡ true
      → lacks b'/' (queue ++ b'|' ∷ geo) ≡ true
      → starts_with (queue ++ b'|' ∷ geo) (lit "srnrs") ≡ false
      → (numbers : List Text) × (answer_srnrs env host
            (lit "/srnrs/" ++ (queue ++ b'|' ∷ geo))
            db
            out
          ≡ some (put (lines numbers) (put text out)))
        × ((j : Text)
            → contains j numbers ≡ waits_in env queue geo (env.tables.siebel.select j db.siebel))
  unfolding answer_srnrs lit at_0 at_1
  answer_srnrs_given host queue geo db out hq hg slash name =
      let q = queue ++ b'|' ∷ geo in
      let found = argument_given b's' (b'r' ∷ b'n' ∷ b'r' ∷ b's' ∷ []) q name slash in
      (
        get_srnums_for_queue env queue geo db,
        rw
            (
              found,
              not_empty queue geo,
              has_bar queue geo,
              split-append b'|' [] queue geo hq,
              split-lacks b'|' [] geo hg,
            )
            refl,
        λ j. contains-get_srnums_for_queue env queue geo j db,
      )
