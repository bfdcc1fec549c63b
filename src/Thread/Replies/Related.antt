-- ===== src/Thread/Replies/Related.antt =====
-- /srforcr for a number of which nothing is stored.
use kueued.Prelude.{
  Text, lit, [], ◌∷◌, ◌++◌, length, true, none, some, ◌>>=◌, ◌≡◌, refl, arith, Option-cases, inl,
  inr, ap, ◌∙◌,
}
use kueued.QString.Trim.{all_digits}
use kueued.Sql.{Env, Mysql}
use kueued.Database.Lookups.{at_0, at_3, sr_info, get_sr_for_cr, get_sr_for_cr_report}
use kueued.Database.Cache.{get_unrelated}
use kueued.Thread.Out.{Host, Out, put, head_lines}
use kueued.Thread.Routes.{Handler, handlers, srforcr_runs}
use kueued.Thread.Arguments.{sr_argument_given}
use kueued.Thread.Connections.{none_open, opening, within}
use kueued.Thread.Replies.{srforcr_found, answer, answer_all, serve}

module _ {D : Type 0} {S : Type 0 → Type 0} (env : Env D S) (host : Host D) where
  untitled_faults :
      (cr sr : Text) (db : Mysql S)
      → env.tables.crsr.select cr db.crsr ≡ none
      → env.remote.related_sr cr ≡ some sr
      → env.remote.sr_title sr ≡ none
      → get_sr_for_cr env cr db ≡ none
  unfolding get_sr_for_cr get_sr_for_cr_report at_0 at_3 sr_info
  untitled_faults cr sr db unknown related untitled = ground arith

  -- Without titles there is no answer to read, whether or not a request is related.
  srforcr_found_faults :
      (d : Text) (db : Mysql S) (out : Out)
      → env.tables.crsr.select d db.crsr ≡ none
      → ((sr : Text) → env.remote.sr_title sr ≡ none)
      → srforcr_found env host (some d) db out ≡ none
  unfolding srforcr_found at_0
  srforcr_found_faults d db out unknown untitled = elim (Option-cases (env.remote.related_sr d)) [
    | inl alone ↦ rw (get_unrelated env d db unknown alone) refl
    | inr (sr, related) ↦ rw (untitled_faults d sr db unknown related (untitled sr)) refl
  ]

  srforcr_faults :
      (d : Text) (db : Mysql S) (out : Out)
      → all_digits d ≡ true
      → length d ≡ 11
      → env.tables.crsr.select d db.crsr ≡ none
      → ((sr : Text) → env.remote.sr_title sr ≡ none)
      → answer env host Handler.srforcr (lit "/srforcr/" ++ d) db out ≡ none
  unfolding answer lit
  srforcr_faults d db out digits eleven unknown untitled =
      let found =
        sr_argument_given b's' (b'r' ∷ b'f' ∷ b'o' ∷ b'r' ∷ b'c' ∷ b'r' ∷ []) d refl digits
          eleven in
      rw found (srforcr_found_faults d db out unknown untitled)

module _ {D : Type 0} {S : Type 0 → Type 0} (env : Env D S) (host : Host D) where
  -- Whatever the remote side knows, /srforcr reads past the end of an empty list for every number
  -- that CRSR does not have: the handler has not opened the connection on which the title of the
  -- related request is looked up.
  pub serve_srforcr_faults :
      (d : Text) (db : Mysql S)
      → all_digits d ≡ true
      → length d ≡ 11
      → env.tables.crsr.select d db.crsr ≡ none
      → serve env host (lit "/srforcr/" ++ d) db ≡ none
  unfolding serve lit
  serve_srforcr_faults d db digits eleven unknown =
      let path = lit "/srforcr/" ++ d in
      let first = put (head_lines host.hostname) (record { sent = []; is_open = true }) in
      let runs : handlers path ≡ Handler.srforcr ∷ [] = srforcr_runs (b'/' ∷ d) in
      let opened = opening Handler.srforcr none_open in
      let stuck : answer (within opened env) host Handler.srforcr path db first ≡ none =
        unfold opening within in
        srforcr_faults (within opened env) host d db first digits eleven unknown (λ sr. refl) in
      let all_stuck : answer_all env host none_open (handlers path) path db first ≡ none =
        ap (λ hs. answer_all env host none_open hs path db first) runs
        ∙ unfold answer_all in rw stuck refl in
      ap (λ o. o >>= λ r. some (r.0.sent, r.1)) all_stuck
