-- ===== src/Thread/Line.antt =====
-- The first line of a request: ServerThread::run from the line that it reads to the handlers.
use kueued.Prelude.{
  Text, ℕ, lit, ◌==◌, List, [], ◌∷◌, ◌++◌, true, Option, none, some, if◌then◌else◌, ◌>>=◌, ◌≡◌,
  refl, arith, Option-cases, inl, inr,
}
use kueued.QString.Split.{at_1}
use kueued.QString.Tokens.{tokens, is_word, tokens_request, at_1-tokens}
use kueued.Sql.{Env, Mysql}
use kueued.Database.Lookups.{at_0}
use kueued.Thread.Out.{Host}
use kueued.Thread.Replies.{serve}

at_1_of_none : (l : List Text) → at_0 l ≡ none → at_1 l ≡ none
unfolding at_0 at_1
at_1_of_none [] h = refl
at_1_of_none (a ∷ l) h = absurd (ground arith)

module _ {D : Type 0} {S : Type 0 → Type 0} (env : Env D S) (host : Host D) where
  -- if ( req == "GET" ); another request is not answered
  unfoldable pub served : Text → Text → Mysql S → Option (Text × Mysql S)
  served req cmd db = if req == lit "GET" then serve env host cmd db else some ([], db)

  unfoldable pub run : Text → Mysql S → Option (Text × Mysql S)
  run line db = do req ← at_0 (tokens line); cmd ← at_1 (tokens line); served req cmd db

  -- A line "REQ PATH …" is answered like a GET of PATH if REQ is GET, and with nothing, the tables as
  -- they are, if it is another word.
  pub run_request :
      (req path rest : Text) (c : ℕ) (db : Mysql S)
      → is_word req ≡ true
      → is_word (c ∷ path) ≡ true
      → run (req ++ b' ' ∷ ((c ∷ path) ++ b' ' ∷ rest)) db
        ≡ (if req == lit "GET" then serve env host (c ∷ path) db else some ([], db))
  unfolding run served at_0 at_1
  run_request req path rest c db hr hp = rw (tokens_request req path rest c hr hp) refl

  -- Whatever a line holds in front of its line feed, it has the two words that are read, so no list of
  -- words is read past its end.
  pub run_words :
      (t : Text) (db : Mysql S)
      → (req : Text) × (cmd : Text) × (run (t ++ b'\n' ∷ []) db ≡ served req cmd db)
  unfolding run
  run_words t db = elim (Option-cases (at_0 (tokens (t ++ b'\n' ∷ [])))) [
    | inl e ↦ absurd (at_1-tokens t (at_1_of_none (tokens (t ++ b'\n' ∷ [])) e))
    | inr (req, e) ↦ elim (Option-cases (at_1 (tokens (t ++ b'\n' ∷ [])))) [
      | inl f ↦ absurd (at_1-tokens t f)
      | inr (cmd, f) ↦ (req, cmd, ground arith)
    ]
  ]
