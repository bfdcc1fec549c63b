-- ===== src/Xml/Scan.antt =====
-- A reader for the documents, apart from the code that prints them: elements without attributes,
-- CDATA sections and text. It keeps the names of the open elements, and dies on an end tag that does
-- not match, on a bare '&' or '<', and on anything else that it does not know.
use kueued.Prelude.{
  Text, lit, ◌==◌, ℕ, suc, List, [], ◌∷◌, ◌++◌, Bool, true, false, ◌&&◌, ◌||◌, nat_eq, leb,
  if◌then◌else◌, ◌≡◌, refl,
}

pub data State : Type 0 where
  -- between tags
  content : List Text → State
  -- after '<'
  opened : List Text → State
  -- in a start tag, or in an end tag, with the name so far from its end
  starting : Text → List Text → State
  closing : Text → List Text → State
  -- after "<!", with what has to come
  marker : Text → List Text → State
  -- in a CDATA section, after so many brackets
  cdata : ℕ → List Text → State
  dead : State

abbrev pub is_name_unit : ℕ → Bool
is_name_unit c = (leb b'a' c && leb c b'z') || (leb b'A' c && leb c b'Z') || nat_eq c b'_'

unfoldable pub step : State → ℕ → State
unfolding ◌==◌ lit
step (content open_names) c =
    if nat_eq c b'<'
    then opened open_names
    else (if nat_eq c b'&' then dead else content open_names)
step (opened open_names) c =
    if nat_eq c b'/'
    then closing [] open_names
    else (if nat_eq c b'!'
        then marker (lit "[CDATA[") open_names
        else (if is_name_unit c then starting (c ∷ []) open_names else dead))
step (starting name open_names) c =
    if nat_eq c b'>'
    then content (name ∷ open_names)
    else (if is_name_unit c then starting (c ∷ name) open_names else dead)
step (closing name []) c = dead
step (closing name (top ∷ open_names)) c =
    if nat_eq c b'>'
    then (if name == top then content open_names else dead)
    else (if is_name_unit c then closing (c ∷ name) (top ∷ open_names) else dead)
step (marker [] open_names) c = dead
step (marker (e ∷ []) open_names) c = if nat_eq c e then cdata 0 open_names else dead
step (marker (e ∷ d ∷ es) open_names) c = if nat_eq c e then marker (d ∷ es) open_names else dead
step (cdata n open_names) c =
    if nat_eq c b']'
    then cdata (suc n) open_names
    else (if nat_eq c b'>' && leb 2 n then content open_names else cdata 0 open_names)
step dead c = dead

unfoldable pub scan : State → Text → State
unfolding step
scan s [] = s
scan s (c ∷ t) = scan (step s c) t

pub scan-append : (s : State) (t u : Text) → scan s (t ++ u) ≡ scan (scan s t) u
unfolding scan
scan-append s [] u = refl
scan-append s (c ∷ t) u = scan-append (step s c) t u

-- Read anywhere between tags, the text closes what it opens and nothing else.
abbrev pub IsBalanced : Text → Type 0
IsBalanced t = (open_names : List Text) → scan (content open_names) t ≡ content open_names

-- A text that may stand between tags: no '<' and no '&'.
unfoldable pub is_plain : Text → Bool
is_plain [] = true
is_plain (c ∷ t) = (if nat_eq c b'<' || nat_eq c b'&' then false else true) && is_plain t
