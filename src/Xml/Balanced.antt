-- ===== src/Xml/Balanced.antt =====
-- The reader on the forms of lines.
use kueued.Prelude.{
  Text, String, lit, eq_refl, nat_eq, ℕ, suc, List, [], ◌∷◌, ◌++◌, Bool, true, false, ◌&&◌,
  if◌then◌else◌, ◌≡◌, refl, arith,
}
use kueued.QString.Cdata.{is_open}
use kueued.Xml.Markup.{concat, when, raw_in, cdata_in, raw_line, cdata_line}
use kueued.Xml.Scan.{
  content, opened, starting, closing, cdata, step, scan, scan-append, is_name_unit, IsBalanced,
  is_plain,
}

-- The name, read from its end onto what stands before it.
abbrev onto : Text → Text → Text
onto [] acc = acc
onto (c ∷ t) acc = onto t (c ∷ acc)

unfoldable pub is_name : Text → Bool
is_name [] = true
is_name (c ∷ t) = is_name_unit c && is_name t

scan-plain :
    (t : Text) (names : List Text) → is_plain t ≡ true → scan (content names) t ≡ content names
unfolding scan is_plain
scan-plain [] names h = refl
scan-plain (c ∷ t) names h = ground (arith, scan-plain t names)

scan-starting :
    (t acc : Text) (names : List Text)
    → is_name t ≡ true
    → scan (starting acc names) t ≡ starting (onto t acc) names
unfolding scan is_name
scan-starting [] acc names h = refl
scan-starting (c ∷ t) acc names h = ground (arith, scan-starting t (c ∷ acc) names)

scan-closing :
    (t acc top : Text) (names : List Text)
    → is_name t ≡ true
    → scan (closing acc (top ∷ names)) t ≡ closing (onto t acc) (top ∷ names)
unfolding scan is_name
scan-closing [] acc top names h = refl
scan-closing (c ∷ t) acc top names h = ground (arith, scan-closing t (c ∷ acc) top names)

step-cdata :
    (c : ℕ) (t : Text) (n : ℕ) (names : List Text)
    → is_open n (c ∷ t) ≡ true
    → (step (cdata n names) c ≡ cdata (if nat_eq c b']' then suc n else 0) names)
      × (is_open (if nat_eq c b']' then suc n else 0) t ≡ true)
unfolding step is_open
step-cdata c t n names h = (ground arith, ground arith)

-- In a CDATA section, a text that never completes "]]>" is passed over.
scan-cdata :
    (t : Text) (n : ℕ) (names : List Text)
    → is_open n t ≡ true
    → (k : ℕ) × (scan (cdata n names) t ≡ cdata k names)
unfolding scan
scan-cdata [] n names h = (n, refl)
scan-cdata (c ∷ t) n names h =
    let (stepped, rest) = step-cdata c t n names h in
    rw stepped (scan-cdata t (if nat_eq c b']' then suc n else 0) names rest)

unfoldable pub is_tag : Text → Bool
unfolding is_name
is_tag [] = false
is_tag (c ∷ t) = is_name (c ∷ t)

scan-opened :
    (t : Text) (names : List Text)
    → is_tag t ≡ true
    → scan (opened names) t ≡ starting (onto t []) names
unfolding is_tag scan
scan-opened [] names h = absurd (cc)
scan-opened (c ∷ t) names h =
    let first : step (opened names) c ≡ starting (c ∷ []) names = unfold step in ground arith in
    rw first (scan-starting t (c ∷ []) names (ground arith))

is_name_of_tag : (t : Text) → is_tag t ≡ true → is_name t ≡ true
unfolding is_tag
is_name_of_tag [] h = absurd (cc)
is_name_of_tag (c ∷ t) h = h

-- The pieces round the value of a line.
scan-open : (names : List Text) → scan (content names) (lit "<") ≡ opened names
unfolding scan lit
scan-open names = refl

scan-start_end :
    (a : Text) (names : List Text) → scan (starting a names) (lit ">") ≡ content (a ∷ names)
unfolding scan lit
scan-start_end a names = refl

scan-cdata_start :
    (a : Text) (names : List Text)
    → scan (starting a names) (lit "><![CDATA[") ≡ cdata 0 (a ∷ names)
unfolding scan lit
scan-cdata_start a names = refl

scan-end : (names : List Text) → scan (content names) (lit "</") ≡ closing [] names
unfolding scan lit
scan-end names = refl

scan-cdata_end : (k : ℕ) (names : List Text) → scan (cdata k names) (lit "]]></") ≡ closing [] names
unfolding scan lit
scan-cdata_end k names = ground arith

scan-end_end :
    (a : Text) (names : List Text) → scan (closing a (a ∷ names)) (lit ">") ≡ content names
unfolding scan lit
scan-end_end a names = rw (eq_refl a)

pub raw_in-IsBalanced :
    (indent name : String) (v : Text) (tail : String)
    → is_plain (lit indent) ≡ true
    → is_tag (lit name) ≡ true
    → is_plain (lit tail) ≡ true
    → is_plain v ≡ true
    → IsBalanced (raw_in indent name v tail)
unfolding raw_in
raw_in-IsBalanced indent name v tail before tag after plain names =
    let a = onto (lit name) [] in
    simp (
      scan-append,
      scan-plain (lit indent) names before,
      scan-open names,
      scan-opened (lit name) names tag,
      scan-start_end a names,
      scan-plain v (a ∷ names) plain,
      scan-end (a ∷ names),
      scan-closing (lit name) [] a names (is_name_of_tag (lit name) tag),
      scan-end_end a names,
      scan-plain (lit tail) names after,
    )

pub cdata_in-IsBalanced :
    (indent name : String) (v : Text)
    → is_plain (lit indent) ≡ true
    → is_tag (lit name) ≡ true
    → is_open 0 v ≡ true
    → IsBalanced (cdata_in indent name v)
unfolding cdata_in
cdata_in-IsBalanced indent name v before tag safe names =
    let a = onto (lit name) [] in
    let (k, inside) = scan-cdata v 0 (a ∷ names) safe in
    simp (
      scan-append,
      scan-plain (lit indent) names before,
      scan-open names,
      scan-opened (lit name) names tag,
      scan-cdata_start a names,
      inside,
      scan-cdata_end k (a ∷ names),
      scan-closing (lit name) [] a names (is_name_of_tag (lit name) tag),
      scan-end_end a names,
      scan-plain (lit "\n") names (unfold lit is_plain in refl),
    )

-- A line at the usual indentation, for a name that is checked by evaluation.
pub raw_line-IsBalanced :
    (name : String) (v : Text)
    → is_tag (lit name) ≡ true
    → is_plain v ≡ true
    → IsBalanced (raw_line name v)
unfolding lit is_plain
raw_line-IsBalanced name v tag plain = raw_in-IsBalanced "    " name v "\n" refl tag refl plain

pub cdata_line-IsBalanced :
    (name : String) (v : Text)
    → is_tag (lit name) ≡ true
    → is_open 0 v ≡ true
    → IsBalanced (cdata_line name v)
unfolding lit is_plain
cdata_line-IsBalanced name v tag safe = cdata_in-IsBalanced "    " name v refl tag safe

-- An element round a balanced text.
pub wrap-IsBalanced :
    (before body after : Text) (name : Text)
    → ((names : List Text) → scan (content names) before ≡ content (name ∷ names))
    → ((names : List Text) → scan (content (name ∷ names)) after ≡ content names)
    → IsBalanced body
    → IsBalanced (before ++ (body ++ after))
wrap-IsBalanced before body after name hb ha h names =
    rw (scan-append, hb names, scan-append, h (name ∷ names), ha names)

pub append-IsBalanced : (t u : Text) → IsBalanced t → IsBalanced u → IsBalanced (t ++ u)
append-IsBalanced t u ht hu names = rw (scan-append, ht names, hu names)

pub nil-IsBalanced : IsBalanced []
unfolding scan
nil-IsBalanced names = refl

pub when-IsBalanced : (b : Bool) (t : Text) → IsBalanced t → IsBalanced (when b t)
when-IsBalanced true t h = h
when-IsBalanced false t h = nil-IsBalanced

-- Every piece of a concatenation is balanced.
infixr 20 ◌&◌
pub data AllBalanced : List Text → Type 0 where
  done : AllBalanced []
  ◌&◌ : {t : Text} {ts : List Text} → IsBalanced t → AllBalanced ts → AllBalanced (t ∷ ts)

pub concat-IsBalanced : {ts : List Text} → AllBalanced ts → IsBalanced (concat ts)
unfolding concat
concat-IsBalanced done = nil-IsBalanced
concat-IsBalanced (◌&◌ {t = t} {ts = ts} h rest) =
    append-IsBalanced t (concat ts) h (concat-IsBalanced rest)
