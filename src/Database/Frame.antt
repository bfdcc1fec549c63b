-- ===== src/Database/Frame.antt =====
-- The lookups leave every table but those of stored answers, CRSR and BUG, as it is.
use kueued.Prelude.{Text, List, some, ◌≡◌, ap, ◌∙◌, arith, Option-cases, inl, inr}
use kueued.Sql.{Env, Mysql}
use kueued.Database.Lookups.{at_0, at_3, get_sr_for_cr_report, get_sr_for_cr, get_bug_desc, sr_info}

module _ {S : Type 0 → Type 0} where
  -- Only CRSR and BUG differ.
  abbrev pub Agree : Mysql S → Mysql S → Type 0
  Agree a b = record a { crsr = b.crsr; bug = b.bug } ≡ b

  pub Agree-trans : (a b c : Mysql S) → Agree a b → Agree b c → Agree a c
  Agree-trans a b c h k = ap (λ (m : Mysql S). record m { crsr = c.crsr; bug = c.bug }) h ∙ k

module _ {D : Type 0} {S : Type 0 → Type 0} (env : Env D S) where
  pub report-Agree :
      (cr : Text) (db db' : Mysql S) (l : List Text)
      → get_sr_for_cr_report env cr db ≡ some (l, db')
      → Agree db db'
  unfolding get_sr_for_cr_report
  report-Agree cr db db' l h = elim (Option-cases (env.remote.related_sr cr)) [
    | inl e ↦ ground arith
    | inr (sr, e) ↦ elim (Option-cases (at_0 (sr_info env sr))) [
      | inl f ↦ absurd (ground arith)
      | inr (desc, f) ↦ elim (Option-cases (at_3 (sr_info env sr))) [
        | inl g ↦ absurd (ground arith)
        | inr (cust, g) ↦ ground arith
      ]
    ]
  ]

  pub get_sr_for_cr-Agree :
      (cr : Text) (db db' : Mysql S) (l : List Text)
      → get_sr_for_cr env cr db ≡ some (l, db')
      → Agree db db'
  unfolding get_sr_for_cr
  get_sr_for_cr-Agree cr db db' l h = ground (arith, report-Agree cr db db' l)

  pub get_bug_desc-Agree : (bug : Text) (db : Mysql S) → Agree db (get_bug_desc env bug db).1
  unfolding get_bug_desc
  get_bug_desc-Agree bug db = ground arith
