-- ===== src/Tests/Paths.antt =====
-- The theorems on the paths of requests at concrete paths.
use kueued.Prelude.{lit, [], ◌∷◌, some, ◌≡◌, refl}
use kueued.QString.Replace.{starts_with}
use kueued.QString.Trim.{all_digits}
use kueued.Thread.Routes.{qmon_date, qmon, handlers, handlers_cases}
use kueued.Thread.Arguments.{sr_argument, sr_argument_given}

handlers_cases_example : handlers (lit "/qmon_date/") ≡ qmon_date ∷ qmon ∷ []
unfolding starts_with lit
handlers_cases_example = handlers_cases (lit "/qmon_date/")

sr_argument_given_example :
    sr_argument (lit "/srinfo") (lit "/srinfo/10123456789") ≡ some (lit "10123456789")
unfolding all_digits lit
sr_argument_given_example = sr_argument_given b's' (lit "rinfo") (lit "10123456789") refl refl refl
