-- ===== src/Database/Time.antt =====
-- convertTime
use kueued.Prelude.{Text, lit, [], Option, none, some}
use kueued.Sql.{DateTimes}

module _ {D : Type 0} (times : DateTimes D) where
  -- toString of an invalid QDateTime is empty.
  unfoldable pub show_time : Option D → Text
  show_time none = []
  show_time (some d) = times.to_string d (lit "yyyy-MM-dd hh:mm:ss")

  -- if ( !d.isValid() ) d = …
  unfoldable pub if_invalid : Option D → Option D → Option D
  if_invalid none other = other
  if_invalid (some d) other = some d

  unfoldable pub convert_time : Text → Text
  unfolding show_time if_invalid
  convert_time dt = show_time (
      if_invalid (times.from_string dt (lit "M/d/yyyy hh:mm:ss AP"))
        (times.from_string dt (lit "yyyy-MM-ddThh:mm:ss")))
