-- ===== src/Thread/Out.antt =====
-- What a ServerThread writes to its socket, and what the handlers use besides the databases.
use kueued.Prelude.{
  Text, lit, ◌++◌, List, [], ◌∷◌, Bool, true, false, ℕ, ℤ, if◌then◌else◌, ◌≡◌, arith,
}

-- `sent` is all that was written while the socket was open; a closed socket takes nothing.
pub record Out : Type 0 where
  pub sent : Text
  pub is_open : Bool

-- out << t
unfoldable pub put : Text → Out → Out
put t out = if out.is_open then record out { sent = out.sent ++ t } else out

-- socket->close(), which first sends what `out` still holds
unfoldable pub close : Out → Out
close out = record out { is_open = false }

-- What is not in the databases. Members that nothing initialises hold `junk`, `off` and `level`;
-- `clock i` is the time that round i of a loop reads, and `seconds i` is reading i of the timer.
pub record Host (D : Type 0) : Type 0 where
  pub hostname : Text
  pub junk : Bool
  pub off : ℕ
  pub level : ℤ
  pub timezone : ℤ
  pub now : D
  pub clock : ℕ → Text
  pub seconds : ℕ → ℤ
  -- Settings::latestVersion, Settings::unityURL and Settings::dBServer
  pub latest_version : Text
  pub unity_url : Text
  pub db_server : Text
  -- QString::toUpper
  pub to_upper : Text → Text
  -- QString::remove with the regular expression of the tags
  pub without_tags : Text → Text
  -- what readAll gives for a URL when the reply is complete, and whether the reply has an error
  pub body : Text → Text
  pub has_error : Text → Bool
  -- what readAll gives when the first bytes of the reply are there
  pub first_bytes : Text → Text

-- text() and xml()
unfoldable pub text : Text
text = lit "Content-Type: text/plain; charset=\"utf-8\"\r\n" ++ lit "\r\n"

unfoldable pub xml : Text
xml =
    lit "Content-Type: text/xml; charset=\"utf-8\"\r\n"
    ++ (lit "\r\n" ++ lit "<?xml version='1.0'?>\n\n")

-- the lines that stand before every reply
unfoldable pub head_lines : Text → Text
head_lines hostname =
    lit "HTTP/1.1 200 OK\r\n" ++ (lit "Server: kueued @ " ++ (hostname ++ lit " (Linux)\r\n"))

-- for each text: out << t + "\n"
unfoldable pub lines : List Text → Text
lines [] = []
lines (t ∷ ts) = (t ++ lit "\n") ++ lines ts

pub put_open :
    (t : Text) (out : Out)
    → out.is_open ≡ true
    → put t out ≡ record { sent = out.sent ++ t; is_open = true }
unfolding put
put_open t out h = ground arith
