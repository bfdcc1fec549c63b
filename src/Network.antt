-- ===== src/Network.antt =====
-- network.cpp: the requests that Network sends, and the line that it logs for a failed one. What
-- QNetworkAccessManager does with them is not in the sources.
use kueued.Prelude.{Text, lit, [], ◌∷◌, ◌++◌, ℕ}

record Request : Type 0 where
  url : Text
  user_agent : Text

-- Network::get and Network::getExt, for QApplication::applicationVersion()
get : Text → Text → Request
get version url = record { url = url; user_agent = lit "kueue " ++ version }

-- the message of Network::error; QString + error appends the character with this code
error_message : Text → ℕ → Text
error_message url error = lit "Error getting " ++ (url ++ (lit " -- " ++ (error ∷ [])))
