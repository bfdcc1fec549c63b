-- ===== src/Debug.antt =====
-- debug.h: the lines that go to the standard output and to the two files under /var/log/kueued. The
-- time, the host's name, the number of active threads and toUpper are parameters; a file that does
-- not open keeps its text.
use kueued.Prelude.{Text, lit, [], ◌∷◌, ◌++◌, ◌==◌, ℕ, pos, ltb, Bool, if◌then◌else◌}
use kueued.QString.Number.{number}
use kueued.QString.Replace.{has_part, replace}
use kueued.Settings

module _ (to_upper : Text → Text) (time host : Text) where
  -- QString + int appends the character with this code.
  print_line : ℕ → Text → Text → Text
  print_line threads c msg =
      lit "["
      ++ (time
          ++ (lit "] ["
              ++ ((threads ∷ [])
                  ++ (lit "] ["
                      ++ (to_upper host
                          ++ (lit "] [" ++ (to_upper c ++ (lit "] " ++ (msg ++ lit "\n")))))))))

  -- what Debug::print adds to the standard output
  print : (Text → Text) → Settings.Values → ℕ → Text → Text → Text
  unfolding print_line
  print to_lower value threads c msg =
      if Settings.debug_log to_lower value then print_line threads c msg else []

  two_digits : ℕ → Text
  two_digits atc = if ltb atc 10 then lit "0" ++ number (pos atc) else number (pos atc)

  -- the line of Debug::log
  log_line : ℕ → Text → Text → Text
  unfolding two_digits
  log_line atc c msg =
      lit "["
      ++ (time
          ++ (lit "] ["
              ++ (two_digits atc
                  ++ (lit "] ["
                      ++ (to_upper c
                          ++ (lit "] "
                              ++ ((if has_part (lit "%7C") msg
                                    then replace (lit "%7C") (lit "|") msg
                                    else msg)
                                  ++ lit "\n")))))))

  -- the text of the file after Debug::log
  log : Bool → ℕ → Text → Text → Text → Text
  unfolding log_line
  log opens atc c msg file = if opens then file ++ log_line atc c msg else file

  -- the text of the file after Debug::logQuery, for the texts of lastError() and executedQuery()
  log_query : (Text → Text) → Settings.Values → Bool → Text → Text → Text → Text → Text
  log_query to_lower value opens error query dbname file =
      if Settings.log_queries to_lower value
      then (if opens
          then file
            ++ (lit "["
                ++ (time
                    ++ (lit "] ["
                        ++ (to_upper host
                            ++ (lit "] ["
                                ++ (dbname
                                    ++ (lit "] Error: "
                                        ++ ((if error == lit " " then lit "None" else error)
                                            ++ (lit "\nExecuted query: "
                                                ++ (query ++ lit "\n\n"))))))))))
          else file)
      else file
