-- ===== src/Thread/Routes.antt =====
-- The chain of conditions of ServerThread::run on the path of a request.
use mathlib.Core.List.{append_assoc}
use kueued.Prelude.{
  Text, lit, List, [], ◌∷◌, ◌++◌, true, if◌then◌else◌, ◌≡◌, refl, arith, ap, sym, ◌∙◌, Bool-cases,
  inl, inr,
}
use kueued.QString.Replace.{starts_with}

-- One handler for each branch.
pub data Handler : Type 0 where
  qmon_date : Handler
  ltsscustomers : Handler
  qmon : Handler
  srnrs : Handler
  srforcr : Handler
  srinfo : Handler
  srstatus : Handler
  latestkueue : Handler
  detailed : Handler
  ltssupdate : Handler
  update_db : Handler
  chat : Handler
  pseudo_q : Handler
  unity_url : Handler
  assign : Handler
  userqueue : Handler
  stats : Handler
  welcome : Handler

-- if ( cmd.startsWith( "/qmon" ) ) … else if … else …
unfoldable pub chain : Text → Handler
unfolding lit starts_with
chain cmd =
    if starts_with cmd (lit "/qmon")
    then qmon
    else (if starts_with cmd (lit "/srnrs")
        then srnrs
        else (if starts_with cmd (lit "/srforcr")
            then srforcr
            else (if starts_with cmd (lit "/srinfo")
                then srinfo
                else (if starts_with cmd (lit "/srstatus")
                    then srstatus
                    else (if starts_with cmd (lit "/latestkueue")
                        then latestkueue
                        else (if starts_with cmd (lit "/detailed")
                            then detailed
                            else (if starts_with cmd (lit "/ltssupdate")
                                then ltssupdate
                                else (if starts_with cmd (lit "/updateDB")
                                    then update_db
                                    else (if starts_with cmd (lit "/chat")
                                        then chat
                                        else (if starts_with cmd (lit "/pseudoQ")
                                            then pseudo_q
                                            else (if starts_with cmd (lit "/unityURL")
                                                then unity_url
                                                else (if starts_with cmd (lit "/assign")
                                                    then assign
                                                    else (if starts_with cmd (lit "/userqueue")
                                                        then userqueue
                                                        else (if starts_with cmd (lit "/stats")
                                                            then stats
                                                            else welcome))))))))))))))

-- The handlers that a path runs, in their order. The first two tests have no else.
unfoldable pub handlers : Text → List Handler
unfolding chain
handlers cmd =
    (if starts_with cmd (lit "/qmon_date") then qmon_date ∷ [] else [])
    ++ ((if starts_with cmd (lit "/ltsscustomers") then ltsscustomers ∷ [] else [])
        ++ chain cmd ∷ [])

-- The tests that have no else.
unfoldable pub firsts : Text → List Handler
firsts cmd =
    (if starts_with cmd (lit "/qmon_date") then qmon_date ∷ [] else [])
    ++ (if starts_with cmd (lit "/ltsscustomers") then ltsscustomers ∷ [] else [])

pub handlers-firsts : (cmd : Text) → handlers cmd ≡ firsts cmd ++ chain cmd ∷ []
unfolding handlers firsts
handlers-firsts cmd = sym (
    append_assoc (if starts_with cmd (lit "/qmon_date") then qmon_date ∷ [] else [])
      (if starts_with cmd (lit "/ltsscustomers") then ltsscustomers ∷ [] else []) (chain cmd ∷ []))

starts_with-split : (s p : Text) → starts_with s p ≡ true → (rest : Text) × (s ≡ p ++ rest)
unfolding starts_with
starts_with-split s [] h = (s, refl)
starts_with-split [] (p ∷ ps) h = absurd (ground arith)
starts_with-split (c ∷ s) (p ∷ ps) h =
    let (rest, e) = starts_with-split s ps (ground arith) in (rest, ground arith)

qmon_date_runs : (rest : Text) → handlers (lit "/qmon_date" ++ rest) ≡ qmon_date ∷ qmon ∷ []
unfolding handlers lit starts_with
qmon_date_runs rest = refl

ltsscustomers_runs :
    (rest : Text) → handlers (lit "/ltsscustomers" ++ rest) ≡ ltsscustomers ∷ welcome ∷ []
unfolding handlers lit starts_with
ltsscustomers_runs rest = refl

pub update_db_runs : (rest : Text) → handlers (lit "/updateDB" ++ rest) ≡ update_db ∷ []
unfolding handlers lit starts_with
update_db_runs rest = refl

pub qmon_runs : handlers (lit "/qmon") ≡ qmon ∷ []
unfolding handlers lit starts_with
qmon_runs = refl

pub srforcr_runs : (rest : Text) → handlers (lit "/srforcr" ++ rest) ≡ srforcr ∷ []
unfolding handlers lit starts_with
srforcr_runs rest = refl

-- A path that starts with /qmon_date runs the handler of /qmon too, one that starts with
-- /ltsscustomers the welcome page too, and any other path runs one handler.
pub handlers_cases :
    (cmd : Text)
    → handlers cmd ≡ (
        if starts_with cmd (lit "/qmon_date")
        then qmon_date ∷ qmon ∷ []
        else (if starts_with cmd (lit "/ltsscustomers")
            then ltsscustomers ∷ welcome ∷ []
            else chain cmd ∷ []))
handlers_cases cmd = elim (Bool-cases (starts_with cmd (lit "/qmon_date"))) [
  | inl h ↦
      let (rest, e) = starts_with-split cmd (lit "/qmon_date") h in
      rw h (ap handlers e ∙ qmon_date_runs rest)
  | inr h ↦ elim (Bool-cases (starts_with cmd (lit "/ltsscustomers"))) [
    | inl k ↦
        let (rest, e) = starts_with-split cmd (lit "/ltsscustomers") k in
        rw (h, k) (ap handlers e ∙ ltsscustomers_runs rest)
    | inr k ↦ unfold handlers in rw (h, k)
  ]
]
