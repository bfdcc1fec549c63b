-- ===== src/Thread/Survey.antt =====
-- The handler of /stats: the figures of an engineer from three pages, and the titles of the requests.
use kueued.Prelude.{
  Text, lit, ◌==◌, is_empty, ◌++◌, List, [], ◌∷◌, ◌||◌, Option, none, some, ℤ, pos, if◌then◌else◌,
  ◌>>=◌,
}
use kueued.QString.Replace.{remove, has_part}
use kueued.QString.Split.{split, at_1}
use kueued.QString.Trim.{trimmed}
use kueued.Sql.{Env}
use kueued.Database.Lookups.{at_0, at_3, sr_info}
use kueued.Xml.Stats.{CsatItem, ClosedItem, Statistics, stats}
use kueued.Thread.Out.{Host, Out, put, close, text, xml}

unfoldable pub at_2 : List Text → Option Text
at_2 (a ∷ b ∷ c ∷ l) = some c
at_2 l = none

unfoldable pub at_4 : List Text → Option Text
at_4 (a ∷ b ∷ c ∷ d ∷ e ∷ l) = some e
at_4 l = none

-- list.at( i ) for i from 0 to list.size() - 2
unfoldable pub but_last : List Text → List Text
but_last [] = []
but_last (a ∷ []) = []
but_last (a ∷ b ∷ l) = a ∷ but_last (b ∷ l)

-- if ( page.contains( "<br>" ) ) { list = page.split( "<br>" ); }
unfoldable pub page_lines : Text → List Text
page_lines page = if has_part (lit "<br>") page then split (lit "<br>") page else []

-- the two numbers of the first line
unfoldable pub two_numbers : (Text → Text) → Text → Option (Text × Text)
two_numbers without_tags numbers = do
  line ← at_0 (split (lit "<br>") numbers)
  sr ← at_0 (split (lit "|") (without_tags line))
  cr ← at_1 (split (lit "|") (without_tags line))
  some (trimmed sr, trimmed cr)

-- statz.closedSr and statz.closedCr, which are empty when the page has no line
unfoldable pub closed_numbers : (Text → Text) → Text → Option (Text × Text)
unfolding two_numbers
closed_numbers without_tags numbers =
    if has_part (lit "<br>") numbers then two_numbers without_tags numbers else some ([], [])

-- an empty answer counts as 88
unfoldable pub answer_of : (Text → ℤ) → Text → ℤ
answer_of to_int t = if is_empty t then pos 88 else to_int (trimmed t)

module _ {D : Type 0} {S : Type 0 → Type 0} (env : Env D S) (host : Host D) where
  -- customer and bdesc, from srInfo
  unfoldable pub titled_by : Text → Option (Text × Text)
  titled_by sr = do
    let info = sr_info env sr
    customer ← at_3 info
    first ← at_1 info
    last ← at_2 info
    bdesc ← at_0 info
    some (customer ++ (lit " (" ++ (first ++ (lit " " ++ (last ++ lit ")")))), bdesc)

  unfoldable pub closed_item : Text → Option ClosedItem
  unfolding titled_by
  closed_item line = do
    let parts = split (lit "|") (host.without_tags line)
    sr ← at_1 parts
    tts ← at_2 parts
    (customer, bdesc) ← titled_by sr
    some (record { sr = sr; tts = env.to_int tts; customer = customer; bdesc = bdesc })

  unfoldable pub closed_items : List Text → Option (List ClosedItem)
  closed_items [] = some []
  closed_items (line ∷ ls) = do
    item ← closed_item line
    items ← closed_items ls
    some (item ∷ items)

  unfoldable pub csat_item : Text → Option CsatItem
  unfolding titled_by
  csat_item line = do
    let parts = split (lit "|") (host.without_tags line)
    sr ← at_1 parts
    srsat ← at_2 parts
    engsat ← at_3 parts
    rts ← at_4 parts
    (customer, bdesc) ← titled_by (trimmed sr)
    some (record {
      sr = trimmed sr;
      engsat = answer_of env.to_int engsat;
      srsat = answer_of env.to_int srsat;
      customer = customer;
      bdesc = bdesc;
      rts = env.to_int (trimmed rts);
    })

  unfoldable pub csat_items : List Text → Option (List CsatItem)
  csat_items [] = some []
  csat_items (line ∷ ls) = do item ← csat_item line; items ← csat_items ls; some (item ∷ items)

  unfoldable pub statistics : Text → Text → Text → Option Statistics
  unfolding closed_items csat_items
  statistics numbers csat tts = do
    (closed_sr, closed_cr) ← closed_numbers host.without_tags numbers
    closed_list ← closed_items (but_last (page_lines tts))
    csat_list ← csat_items (but_last (page_lines csat))
    some (record {
      closed_sr = closed_sr;
      closed_cr = closed_cr;
      open_sr = [];
      csat_list = csat_list;
      closed_list = closed_list;
    })

  -- numbers = r->readAll() or "ERROR"
  unfoldable pub page_or_error : Text → Text
  page_or_error url = if host.has_error url then lit "ERROR" else host.body url

  -- getWF
  unfoldable pub get_wf : Text → Text
  get_wf engineer = trimmed (
      host.without_tags
        (host.first_bytes (host.db_server ++ (lit "/workforce.asp?tse=" ++ engineer))))

  -- behind the three pages
  unfoldable pub stats_found : Text → Text → Text → Out → Option Out
  unfolding statistics
  stats_found numbers csat tts out =
      if tts == lit "ERROR" || (csat == lit "ERROR" || numbers == lit "ERROR")
      then some (put (lit "ERROR") (put text out))
      else (statistics numbers csat tts >>= λ statz. some (put (stats statz) (put xml out)))

  unfoldable pub stats_of : Text → Out → Option Out
  unfolding page_or_error get_wf stats_found
  stats_of q out =
      let wf = get_wf q in
      if wf == lit "00000"
      then some (put (lit "Invalid engineer") out)
      else stats_found
          (page_or_error (lit "http://proetus.provo.novell.com/qmon/closed2.asp?tse=" ++ q))
          (page_or_error (lit "http://proetus.provo.novell.com/qmon/custsat.asp?wf=" ++ wf))
          (page_or_error
            (lit "http://proetus.provo.novell.com/qmon/timetosolutiontse.asp?tse=" ++ q))
          out

  unfoldable pub answer_stats : Text → Out → Option Out
  unfolding stats_of
  answer_stats cmd out =
      let q = remove (lit "/") (remove (lit "/stats") cmd) in
      (if is_empty q
        then some (put (lit "Please specify engineer") (put text out))
        else stats_of q out)
      >>= λ done. some (close done)
