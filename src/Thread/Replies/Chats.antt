-- ===== src/Thread/Replies/Chats.antt =====
-- The document that /chat answers with, against the rows of QMON_CHAT.
use mathlib.Core.List.{append_assoc}
use kueued.Prelude.{Text, lit, List, [], ◌∷◌, ◌++◌, map, true, false, some, ◌≡◌, refl, ap, arith}
use kueued.QString.Split.{lacks, split-append, split-lacks, at_1}
use kueued.Sql.{Env, Mysql}
use kueued.Sql.Rows.{ChatRow}
use kueued.Database.Lookups.{at_0}
use kueued.Database.Chat.{get_current_bomgars}
use kueued.Xml.Markup.{concat}
use kueued.Xml.Scan.{scan, IsBalanced, is_plain}
use kueued.Xml.Balanced.{
  is_tag, raw_in-IsBalanced, wrap-IsBalanced, concat-IsBalanced, AllBalanced, done, ◌&◌,
}
use kueued.Thread.Out.{Host, Out, put, close, xml}
use kueued.Thread.Replies.{bomgar_lines, bomgar_element, chat_element, chat_elements, answer_chat}

-- Neither text has a "|" in it, and both have no markup.
pub record ChatFits (r : ChatRow) : Type 0 where
  pub sr_lacks : lacks b'|' r.sr ≡ true
  pub name_lacks : lacks b'|' r.name ≡ true
  pub sr_plain : is_plain r.sr ≡ true
  pub name_plain : is_plain r.name ≡ true

abbrev pub AllChatsFit : List ChatRow → Type 0
AllChatsFit [] = Unit
AllChatsFit (r ∷ rows) = ChatFits r × AllChatsFit rows

unfoldable pub chat_document : List ChatRow → Text
chat_document rows =
    lit "<chat>\n" ++ (concat (map (λ r. bomgar_element r.name r.sr) rows) ++ lit "</chat>")

chat_element-row :
    (r : ChatRow)
    → ChatFits r
    → chat_element (r.sr ++ (lit "|||" ++ r.name)) ≡ some (bomgar_element r.name r.sr)
unfolding chat_element at_0 at_1 lit
chat_element-row r h = ground (
  arith,
  split-append b'|' (b'|' ∷ b'|' ∷ []) r.sr r.name h.sr_lacks,
  split-lacks b'|' (b'|' ∷ b'|' ∷ []) r.name h.name_lacks,
)

chat_elements-rows :
    (rows : List ChatRow)
    → AllChatsFit rows
    → chat_elements (map (λ r. r.sr ++ (lit "|||" ++ r.name)) rows)
      ≡ some (concat (map (λ r. bomgar_element r.name r.sr) rows))
unfolding chat_elements concat
chat_elements-rows [] h = refl
chat_elements-rows (r ∷ rows) h = rw (chat_element-row r h.0, chat_elements-rows rows h.1)

bomgar_lines-AllBalanced : (r : ChatRow) → ChatFits r → AllBalanced (bomgar_lines r.name r.sr)
unfolding bomgar_lines lit is_tag is_plain
bomgar_lines-AllBalanced r h =
    raw_in-IsBalanced "    " "bomgarQ" r.name "\n" refl refl refl h.name_plain
    & raw_in-IsBalanced "    " "sr" r.sr "\n" refl refl refl h.sr_plain
    & done

bomgar_element-IsBalanced : (r : ChatRow) → ChatFits r → IsBalanced (bomgar_element r.name r.sr)
unfolding bomgar_element scan lit
bomgar_element-IsBalanced r h =
    wrap-IsBalanced (lit "  <bomgar>\n") (concat (bomgar_lines r.name r.sr)) (lit "  </bomgar>\n")
      (b'r' ∷ b'a' ∷ b'g' ∷ b'm' ∷ b'o' ∷ b'b' ∷ []) (λ names. refl) (λ names. refl)
      (concat-IsBalanced (bomgar_lines-AllBalanced r h))

elements-AllBalanced :
    (rows : List ChatRow)
    → AllChatsFit rows
    → AllBalanced (map (λ r. bomgar_element r.name r.sr) rows)
elements-AllBalanced [] h = done
elements-AllBalanced (r ∷ rows) h = bomgar_element-IsBalanced r h.0 & elements-AllBalanced rows h.1

chat_document-IsBalanced :
    (rows : List ChatRow) → AllChatsFit rows → IsBalanced (chat_document rows)
unfolding chat_document scan lit
chat_document-IsBalanced rows h =
    wrap-IsBalanced (lit "<chat>\n") (concat (map (λ r. bomgar_element r.name r.sr) rows))
      (lit "</chat>") (b't' ∷ b'a' ∷ b'h' ∷ b'c' ∷ []) (λ names. refl) (λ names. refl)
      (concat-IsBalanced (elements-AllBalanced rows h))

put_four :
    (out : Out)
    → out.is_open ≡ true
    → (a b c d : Text)
    → put d (put c (put b (put a out)))
      ≡ record { sent = out.sent ++ (a ++ (b ++ (c ++ d))); is_open = true }
unfolding put
put_four out h a b c d = simp (h, append_assoc)

module _ {D : Type 0} {S : Type 0 → Type 0} (env : Env D S) (host : Host D) where
  -- On an open socket, /chat sends the header of an XML document and then, for each row of QMON_CHAT,
  -- its name and its SR number as they stand, although they were joined and split again on the way,
  -- and the document is balanced, if they have no "|" and no markup.
  pub answer_chat_rows :
      (db : Mysql S) (out : Out)
      → out.is_open ≡ true
      → AllChatsFit (env.tables.chat.rows db.chat)
      → (answer_chat env host db out
          ≡ some (record {
            sent = out.sent ++ (xml ++ chat_document (env.tables.chat.rows db.chat));
            is_open = false;
          }))
        × IsBalanced (chat_document (env.tables.chat.rows db.chat))
  unfolding answer_chat get_current_bomgars chat_document close
  answer_chat_rows db out is_open h =
      let rows = env.tables.chat.rows db.chat in
      (
        rw (chat_elements-rows rows h) (
            ap (λ o. some (close o))
              (put_four out is_open xml (lit "<chat>\n")
                (concat (map (λ r. bomgar_element r.name r.sr) rows)) (lit "</chat>"))),
        chat_document-IsBalanced rows h,
      )
