-- ===== src/Xml/Markup.antt =====
-- The forms that the lines of xml.cpp have.
use kueued.Prelude.{
  Text, String, lit, ◌==◌, is_empty, List, [], ◌∷◌, ◌++◌, Bool, not, ◌&&◌, if◌then◌else◌,
}

-- xml += a; xml += b; …
unfoldable pub concat : List Text → Text
concat [] = []
concat (t ∷ ts) = t ++ concat ts

-- if ( b ) { xml += t; }
abbrev pub when : Bool → Text → Text
when b t = if b then t else []

-- indent + "<name>" + v + "</name>" + tail
unfoldable pub raw_in : String → String → Text → String → Text
raw_in indent name v tail =
    lit indent
    ++ (lit "<"
        ++ (lit name ++ (lit ">" ++ (v ++ (lit "</" ++ (lit name ++ (lit ">" ++ lit tail)))))))

-- indent + "<name><![CDATA[" + v + "]]></name>\n"
unfoldable pub cdata_in : String → String → Text → Text
cdata_in indent name v =
    lit indent
    ++ (lit "<"
        ++ (lit name
            ++ (lit "><![CDATA[" ++ (v ++ (lit "]]></" ++ (lit name ++ (lit ">" ++ lit "\n")))))))

abbrev pub raw_line : String → Text → Text
raw_line name v = raw_in "    " name v "\n"

abbrev pub cdata_line : String → Text → Text
cdata_line name v = cdata_in "    " name v

-- !v.isEmpty() && v != "1" && v != "0"
unfoldable pub is_given : Text → Bool
is_given v = not (is_empty v) && not (v == lit "1") && not (v == lit "0")
