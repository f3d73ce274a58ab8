-- ===== src/Namespace/Unpackage.antt =====
-- namespace/funcs.go: a text is unmarshalled within an element of its own.
use Prim.Native.String.{◌++◌}
use pango.Base.{String, Option, Error}

-- `UnpackageXmlInto`, over `xml.Unmarshal`.
unfoldable pub unpackage_xml_into :
    {Ans : Type 0} → (String → Ans → Option Error × Ans) → String → Ans → Option Error × Ans
unpackage_xml_into unmarshal b res = unmarshal ("<a>" ++ b ++ "</a>") res
