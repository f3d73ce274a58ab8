-- ===== src/Namespace/Retrieve.antt =====
-- `retrieve` of namespace/namespace.go, with `Object`, `Objects` and `Listing` over it.
--
-- `encoding/xml` is a parameter: `unmarshal text ans` is `xml.Unmarshal`, which fills the given value
-- from the text and says whether it could.
pub mod Laws
use pango.Base.{
  String, List, [], ◌∷◌, ◌++◌, Bool, true, false, Option, none, some, Error, errorf, str, message,
  ◌==◌, not, ◌&&◌, ◌||◌, if◌then◌else◌, ◌>>=◌,
}
use pango.Util.Packaging.{strip_panos_packaging}
use pango.Namespace.Unpackage.{unpackage_xml_into}
use pango.Namespace.Client.{Namespace, second_last, drop_last}

-- The branch on `plural`: the tag to strip, and the path to query.
unfoldable pub plural_path : String → List String → Bool → Option (String × List String)
plural_path cmd path names_only = do
  tag ← second_last path
  let shown = if cmd == "show" then drop_last 1 path else path
  let listed = if cmd == "get" then shown ++ "@name" ∷ [] else shown
  let whole = if cmd == "get" then drop_last 1 shown else shown
  some (tag, if names_only then listed else whole)

abbrev pub is_missing : Error → Bool
is_missing e = message e == "No such node" || message e == "Object not found"

-- The path to query is worked out for a list alone; `singular` wins over `plural`.
unfoldable pub target : String → List String → Bool → Bool → Bool → Option (String × List String)
target cmd path singular plural names_only =
    if not singular && plural then plural_path cmd path names_only else some ("", path)

-- The switch on the command.
unfoldable pub query :
    {S Data : Type 0} → Namespace S Data → String → List String → S → (String × Option Error) × S
query n cmd path s = if cmd == "get" then n.con.get path s else n.con.show path s

-- What follows the query: an error of the client, or the response unmarshalled.
unfoldable pub finish :
    {S Ans : Type 0}
    → (String → Ans → Option Error × Ans)
    → Bool
    → String
    → Ans
    → (String × Option Error) × S
    → Option ((Option Error × Ans) × S)
unfolding unpackage_xml_into
finish unmarshal plural tag ans ((text, some e), s) =
    if plural && is_missing e then some ((none, ans), s) else some ((some e, ans), s)
finish unmarshal plural tag ans ((text, none), s) = do
  content ← strip_panos_packaging text tag
  some (unpackage_xml_into unmarshal content ans, s)

-- The names of what was read, or nil beside an error.
abbrev pub named :
    {Ans : Type 0} → (Ans → List String) → Option Error × Ans → Option Error × Option (List String)
named names (none, ans) = (none, some (names ans))
named names (some e, ans) = (some e, none)

module _ {S Data Ans : Type 0} (n : Namespace S Data)
    (unmarshal : String → Ans → Option Error × Ans) where
  -- `retrieve`; `none` is a panic.
  unfoldable pub retrieve :
      String → List String → Bool → Bool → Bool → Ans → S → Option ((Option Error × Ans) × S)
  retrieve cmd path singular plural names_only ans s =
      if not (cmd == "get") && not (cmd == "show")
      then some ((some (errorf "invalid cmd: %s" (str cmd ∷ [])), ans), s)
      else (do
        (tag, queried) ← target cmd path singular plural names_only
        finish unmarshal plural tag ans (query n cmd queried s))

  unfoldable pub object : String → List String → Ans → S → Option ((Option Error × Ans) × S)
  object cmd path ans s = retrieve cmd path true false false ans s

  unfoldable pub objects : String → List String → Ans → S → Option ((Option Error × Ans) × S)
  objects cmd path ans s = retrieve cmd path false true false ans s

  -- `Listing`
  unfoldable pub listing :
      (Ans → List String)
      → String
      → List String
      → Ans
      → S
      → Option ((Option Error × Option (List String)) × S)
  listing names cmd path ans s = do
    r ← retrieve cmd path false true true ans s
    some (named names r.0, r.1)
