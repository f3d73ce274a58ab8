-- ===== src/Util/Xpath.antt =====
-- util/util.go: the segments and the prefixes of xpaths.
pub mod Names
use Prim.Native.String.{◌++◌}
use pango.Base.{String, List, [], ◌∷◌, Bool, true, false, ◌==◌, if◌then◌else◌}
use pango.Base.Strings.{join}

-- The path argument of the client's calls, which Go types `interface{}`.
pub data PathArg : Type 0 where
  one : String → PathArg
  segments : List String → PathArg
  other : PathArg

unfoldable pub as_xpath : PathArg → String
unfolding join
as_xpath (one val) = val
as_xpath (segments val) = "/" ++ join "/" val
as_xpath other = ""

-- The loop of the two functions below: a test for each name, joined by `or`.
name_tests : String → Bool → List String → String
name_tests attribute first [] = ""
name_tests attribute first (v ∷ vals) =
    (if first then "" else " or ")
    ++ attribute
    ++ "='"
    ++ v
    ++ "'"
    ++ name_tests attribute false vals

abbrev pub any_name : List String → Bool
any_name [] = true
any_name (v ∷ []) = v == ""
any_name (v ∷ w ∷ vals) = false

unfoldable pub as_entry_xpath : List String → String
unfolding name_tests
as_entry_xpath vals =
    if any_name vals then "entry" else "entry[" ++ name_tests "@name" true vals ++ "]"

unfoldable pub as_member_xpath : List String → String
unfolding name_tests
as_member_xpath vals = "member[" ++ name_tests "text()" true vals ++ "]"

abbrev localhost : String
localhost = as_entry_xpath ("localhost.localdomain" ∷ [])

unfoldable pub template_xpath_prefix : String → String → List String
template_xpath_prefix tmpl ts =
    if tmpl == ""
    then "config"
      ∷ "devices"
      ∷ as_entry_xpath ("localhost.localdomain" ∷ [])
      ∷ "template-stack"
      ∷ as_entry_xpath (ts ∷ [])
      ∷ []
    else "config"
      ∷ "devices"
      ∷ as_entry_xpath ("localhost.localdomain" ∷ [])
      ∷ "template"
      ∷ as_entry_xpath (tmpl ∷ [])
      ∷ []

-- An empty device group means "shared".
unfoldable pub device_group_xpath_prefix : String → List String
device_group_xpath_prefix dg =
    let dg' : String = if dg == "" then "shared" else dg in
    if dg' == "shared"
    then "config" ∷ "shared" ∷ []
    else "config"
      ∷ "devices"
      ∷ as_entry_xpath ("localhost.localdomain" ∷ [])
      ∷ "device-group"
      ∷ as_entry_xpath (dg' ∷ [])
      ∷ []

-- An empty vsys means "vsys1".
unfoldable pub vsys_xpath_prefix : String → List String
vsys_xpath_prefix vsys =
    let vsys' : String = if vsys == "" then "vsys1" else vsys in
    if vsys' == "shared"
    then "config" ∷ "shared" ∷ []
    else "config"
      ∷ "devices"
      ∷ as_entry_xpath ("localhost.localdomain" ∷ [])
      ∷ "vsys"
      ∷ as_entry_xpath (vsys' ∷ [])
      ∷ []
