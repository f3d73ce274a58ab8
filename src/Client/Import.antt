-- ===== src/Client/Import.antt =====
-- `VsysImport`, `VsysUnimport` and `IsImported` of client.go, over the client's own calls.
pub mod Laws
use pango.Base.{
  String, List, [], ◌∷◌, ◌++◌, map, Bool, true, false, not, ◌||◌, Option, none, some, Error,
  object_not_found, length, nat_eq, is_empty, ◌==◌, if◌then◌else◌,
}
use pango.Util.Xpath.{as_entry_xpath, as_member_xpath, template_xpath_prefix}
use pango.Namespace.Client.{XapiClient, config}

-- `vis`
pub record Vis : Type 0 where
  pub tag : String
  pub text : String

-- `xpathImport`
unfoldable pub xpath_import : String → String → String → List String
unfolding as_entry_xpath template_xpath_prefix
xpath_import tmpl ts vsys =
    let prefix : List String =
      if not (tmpl == "") || not (ts == "") then template_xpath_prefix tmpl ts else [] in
    prefix
    ++ "config"
      ∷ "devices"
      ∷ as_entry_xpath ("localhost.localdomain" ∷ [])
      ∷ "vsys"
      ∷ as_entry_xpath (vsys ∷ [])
      ∷ "import"
      ∷ "network"
      ∷ []

-- The path of the names among the imports of a location.
unfoldable pub member_path : String → String → String → String → List String → List String
unfolding as_member_xpath
member_path loc tmpl ts vsys names = xpath_import tmpl ts vsys ++ loc ∷ as_member_xpath names ∷ []

abbrev pub is_not_found : Option Error → Bool
is_not_found none = false
is_not_found (some e) = object_not_found e

module _ {S : Type 0} (c : XapiClient S Vis) where
  -- `VsysImport`
  unfoldable pub vsys_import :
      String → String → String → String → List String → S → Option Error × S
  unfolding config
  vsys_import loc tmpl ts vsys names s =
      let path = xpath_import tmpl ts vsys in
      if is_empty names || vsys == ""
      then (none, s)
      else c.set (if nat_eq (length names) 1 then path ++ loc ∷ [] else path)
          (config loc (map (λ x. record { tag = "member"; text = x }) names)) s

  -- `VsysUnimport`
  unfoldable pub vsys_unimport : String → String → String → List String → S → Option Error × S
  unfolding member_path object_not_found
  vsys_unimport loc tmpl ts names s =
      let (err, s') = c.delete (member_path loc tmpl ts "" names) s in
      if is_empty names then (none, s) else if is_not_found err then (none, s') else (err, s')

  -- `IsImported`
  unfoldable pub is_imported :
      String → String → String → String → String → S → (Bool × Option Error) × S
  unfolding member_path object_not_found
  is_imported loc tmpl ts vsys name s =
      let ((text, err), s') = c.get (member_path loc tmpl ts vsys (name ∷ [])) s in
      elim err [
        | none ↦ ((not (vsys == ""), none), s')
        | some e ↦ if object_not_found e then ((vsys == "", none), s') else ((false, some e), s')
      ]
