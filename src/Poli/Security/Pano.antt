-- ===== src/Poli/Security/Pano.antt =====
-- poli/security/pano.go: the security rules of a Panorama.
pub mod Laws
use pango.Base.{
  ℕ, ℤ, String, List, [], ◌∷◌, ◌++◌, map, Option, none, some, Error, ◌==◌, if◌then◌else◌,
}
use pango.Util.Xpath.{as_entry_xpath}
use pango.Namespace.Client.{Namespace}
use pango.Poli.Security.{Entry}
use pango.Poli.Security.Xml.{EntryV1, ContainerV1}
use pango.Poli.Run.{Run}
use pango.Poli.Rules as Rules
use pango.Poli.Rules.{Deleted}
use pango.Poli.Security.Rules as SecurityRules
use pango.Poli.Security.Rules.{kind, entry_names}

unfoldable pub xpath : String → String → List String → List String
unfolding as_entry_xpath
xpath dg base vals =
    let dg' : String = if dg == "" then "shared" else dg in
    let base' : String = if base == "" then "pre-rulebase" else base in
    if dg' == "shared"
    then "config" ∷ "shared" ∷ base' ∷ "security" ∷ "rules" ∷ as_entry_xpath vals ∷ []
    else "config"
      ∷ "devices"
      ∷ as_entry_xpath ("localhost.localdomain" ∷ [])
      ∷ "device-group"
      ∷ as_entry_xpath (dg' ∷ [])
      ∷ base'
      ∷ "security"
      ∷ "rules"
      ∷ as_entry_xpath vals
      ∷ []

-- The names that `Set` collects: `make([]string, len(e))` holds as many empty names already.
abbrev pub padded_names : List Entry → List String
padded_names es = map (λ _. "") es ++ entry_names es

module _ {S : Type 0} (n : Namespace S EntryV1)
    (unmarshal : String → ContainerV1 → Option Error × ContainerV1) where
  -- `GetList`
  unfoldable pub get_list : String → String → S → Option ((Option Error × Option (List String)) × S)
  unfolding Rules.list_by
  get_list dg base s = Rules.list_by kind n unmarshal (xpath dg base) "get" s

  -- `ShowList`
  unfoldable pub show_list :
      String → String → S → Option ((Option Error × Option (List String)) × S)
  unfolding Rules.list_by
  show_list dg base s = Rules.list_by kind n unmarshal (xpath dg base) "show" s

  -- `Get`
  unfoldable pub get : String → String → String → S → Option ((Option Error × Entry) × S)
  unfolding Rules.read_by
  get dg base name s = Rules.read_by kind n unmarshal (xpath dg base) "get" name s

  -- `Show`
  unfoldable pub show : String → String → String → S → Option ((Option Error × Entry) × S)
  unfolding Rules.read_by
  show dg base name s = Rules.read_by kind n unmarshal (xpath dg base) "show" name s

  -- `GetAll`
  unfoldable pub get_all : String → String → S → Option ((Option Error × Option (List Entry)) × S)
  unfolding Rules.read_all_by
  get_all dg base s = Rules.read_all_by kind n unmarshal (xpath dg base) "get" s

  -- `ShowAll`
  unfoldable pub show_all : String → String → S → Option ((Option Error × Option (List Entry)) × S)
  unfolding Rules.read_all_by
  show_all dg base s = Rules.read_all_by kind n unmarshal (xpath dg base) "show" s

  -- `Set`
  unfoldable pub set : String → String → ℕ → List Entry → S → Run Entry S (Option Error × S)
  unfolding Rules.set
  set dg base fuel e s = Rules.set kind n unmarshal (xpath dg base) padded_names fuel e s

  -- `VerifiableSet`
  unfoldable pub verifiable_set :
      String → String → ℕ → List Entry → S → Run Entry S (Option Error × S)
  unfolding SecurityRules.verifiable_set
  verifiable_set dg base fuel e s =
      SecurityRules.verifiable_set n unmarshal (xpath dg base) padded_names fuel e s

  -- `Edit`
  unfoldable pub edit : String → String → Entry → S → Option Error × S
  unfolding Rules.edit
  edit dg base e s = Rules.edit kind n unmarshal (xpath dg base) e s

  -- `VerifiableEdit`
  unfoldable pub verifiable_edit :
      String → String → ℕ → List Entry → S → Run Entry S (Option Error × S)
  unfolding SecurityRules.verifiable_edit
  verifiable_edit dg base fuel e s =
      SecurityRules.verifiable_edit n unmarshal (xpath dg base) padded_names fuel e s

  -- `Delete`
  unfoldable pub delete : String → String → List (Deleted Entry) → S → Option Error × S
  unfolding Rules.delete
  delete dg base e s = Rules.delete kind n unmarshal (xpath dg base) e s

  -- `DeleteAll`
  unfoldable pub delete_all : String → String → S → Option (Option Error × S)
  unfolding SecurityRules.delete_all
  delete_all dg base s = SecurityRules.delete_all n unmarshal (xpath dg base) s

  -- `MoveGroup`
  unfoldable pub move_group :
      String → String → ℤ → String → List Entry → S → Option (Option Error × S)
  unfolding Rules.move_group
  move_group dg base movement rule e s =
      Rules.move_group kind n unmarshal (xpath dg base) movement rule e s
