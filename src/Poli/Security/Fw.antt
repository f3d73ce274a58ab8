-- ===== src/Poli/Security/Fw.antt =====
-- poli/security/fw.go: the security rules of a firewall.
pub mod Laws
use pango.Base.{
  ℕ, ℤ, String, List, [], ◌∷◌, ◌++◌, map, Option, none, some, Error, ◌==◌, if◌then◌else◌,
}
use pango.Util.Xpath.{as_entry_xpath}
use pango.Namespace.Client.{Namespace}
use pango.Poli.Security.{Entry}
use pango.Poli.Security.Xml.{EntryV1, ContainerV1}
use pango.Poli.Run.{Run}
use pango.Poli.Rules as Rules
use pango.Poli.Rules.{Deleted}
use pango.Poli.Security.Rules as SecurityRules
use pango.Poli.Security.Rules.{kind, entry_names}

unfoldable pub xpath : String → List String → List String
unfolding as_entry_xpath
xpath vsys vals =
    let vsys' : String = if vsys == "" then "vsys1" else vsys in
    if vsys' == "shared"
    then "config" ∷ "shared" ∷ "rulebase" ∷ "security" ∷ "rules" ∷ as_entry_xpath vals ∷ []
    else "config"
      ∷ "devices"
      ∷ as_entry_xpath ("localhost.localdomain" ∷ [])
      ∷ "vsys"
      ∷ as_entry_xpath (vsys' ∷ [])
      ∷ "rulebase"
      ∷ "security"
      ∷ "rules"
      ∷ as_entry_xpath vals
      ∷ []

module _ {S : Type 0} (n : Namespace S EntryV1)
    (unmarshal : String → ContainerV1 → Option Error × ContainerV1) where
  -- `GetList`
  unfoldable pub get_list : String → S → Option ((Option Error × Option (List String)) × S)
  unfolding Rules.list_by
  get_list vsys s = Rules.list_by kind n unmarshal (xpath vsys) "get" s

  -- `ShowList`
  unfoldable pub show_list : String → S → Option ((Option Error × Option (List String)) × S)
  unfolding Rules.list_by
  show_list vsys s = Rules.list_by kind n unmarshal (xpath vsys) "show" s

  -- `Get`
  unfoldable pub get : String → String → S → Option ((Option Error × Entry) × S)
  unfolding Rules.read_by
  get vsys name s = Rules.read_by kind n unmarshal (xpath vsys) "get" name s

  -- `Show`
  unfoldable pub show : String → String → S → Option ((Option Error × Entry) × S)
  unfolding Rules.read_by
  show vsys name s = Rules.read_by kind n unmarshal (xpath vsys) "show" name s

  -- `GetAll`
  unfoldable pub get_all : String → S → Option ((Option Error × Option (List Entry)) × S)
  unfolding Rules.read_all_by
  get_all vsys s = Rules.read_all_by kind n unmarshal (xpath vsys) "get" s

  -- `ShowAll`
  unfoldable pub show_all : String → S → Option ((Option Error × Option (List Entry)) × S)
  unfolding Rules.read_all_by
  show_all vsys s = Rules.read_all_by kind n unmarshal (xpath vsys) "show" s

  -- `Set`
  unfoldable pub set : String → ℕ → List Entry → S → Run Entry S (Option Error × S)
  unfolding Rules.set
  set vsys fuel e s = Rules.set kind n unmarshal (xpath vsys) entry_names fuel e s

  -- `VerifiableSet`
  unfoldable pub verifiable_set : String → ℕ → List Entry → S → Run Entry S (Option Error × S)
  unfolding SecurityRules.verifiable_set
  verifiable_set vsys fuel e s =
      SecurityRules.verifiable_set n unmarshal (xpath vsys) entry_names fuel e s

  -- `Edit`
  unfoldable pub edit : String → Entry → S → Option Error × S
  unfolding Rules.edit
  edit vsys e s = Rules.edit kind n unmarshal (xpath vsys) e s

  -- `VerifiableEdit`
  unfoldable pub verifiable_edit : String → ℕ → List Entry → S → Run Entry S (Option Error × S)
  unfolding SecurityRules.verifiable_edit
  verifiable_edit vsys fuel e s =
      SecurityRules.verifiable_edit n unmarshal (xpath vsys) entry_names fuel e s

  -- `Delete`
  unfoldable pub delete : String → List (Deleted Entry) → S → Option Error × S
  unfolding Rules.delete
  delete vsys e s = Rules.delete kind n unmarshal (xpath vsys) e s

  -- `DeleteAll`
  unfoldable pub delete_all : String → S → Option (Option Error × S)
  unfolding SecurityRules.delete_all
  delete_all vsys s = SecurityRules.delete_all n unmarshal (xpath vsys) s

  -- `MoveGroup`
  unfoldable pub move_group : String → ℤ → String → List Entry → S → Option (Option Error × S)
  unfolding Rules.move_group
  move_group vsys movement rule e s =
      Rules.move_group kind n unmarshal (xpath vsys) movement rule e s
