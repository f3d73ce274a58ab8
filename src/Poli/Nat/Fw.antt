-- ===== src/Poli/Nat/Fw.antt =====
-- poli/nat/fw.go: the NAT rules of a firewall, by the version of PAN-OS that it says.
use pango.Base.{ℕ, ℤ, String, List, [], ◌∷◌, Option, Error, ◌==◌, if◌then◌else◌}
use pango.Version.{Number}
use pango.Util.Xpath.{as_entry_xpath}
use pango.Namespace.Client.{Namespace}
use pango.Poli.Run.{Run}
use pango.Poli.Rules as Rules
use pango.Poli.Rules.{Deleted, entry_names}
use pango.Poli.Nat.{Entry}
use pango.Poli.Nat.Xml.{Object, Container, versioning}

unfoldable pub xpath : String → List String → List String
unfolding as_entry_xpath
xpath vsys vals =
    let vsys' : String = if vsys == "" then "vsys1" else vsys in
    if vsys' == "shared"
    then "config" ∷ "shared" ∷ "rulebase" ∷ "nat" ∷ "rules" ∷ as_entry_xpath vals ∷ []
    else "config"
      ∷ "devices"
      ∷ as_entry_xpath ("localhost.localdomain" ∷ [])
      ∷ "vsys"
      ∷ as_entry_xpath (vsys' ∷ [])
      ∷ "rulebase"
      ∷ "nat"
      ∷ "rules"
      ∷ as_entry_xpath vals
      ∷ []

module _ {S : Type 0} (version : Number) (n : Namespace S Object)
    (unmarshal : String → Container → Option Error × Container) where
  -- `GetList`
  unfoldable pub get_list : String → S → Option ((Option Error × Option (List String)) × S)
  unfolding Rules.list_by
  get_list vsys s = Rules.list_by (versioning version) n unmarshal (xpath vsys) "get" s

  -- `ShowList`
  unfoldable pub show_list : String → S → Option ((Option Error × Option (List String)) × S)
  unfolding Rules.list_by
  show_list vsys s = Rules.list_by (versioning version) n unmarshal (xpath vsys) "show" s

  -- `Get`
  unfoldable pub get : String → String → S → Option ((Option Error × Entry) × S)
  unfolding Rules.read_by
  get vsys name s = Rules.read_by (versioning version) n unmarshal (xpath vsys) "get" name s

  -- `GetAll`
  unfoldable pub get_all : String → S → Option ((Option Error × Option (List Entry)) × S)
  unfolding Rules.read_all_by
  get_all vsys s = Rules.read_all_by (versioning version) n unmarshal (xpath vsys) "get" s

  -- `Show`
  unfoldable pub show : String → String → S → Option ((Option Error × Entry) × S)
  unfolding Rules.read_by
  show vsys name s = Rules.read_by (versioning version) n unmarshal (xpath vsys) "show" name s

  -- `ShowAll`
  unfoldable pub show_all : String → S → Option ((Option Error × Option (List Entry)) × S)
  unfolding Rules.read_all_by
  show_all vsys s = Rules.read_all_by (versioning version) n unmarshal (xpath vsys) "show" s

  -- `Set`
  unfoldable pub set : String → ℕ → List Entry → S → Run Entry S (Option Error × S)
  unfolding Rules.set
  set vsys fuel e s =
      Rules.set (versioning version) n unmarshal (xpath vsys) (entry_names (versioning version))
        fuel e s

  -- `Edit`
  unfoldable pub edit : String → Entry → S → Option Error × S
  unfolding Rules.edit
  edit vsys e s = Rules.edit (versioning version) n unmarshal (xpath vsys) e s

  -- `Delete`
  unfoldable pub delete : String → List (Deleted Entry) → S → Option Error × S
  unfolding Rules.delete
  delete vsys e s = Rules.delete (versioning version) n unmarshal (xpath vsys) e s

  -- `MoveGroup`
  unfoldable pub move_group : String → ℤ → String → List Entry → S → Option (Option Error × S)
  unfolding Rules.move_group
  move_group vsys movement rule e s =
      Rules.move_group (versioning version) n unmarshal (xpath vsys) movement rule e s
