-- ===== src/Poli/Nat/Pano.antt =====
-- poli/nat/pano.go: the NAT rules of a Panorama, by the version of PAN-OS that it says.
use pango.Base.{ℕ, ℤ, String, List, [], ◌∷◌, Option, Error, ◌==◌, if◌then◌else◌}
use pango.Version.{Number}
use pango.Util.Xpath.{as_entry_xpath}
use pango.Namespace.Client.{Namespace}
use pango.Poli.Run.{Run}
use pango.Poli.Rules as Rules
use pango.Poli.Rules.{Deleted, entry_names}
use pango.Poli.Nat.{Entry}
use pango.Poli.Nat.Xml.{Object, Container, versioning}

unfoldable pub xpath : String → String → List String → List String
unfolding as_entry_xpath
xpath dg base vals =
    let dg' : String = if dg == "" then "shared" else dg in
    let base' : String = if base == "" then "pre-rulebase" else base in
    if dg' == "shared"
    then "config" ∷ "shared" ∷ base' ∷ "nat" ∷ "rules" ∷ as_entry_xpath vals ∷ []
    else "config"
      ∷ "devices"
      ∷ as_entry_xpath ("localhost.localdomain" ∷ [])
      ∷ "device-group"
      ∷ as_entry_xpath (dg' ∷ [])
      ∷ base'
      ∷ "nat"
      ∷ "rules"
      ∷ as_entry_xpath vals
      ∷ []

module _ {S : Type 0} (version : Number) (n : Namespace S Object)
    (unmarshal : String → Container → Option Error × Container) where
  -- `GetList`
  unfoldable pub get_list : String → String → S → Option ((Option Error × Option (List String)) × S)
  unfolding Rules.list_by
  get_list dg base s = Rules.list_by (versioning version) n unmarshal (xpath dg base) "get" s

  -- `ShowList`
  unfoldable pub show_list :
      String → String → S → Option ((Option Error × Option (List String)) × S)
  unfolding Rules.list_by
  show_list dg base s = Rules.list_by (versioning version) n unmarshal (xpath dg base) "show" s

  -- `Get`
  unfoldable pub get : String → String → String → S → Option ((Option Error × Entry) × S)
  unfolding Rules.read_by
  get dg base name s = Rules.read_by (versioning version) n unmarshal (xpath dg base) "get" name s

  -- `GetAll`
  unfoldable pub get_all : String → String → S → Option ((Option Error × Option (List Entry)) × S)
  unfolding Rules.read_all_by
  get_all dg base s = Rules.read_all_by (versioning version) n unmarshal (xpath dg base) "get" s

  -- `Show`
  unfoldable pub show : String → String → String → S → Option ((Option Error × Entry) × S)
  unfolding Rules.read_by
  show dg base name s = Rules.read_by (versioning version) n unmarshal (xpath dg base) "show" name s

  -- `ShowAll`
  unfoldable pub show_all : String → String → S → Option ((Option Error × Option (List Entry)) × S)
  unfolding Rules.read_all_by
  show_all dg base s = Rules.read_all_by (versioning version) n unmarshal (xpath dg base) "show" s

  -- `Set`
  unfoldable pub set : String → String → ℕ → List Entry → S → Run Entry S (Option Error × S)
  unfolding Rules.set
  set dg base fuel e s =
      Rules.set (versioning version) n unmarshal (xpath dg base) (entry_names (versioning version))
        fuel e s

  -- `Edit`
  unfoldable pub edit : String → String → Entry → S → Option Error × S
  unfolding Rules.edit
  edit dg base e s = Rules.edit (versioning version) n unmarshal (xpath dg base) e s

  -- `Delete`
  unfoldable pub delete : String → String → List (Deleted Entry) → S → Option Error × S
  unfolding Rules.delete
  delete dg base e s = Rules.delete (versioning version) n unmarshal (xpath dg base) e s

  -- `MoveGroup`
  unfoldable pub move_group :
      String → String → ℤ → String → List Entry → S → Option (Option Error × S)
  unfolding Rules.move_group
  move_group dg base movement rule e s =
      Rules.move_group (versioning version) n unmarshal (xpath dg base) movement rule e s
