-- ===== src/Poli/Pbf/Pano.antt =====
-- poli/pbf/pano.go: the rules of policy-based forwarding of a Panorama, by the version of PAN-OS.
use pango.Base.{ℕ, ℤ, String, List, [], ◌∷◌, ◌++◌, Option, none, Error}
use pango.Version.{Number}
use pango.Util.Xpath.{as_entry_xpath, device_group_xpath_prefix}
use pango.Namespace.Client.{Namespace}
use pango.Poli.Run.{Run, returned}
use pango.Poli.Rules as Rules
use pango.Poli.Rules.{Deleted, entry_names}
use pango.Poli.Pbf.{Entry}
use pango.Poli.Pbf.Xml.{Object, Container, versioning}

unfoldable pub xpath : String → String → List String → List String
unfolding as_entry_xpath device_group_xpath_prefix
xpath dg base vals =
    device_group_xpath_prefix dg ++ base ∷ "pbf" ∷ "rules" ∷ as_entry_xpath vals ∷ []

module _ {S : Type 0} (version : Number) (n : Namespace S Object)
    (unmarshal : String → Container → Option Error × Container) where
  -- `GetList`
  unfoldable pub get_list : String → String → S → Option ((Option Error × Option (List String)) × S)
  unfolding Rules.list_by
  get_list dg base s = Rules.list_by (versioning version) n unmarshal (xpath dg base) "get" s

  -- `ShowList`
  unfoldable pub show_list :
      String → String → S → Option ((Option Error × Option (List String)) × S)
  unfolding Rules.list_by
  show_list dg base s = Rules.list_by (versioning version) n unmarshal (xpath dg base) "show" s

  -- `Get`
  unfoldable pub get : String → String → String → S → Option ((Option Error × Entry) × S)
  unfolding Rules.read_by
  get dg base name s = Rules.read_by (versioning version) n unmarshal (xpath dg base) "get" name s

  -- `GetAll`
  unfoldable pub get_all : String → String → S → Option ((Option Error × Option (List Entry)) × S)
  unfolding Rules.read_all_by
  get_all dg base s = Rules.read_all_by (versioning version) n unmarshal (xpath dg base) "get" s

  -- `Show`
  unfoldable pub show : String → String → String → S → Option ((Option Error × Entry) × S)
  unfolding Rules.read_by
  show dg base name s = Rules.read_by (versioning version) n unmarshal (xpath dg base) "show" name s

  -- `ShowAll`
  unfoldable pub show_all : String → String → S → Option ((Option Error × Option (List Entry)) × S)
  unfolding Rules.read_all_by
  show_all dg base s = Rules.read_all_by (versioning version) n unmarshal (xpath dg base) "show" s

  -- `Set`: nothing is done for no rules, and one rule that is tried again is not none.
  unfoldable pub set : String → String → ℕ → List Entry → S → Run Entry S (Option Error × S)
  unfolding Rules.set
  set dg base fuel [] s = returned (none, s)
  set dg base fuel (d ∷ es) s =
      Rules.set (versioning version) n unmarshal (xpath dg base) (entry_names (versioning version))
        fuel (d ∷ es) s

  -- `Edit`
  unfoldable pub edit : String → String → Entry → S → Option Error × S
  unfolding Rules.edit
  edit dg base e s = Rules.edit (versioning version) n unmarshal (xpath dg base) e s

  -- `Delete`
  unfoldable pub delete : String → String → List (Deleted Entry) → S → Option Error × S
  unfolding Rules.delete
  delete dg base e s = Rules.delete (versioning version) n unmarshal (xpath dg base) e s

  -- `MoveGroup`
  unfoldable pub move_group :
      String → String → ℤ → String → List Entry → S → Option (Option Error × S)
  unfolding Rules.move_group
  move_group dg base movement rule e s =
      Rules.move_group (versioning version) n unmarshal (xpath dg base) movement rule e s
