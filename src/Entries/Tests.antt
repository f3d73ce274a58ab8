-- ===== src/Entries/Tests.antt =====
-- The namespaces at concrete inputs: administrative tags and application groups on a device that stores
-- objects by name.
use pango.Base.{String, [], ◌∷◌, none, some, ◌≡◌, refl, arith}
use pango.Util.Xpath.{vsys_xpath_prefix}
use pango.Entries.{
  Answer, Con, by_name, by_entry, delete, called, called_by_path, deleted_names, Operations,
}
use pango.Entries.Stored.{IsDevice, IsLocated}
use pango.Entries.Located.{located, located_by_path}
use pango.Entries.Device.{State, device, device-IsDevice, held-device}
use pango.Entries.Access.{AreRead, get-edit, get-set, get-delete}
use pango.Objs.Tags as Tags
use pango.Objs.AppGroup as AppGroup

abbrev in_answer : {Object : Type 0} → Object → Answer Object
in_answer o = record { answer = o }

abbrev tag_name : Tags.EntryV1 → String
tag_name o = o.name

abbrev tags : Con (State Tags.EntryV1) Tags.EntryV1 (Answer Tags.EntryV1)
tags = device tag_name in_answer

abbrev tag_device : IsDevice tags tag_name in_answer
tag_device = device-IsDevice tag_name in_answer

tag_named : (e : Tags.Entry) → tag_name (Tags.versioning.specify e) ≡ Tags.versioning.name_of e
unfolding Tags.versioning Tags.specify_v1
tag_named e = refl

tags_located : IsLocated (Tags.fw_xpath "vsys2") (called "tag")
unfolding Tags.fw_xpath
tags_located = located (Tags.fw_xpath "vsys2") (vsys_xpath_prefix "vsys2") "tag" (λ ns. refl)

abbrev red : Tags.Entry
red = record { name = "red"; color = "color1"; comment = "" }

abbrev blue : Tags.Entry
blue = record { name = "blue"; color = "color3"; comment = "cold" }

abbrev none_stored : State Tags.EntryV1
none_stored p n = none

abbrev tags_fw : Operations (State Tags.EntryV1) Tags.Entry
tags_fw = Tags.fw tags "vsys2"

get-edit_example :
    ((tags_fw.edit red none_stored).0 ≡ none)
    × (tags_fw.get "red" (tags_fw.edit red none_stored).1
        ≡ ((none, red), (tags_fw.edit red none_stored).1))
    × ((tags_fw.get "blue" (tags_fw.edit red none_stored).1).0 ≡ (tags_fw.get "blue" none_stored).0)
unfolding Tags.fw Tags.versioning Tags.specify_v1 Tags.normalize_v1
get-edit_example =
    get-edit Tags.versioning tags tag_name in_answer tag_device tag_named (Tags.fw_xpath "vsys2")
      (called "tag") tags_located "Unsupported type to delete: %s" red "blue" none_stored
      (omega arith, refl) (omega arith, refl) refl refl

get-set_example :
    ((tags_fw.set (red ∷ blue ∷ []) none_stored).0 ≡ none)
    × AreRead Tags.versioning tags tag_name in_answer tag_device tag_named
        (Tags.fw_xpath "vsys2")
        (called "tag")
        tags_located
        "Unsupported type to delete: %s"
        (red ∷ blue ∷ [])
        (tags_fw.set (red ∷ blue ∷ []) none_stored).1
    × ((tags_fw.get "green" (tags_fw.set (red ∷ blue ∷ []) none_stored).1).0
        ≡ (tags_fw.get "green" none_stored).0)
unfolding Tags.fw Tags.versioning Tags.specify_v1 Tags.normalize_v1
get-set_example =
    get-set Tags.versioning tags tag_name in_answer tag_device tag_named (Tags.fw_xpath "vsys2")
      (called "tag") tags_located "Unsupported type to delete: %s" red (blue ∷ []) "green"
      none_stored ((omega arith, refl), ((omega arith, refl), tt)) (refl, (refl, tt))
      (held-device tag_name in_answer _ _ _, (held-device tag_name in_answer _ _ _, tt))
      (refl, (refl, tt)) (omega arith, refl) refl

abbrev group_name : AppGroup.EntryV1 → String
group_name o = o.name

abbrev groups : Con (State AppGroup.EntryV1) AppGroup.EntryV1 (Answer AppGroup.EntryV1)
groups = device group_name in_answer

abbrev group_device : IsDevice groups group_name in_answer
group_device = device-IsDevice group_name in_answer

group_named :
    (e : AppGroup.Entry)
    → group_name (AppGroup.versioning.specify e) ≡ AppGroup.versioning.name_of e
unfolding AppGroup.versioning AppGroup.specify_v1
group_named e = refl

groups_located : IsLocated (AppGroup.fw_xpath "") called_by_path
unfolding AppGroup.fw_xpath
groups_located =
    located_by_path (AppGroup.fw_xpath "") (vsys_xpath_prefix "") "application-group" (λ ns. refl)

abbrev all_groups : State AppGroup.EntryV1
all_groups p n = some (record { name = n; applications = none })

abbrev groups_fw : Operations (State AppGroup.EntryV1) AppGroup.Entry
groups_fw = AppGroup.fw groups ""

abbrev mail : AppGroup.Entry
mail = record { name = "mail"; applications = some ("smtp" ∷ "imap" ∷ []) }

get-delete_example :
    ((groups_fw.delete (by_name "web" ∷ by_entry mail ∷ []) all_groups).0 ≡ none)
    × (groups_fw.get "mail" (groups_fw.delete (by_name "web" ∷ by_entry mail ∷ []) all_groups).1 ≡ (
      (some group_device.missing, AppGroup.no_entry),
      (groups_fw.delete (by_name "web" ∷ by_entry mail ∷ []) all_groups).1,
    ))
    × ((groups_fw.get "chat" (groups_fw.delete (by_name "web" ∷ by_entry mail ∷ []) all_groups).1).0
        ≡ (groups_fw.get "chat" all_groups).0)
unfolding AppGroup.fw AppGroup.versioning deleted_names
get-delete_example =
    get-delete AppGroup.versioning groups group_name in_answer group_device group_named
      (AppGroup.fw_xpath "") called_by_path groups_located "Unknown type sent to delete: %s"
      (by_name "web") (by_entry mail ∷ []) "mail" "chat" all_groups (tt, (tt, tt))
      ((omega arith, refl), ((omega arith, refl), tt)) (omega arith, refl) (omega arith, refl) refl
      refl
