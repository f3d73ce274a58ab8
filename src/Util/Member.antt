-- ===== src/Util/Member.antt =====
-- util/member.go and util/entry.go: the XML nodes that hold a list of names. A pointer and a slice
-- are options, whose `none` is nil; `MemberType` and `EntryType` have the same shape.
use pango.Base.{
  String, ◌≡◌, refl, ap, Option, none, some, List, [], ◌∷◌, map, ◌==◌, eq_iff, if◌then◌else◌, arith,
}

pub record Member : Type 0 where
  pub value : String

pub record MemberType : Type 0 where
  pub members : List Member

unfoldable pub mem_to_str : Option MemberType → Option (List String)
mem_to_str none = none
mem_to_str (some e) = some (map (λ m. m.value) e.members)

unfoldable pub str_to_mem : Option (List String) → Option MemberType
str_to_mem none = none
str_to_mem (some e) = some (record { members = map (λ s. record { value = s }) e })

abbrev first_value : List Member → String
first_value [] = ""
first_value (m ∷ ms) = m.value

unfoldable pub mem_to_one_str : Option MemberType → String
mem_to_one_str none = ""
mem_to_one_str (some e) = first_value e.members

unfoldable pub one_str_to_mem : String → Option MemberType
one_str_to_mem e = if e == "" then none else some (record { members = record { value = e } ∷ [] })

pub record Entry : Type 0 where
  pub value : String

pub record EntryType : Type 0 where
  pub entries : List Entry

unfoldable pub ent_to_str : Option EntryType → Option (List String)
ent_to_str none = none
ent_to_str (some e) = some (map (λ m. m.value) e.entries)

unfoldable pub str_to_ent : Option (List String) → Option EntryType
str_to_ent none = none
str_to_ent (some e) = some (record { entries = map (λ s. record { value = s }) e })

abbrev first_entry : List Entry → String
first_entry [] = ""
first_entry (m ∷ ms) = m.value

unfoldable pub ent_to_one_str : Option EntryType → String
ent_to_one_str none = ""
ent_to_one_str (some e) = first_entry e.entries

unfoldable pub one_str_to_ent : String → Option EntryType
one_str_to_ent e = if e == "" then none else some (record { entries = record { value = e } ∷ [] })

values-members :
    (l : List String) → map (λ (m : Member). m.value) (map (λ s. record { value = s }) l) ≡ l
values-members [] = refl
values-members (s ∷ l) = ap (λ r. s ∷ r) (values-members l)

values-entries :
    (l : List String) → map (λ (m : Entry). m.value) (map (λ s. record { value = s }) l) ≡ l
values-entries [] = refl
values-entries (s ∷ l) = ap (λ r. s ∷ r) (values-entries l)

-- A list of names survives the node of members, nil and the empty list included.
pub mem_to_str-str_to_mem : (e : Option (List String)) → mem_to_str (str_to_mem e) ≡ e
unfolding mem_to_str str_to_mem
mem_to_str-str_to_mem none = refl
mem_to_str-str_to_mem (some l) = ap some (values-members l)

-- A list of names survives the node of entries, nil and the empty list included.
pub ent_to_str-str_to_ent : (e : Option (List String)) → ent_to_str (str_to_ent e) ≡ e
unfolding ent_to_str str_to_ent
ent_to_str-str_to_ent none = refl
ent_to_str-str_to_ent (some l) = ap some (values-entries l)

pub mem_to_one_str-one_str_to_mem : (s : String) → mem_to_one_str (one_str_to_mem s) ≡ s
unfolding mem_to_one_str one_str_to_mem
mem_to_one_str-one_str_to_mem s = ground (arith, eq_iff s "")

pub ent_to_one_str-one_str_to_ent : (s : String) → ent_to_one_str (one_str_to_ent s) ≡ s
unfolding ent_to_one_str one_str_to_ent
ent_to_one_str-one_str_to_ent s = ground (arith, eq_iff s "")
