-- ===== src/Util/Target.antt =====
-- util/util.go: the vsys of the target devices. A Go map is an association list here; its order is
-- that of the runtime's iteration, which the program leaves open, so that statements hold for any.
use mathlib.Core.List.{append-nil, append_assoc}
use pango.Base.{
  String, ◌≡◌, refl, sym, ap, ◌∙◌, Bool, false, ◌||◌, Option, none, some, List, [], ◌∷◌, ◌++◌, All,
  ◌==◌, eq_iff, if◌then◌else◌, arith,
}
use pango.Util.Member.{EntryType, ent_to_str, str_to_ent, ent_to_str-str_to_ent}

-- `map[string][]string`, without the nil map.
abbrev pub Targets : Type 0
Targets = List (String × Option (List String))

pub record VsysEntry : Type 0 where
  pub serial : String
  pub vsys : Option EntryType

pub record VsysEntryType : Type 0 where
  pub entries : List VsysEntry

-- `ans[k] = v`
insert : String → Option (List String) → Targets → Targets
insert k v [] = (k, v) ∷ []
insert k v ((j, w) ∷ m) = if j == k then (k, v) ∷ m else (j, w) ∷ insert k v m

fill : Targets → List VsysEntry → Targets
unfolding insert ent_to_str
fill ans [] = ans
fill ans (e ∷ es) = fill (insert e.serial (ent_to_str e.vsys) ans) es

unfoldable pub vsys_ent_to_map : Option VsysEntryType → Option Targets
unfolding fill
vsys_ent_to_map none = none
vsys_ent_to_map (some ve) = some (fill [] ve.entries)

to_entries : Targets → List VsysEntry
unfolding str_to_ent
to_entries [] = []
to_entries ((k, v) ∷ m) = record { serial = k; vsys = str_to_ent v } ∷ to_entries m

unfoldable pub map_to_vsys_ent : Option Targets → Option VsysEntryType
unfolding to_entries
map_to_vsys_ent none = none
map_to_vsys_ent (some []) = none
map_to_vsys_ent (some (b ∷ m)) = some (record { entries = to_entries (b ∷ m) })

-- No key stands twice, as in every Go map.
abbrev pub AreDistinct : Targets → Type 0
AreDistinct [] = Unit
AreDistinct ((k, v) ∷ m) = All (λ b. (b.0 == k) ≡ false) m × AreDistinct m

has_key : Targets → String → Bool
has_key [] j = false
has_key ((k, v) ∷ m) j = j == k || has_key m j

insert_of_new :
    (k : String) (v : Option (List String)) (m : Targets)
    → has_key m k ≡ false
    → insert k v m ≡ m ++ (k, v) ∷ []
unfolding insert has_key
insert_of_new k v [] h = refl
insert_of_new k v ((j, w) ∷ m) h = ground (arith, insert_of_new k v m, eq_iff k j, eq_iff j k)

has_key-concat :
    (m : Targets) (k j : String) (v : Option (List String))
    → has_key m j ≡ false
    → (j == k) ≡ false
    → has_key (m ++ (k, v) ∷ []) j ≡ false
unfolding has_key
has_key-concat [] k j v h e = ground arith
has_key-concat ((i, w) ∷ m) k j v h e = ground (arith, has_key-concat m k j v)

still_new :
    (m l : Targets) (k : String) (v : Option (List String))
    → All (λ b. has_key m b.0 ≡ false) l
    → All (λ b. (b.0 == k) ≡ false) l
    → All (λ b. has_key (m ++ (k, v) ∷ []) b.0 ≡ false) l
still_new m [] k v h e = tt
still_new m (b ∷ l) k v h e = (has_key-concat m k b.0 v h.0 e.0, still_new m l k v h.1 e.1)

fill-cons :
    (m : Targets) (k : String) (v : Option (List String)) (es : List VsysEntry)
    → fill m (record { serial = k; vsys = str_to_ent v } ∷ es) ≡ fill (insert k v m) es
unfolding fill
fill-cons m k v es = ap (λ w. fill (insert k w m) es) (ent_to_str-str_to_ent v)

fill-to_entries :
    (m l : Targets)
    → AreDistinct l
    → All (λ b. has_key m b.0 ≡ false) l
    → fill m (to_entries l) ≡ m ++ l
unfolding fill to_entries
fill-to_entries m [] d h = sym (append-nil m)
fill-to_entries m ((k, v) ∷ l) d h =
    fill-cons m k v (to_entries l)
    ∙ ap (λ m'. fill m' (to_entries l)) (insert_of_new k v m h.0)
    ∙ (fill-to_entries (m ++ (k, v) ∷ []) l d.1 (still_new m l k v h.1 d.0)
        ∙ append_assoc m ((k, v) ∷ []) l)

nothing_yet : (l : Targets) → All (λ b. has_key [] b.0 ≡ false) l
unfolding has_key
nothing_yet [] = tt
nothing_yet (b ∷ l) = (refl, nothing_yet l)

-- The map with the difference between an empty map and nil forgotten.
abbrev pub nil_if_empty : Option Targets → Option Targets
nil_if_empty (some []) = none
nil_if_empty m = m

abbrev pub MapIsDistinct : Option Targets → Type 0
MapIsDistinct none = Unit
MapIsDistinct (some m) = AreDistinct m

-- A map of targets, in which no key stands twice, survives the XML node, nil included; only the
-- empty map comes back as nil.
pub vsys_ent_to_map-map_to_vsys_ent :
    (m : Option Targets) → MapIsDistinct m → vsys_ent_to_map (map_to_vsys_ent m) ≡ nil_if_empty m
unfolding vsys_ent_to_map map_to_vsys_ent
vsys_ent_to_map-map_to_vsys_ent none d = refl
vsys_ent_to_map-map_to_vsys_ent (some []) d = refl
vsys_ent_to_map-map_to_vsys_ent (some (b ∷ m)) d =
    ap some (fill-to_entries [] (b ∷ m) d (nothing_yet (b ∷ m)))
