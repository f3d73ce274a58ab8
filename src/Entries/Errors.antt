-- ===== src/Entries/Errors.antt =====
-- The arguments of `Delete`: names and entries, and what is neither.
use pango.Base.{String, List, [], ◌∷◌, none, ◌≡◌, refl, map, All}
use pango.Entries.{Kind, Deleted, by_name, by_entry, by_other, deleted_names}

-- A name or an entry.
abbrev pub IsGiven : {Entry : Type 0} → Deleted Entry → Type 0
IsGiven (by_name v) = Unit
IsGiven (by_entry v) = Unit
IsGiven (by_other v) = ⊥

module _ {Entry Object Container : Type 0} (kind : Kind Entry Object Container) where
  -- The name that an argument asks for.
  abbrev pub asked : Deleted Entry → String
  asked (by_name v) = v
  asked (by_entry e) = kind.name_of e
  asked (by_other v) = ""

  pub names_of_given :
      (unknown : String) (ds : List (Deleted Entry))
      → All IsGiven ds
      → deleted_names kind unknown ds ≡ (none, map asked ds)
  unfolding deleted_names
  names_of_given unknown [] h = refl
  names_of_given unknown (by_name v ∷ ds) (_, h) = rw (names_of_given unknown ds h) refl
  names_of_given unknown (by_entry e ∷ ds) (_, h) = rw (names_of_given unknown ds h) refl
  names_of_given unknown (by_other v ∷ ds) (h, _) = absurd h
