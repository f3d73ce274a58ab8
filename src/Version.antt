-- ===== src/Version.antt =====
-- version/version.go: the PAN-OS version number by which the client chooses its XML structs.
pub mod Order
pub mod RoundTrip
mod Tests
use pango.Base.{
  String, List, [], ◌∷◌, Option, none, some, ℤ, pos, int_eq, ltb_ℤ, Bool, not, if◌then◌else◌, ◌==◌,
  Error, errorf, Arg, str, int, sprintf,
}
use pango.Base.Decimal.{value, atoi, atoi_error}
use pango.Base.Strings.{split}

pub record Number : Type 0 where
  pub major : ℤ
  pub minor : ℤ
  pub patch : ℤ
  pub suffix : String

-- `Number{}`
abbrev pub no_version : Number
no_version = record { major = pos 0; minor = pos 0; patch = pos 0; suffix = "" }

unfoldable pub gte : Number → Number → Bool
gte v o =
    if not (int_eq v.major o.major)
    then ltb_ℤ o.major v.major
    else if not (int_eq v.minor o.minor)
    then ltb_ℤ o.minor v.minor
    else not (ltb_ℤ v.patch o.patch)

-- `Number.String`
unfoldable pub to_string : Number → String
unfolding sprintf
to_string v =
    if v.suffix == ""
    then sprintf "%d.%d.%d" (int v.major ∷ int v.minor ∷ int v.patch ∷ [])
    else sprintf "%d.%d.%d-%s" (int v.major ∷ int v.minor ∷ int v.patch ∷ str v.suffix ∷ [])

-- `return Number{}, fmt.Errorf(format, a, b)`
abbrev fails : String → List Arg → Number × Option Error
fails format args = (no_version, some (errorf format args))

-- The last part of `New`, with the patch number and the suffix taken apart.
new_patch : ℤ → ℤ → String → String → Number × Option Error
new_patch major minor patch_str suffix = elim (atoi patch_str) [
  | value patch ↦ (record { major = major; minor = minor; patch = patch; suffix = suffix }, none)
  | _ ↦ fails "Patch %s is not a number: %s" (str patch_str ∷ str (atoi_error patch_str) ∷ [])
]

-- The switch on `len(patch_parts)`.
new_suffix : ℤ → ℤ → String → List String → Number × Option Error
unfolding new_patch
new_suffix major minor third (_ ∷ []) = new_patch major minor third ""
new_suffix major minor third (patch_str ∷ suffix ∷ []) = new_patch major minor patch_str suffix
new_suffix major minor third _ = fails "Patch %s is not formatted as expected" (str third ∷ [])

-- The message about the minor number names `parts[0]`, as the code does.
new_numbers : String → String → String → Number × Option Error
unfolding new_suffix
new_numbers first second third = elim (atoi first) [
  | value major ↦ elim (atoi second) [
    | value minor ↦ new_suffix major minor third (split b'-' third)
    | _ ↦ fails "Minor %s is not a number: %s" (str first ∷ str (atoi_error second) ∷ [])
  ]
  | _ ↦ fails "Major %s is not a number: %s" (str first ∷ str (atoi_error first) ∷ [])
]

-- `strings.Split(version, ".")[:3]` panics on fewer than three parts; the parts after are dropped.
new_parts : List String → Option (Number × Option Error)
unfolding new_numbers
new_parts (first ∷ second ∷ third ∷ _) = some (new_numbers first second third)
new_parts _ = none

-- `New`; `none` is the panic.
unfoldable pub new : String → Option (Number × Option Error)
unfolding new_parts
new version = new_parts (split b'.' version)
