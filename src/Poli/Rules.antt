-- ===== src/Poli/Rules.antt =====
-- The operations that the packages of poli/ share, over the xpath that the rules have for their names
-- and over what a package says of its rules. They are those of poli/security/fw.go; the functions of
-- poli/security/pano.go and of the packages poli/nat and poli/pbf are the same.
--
-- `none` is a panic, except in `set`, which calls itself and runs on fuel: Run says how.
pub mod Moves
use pango.Base.{
  ℕ, zero, suc, ◌+◌, String, List, [], ◌∷◌, map, Option, none, some, Error, errorf, str, int, pos,
  message, items, ◌>>=◌, get_elem?, if◌then◌else◌, ℤ,
}
use pango.Base.Strings.{contains}
use pango.Namespace.Client.{Namespace}
use pango.Namespace.Write as Write
use pango.Namespace.Retrieve as Retrieve
use pango.Namespace.Group as Group
use pango.Poli.Run.{Run, returned, calling, ran, and_then}

-- What a package says of its rules: its `Entry`, the struct `Object` that it is specified as, and the
-- `Container` that a response is unmarshalled into. `no_answer` and `no_entry` are the
-- empty ones, and `unknown` is the format of the error of `Delete`.
pub record Kind (Entry Object Container : Type 0) : Type 0 where
  pub name_of : Entry → String
  pub specify : Entry → Object
  pub names : Container → List String
  pub normalize_all : Container → List Entry
  pub no_entry : Entry
  pub no_answer : Container
  pub unknown : String

-- An argument of `Delete`: a name, a rule, or anything else, by its text.
pub data Deleted (Entry : Type 0) : Type 0 where
  by_name : String → Deleted Entry
  by_entry : Entry → Deleted Entry
  by_other : String → Deleted Entry

module _ {Entry Object Container : Type 0} (kind : Kind Entry Object Container) where
  abbrev pub first_of : (Option Error × Container) → Option (Option Error × Entry)
  first_of (some e, ans) = some (some e, kind.no_entry)
  first_of (none, ans) = get_elem? (kind.normalize_all ans) 0 >>= λ e. some (none, e)

  abbrev pub all_of : (Option Error × Container) → Option Error × Option (List Entry)
  all_of (some e, ans) = (some e, none)
  all_of (none, ans) = (none, some (kind.normalize_all ans))

  abbrev pub entry_names : List Entry → List String
  entry_names es = map kind.name_of es

  unfoldable pub deleted_names : List (Deleted Entry) → Option Error × List String
  deleted_names [] = (none, [])
  deleted_names (by_name v ∷ e) = let (err, vs) = deleted_names e in (err, v ∷ vs)
  deleted_names (by_entry v ∷ e) = let (err, vs) = deleted_names e in (err, kind.name_of v ∷ vs)
  deleted_names (by_other v ∷ e) = (some (errorf kind.unknown (str v ∷ [])), [])

  module _ {S : Type 0} (n : Namespace S Object)
      (unmarshal : String → Container → Option Error × Container)
      (xpath : List String → List String) where
    -- `GetList` and `ShowList`
    unfoldable pub list_by : String → S → Option ((Option Error × Option (List String)) × S)
    unfolding Retrieve.listing
    list_by cmd s = Retrieve.listing n unmarshal kind.names cmd (xpath []) kind.no_answer s

    -- `Get` and `Show`
    unfoldable pub read_by : String → String → S → Option ((Option Error × Entry) × S)
    unfolding Retrieve.object
    read_by cmd name s = do
      (r, s') ← Retrieve.object n unmarshal cmd (xpath (name ∷ [])) kind.no_answer s
      found ← first_of r
      some (found, s')

    -- `GetAll` and `ShowAll`
    unfoldable pub read_all_by : String → S → Option ((Option Error × Option (List Entry)) × S)
    unfolding Retrieve.objects
    read_all_by cmd s = do
      (r, s') ← Retrieve.objects n unmarshal cmd (xpath []) kind.no_answer s
      some (all_of r, s')

    -- `Delete`
    unfoldable pub delete : List (Deleted Entry) → S → Option Error × S
    unfolding deleted_names Write.delete
    delete e s =
        let (err, vs) = deleted_names e in
        elim err [ some x ↦ (some x, s) | none ↦ Write.delete n vs (xpath vs) s ]

    -- The loop of `Set` that looks for the rule at fault, by `set_one`.
    unfoldable pub find_invalid :
        (Entry → S → Run Entry S (Option Error × S))
        → Error
        → ℕ
        → List Entry
        → S
        → Run Entry S (Option Error × S)
    find_invalid set_one err i [] s = returned (some err, s)
    find_invalid set_one err i (e ∷ es) s = and_then (set_one e s) λ (e2, s').
        let rest = find_invalid set_one err (i + 1) es (delete (by_entry e ∷ []) s').1 in
        elim e2 [
          | some x ↦ returned (
            some (errorf "Error with rule %d: %s" (int (pos (i + 1)) ∷ str (message x) ∷ [])),
            s',
          )
          | none ↦ rest
        ]

    -- `Set`; `named` gives the names that it collects.
    unfoldable pub set :
        (List Entry → List String) → ℕ → List Entry → S → Run Entry S (Option Error × S)
    unfolding Write.set contains
    set named zero es s = calling es s
    set named (suc fuel) es s =
        and_then (ran (Write.set n (named es) (xpath (named es)) (map kind.specify es) s))
          λ (err, s'). elim err [
            | none ↦ returned (none, s')
            | some e ↦
                if contains (message e) "rules is invalid"
                then find_invalid (λ r. set named fuel (r ∷ [])) e 0 es s'
                else returned (some e, s')
          ]

    -- `Edit`
    unfoldable pub edit : Entry → S → Option Error × S
    unfolding Write.edit
    edit e s = Write.edit n (kind.name_of e) (xpath (kind.name_of e ∷ [])) (kind.specify e) s

    -- The path that `MoveGroup` makes for a name.
    abbrev pub pather : String → List String
    pather v = xpath (v ∷ [])

    -- The list that `MoveGroup` asks for, where a nil slice is empty.
    abbrev pub lister : S → Option ((List String × Option Error) × S)
    unfolding list_by
    lister s = do ((err, list), s') ← list_by "get" s; some ((items list, err), s')

    -- `MoveGroup`
    unfoldable pub move_group : ℤ → String → List Entry → S → Option (Option Error × S)
    unfolding Group.move_group
    move_group movement rule es s =
        Group.move_group n pather lister movement rule (entry_names es) s
