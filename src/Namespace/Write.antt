-- ===== src/Namespace/Write.antt =====
-- `Set`, `Edit` and `Delete` of namespace/namespace.go.
pub mod Laws
use pango.Base.{
  String, List, [], ◌∷◌, Option, none, some, Error, errorf, str, is_empty, elem, length, nat_eq,
  if◌then◌else◌, ◌>>=◌,
}
use pango.Namespace.Client.{Namespace, XapiClient, Element, config, second_last, drop_last}

-- The loop over `names`: the first name whose tally passes one. `seen` holds the names with a tally.
unfoldable pub repeated : List String → List String → Option String
repeated seen [] = none
repeated seen (name ∷ names) =
    let more = repeated (name ∷ seen) names in if elem name seen then some name else more

module _ {S Data : Type 0} (n : Namespace S Data) where
  -- The end of `Set`: one object is set at its parent, several at the parent of that.
  send : List String → List Data → S → Option (Option Error × S)
  unfolding config second_last drop_last
  send path objects s = do
    name ← second_last path
    some (
        n.con.set (if nat_eq (length objects) 1 then drop_last 1 path else drop_last 2 path)
          (config name objects) s)

  -- `Set`; `none` is the panic.
  unfoldable pub set : List String → List String → List Data → S → Option (Option Error × S)
  unfolding repeated send
  set names path [] s = some (none, s)
  set names path (d ∷ ds) s = elim (repeated [] names) [
    | some name ↦
        some (some (errorf "%s is defined multiple times: %q" (str n.singular ∷ str name ∷ [])), s)
    | none ↦ send path (d ∷ ds) s
  ]

  unfoldable pub edit : String → List String → Data → S → Option Error × S
  edit name path objects s = n.con.edit path objects s

  unfoldable pub delete : List String → List String → S → Option Error × S
  delete names path s = if is_empty names then (none, s) else n.con.delete path s
