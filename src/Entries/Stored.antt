-- ===== src/Entries/Stored.antt =====
-- What a device does with the requests of a namespace: it stores objects by name under the path of
-- their parent. This is the documented behaviour of the API of PAN-OS on a device that accepts what it
-- is sent.
use pango.Base.{
  String, List, [], ◌∷◌, ◌++◌, false, Option, none, some, Error, ◌≡◌, All, elem, ◌==◌,
  if◌then◌else◌,
}
use pango.Base.Strings.{Lacks}
use pango.Util.Xpath.{as_entry_xpath}
use pango.Namespace.Client.{object, bulk}
use pango.Entries.{Con}

-- A name that an xpath can hold.
abbrev pub IsPlain : String → Type 0
IsPlain n = Lacks 39 n × ((n == "") ≡ false)

-- The path of a name under a parent, and that of several.
abbrev pub under : List String → List String → List String
under parent names = parent ++ as_entry_xpath names ∷ []

-- The response to a request for one object.
abbrev pub answered :
    {Object Container : Type 0}
    → Error
    → (Object → Container)
    → Container
    → Option Object
    → Option Error × Container
answered missing holds ans none = (some missing, ans)
answered missing holds ans (some o) = (none, holds o)

module _ {S Object Container : Type 0} (con : Con S Object Container) where
  -- Objects that are set one after the other.
  abbrev pub set_each : List String → List Object → S → S
  set_each parent [] s = s
  set_each parent (o ∷ os) s = set_each parent os (con.set parent (object o) s).1

  -- `object_name` and `holds` are those of the structs: the name of an object, and the container of a
  -- response that it is in. `held` is what is stored under a parent by a name.
  pub record IsDevice (object_name : Object → String) (holds : Object → Container) : Type 0 where
    pub held : List String → String → S → Option Object
    pub missing : Error
    pub get_lem :
        (p : List String) (n : String) (ans : Container) (s : S)
        → IsPlain n
        → con.get (under p (n ∷ [])) ans s ≡ (answered missing holds ans (held p n s), s)
    pub edit_ok :
        (p : List String) (n : String) (o : Object) (s : S)
        → IsPlain n
        → object_name o ≡ n
        → (con.edit (under p (n ∷ [])) o s).0 ≡ none
    pub edit_held :
        (p : List String) (n : String) (o : Object) (s : S) (m : String)
        → IsPlain n
        → object_name o ≡ n
        → held p m (con.edit (under p (n ∷ [])) o s).1 ≡ (if n == m then some o else held p m s)
    pub set_ok : (p : List String) (o : Object) (s : S) → (con.set p (object o) s).0 ≡ none
    pub set_held :
        (p : List String) (o : Object) (s : S) (m : String)
        → IsPlain (object_name o)
        → held p (object_name o) s ≡ none
        → held p m (con.set p (object o) s).1 ≡ (if object_name o == m then some o else held p m s)
    pub bulk_lem :
        (p : List String) (tag : String) (os : List Object) (s : S)
        → con.set p (bulk tag os) s ≡ (none, set_each (p ++ tag ∷ []) os s)
    pub delete_ok :
        (p : List String) (n : String) (ns : List String) (s : S)
        → All IsPlain (n ∷ ns)
        → (con.delete (under p (n ∷ ns)) s).0 ≡ none
    pub delete_held :
        (p : List String) (n : String) (ns : List String) (s : S) (m : String)
        → All IsPlain (n ∷ ns)
        → held p m (con.delete (under p (n ∷ ns)) s).1
          ≡ (if elem m (n ∷ ns) then none else held p m s)

-- The paths of a namespace end with the name of the parent of its entries and their segment, and the
-- parent that `Set` sends several entries under has that name.
pub record IsLocated (xpath : List String → List String) (label : List String → Option String)
    : Type 0 where
  pub grand : List String
  pub tag : String
  pub path : (ns : List String) → xpath ns ≡ under (grand ++ tag ∷ []) ns
  pub labelled : (ns : List String) → label (xpath ns) ≡ some tag
