-- ===== src/Client/Values.antt =====
-- `url.Values` with `mergeUrlValues`, `addToData` and `asString` of client.go.
--
-- The program stores one value for a key, and of extra values it reads the first, so that a map of
-- values is an association list, whose `get_value` gives "" for a key that is missing, as `Get` does.
pub mod Laws
use pango.Base.{
  String, List, [], ◌∷◌, Bool, true, false, not, Option, none, some, Error, errorf, ◌==◌,
  if◌then◌else◌,
}

abbrev pub Values : Type 0
Values = List (String × String)

-- `data.Set(key, val)`
unfoldable pub set_value : String → String → Values → Values
set_value k v [] = (k, v) ∷ []
set_value k v ((j, w) ∷ m) = if j == k then (k, v) ∷ m else (j, w) ∷ set_value k v m

-- `data.Get(key)`
unfoldable pub get_value : String → Values → String
get_value k [] = ""
get_value k ((j, w) ∷ m) = if j == k then w else get_value k m

-- The `extras` argument of the client's calls: nil, values, or anything else.
pub data Extras : Type 0 where
  absent unusable : Extras
  present : Values → Extras

-- The loop over the extra values, in whatever order the keys come.
unfoldable pub set_values : Values → Values → Values
unfolding set_value
set_values data_ [] = data_
set_values data_ ((k, v) ∷ ev) = set_values (set_value k v data_) ev

-- `mergeUrlValues`
unfoldable pub merge_url_values : Values → Extras → Option Error × Values
unfolding set_values
merge_url_values data_ absent = (none, data_)
merge_url_values data_ unusable =
    (some (errorf "extras needs to be of type url.Values or nil" []), data_)
merge_url_values data_ (present ev) = (none, set_values data_ ev)

-- What a value of type `interface{}` is to the client: nil, a text, or some other value. A value may
-- also be a `fmt.Stringer`, known by its text, or a `util.Elementer`, known by its element.
pub data Plain (D : Type 0) : Type 0 where
  nil : Plain D
  text : String → Plain D
  struct : D → Plain D

pub data Value (D : Type 0) : Type 0 where
  stringer : String → Value D
  elementer : Plain D → Value D
  plain : Plain D → Value D

-- `i == nil`
abbrev pub is_nil_value : {D : Type 0} → Value D → Bool
is_nil_value (plain nil) = true
is_nil_value _ = false

-- `xml.Marshal` is a parameter.
module _ {D : Type 0} (marshal : D → String × Option Error) where
  abbrev text_or_error : String × Option Error → String × Option Error
  text_or_error (rb, some e) = ("", some e)
  text_or_error (rb, none) = (rb, none)

  -- The switch on the type.
  plain_string : Plain D → Bool → String × Option Error
  plain_string nil attempt = ("", some (errorf "nil encountered" []))
  plain_string (text val) attempt = (val, none)
  plain_string (struct d) attempt =
      if not attempt
      then ("", some (errorf "value must be string or fmt.Stringer" []))
      else text_or_error (marshal d)

  -- `asString`
  unfoldable pub as_string : Value D → Bool → String × Option Error
  unfolding plain_string
  as_string (stringer s) attempt = (s, none)
  as_string (elementer i) attempt = plain_string i attempt
  as_string (plain i) attempt = plain_string i attempt

  abbrev stored : String → Values → String × Option Error → Option Error × Values
  stored key data_ (val, some e) = (some e, data_)
  stored key data_ (val, none) = (none, set_value key val data_)

  -- `addToData`
  unfoldable pub add_to_data : String → Value D → Bool → Values → Option Error × Values
  unfolding as_string set_value
  add_to_data key i attempt data_ =
      if is_nil_value i then (none, data_) else stored key data_ (as_string i attempt)
