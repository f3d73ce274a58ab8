-- ===== src/Client/Values/Laws.antt =====
-- What a map of values holds after it is set.
use pango.Base.{
  String, [], ◌∷◌, true, false, Option, none, Error, ◌≡◌, refl, ◌==◌, eq_iff, if◌then◌else◌, arith,
}
use pango.Client.Values.{Values, set_value, get_value, Value, add_to_data, as_string, is_nil_value}

pub get_value-set_value :
    (j k v : String) (m : Values)
    → get_value j (set_value k v m) ≡ (if k == j then v else get_value j m)
unfolding set_value get_value
get_value-set_value j k v [] = refl
get_value-set_value j k v ((i, w) ∷ m) =
    ground (arith, eq_iff k j, eq_iff i k, eq_iff i j, get_value-set_value j k v m)

-- A value that renders is stored under its key.
pub add_to_data_of_text :
    {D : Type 0} (marshal : D → String × Option Error) (key : String) (i : Value D) (m : Values)
    (val : String)
    → is_nil_value i ≡ false
    → as_string marshal i true ≡ (val, none)
    → add_to_data marshal key i true m ≡ (none, set_value key val m)
unfolding add_to_data
add_to_data_of_text marshal key i m val given e = ground (arith, given, e)
