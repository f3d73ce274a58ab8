-- ===== src/Util/Tests.antt =====
-- Runs of the helpers, and their theorems at concrete inputs.
use pango.Base.{String, ◌≡◌, refl, Option, none, some, List, [], ◌∷◌, arith}
use pango.Util.Target.{Targets}
use pango.Util.Xpath.{as_entry_xpath}
use pango.Util.Xpath.Names.{quoted_names, quoted_names-as_entry_xpath, as_entry_xpath_of_quote}

abbrev names : List String
names = "one" ∷ "two" ∷ []

as_entry_xpath_run : as_entry_xpath names ≡ "entry[@name='one' or @name='two']"
unfolding as_entry_xpath
as_entry_xpath_run = refl

abbrev targets : Option Targets
targets = some (("0001", some names) ∷ ("0002", none) ∷ [])

quoted_names-as_entry_xpath_example : quoted_names (as_entry_xpath names) ≡ names
quoted_names-as_entry_xpath_example = quoted_names-as_entry_xpath names (omega arith) refl

as_entry_xpath_of_quote_example : as_entry_xpath ("one' or @name='two" ∷ []) ≡ as_entry_xpath names
as_entry_xpath_of_quote_example = as_entry_xpath_of_quote "one" "two"
