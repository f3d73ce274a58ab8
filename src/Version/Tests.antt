-- ===== src/Version/Tests.antt =====
-- Runs of the version numbers, and their theorems at concrete inputs.
use pango.Base.{ℕ, ◌≡◌, refl, String, none, some, pos, ◌↔◌, ◌<◌, arith, sprintf}
use pango.Base.Decimal.{atoi, itoa}
use pango.Base.Strings.{split}
use pango.Version.{Number, new, to_string}
use pango.Version.RoundTrip.{parts, new_panics_iff, new-to_string}

abbrev number : ℕ → ℕ → ℕ → String → Number
number major minor patch suffix = record {
  major = pos major;
  minor = pos minor;
  patch = pos patch;
  suffix = suffix;
}

new_run : new "1.2.3-h4" ≡ some (number 1 2 3 "h4", none)
unfolding new split atoi
new_run = refl

to_string_run : to_string (number 1 2 3 "h4") ≡ "1.2.3-h4"
unfolding to_string sprintf itoa
to_string_run = refl

new_panics_iff_example : (new "9.1" ≡ none) ↔ (parts "9.1" < 3)
new_panics_iff_example = new_panics_iff "9.1"

new-to_string_example : new (to_string (number 10 0 2 "h1")) ≡ some (number 10 0 2 "h1", none)
new-to_string_example = new-to_string (number 10 0 2 "h1") (record {
  major = 10;
  minor = 0;
  patch = 2;
  is_major = refl;
  is_minor = refl;
  is_patch = refl;
  fits = omega arith;
  no_dot = omega arith;
  no_dash = omega arith;
})
