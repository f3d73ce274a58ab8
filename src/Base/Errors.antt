-- ===== src/Base/Errors.antt =====
-- Go's `error` values and panics.
--
-- `PanosError` is that of client.go. An error made by `fmt.Errorf` keeps its format and arguments,
-- and any other error, such as one of the network, is known by its text.
use Prim.Native.String.{String}
use mathlib.Core.Bool.{Bool, false}
use mathlib.Core.List.{List}
use mathlib.Core.Option.{Option, none, some}
use pango.Base.Int.{ℤ, pos, int_eq}
use pango.Base.Format.{Arg, sprintf}

pub data Error : Type 0 where
  panos_error : String → ℤ → Error
  errorf : String → List Arg → Error
  plain : String → Error

-- `err.Error()`
unfoldable pub message : Error → String
unfolding sprintf
message (panos_error msg code) = msg
message (errorf format args) = sprintf format args
message (plain msg) = msg

-- `e2, ok := err.(PanosError); ok && e2.ObjectNotFound()`
unfoldable pub object_not_found : Error → Bool
object_not_found (panos_error msg code) = int_eq code (pos 7)
object_not_found _ = false

-- A computation that may panic, as by an index out of range: `none` is the panic.
infixl 5 ◌>>=◌
abbrev pub ◌>>=◌ {ℓ κ} : {A : Type ℓ} {B : Type κ} → Option A → (A → Option B) → Option B
none >>= f = none
some a >>= f = f a
