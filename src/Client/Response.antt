-- ===== src/Client/Response.antt =====
-- What the client makes of a response: `panosStatus`, the two shapes of an error response, and
-- `endCommunication` of client.go. Logging is left out.
--
-- `encoding/xml` is a parameter: `Decoders` holds what `xml.Unmarshal` makes of a body.
pub mod Laws
use pango.Base.{
  String, List, [], ◌∷◌, Bool, true, false, Option, none, some, Error, panos_error, errorf, message,
  str, int, is_nil, ℤ, pos, int_eq, not, ◌&&◌, ◌||◌, ◌==◌, if◌then◌else◌, ◌≡◌, refl, ◌↔◌, arith,
  sprintf, Bool-cases, inl, inr,
}

pub record Status : Type 0 where
  pub response_status : String
  pub response_code : ℤ

-- `Failed`
unfoldable pub failed : Status → Bool
failed e =
    if e.response_status == "failed" || e.response_status == "error"
    then true
    else not (
        int_eq e.response_code (pos 0)
        || int_eq e.response_code (pos 19)
        || int_eq e.response_code (pos 20))

abbrev internal_error : ℤ → Bool
internal_error code =
    int_eq code (pos 2)
    || int_eq code (pos 3)
    || int_eq code (pos 4)
    || int_eq code (pos 5)
    || int_eq code (pos 11)

-- The texts of `codeError`'s other cases, in the order of the source.
abbrev code_texts : List (ℤ × String)
code_texts =
    (pos 6, "Bad Xpath")
    ∷ (pos 7, "Object not found")
    ∷ (pos 8, "Object not unique")
    ∷ (pos 10, "Reference count not zero")
    ∷ (pos 12, "Invalid object")
    ∷ (pos 14, "Operation not possible")
    ∷ (pos 15, "Operation denied")
    ∷ (pos 16, "Unauthorized")
    ∷ (pos 17, "Invalid command")
    ∷ (pos 18, "Malformed command")
    ∷ (pos 0, "")
    ∷ (pos 19, "")
    ∷ (pos 20, "")
    ∷ (pos 22, "Session timed out")
    ∷ []

abbrev pick : ℤ → String → List (ℤ × String) → String
pick code text [] = text
pick code text ((c, t) ∷ cases) = if int_eq code c then t else pick code text cases

-- `codeError`
unfoldable pub code_error : Status → String
unfolding sprintf
code_error e =
    if int_eq e.response_code (pos 1)
    then "Unknown command"
    else if internal_error e.response_code
    then sprintf "Internal error (%d) encountered" (int e.response_code ∷ [])
    else pick e.response_code
        (sprintf "(%d) Unknown failure code, operation failed" (int e.response_code ∷ []))
        code_texts

-- `panosErrorResponseWithLine`
pub record WithLine : Type 0 where
  pub status : Status
  pub response_msg : String

unfoldable pub line_error : WithLine → String
unfolding code_error
line_error e = if not (e.response_msg == "") then e.response_msg else code_error e.status

-- `panosErrorResponseWithoutLine`
pub record WithoutLine : Type 0 where
  pub status : Status
  pub response_msg1 : String
  pub response_msg2 : String

unfoldable pub plain_error : WithoutLine → String
plain_error e = if not (e.response_msg1 == "") then e.response_msg1 else e.response_msg2

-- A decoder fills its struct as far as it gets, also where it returns an error.
pub record Decoders (Ans : Type 0) : Type 0 where
  pub without_line : String → WithoutLine × Option Error
  pub with_line : String → WithLine × Option Error
  pub answer : String → Ans → Option Error × Ans

-- `err == nil && errType.Error() != ""`
abbrev pub readable : Option Error → String → Bool
readable err text = is_nil err && not (text == "")

-- The part for a response that failed.
unfoldable pub failure : WithoutLine × Option Error → WithLine × Option Error → String → Error
unfolding line_error plain_error
failure (e1, err1) (e2, err2) body =
    if readable err1 (plain_error e1)
    then panos_error (plain_error e1) e1.status.response_code
    else if readable err2 (line_error e2)
    then panos_error (line_error e2) e2.status.response_code
    else errorf "Unknown error format: %s" (str body ∷ [])

-- The end of the function: the answer is filled, if there is one to fill.
unfoldable pub fill :
    {Ans : Type 0} → Decoders Ans → String → Option Ans → Option Error × Option Ans
fill decoders body none = (none, none)
fill decoders body (some ans) =
    let (err, ans') = decoders.answer body ans in
    elim err [
      | some e ↦ (
        some (errorf "Error unmarshaling into provided interface: %s" (str (message e) ∷ [])),
        some ans',
      )
      | none ↦ (none, some ans')
    ]

-- `endCommunication`, whose first result is the body as it was given.
unfoldable pub end_communication :
    {Ans : Type 0} → Decoders Ans → String → Option Ans → Option Error × Option Ans
end_communication decoders body ans =
    if failed (decoders.without_line body).0.status
    then (some (failure (decoders.without_line body) (decoders.with_line body) body), ans)
    else fill decoders body ans
