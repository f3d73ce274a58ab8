-- ===== src/Client/Response/Laws.antt =====
-- When a response is an error, and which.
use pango.Base.{
  String, Bool, not, if◌then◌else◌, refl, true, false, Option, none, some, Error, object_not_found,
  pos, int_eq_iff, ◌≡◌, ◌↔◌, ◌⊎◌, ◌==◌, ap, ◌∙◌, eq_iff, arith, Bool-cases, inl, inr,
}
use pango.Client.Response.{
  Status, WithLine, WithoutLine, Decoders, failed, failure, line_error, code_error, fill,
  end_communication,
}

-- The answer, if there is one to fill, can be read from the body.
abbrev pub IsAnswered : {Ans : Type 0} → Decoders Ans → String → Option Ans → Type 0
IsAnswered decoders body none = Unit
IsAnswered decoders body (some ans) = (decoders.answer body ans).0 ≡ none

-- A response of success: its status is neither "failed" nor "error", and its code is 0, 19 or 20.
abbrev pub IsSuccess : Status → Type 0
IsSuccess e =
    (¬ (e.response_status ≡ "failed"))
    × (¬ (e.response_status ≡ "error"))
    × ((e.response_code ≡ pos 0) ⊎ (e.response_code ≡ pos 19) ⊎ (e.response_code ≡ pos 20))

-- A missing object.
abbrev pub IsNotFound : Option Error → Type 0
IsNotFound none = ⊥
IsNotFound (some e) = object_not_found e ≡ true

-- `Failed` on the status and the code of a response.
failed_iff : (e : Status) → (failed e ≡ false) ↔ IsSuccess e
unfolding failed
failed_iff e = ground (
  arith,
  eq_iff e.response_status "failed",
  eq_iff e.response_status "error",
  int_eq_iff e.response_code (pos 0),
  int_eq_iff e.response_code (pos 19),
  int_eq_iff e.response_code (pos 20),
)

fill_iff :
    {Ans : Type 0} (decoders : Decoders Ans) (body : String) (ans : Option Ans)
    → ((fill decoders body ans).0 ≡ none) ↔ IsAnswered decoders body ans
unfolding fill
fill_iff decoders body none = ground arith
fill_iff decoders body (some ans) = ground arith

-- No error is returned exactly if the status of the response is neither "failed" nor "error", its
-- code is 0, 19 or 20, and the answer, if there is one to fill, can be read from it.
pub end_communication_ok_iff :
    {Ans : Type 0} (decoders : Decoders Ans) (body : String) (ans : Option Ans)
    → ((end_communication decoders body ans).0 ≡ none)
      ↔ (IsSuccess (decoders.without_line body).0.status × IsAnswered decoders body ans)
unfolding end_communication
end_communication_ok_iff decoders body ans =
    ground (arith, fill_iff decoders body ans, failed_iff (decoders.without_line body).0.status)

failure_not_found :
    (e1 : WithoutLine) (err1 : Option Error) (e2 : WithLine) (err2 : Option Error) (body : String)
    → object_not_found (failure (e1, err1) (e2, err2) body) ≡ true
    → e2.status ≡ e1.status
    → e1.status.response_code ≡ pos 7
unfolding failure object_not_found
failure_not_found e1 err1 e2 err2 body h same =
    ground (
      arith,
      int_eq_iff e1.status.response_code (pos 7),
      int_eq_iff e2.status.response_code (pos 7),
    )

fill-IsNotFound :
    {Ans : Type 0} (decoders : Decoders Ans) (body : String) (ans : Option Ans)
    → ¬ IsNotFound (fill decoders body ans).0
unfolding fill object_not_found
fill-IsNotFound decoders body none h = h
fill-IsNotFound decoders body (some ans) h = ground (arith, h)

code_error_of_missing : (e : Status) → e.response_code ≡ pos 7 → code_error e ≡ "Object not found"
unfolding code_error
code_error_of_missing e code =
    ap (λ c. code_error (record { response_status = e.response_status; response_code = c })) code

text_or :
    (b : Bool) (x y : String)
    → (x == "") ≡ b
    → (y == "") ≡ false
    → ((if not b then x else y) == "") ≡ false
text_or true x y hx hy = hy
text_or false x y hx hy = hx

line_error_of_missing :
    (e : WithLine) → e.status.response_code ≡ pos 7 → (line_error e == "") ≡ false
unfolding line_error
line_error_of_missing e code =
    text_or (e.response_msg == "") e.response_msg (code_error e.status) refl
      (ap (λ t. t == "") (code_error_of_missing e.status code))

failure_of_missing :
    (e1 : WithoutLine) (err1 : Option Error) (e2 : WithLine) (body : String)
    → e1.status.response_code ≡ pos 7
    → e2.status ≡ e1.status
    → object_not_found (failure (e1, err1) (e2, none) body) ≡ true
unfolding failure object_not_found
failure_of_missing e1 err1 e2 body code same =
    let code2 : e2.status.response_code ≡ pos 7 = ap (λ s. s.response_code) same ∙ code in
    ground (
      arith,
      code,
      code2,
      line_error_of_missing e2 code2,
      int_eq_iff e1.status.response_code (pos 7),
      int_eq_iff e2.status.response_code (pos 7),
    )

failed_of_missing : (e : Status) → e.response_code ≡ pos 7 → failed e ≡ true
unfolding failed
failed_of_missing e code = rw code (ground arith)

-- Where both shapes of an error response read the same status, and the one with lines is read
-- without an error: the error that is returned says that an object is missing exactly if the code
-- of the response is 7, whatever its status and its texts are.
pub end_communication-IsNotFound_iff :
    {Ans : Type 0} (decoders : Decoders Ans) (body : String) (ans : Option Ans)
    → (decoders.with_line body).0.status ≡ (decoders.without_line body).0.status
    → (decoders.with_line body).1 ≡ none
    → IsNotFound (end_communication decoders body ans).0
      ↔ ((decoders.without_line body).0.status.response_code ≡ pos 7)
unfolding end_communication
end_communication-IsNotFound_iff decoders body ans same read =
    elim (Bool-cases (failed (decoders.without_line body).0.status)) [
      | inl bad ↦
          rw (bad, read)
            (
              (λ h.
                  failure_not_found (decoders.without_line body).0 (decoders.without_line body).1
                    (decoders.with_line body).0 none body h same),
              (λ code.
                  failure_of_missing (decoders.without_line body).0 (decoders.without_line body).1
                    (decoders.with_line body).0 body code same),
            )
      | inr good ↦ rw good (
        (λ h. absurd (fill-IsNotFound decoders body ans h)),
        (λ code.
            absurd
              (ground (arith, good, failed_of_missing (decoders.without_line body).0.status code))),
      )
    ]
