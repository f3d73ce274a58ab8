-- ===== src/Client/Batch.antt =====
-- multiconf.go, and `MultiConfig`, `PrepareMultiConfigure` and `SendMultiConfigure` of client.go.
pub mod Ids
pub mod Laws
use pango.Base.{
  ℕ, ◌+◌, ◌-◌, String, List, [], ◌∷◌, Bool, true, false, Option, none, some, Error, ℤ, pos, length,
  get_elem?, ◌==◌, if◌then◌else◌, ◌>>=◌,
}
use pango.Base.Decimal.{itoa}
use pango.Util.Packaging.{trim_space}
use pango.Client.Values.{Values, Extras, absent, Value, plain, struct}
use pango.Client.Config.{Client, World, Request, Reply, type_config}

-- The loop of `IncrementalIds`, from the number `i`.
unfoldable pub number_from : {D : Type 0} → ℕ → List (Request D) → List (Request D)
unfolding itoa
number_from i [] = []
number_from i (r ∷ rs) =
    (if r.id == "" then record r { id = itoa (pos (i + 1)) } else r) ∷ number_from (i + 1) rs

-- `IncrementalIds`
unfoldable pub incremental_ids : {D : Type 0} → List (Request D) → List (Request D)
unfolding number_from
incremental_ids reqs = number_from 0 reqs

-- `McreMsg`, with the text of its line.
pub record McreMsg : Type 0 where
  pub line : Option String
  pub message : String

-- `MultiConfigResponseElement`
pub record ResponseElement : Type 0 where
  pub status : String
  pub code : ℤ
  pub id : String
  pub msg : McreMsg

unfoldable pub element_ok : ResponseElement → Bool
element_ok m = m.status == "success"

abbrev message_text : McreMsg → Option String → String
message_text msg none = msg.message
message_text msg (some line) = trim_space line

-- `MultiConfigResponseElement.Message`
unfoldable pub element_message : ResponseElement → String
unfolding trim_space
element_message m = message_text m.msg m.msg.line

pub record MultiConfigureResponse : Type 0 where
  pub status : String
  pub code : ℤ
  pub results : List ResponseElement

unfoldable pub ok : MultiConfigureResponse → Bool
ok m = m.status == "success"

-- `m.Results[len(m.Results)-1]`, which panics where there are none.
unfoldable pub last_result : List ResponseElement → Option ResponseElement
last_result [] = none
last_result (r ∷ []) = some r
last_result (r ∷ s ∷ rs) = last_result (s ∷ rs)

-- `MultiConfigureResponse.Error`; `none` is the panic.
unfoldable pub response_error : MultiConfigureResponse → Option String
unfolding last_result element_ok element_message
response_error m = do
  r ← last_result m.results
  some (if element_ok r then "" else element_message r)

-- `MultiConfigureResponse{}`
abbrev pub no_response : MultiConfigureResponse
no_response = record { status = ""; code = pos 0; results = [] }

abbrev pub strictness : Bool → Values
strictness strict = if strict then ("strict-transactional", "yes") ∷ [] else []

module _ {Net D Ans : Type 0} (w : World Net D Ans)
    (unmarshal : String → MultiConfigureResponse × Option Error) where
  -- `MultiConfig`: the error of the call is dropped, and the text is unmarshalled whatever it is.
  unfoldable pub multi_config :
      List (Request D)
      → Bool
      → Extras
      → Client Net D
      → (String × MultiConfigureResponse × Option Error) × Client Net D
  unfolding type_config
  multi_config reqs strict extras c =
      let (((text, err), ans), c') =
        type_config w "multi-config" (strictness strict) (plain (struct (w.box reqs))) extras none
          c in
      let (resp, err') = unmarshal text in ((text, resp, err'), c')

  -- `SendMultiConfigure`
  unfoldable pub send_multi_configure :
      Bool → Client Net D → (MultiConfigureResponse × Option Error) × Client Net D
  unfolding multi_config
  send_multi_configure strict c = elim c.multi [
    | none ↦ ((no_response, none), c)
    | some reqs ↦
        let ((text, resp, err), c') = multi_config reqs strict absent (record c { multi = none }) in
        ((resp, err), c')
  ]

-- `PrepareMultiConfigure`; the capacity is a hint to Go's runtime.
unfoldable pub prepare_multi_configure : {Net D : Type 0} → Client Net D → Client Net D
prepare_multi_configure c = record c { multi = some [] }
