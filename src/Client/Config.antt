-- ===== src/Client/Config.antt =====
-- The configuration calls of client.go, `typeConfig` with its queue of multi-configure requests, and
-- the way of a message to the device: `Communicate` and `post`. Logging is left out; where
-- `Communicate` logs, it hides the key and puts it back.
pub mod Message
pub mod Queue
mod Tests
use pango.Base.{
  ℕ, ◌+◌, ◌%◌, String, List, [], ◌∷◌, ◌++◌, Bool, true, false, not, ◌&&◌, ◌||◌, Option, none, some,
  Error, ltb, length, get_elem?, is_empty, ◌==◌, if◌then◌else◌,
}
use pango.Util.Xpath.{PathArg, as_xpath}
use pango.Client.Response.{Decoders, end_communication}
use pango.Client.Values.{
  Values, set_value, get_value, Extras, merge_url_values, Plain, Value, nil, plain, is_nil_value,
  add_to_data,
}

-- `MultiConfigureRequest` of multiconf.go, where `action` is the name of its XML element.
pub record Request (D : Type 0) : Type 0 where
  pub action : String
  pub id : String
  pub xpath : String
  pub body : Value D

-- The part of `Client` that sends: `multi` is `MultiConfigure`, and `sent`, `answers` and `turn` are
-- `rp`, `rb` and `ri`, by which the tests answer in place of a device. `net` is the network.
pub record Client (Net D : Type 0) : Type 0 where
  pub api_key : String
  pub target : String
  pub api_url : String
  pub multi : Option (List (Request D))
  pub sent : List Values
  pub answers : List String
  pub turn : ℕ
  pub net : Net

-- The libraries: `network` posts a form and reads the response, `marshal` and `decoders` are those of
-- `encoding/xml`, and `box` is the conversion of a `MultiConfigure` to an `interface{}`.
pub record World (Net D Ans : Type 0) : Type 0 where
  pub network : String → Values → Net → (String × Option Error) × Net
  pub marshal : D → String × Option Error
  pub decoders : Decoders Ans
  pub box : List (Request D) → D

-- What a call returns: the bytes, where "" is nil, the error, and the answer as it is now.
abbrev pub Reply : Type 0 → Type 0
Reply Ans = (String × Option Error) × Option Ans

abbrev pub is_queued : String → Bool
is_queued action = action == "set" || action == "edit" || action == "delete"

abbrev nth_answer : Option String → String
nth_answer none = ""
nth_answer (some body) = body

abbrev pub with_target : String → Values → Values
with_target target m = if not (target == "") then set_value "target" target m else m

abbrev pub with_key : String → Values → Values
with_key api_key m =
    if not (api_key == "") && get_value "key" m == "" then set_value "key" api_key m else m

abbrev pub at_path : PathArg → Values
unfolding as_xpath
at_path path = ("xpath", as_xpath path) ∷ []

abbrev given : String → String → Values → Values
given key v m = if not (v == "") then set_value key v m else m

module _ {Net D Ans : Type 0} (w : World Net D Ans) where
  -- `post`
  unfoldable pub post : Values → Client Net D → (String × Option Error) × Client Net D
  post m c =
      if is_empty c.answers
      then (let (r, net') = w.network c.api_url m c.net in (r, record c { net = net' }))
      else (
        (nth_answer (get_elem? c.answers (c.turn % length c.answers)), none),
        record c {
          sent = if ltb c.turn (length c.answers) then c.sent ++ m ∷ [] else c.sent;
          turn = c.turn + 1;
        },
      )

  -- The end of `Communicate`.
  unfoldable pub conclude :
      Option Ans → (String × Option Error) × Client Net D → Reply Ans × Client Net D
  unfolding end_communication
  conclude ans ((body, some e), c) = ((("", some e), ans), c)
  conclude ans ((body, none), c) =
      let (err, ans') = end_communication w.decoders body ans in (((body, err), ans'), c)

  -- `Communicate`
  unfoldable pub communicate : Values → Option Ans → Client Net D → Reply Ans × Client Net D
  unfolding conclude post
  communicate m ans c = conclude ans (post (with_key c.api_key m) c)

  -- The end that `typeConfig`, `Op`, `Uid` and `Commit` share.
  unfoldable pub finish_merged :
      Option Error × Values → Option Ans → Client Net D → Reply Ans × Client Net D
  unfolding communicate
  finish_merged (some e, m) ans c = ((("", some e), ans), c)
  finish_merged (none, m) ans c = communicate m ans c

  unfoldable pub finish_request :
      Option Error × Values → Extras → Option Ans → Client Net D → Reply Ans × Client Net D
  unfolding merge_url_values finish_merged
  finish_request (some e, m) extras ans c = ((("", some e), ans), c)
  finish_request (none, m) extras ans c =
      finish_merged (merge_url_values (with_target c.target m) extras) ans c

  -- The part of `typeConfig` that sends.
  unfoldable pub send_config :
      String → Values → Value D → Extras → Option Ans → Client Net D → Reply Ans × Client Net D
  unfolding add_to_data set_value finish_request
  send_config action m element extras ans c =
      finish_request
        (add_to_data w.marshal "element" element true
          (set_value "action" action (set_value "type" "config" m)))
        extras ans c

  -- The request that is queued; its `Data` is nil where there is no element.
  abbrev pub request_of : String → Values → Value D → Request D
  request_of action m element = record {
    action = action;
    id = "";
    xpath = get_value "xpath" m;
    body = element;
  }

  -- `typeConfig`
  unfoldable pub type_config :
      String → Values → Value D → Extras → Option Ans → Client Net D → Reply Ans × Client Net D
  unfolding send_config get_value
  type_config action m element extras ans c = elim c.multi [
    | none ↦ send_config action m element extras ans c
    | some reqs ↦
        if is_queued action
        then (
          (("", none), ans),
          record c { multi = some (reqs ++ request_of action m element ∷ []) },
        )
        else send_config action m element extras ans c
  ]

  unfoldable pub show : PathArg → Extras → Option Ans → Client Net D → Reply Ans × Client Net D
  unfolding type_config at_path
  show path extras ans c = type_config "show" (at_path path) (plain nil) extras ans c

  unfoldable pub get : PathArg → Extras → Option Ans → Client Net D → Reply Ans × Client Net D
  unfolding type_config at_path
  get path extras ans c = type_config "get" (at_path path) (plain nil) extras ans c

  unfoldable pub delete : PathArg → Extras → Option Ans → Client Net D → Reply Ans × Client Net D
  unfolding type_config at_path
  delete path extras ans c = type_config "delete" (at_path path) (plain nil) extras ans c

  unfoldable pub set :
      PathArg → Value D → Extras → Option Ans → Client Net D → Reply Ans × Client Net D
  unfolding type_config at_path
  set path element extras ans c = type_config "set" (at_path path) element extras ans c

  unfoldable pub edit :
      PathArg → Value D → Extras → Option Ans → Client Net D → Reply Ans × Client Net D
  unfolding type_config at_path
  edit path element extras ans c = type_config "edit" (at_path path) element extras ans c

  unfoldable pub move :
      PathArg → String → String → Extras → Option Ans → Client Net D → Reply Ans × Client Net D
  unfolding type_config at_path
  move path where_ dst extras ans c =
      type_config "move" (given "dst" dst (given "where" where_ (at_path path))) (plain nil) extras
        ans c

  unfoldable pub rename :
      PathArg → String → Extras → Option Ans → Client Net D → Reply Ans × Client Net D
  unfolding type_config at_path
  rename path newname extras ans c =
      type_config "rename" (set_value "newname" newname (at_path path)) (plain nil) extras ans c
