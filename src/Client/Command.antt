-- ===== src/Client/Command.antt =====
-- `Op`, `Uid`, `Commit`, `Import` and `CommunicateFile` of client.go.
use pango.Base.{String, [], ◌∷◌, true, not, Option, none, some, Error, ◌==◌, if◌then◌else◌}
use pango.Client.Values.{Values, set_value, set_values, Extras, Value, add_to_data}
use pango.Client.Config.{Client, World, Reply, with_key, finish_request, conclude}

abbrev with_vsys : String → Values → Values
with_vsys vsys m = if not (vsys == "") then set_value "vsys" vsys m else m

-- The action of a commit: the one that is given, or that of the command, if it is a `util.Actioner`.
abbrev pub with_action : String → Option String → Values → Values
with_action action none m = if not (action == "") then set_value "action" action m else m
with_action action (some own) m =
    if not (action == "")
    then set_value "action" action m
    else if not (own == "")
    then set_value "action" own m
    else m

abbrev mapped : {A B E : Type 0} → (A → B) → E × A → E × B
mapped f (e, a) = (e, f a)

module _ {Net D Ans : Type 0} (w : World Net D Ans) where
  unfoldable pub op :
      Value D → String → Extras → Option Ans → Client Net D → Reply Ans × Client Net D
  unfolding add_to_data set_value finish_request
  op req vsys extras ans c =
      finish_request w
        (mapped (with_vsys vsys) (add_to_data w.marshal "cmd" req true (("type", "op") ∷ [])))
        extras ans c

  unfoldable pub uid :
      Value D → String → Extras → Option Ans → Client Net D → Reply Ans × Client Net D
  unfolding add_to_data set_value finish_request
  uid cmd vsys extras ans c =
      finish_request w
        (mapped (with_vsys vsys) (add_to_data w.marshal "cmd" cmd true (("type", "user-id") ∷ [])))
        extras ans c

  -- `Commit`, up to the number of the job, which stands in the answer; `own` is the action of `cmd`,
  -- if it is a `util.Actioner`, and `ans` the empty `util.JobResponse`.
  unfoldable pub commit :
      Value D → Option String → String → Extras → Ans → Client Net D → Reply Ans × Client Net D
  unfolding add_to_data set_value finish_request
  commit cmd own action extras ans c =
      finish_request w
        (mapped (with_action action own)
          (add_to_data w.marshal "cmd" cmd true (("type", "commit") ∷ [])))
        extras (some ans) c

  -- `CommunicateFile`, where `upload` stands for the multipart writer and the request: it is given the
  -- url, the content, the name of the file, the name of its field, and the other fields.
  unfoldable pub communicate_file :
      (String → String → String → String → Values → Net → (String × Option Error) × Net)
      → String
      → String
      → String
      → Values
      → Option Ans
      → Client Net D
      → Reply Ans × Client Net D
  unfolding conclude
  communicate_file upload content filename fp m ans c =
      let (r, net') = upload c.api_url content filename fp (with_key c.api_key m) c.net in
      conclude w ans (r, record c { net = net' })

  -- `Import`; the order of the extra fields is the map's.
  unfoldable pub import_file :
      (String → String → String → String → Values → Net → (String × Option Error) × Net)
      → String
      → String
      → String
      → String
      → Values
      → Option Ans
      → Client Net D
      → Reply Ans × Client Net D
  unfolding set_values
  import_file upload cat content filename fp extras ans c =
      communicate_file upload content filename fp
        (set_values (("type", "import") ∷ ("category", cat) ∷ []) extras) ans c
