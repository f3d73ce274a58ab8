-- ===== src/Client/Batch/Laws.antt =====
-- A batch of calls is one message.
use pango.Base.{
  String, List, [], map, Bool, true, false, not, Option, none, some, Error, ◌≡◌, refl, ap, ◌∙◌,
  ◌==◌, if◌then◌else◌, arith,
}
use pango.Client.Values.{Values, Extras, absent, plain, struct, set_value, get_value, as_string}
use pango.Client.Config.{
  Client, World, Request, Reply, type_config, post, conclude, communicate, with_key, with_target,
}
use pango.Client.Config.Message.{body_of, look, if_not_empty, send_config_lem}
use pango.Client.Config.Queue.{Write, queued, run_all, run_all_lem}
use pango.Client.Batch.{
  MultiConfigureResponse, strictness, multi_config, send_multi_configure, prepare_multi_configure,
}

-- The message of a batch whose requests are `element`.
pub record SaysBatch {Net D : Type 0} (c : Client Net D) (strict : Bool) (element : String)
    (m : Values) : Type 0 where
  pub type_ : get_value "type" m ≡ "config"
  pub action_ : get_value "action" m ≡ "multi-config"
  pub element_ : get_value "element" m ≡ element
  pub strict_ : get_value "strict-transactional" m ≡ (if strict then "yes" else "")
  pub key_ : get_value "key" m ≡ c.api_key
  pub target_ : get_value "target" m ≡ c.target

abbrev batch_body : Bool → String → Values
batch_body strict element = body_of "multi-config" (strictness strict) element

no_key : (strict : Bool) (element : String) → get_value "key" (batch_body strict element) ≡ ""
unfolding set_value get_value
no_key true element = refl
no_key false element = refl

no_target : (strict : Bool) (element : String) → get_value "target" (batch_body strict element) ≡ ""
unfolding set_value get_value
no_target true element = refl
no_target false element = refl

strict_lem :
    (strict : Bool) (element : String)
    → (get_value "type" (batch_body strict element) ≡ "config")
      × (get_value "action" (batch_body strict element) ≡ "multi-config")
      × (get_value "element" (batch_body strict element) ≡ element)
      × (get_value "strict-transactional" (batch_body strict element)
          ≡ (if strict then "yes" else ""))
unfolding set_value get_value
strict_lem true element = (refl, refl, refl, refl)
strict_lem false element = (refl, refl, refl, refl)

batch-SaysBatch :
    {Net D : Type 0} (c : Client Net D) (strict : Bool) (element : String)
    → SaysBatch c strict element
        (with_key c.api_key (with_target c.target (batch_body strict element)))
batch-SaysBatch c strict element =
    let l = look c.api_key c.target (batch_body strict element) (no_key strict element) in
    let b = strict_lem strict element in
    record {
      type_ = l "type" ∙ b.0;
      action_ = l "action" ∙ b.1;
      element_ = l "element" ∙ b.2;
      strict_ = l "strict-transactional" ∙ b.3;
      key_ =
          l "key"
          ∙ ap (λ v. if not (c.api_key == "") then c.api_key else v) (no_key strict element)
          ∙ if_not_empty c.api_key;
      target_ =
          l "target"
          ∙ ap (λ v. if not (c.target == "") then c.target else v) (no_target strict element)
          ∙ if_not_empty c.target;
    }

module _ {Net D Ans : Type 0} (w : World Net D Ans)
    (unmarshal : String → MultiConfigureResponse × Option Error) where
  -- What `SendMultiConfigure` makes of the end of the message.
  abbrev pub concluded :
      Reply Ans × Client Net D → (MultiConfigureResponse × Option Error) × Client Net D
  concluded (((text, err), ans), c) = let (resp, err') = unmarshal text in ((resp, err'), c)

  send_step :
      (strict : Bool) (reqs : List (Request D)) (c : Client Net D)
      → c.multi ≡ some reqs
      → send_multi_configure w unmarshal strict c
        ≡ concluded (
            type_config w "multi-config"
              (strictness strict)
              (plain (struct (w.box reqs)))
              absent
              none
              (record c { multi = none }))
  unfolding send_multi_configure multi_config
  send_step strict reqs c h = rw (h, send_multi_configure) refl

  type_config_lem :
      (strict : Bool) (reqs : List (Request D)) (c : Client Net D) (text : String)
      → w.marshal (w.box reqs) ≡ (text, none)
      → type_config w "multi-config"
          (strictness strict)
          (plain (struct (w.box reqs)))
          absent
          none
          (record c { multi = none })
        ≡ conclude w none (
            post w
              (with_key c.api_key (with_target c.target (batch_body strict text)))
              (record c { multi = none }))
  unfolding type_config communicate as_string
  type_config_lem strict reqs c text e =
      send_config_lem w none "multi-config" (strictness strict) (plain (struct (w.box reqs))) text
        (record c { multi = none }) refl (ground (arith, e))

  -- A batch is one message: calls that write, between `PrepareMultiConfigure` and
  -- `SendMultiConfigure`, post one form, which holds their requests in the order of the calls, if
  -- these can be marshalled, and says whether the batch is strict, with the client's key and target.
  -- It is posted by a client without the queue, and the response unmarshalled is returned.
  pub send_multi_configure_lem :
      (extras : Extras) (ans : Option Ans) (calls : List (Write D)) (strict : Bool)
      (c : Client Net D) (text : String)
      → w.marshal (w.box (map queued calls)) ≡ (text, none)
      → (m : Values) × (send_multi_configure w unmarshal strict
            (run_all w extras ans calls (prepare_multi_configure c)).1
          ≡ concluded (conclude w none (post w m (record c { multi = none }))))
        × SaysBatch c strict text m
  unfolding prepare_multi_configure
  send_multi_configure_lem extras ans calls strict c text e = (
    with_key c.api_key (with_target c.target (batch_body strict text)),
    ap (λ x. send_multi_configure w unmarshal strict x.1)
          (run_all_lem w extras ans calls (prepare_multi_configure c) [] refl)
        ∙ send_step strict (map queued calls) (record c { multi = some (map queued calls) }) refl
        ∙ ap concluded (type_config_lem strict (map queued calls) c text e),
    batch-SaysBatch c strict text,
  )
