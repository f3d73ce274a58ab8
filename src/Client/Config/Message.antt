-- ===== src/Client/Config/Message.antt =====
-- What a configuration call sends.
use pango.Base.{
  String, true, false, not, ◌&&◌, Option, none, ◌≡◌, refl, ◌∙◌, ap, ◌==◌, eq_iff, if◌then◌else◌,
  arith,
}
use pango.Util.Xpath.{PathArg, as_xpath}
use pango.Client.Values.{
  Values, absent, Value, set_value, get_value, as_string, is_nil_value, merge_url_values,
}
use pango.Client.Values.Laws.{get_value-set_value, add_to_data_of_text}
use pango.Client.Config.{
  Client, World, send_config, communicate, finish_request, finish_merged, with_key, with_target,
}

get_value-with_target :
    (j target : String) (m : Values)
    → get_value j (with_target target m)
      ≡ (if "target" == j && not (target == "") then target else get_value j m)
get_value-with_target j target m = ground (arith, get_value-set_value j "target" target m)

get_value-with_key :
    (j key : String) (m : Values)
    → get_value "key" m ≡ ""
    → get_value j (with_key key m) ≡ (if "key" == j && not (key == "") then key else get_value j m)
get_value-with_key j key m e = rw e (ground (arith, get_value-set_value j "key" key m))

pub if_not_empty : (s : String) → (if not (s == "") then s else "") ≡ s
if_not_empty s = ground (arith, eq_iff s "")

-- A message of a client: what it is about, and the client's key and target, which are "" where the
-- client has none.
pub record Says {Net D : Type 0} (c : Client Net D) (action : String) (path : PathArg)
    (element : String) (m : Values) : Type 0 where
  pub type_ : get_value "type" m ≡ "config"
  pub action_ : get_value "action" m ≡ action
  pub xpath_ : get_value "xpath" m ≡ as_xpath path
  pub element_ : get_value "element" m ≡ element
  pub key_ : get_value "key" m ≡ c.api_key
  pub target_ : get_value "target" m ≡ c.target

-- A body with the element.
abbrev pub body_of : String → Values → String → Values
body_of action m element =
    set_value "element" element (set_value "action" action (set_value "type" "config" m))

module _ (k t : String) (b : Values) (no_key : get_value "key" b ≡ "") where
  pub look :
      (j : String)
      → get_value j (with_key k (with_target t b)) ≡ (
          if "key" == j && not (k == "")
          then k
          else (if "target" == j && not (t == "") then t else get_value j b))
  look j =
      get_value-with_key j k (with_target t b) (get_value-with_target "key" t b ∙ no_key)
      ∙ ap (λ v. if "key" == j && not (k == "") then k else v) (get_value-with_target j t b)

module _ {Net D Ans : Type 0} (w : World Net D Ans) (ans : Option Ans) where
  pub send_config_lem :
      (action : String) (m : Values) (element : Value D) (val : String) (c : Client Net D)
      → is_nil_value element ≡ false
      → as_string w.marshal element true ≡ (val, none)
      → send_config w action m element absent ans c
        ≡ communicate w (with_target c.target (body_of action m val)) ans c
  unfolding send_config finish_request finish_merged merge_url_values
  send_config_lem action m element val c given e =
      rw
        (add_to_data_of_text w.marshal "element" element
          (set_value "action" action (set_value "type" "config" m)) val given e)
        refl
