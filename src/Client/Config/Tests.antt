-- ===== src/Client/Config/Tests.antt =====
-- The theorems on configuration calls and on batches at concrete inputs: a network that answers every
-- form, and keeps the forms.
use pango.Base.{String, List, [], ◌∷◌, map, true, Option, none, some, Error, pos, ◌≡◌, refl}
use pango.Util.Xpath.{segments}
use pango.Namespace.Client.{Element, object, bulk}
use pango.Namespace.Write as Write
use pango.Namespace.Write.Laws.{to_entry}
use pango.Client.Response.{Decoders, Status}
use pango.Client.Values.{Values, absent, Value, plain, nil, struct}
use pango.Client.Config.{Client, World, Request, type_config, set, post, conclude, at_path}
use pango.Client.Config.Queue.{
  Write, setting, editing, deleting, queued, run_all, run_all_lem, with_queue, beside_queue,
  nothing_read, type_config_of_other,
}
use pango.Client.Batch.{
  MultiConfigureResponse, no_response, send_multi_configure, prepare_multi_configure,
}
use pango.Client.Batch.Laws.{SaysBatch, concluded, send_multi_configure_lem}
use pango.Client.Api.{over_api, request_for, set_queued}

abbrev fine : Status
fine = record { response_status = "success"; response_code = pos 20 }

abbrev decoders : Decoders String
decoders = record {
  without_line = λ body. (record { status = fine; response_msg1 = ""; response_msg2 = "" }, none);
  with_line = λ body. (record { status = fine; response_msg = "" }, none);
  answer = λ body ans. (none, body);
}

abbrev marshalled : Element String → String × Option Error
marshalled (object d) = (d, none)
marshalled (bulk tag ds) = (tag, none)

abbrev world : World (List Values) (Element String) String
world = record {
  network = λ url m forms. (("<response/>", none), m ∷ forms);
  marshal = marshalled;
  decoders = decoders;
  box = λ reqs. bulk "<multi-configure-request/>" (map (λ r. r.xpath) reqs);
}

abbrev client : Client (List Values) (Element String)
client = record {
  api_key = "key";
  target = "";
  api_url = "https://fw/api";
  multi = none;
  sent = [];
  answers = [];
  turn = 0;
  net = [];
}

abbrev element : Value (Element String)
element = plain (struct (object "<entry/>"))

abbrev calls : List (Write (Element String))
calls =
    setting (segments ("config" ∷ "a" ∷ [])) element
    ∷ deleting (segments ("config" ∷ "b" ∷ []))
    ∷ editing (segments ("config" ∷ "a" ∷ [])) element
    ∷ []

abbrev queueing : Client (List Values) (Element String)
queueing = with_queue world absent none [] client

run_all_lem_example : run_all world absent none calls queueing ≡ (
  map (λ _. nothing_read world absent none) calls,
  with_queue world absent none (map queued calls) queueing,
)
run_all_lem_example = run_all_lem world absent none calls queueing [] refl

type_config_of_other_example :
    type_config world "show" (at_path (segments ("config" ∷ []))) (plain nil) absent none queueing
    ≡ beside_queue world absent none
        (type_config world "show" (at_path (segments ("config" ∷ []))) (plain nil) absent none)
        queueing
type_config_of_other_example =
    type_config_of_other world absent none "show" (at_path (segments ("config" ∷ []))) (plain nil)
      queueing refl

abbrev unmarshal : String → MultiConfigureResponse × Option Error
unmarshal text = (no_response, none)

send_multi_configure_lem_example :
    (m : Values) × (send_multi_configure world unmarshal true
        (run_all world absent none calls (prepare_multi_configure client)).1
      ≡ concluded world unmarshal
          (conclude world none (post world m (record client { multi = none }))))
    × SaysBatch client true "<multi-configure-request/>" m
send_multi_configure_lem_example =
    send_multi_configure_lem world unmarshal absent none calls true client
      "<multi-configure-request/>" refl

abbrev requests : List (Request (Element String))
requests = map queued calls

set_queued_example :
    Write.set
      (over_api world "rule" "rules")
      ("a" ∷ "b" ∷ [])
      (to_entry ("config" ∷ []) "rules" "entry")
      ("<a/>" ∷ "<b/>" ∷ [])
      queueing
    ≡ some (
      none,
      with_queue world absent none
          (request_for world "rule" "rules" ("config" ∷ []) "rules" "<a/>" ("<b/>" ∷ []) ∷ [])
          queueing,
    )
set_queued_example =
    set_queued world "rule" "rules" ("a" ∷ "b" ∷ []) ("config" ∷ []) "rules" "entry" "<a/>"
      ("<b/>" ∷ []) queueing [] ((refl, tt), (tt, tt)) refl
