-- ===== src/Poli/Security/Tests.antt =====
-- The security rules at concrete inputs.
use pango.Base.{
  ℕ, suc, String, [], ◌∷◌, map, false, Option, none, some, Error, plain, message, ◌≡◌, refl,
  sprintf,
}
use pango.Base.Strings.{contains}
use pango.Namespace.Client.{Namespace}
use pango.Namespace.Write.Laws.{sent}
use pango.Poli.Run.{returned, calling}
use pango.Poli.Security.{Entry, copy}
use pango.Poli.Security.Xml.{EntryV1, ContainerV1, normalize, specify}
use pango.Poli.Security.RoundTrip.{normalize-specify}
use pango.Poli.Security.Rules.{no_entry}
use pango.Poli.Security.Fw as Fw
use pango.Poli.Security.Fw.Laws.{rulebase, set_of_rules, set_never_returns}
use pango.Poli.Security.Pano as Pano
use pango.Poli.Security.Pano.Laws.{defined_twice, set_of_several}

abbrev rule : String → Entry
rule x =
    copy
      (record {
        name = x;
        type = "";
        description = "";
        tags = none;
        source_zones = none;
        source_addresses = none;
        negate_source = false;
        source_users = none;
        hip_profiles = none;
        destination_zones = none;
        destination_addresses = none;
        negate_destination = false;
        applications = none;
        services = none;
        categories = none;
        action = "";
        log_setting = "";
        log_start = false;
        log_end = false;
        disabled = false;
        schedule = "";
        icmp_unreachable = false;
        disable_server_response_inspection = false;
        group = "";
        targets = none;
        negate_target = false;
        virus = "";
        spyware = "";
        vulnerability = "";
        url_filtering = "";
        file_blocking = "";
        wildfire_analysis = "";
        data_filtering = "";
      })
      no_entry

-- A client that counts its calls, and answers a write by the given error.
abbrev answering : Option Error → Namespace ℕ EntryV1
answering e = record {
  singular = "security policy";
  plural = "security policies";
  con = record {
    get = λ path s. (("", none), suc s);
    show = λ path s. (("", none), suc s);
    set = λ path element s. (e, suc s);
    edit = λ path object s. (e, suc s);
    delete = λ path s. (none, suc s);
    move = λ path where_ dst s. (none, suc s);
  };
}

abbrev keep : String → ContainerV1 → Option Error × ContainerV1
keep text ans = (none, ans)

normalize-specify_example : normalize (specify (rule "r1")) ≡ rule "r1"
unfolding copy
normalize-specify_example = normalize-specify (rule "r1") tt refl

set_of_rules_example :
    Fw.set (answering none) keep "" 1 (rule "r1" ∷ rule "r2" ∷ []) 0
    ≡ returned
        (sent (answering none) (rulebase "") "rules" (map specify (rule "r1" ∷ rule "r2" ∷ [])) 0)
unfolding copy
set_of_rules_example =
    set_of_rules (answering none) keep "" 0 (rule "r1" ∷ rule "r2" ∷ []) 0 ((refl, tt), (tt, tt))
      refl

abbrev invalid : Error
invalid = plain "rules is invalid"

set_never_returns_example :
    Fw.set (answering (some invalid)) keep "" 9 (rule "r1" ∷ []) 0 ≡ calling (rule "r1" ∷ []) 9
unfolding contains message
set_never_returns_example =
    set_never_returns (answering (some invalid)) keep "" 9 (rule "r1") 0 invalid refl (λ s. refl)

set_of_several_example :
    Pano.set (answering none) keep "" "" 1 (rule "r1" ∷ rule "r2" ∷ []) 0
    ≡ returned (some (defined_twice "security policy"), 0)
unfolding contains message sprintf
set_of_several_example =
    set_of_several (answering none) keep "" "" 0 (rule "r1") (rule "r2") [] 0 refl
