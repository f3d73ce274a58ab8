-- ===== src/Client/Settings/Tests.antt =====
-- The theorems on `initCon` at concrete inputs: a client with a password, a timeout from the environment,
-- and a hostname from a file.
use pango.Base.{String, true, Option, none, Error, ◌≡◌, refl, ◌==◌, if◌then◌else◌}
use pango.Client.Settings.{
  Settings, no_settings, run_steps, text_setting, hostname_step, username_step, password_step,
  api_key_step, target_step, protocol_of, protocol_error, protocol_step, port_of, port_error,
  port_step, timeout_of, timeout_error, timeout_step, log_level, parse_bool,
}
use pango.Client.Settings.Steps.{
  verify_of, verify_step, logging_of, logging_step, con_step, sanity_error, sanity_step, url_step,
  loaded, init_con,
}
use pango.Client.Settings.Laws.{IsReady, init_con-IsReady, FollowsOrder, init_con-FollowsOrder}

abbrev env : String → String
env name =
    if name == "PANOS_TIMEOUT"
    then "30"
    else if name == "PANOS_VERIFY_CERTIFICATE"
    then "false"
    else ""

abbrev load : String → Option Error × Settings
load name = (none, record no_settings { hostname = "fw"; verify_certificate = true })

abbrev asked : Settings
asked = record no_settings {
  username = "admin";
  password = "secret";
  check_environment = true;
  creds_file = "creds.json";
}

run_ok : (init_con env load asked).0 ≡ none
unfolding init_con loaded run_steps hostname_step username_step password_step api_key_step
    protocol_step port_step timeout_step target_step verify_step logging_step con_step sanity_step
    url_step text_setting protocol_of protocol_error port_of port_error timeout_of timeout_error
    verify_of logging_of log_level sanity_error parse_bool
run_ok = refl

init_con-IsReady_example : IsReady (init_con env load asked).1
init_con-IsReady_example = init_con-IsReady env load asked run_ok

init_con-FollowsOrder_example : FollowsOrder env load asked run_ok (init_con env load asked).1
init_con-FollowsOrder_example = init_con-FollowsOrder env load asked run_ok
