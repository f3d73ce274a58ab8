-- ===== src/Client/Settings.antt =====
-- `initCon` of client.go: the settings of a client, from itself, the environment and a JSON file. The
-- flags of logging are those of client.go's constants.
--
-- `env` is `os.Getenv`. `load` reads the JSON file into an empty client: it stands for `ioutil.ReadFile`
-- and `encoding/json`, and for a file that holds an object.
pub mod Steps
pub mod Laws
mod Tests
use Prim.Native.Nat.{bit_or}
use pango.Base.{
  ℕ, ◌+◌, ◌-◌, ◌^◌, String, List, [], ◌∷◌, Bool, true, false, not, ◌&&◌, ◌||◌, Option, none, some,
  Error, errorf, str, int, ℤ, pos, negsuc, int_eq, ltb_ℤ, ltb, nat_eq, is_empty, is_nil, elem,
  sprintf, ◌==◌, if◌then◌else◌,
}
use pango.Base.Decimal.{Parsed, value, bad_syntax, out_of_range, atoi, atoi_error}
use pango.Base.Strings.{split}

-- `http.Transport`: the user's own, or one that skips the verification of certificates or not.
pub data Transport : Type 0 where
  given : Transport
  made : Bool → Transport

-- The fields of `Client` that are settings; `con` is the transport and the timeout in seconds.
pub record Settings : Type 0 where
  pub hostname : String
  pub username : String
  pub password : String
  pub api_key : String
  pub protocol : String
  pub port : ℕ
  pub timeout : ℤ
  pub target : String
  pub check_environment : Bool
  pub verify_certificate : Bool
  pub transport : Option Transport
  pub logging : ℕ
  pub logging_from_initialize : List String
  pub creds_file : String
  pub con : Option (Option Transport × ℤ)
  pub api_url : String

-- `&Client{}`
abbrev pub no_settings : Settings
no_settings = record {
  hostname = "";
  username = "";
  password = "";
  api_key = "";
  protocol = "";
  port = 0;
  timeout = pos 0;
  target = "";
  check_environment = false;
  verify_certificate = false;
  transport = none;
  logging = 0;
  logging_from_initialize = [];
  creds_file = "";
  con = none;
  api_url = "";
}

-- A step of the function: its error, and the settings as it leaves them.
abbrev pub Step : Type 0
Step = Settings → Option Error × Settings

-- The steps in turn, up to the first error.
unfoldable pub run_steps : List Step → Step
run_steps [] c = (none, c)
run_steps (step ∷ steps) c =
    let (err, c') = step c in
    let rest = run_steps steps c' in elim err [ some e ↦ (some e, c') | none ↦ rest ]

abbrev log_flags : List (String × ℕ)
log_flags =
    ("quiet", 2)
    ∷ ("action", 4)
    ∷ ("query", 8)
    ∷ ("op", 16)
    ∷ ("uid", 32)
    ∷ ("xpath", 64)
    ∷ ("send", 128)
    ∷ ("receive", 256)
    ∷ []

abbrev flag_of : String → List (String × ℕ) → Option ℕ
flag_of x [] = none
flag_of x ((name, flag) ∷ flags) = if x == name then some flag else flag_of x flags

-- The loop over the names of what to log.
unfoldable pub log_level : ℕ → List String → Option Error × ℕ
log_level lv [] = (none, lv)
log_level lv (x ∷ xs) = elim (flag_of x log_flags) [
  | none ↦ (some (errorf "Unknown logging requested: %s" (str x ∷ [])), lv)
  | some flag ↦ log_level (bit_or lv flag) xs
]

-- `strconv.ParseBool`
unfoldable pub parse_bool : String → Option Bool
parse_bool s =
    if elem s ("1" ∷ "t" ∷ "T" ∷ "true" ∷ "TRUE" ∷ "True" ∷ [])
    then some true
    else if elem s ("0" ∷ "f" ∷ "F" ∷ "false" ∷ "FALSE" ∷ "False" ∷ [])
    then some false
    else none

-- `uint(cp)`, for a 64-bit `uint`
abbrev pub to_uint : ℤ → ℕ
to_uint (pos n) = n
to_uint (negsuc n) = 2 ^ 64 - 1 - n

module _ (env : String → String) (json : Settings) where
  -- `val := os.Getenv(name); c.CheckEnvironment && val != ""`
  abbrev pub in_env : Settings → String → Bool
  in_env c name = c.check_environment && not (env name == "")

  -- A text from the client, the environment or the file.
  unfoldable pub text_setting : Settings → String → String → String → String
  text_setting c name own other =
      if own == "" then (if in_env c name then env name else other) else own

  unfoldable pub hostname_step : Step
  unfolding text_setting
  hostname_step c =
      (none, record c { hostname = text_setting c "PANOS_HOSTNAME" c.hostname json.hostname })

  unfoldable pub username_step : Step
  unfolding text_setting
  username_step c =
      (none, record c { username = text_setting c "PANOS_USERNAME" c.username json.username })

  unfoldable pub password_step : Step
  unfolding text_setting
  password_step c =
      (none, record c { password = text_setting c "PANOS_PASSWORD" c.password json.password })

  unfoldable pub api_key_step : Step
  unfolding text_setting
  api_key_step c =
      (none, record c { api_key = text_setting c "PANOS_API_KEY" c.api_key json.api_key })

  unfoldable pub target_step : Step
  unfolding text_setting
  target_step c = (none, record c { target = text_setting c "PANOS_TARGET" c.target json.target })

  unfoldable pub protocol_of : Settings → String
  unfolding text_setting
  protocol_of c =
      text_setting c "PANOS_PROTOCOL" c.protocol
        (if not (json.protocol == "") then json.protocol else "https")

  unfoldable pub protocol_error : String → Option Error
  protocol_error p =
      if not (p == "http") && not (p == "https")
      then some (errorf "Invalid protocol %q.  Must be \"http\" or \"https\"" (str p ∷ []))
      else none

  unfoldable pub protocol_step : Step
  unfolding protocol_of protocol_error
  protocol_step c = (protocol_error (protocol_of c), record c { protocol = protocol_of c })

  abbrev port_of_env : String → Parsed ℤ → Option Error × ℕ
  unfolding atoi_error
  port_of_env val (value cp) = (none, to_uint cp)
  port_of_env val _ =
      (some (errorf "Failed to parse the env port number: %s" (str (atoi_error val) ∷ [])), 0)

  unfoldable pub port_of : Settings → Option Error × ℕ
  unfolding port_of_env atoi
  port_of c =
      if nat_eq c.port 0
      then (if in_env c "PANOS_PORT"
          then port_of_env (env "PANOS_PORT") (atoi (env "PANOS_PORT"))
          else if not (nat_eq json.port 0)
          then (none, json.port)
          else (none, c.port))
      else (none, c.port)

  unfoldable pub port_error : Option Error × ℕ → Option Error
  port_error (some e, port) = some e
  port_error (none, port) =
      if ltb 65535 port
      then some (errorf "Port %d is out of bounds" (int (pos port) ∷ []))
      else none

  unfoldable pub port_step : Step
  unfolding port_of port_error
  port_step c = (port_error (port_of c), record c { port = (port_of c).1 })

  abbrev timeout_of_env : String → Parsed ℤ → Option Error × ℤ
  unfolding atoi_error
  timeout_of_env val (value ival) = (none, ival)
  timeout_of_env val _ = (
    some (errorf "Failed to parse timeout env var as int: %s" (str (atoi_error val) ∷ [])),
    pos 0,
  )

  unfoldable pub timeout_of : Settings → Option Error × ℤ
  unfolding timeout_of_env atoi
  timeout_of c =
      if int_eq c.timeout (pos 0)
      then (if in_env c "PANOS_TIMEOUT"
          then timeout_of_env (env "PANOS_TIMEOUT") (atoi (env "PANOS_TIMEOUT"))
          else if not (int_eq json.timeout (pos 0))
          then (none, json.timeout)
          else (none, pos 10))
      else (none, c.timeout)

  unfoldable pub timeout_error : String → Option Error × ℤ → Option Error
  timeout_error hostname (some e, timeout) = some e
  timeout_error hostname (none, timeout) =
      if not (ltb_ℤ (pos 0) timeout) || ltb_ℤ (pos 60) timeout
      then some (
          errorf "Timeout for %q is %d, expecting a number between [0, 60]"
            (str hostname ∷ int timeout ∷ []))
      else none

  unfoldable pub timeout_step : Step
  unfolding timeout_of timeout_error
  timeout_step c =
      (timeout_error c.hostname (timeout_of c), record c { timeout = (timeout_of c).1 })
