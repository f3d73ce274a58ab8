-- ===== src/Client/Settings/Steps.antt =====
-- The later steps of `initCon`, and the whole of it.
use pango.Base.{
  ℕ, String, List, [], ◌∷◌, Bool, true, false, not, ◌&&◌, ◌||◌, Option, none, some, Error, errorf,
  str, int, pos, nat_eq, is_empty, sprintf, ◌==◌, if◌then◌else◌,
}
use pango.Base.Strings.{split}
use pango.Client.Settings.{
  Settings, no_settings, Step, run_steps, Transport, made, log_level, parse_bool, in_env,
  hostname_step, username_step, password_step, api_key_step, target_step, protocol_step, port_step,
  timeout_step,
}

module _ (env : String → String) (json : Settings) where
  -- The switch on the parsed text: a false one changes nothing here.
  abbrev verify_of_env : String → Option Bool → Option Error × Bool
  verify_of_env val none =
      (some (errorf "strconv.ParseBool: parsing %q: invalid syntax" (str val ∷ [])), false)
  verify_of_env val (some b) = (none, b)

  unfoldable pub verify_of : Settings → Option Error × Bool
  unfolding parse_bool
  verify_of c =
      if c.verify_certificate
      then (none, true)
      else (let (err, b) : Option Error × Bool =
            if in_env env json c "PANOS_VERIFY_CERTIFICATE"
            then verify_of_env (env "PANOS_VERIFY_CERTIFICATE")
                (parse_bool (env "PANOS_VERIFY_CERTIFICATE"))
            else (none, false) in
          elim err [ some e ↦ (some e, false) | none ↦ (none, b || json.verify_certificate) ])

  unfoldable pub verify_step : Step
  unfolding verify_of
  verify_step c = ((verify_of c).0, record c { verify_certificate = (verify_of c).1 })

  -- The names of what to log: those of the environment, split at commas, or those of the file.
  abbrev log_names : Settings → List String
  unfolding split
  log_names c =
      if in_env env json c "PANOS_LOGGING"
      then split b',' (env "PANOS_LOGGING")
      else json.logging_from_initialize

  abbrev kept_level : ℕ → Option Error × ℕ → Option Error × ℕ
  kept_level old (some e, lv) = (some e, old)
  kept_level old (none, lv) = (none, lv)

  -- 36 is `LogAction | LogUid`.
  unfoldable pub logging_of : Settings → Option Error × ℕ
  unfolding log_level log_names
  logging_of c =
      if nat_eq c.logging 0
      then (if is_empty (log_names c)
          then (none, 36)
          else kept_level c.logging (log_level 0 (log_names c)))
      else (none, c.logging)

  unfoldable pub logging_step : Step
  unfolding logging_of
  logging_step c = ((logging_of c).0, record c { logging = (logging_of c).1 })

  abbrev transport_of : Settings → Option Transport → Option Transport
  transport_of c none = some (made (not c.verify_certificate))
  transport_of c (some t) = some t

  -- The transport and the `http.Client`.
  unfoldable pub con_step : Step
  con_step c =
      let t = transport_of c c.transport in
      (none, record c { transport = t; con = some (t, c.timeout) })

  unfoldable pub sanity_error : Settings → Option Error
  sanity_error c =
      if c.hostname == ""
      then some (errorf "No hostname specified" [])
      else if c.api_key == "" && (c.username == "" && c.password == "")
      then some (errorf "No username/password or API key given" [])
      else none

  unfoldable pub sanity_step : Step
  unfolding sanity_error
  sanity_step c = (sanity_error c, c)

  unfoldable pub url_step : Step
  unfolding sprintf
  url_step c = (
    none,
    record c {
      api_url =
          if nat_eq c.port 0
          then sprintf "%s://%s/api" (str c.protocol ∷ str c.hostname ∷ [])
          else sprintf "%s://%s:%d/api" (str c.protocol ∷ str c.hostname ∷ int (pos c.port) ∷ []);
    },
  )

  abbrev pub steps : List Step
  steps =
      hostname_step env json
      ∷ username_step env json
      ∷ password_step env json
      ∷ api_key_step env json
      ∷ protocol_step env json
      ∷ port_step env json
      ∷ timeout_step env json
      ∷ target_step env json
      ∷ verify_step
      ∷ logging_step
      ∷ con_step
      ∷ sanity_step
      ∷ url_step
      ∷ []

-- The file's settings: those of an empty client where no file is named.
unfoldable pub loaded : (String → Option Error × Settings) → Settings → Option Error × Settings
loaded load c = if c.creds_file == "" then (none, no_settings) else load c.creds_file

-- `initCon`
unfoldable pub init_con : (String → String) → (String → Option Error × Settings) → Step
unfolding run_steps loaded
init_con env load c =
    let (err, json) = loaded load c in
    elim err [ some e ↦ (some e, c) | none ↦ run_steps (steps env json) c ]
