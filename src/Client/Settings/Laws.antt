-- ===== src/Client/Settings/Laws.antt =====
-- What the settings are once `initCon` has returned no error.
use pango.Base.{
  ℕ, ◌≤◌, String, List, [], ◌∷◌, Bool, true, false, not, ◌&&◌, ◌||◌, Option, none, some, Error, ℤ,
  pos, ◌≤ℤ◌, ◌≡◌, refl, sym, ap, subst, ◌∙◌, ◌⊎◌, inl, inr, ◌==◌, eq_iff, if◌then◌else◌, arith,
  Bool-cases, Option-cases, take,
}
use pango.Client.Settings.{
  Settings, Step, run_steps, text_setting, hostname_step, username_step, password_step,
  api_key_step, target_step, protocol_error, protocol_step, port_error, port_step, timeout_error,
  timeout_step,
}
use pango.Client.Settings.Steps.{
  verify_of, verify_step, logging_step, con_step, sanity_error, sanity_step, url_step, steps,
  loaded, init_con,
}

-- The settings that steps leave, if none fails.
abbrev through : List Step → Settings → Settings
through [] c = c
through (step ∷ steps) c = through steps (step c).1

abbrev AllOk : List Step → Settings → Type 0
AllOk [] c = Unit
AllOk (step ∷ steps) c = ((step c).0 ≡ none) × AllOk steps (step c).1

run_step :
    (step : Step) (l : List Step) (c : Settings)
    → (step c).0 ≡ none
    → run_steps (step ∷ l) c ≡ run_steps l (step c).1
unfolding run_steps
run_step step l c e = rw (e, run_steps) refl

first_ok :
    (step : Step) (l : List Step) (c : Settings)
    → (run_steps (step ∷ l) c).0 ≡ none
    → (step c).0 ≡ none
unfolding run_steps
first_ok step l c h = elim (Option-cases (step c).0) [
  | inl e ↦ e
  | inr (x, e) ↦ absurd (ground (arith, h, e))
]

run_steps_ok :
    (l : List Step) (c : Settings)
    → (run_steps l c).0 ≡ none
    → AllOk l c × (run_steps l c ≡ (none, through l c))
unfolding run_steps
run_steps_ok [] c h = (tt, refl)
run_steps_ok (step ∷ l) c h =
    let ok = first_ok step l c h in
    let same = run_step step l c ok in
    let (rest, e) = run_steps_ok l (step c).1 (sym (ap (λ r. r.0) same) ∙ h) in
    ((ok, rest), same ∙ e)

-- The first of some texts that is not empty.
abbrev pub first_given : List String → String
first_given [] = ""
first_given (t ∷ ts) = if t == "" then first_given ts else t

if_given : (t : String) → (if t == "" then "" else t) ≡ t
if_given t = ground (arith, eq_iff t "")

by_flag :
    (flag : Bool) (t own other : String)
    → (if own == "" then (if flag && not (t == "") then t else other) else own)
      ≡ first_given (own ∷ (if flag then t else "") ∷ other ∷ [])
by_flag false t own other = rw (if_given other) refl
by_flag true t own other = elim (Bool-cases (t == "")) [
  | inl e ↦ rw (e, if_given other) refl
  | inr e ↦ rw (e) refl
]

-- Settings that a client can connect with.
pub record IsReady (c : Settings) : Type 0 where
  pub protocol : (c.protocol ≡ "http") ⊎ (c.protocol ≡ "https")
  pub port : c.port ≤ 65535
  pub timeout : (pos 1 ≤ℤ c.timeout) × (c.timeout ≤ℤ pos 60)
  pub hostname : (c.hostname == "") ≡ false
  pub credentials :
      ((c.api_key == "") ≡ false) ⊎ (((c.username == "") ≡ false) ⊎ ((c.password == "") ≡ false))

protocol_ok :
    (env : String → String) (json : Settings) (p : String)
    → protocol_error env json p ≡ none
    → (p ≡ "http") ⊎ (p ≡ "https")
unfolding protocol_error
protocol_ok env json p h = ground (arith, eq_iff p "http", eq_iff p "https")

port_ok :
    (env : String → String) (json : Settings) (r : Option Error × ℕ)
    → port_error env json r ≡ none
    → r.1 ≤ 65535
unfolding port_error
port_ok env json (some e, port) h = absurd (ground (arith, h))
port_ok env json (none, port) h = ground arith

timeout_ok :
    (env : String → String) (json : Settings) (hostname : String) (r : Option Error × ℤ)
    → timeout_error env json hostname r ≡ none
    → (pos 1 ≤ℤ r.1) × (r.1 ≤ℤ pos 60)
unfolding timeout_error
timeout_ok env json hostname (some e, t) h = absurd (ground (arith, h))
timeout_ok env json hostname (none, t) h = ground arith

sanity_ok :
    (env : String → String) (json : Settings) (c : Settings)
    → sanity_error env json c ≡ none
    → ((c.hostname == "") ≡ false)
      × (((c.api_key == "") ≡ false)
          ⊎ (((c.username == "") ≡ false) ⊎ ((c.password == "") ≡ false)))
unfolding sanity_error
sanity_ok env json c h = ground arith

through-IsReady :
    (env : String → String) (json c : Settings)
    → AllOk (steps env json) c
    → IsReady (through (steps env json) c)
unfolding hostname_step username_step password_step api_key_step protocol_step port_step
    timeout_step target_step verify_step logging_step con_step sanity_step url_step
through-IsReady env json c h = record {
  protocol = protocol_ok env json _ h.1.1.1.1.0;
  port = port_ok env json _ h.1.1.1.1.1.0;
  timeout = timeout_ok env json _ _ h.1.1.1.1.1.1.0;
  hostname =
      (sanity_ok env json (through (take 11 (steps env json)) c) h.1.1.1.1.1.1.1.1.1.1.1.0).0;
  credentials =
      (sanity_ok env json (through (take 11 (steps env json)) c) h.1.1.1.1.1.1.1.1.1.1.1.0).1;
}

-- The flag from the client's own, the file's and what was read of the environment.
abbrev with_file : Bool → Bool → Option Error × Bool → Option Error × Bool
with_file own file r =
    if own
    then (none, true)
    else (let (err, b) = r in elim err [ some e ↦ (some e, false) | none ↦ (none, b || file) ])

with_file_ok :
    (own file : Bool) (r : Option Error × Bool)
    → (own || file) ≡ true
    → (with_file own file r).0 ≡ none
    → (with_file own file r).1 ≡ true
with_file_ok true file r asked h = refl
with_file_ok false true (none, b) asked h = ground arith
with_file_ok false true (some e, b) asked h = absurd (ground (arith, h))
with_file_ok false false r asked h = absurd (ground (arith, asked))

verify_ok :
    (env : String → String) (json c : Settings)
    → (verify_of env json c).0 ≡ none
    → (c.verify_certificate || json.verify_certificate) ≡ true
    → (verify_of env json c).1 ≡ true
unfolding verify_of
verify_ok env json c h asked = with_file_ok c.verify_certificate json.verify_certificate _ asked h

through_verifies :
    (env : String → String) (json c : Settings)
    → AllOk (steps env json) c
    → (c.verify_certificate || json.verify_certificate) ≡ true
    → (through (steps env json) c).verify_certificate ≡ true
unfolding hostname_step username_step password_step api_key_step protocol_step port_step
    timeout_step target_step verify_step logging_step con_step sanity_step url_step
through_verifies env json c h asked =
    verify_ok env json (through (take 8 (steps env json)) c) h.1.1.1.1.1.1.1.1.0 asked

module _ (env : String → String) (load : String → Option Error × Settings) (c : Settings)
    (ok : (init_con env load c).0 ≡ none) where
  abbrev pub json : Settings
  json = (loaded load c).1

  load_ok : (loaded load c).0 ≡ none
  unfolding init_con
  load_ok = elim (Option-cases (loaded load c).0) [
    | inl e ↦ e
    | inr (x, e) ↦ absurd (ground (arith, ok, e))
  ]

  init_con_run : init_con env load c ≡ run_steps (steps env json) c
  unfolding init_con
  init_con_run = rw (load_ok, init_con) refl

  init_con_ok :
      AllOk (steps env json) c × (init_con env load c ≡ (none, through (steps env json) c))
  init_con_ok =
      let (h, e) = run_steps_ok (steps env json) c (sym (ap (λ r. r.0) init_con_run) ∙ ok) in
      (h, init_con_run ∙ e)

  -- Where `initCon` returns no error, the client is ready: the protocol is one of the two, the port
  -- and the timeout are in range, and there is a hostname and some credential.
  pub init_con-IsReady : IsReady (init_con env load c).1
  init_con-IsReady =
      subst (λ r. IsReady r.1) (sym init_con_ok.1) (through-IsReady env json c init_con_ok.0)

  -- The first of the client's own text, the environment's if it is to be read, and the file's.
  abbrev pub by_order : String → String → String → String
  by_order own name other =
      first_given (own ∷ (if c.check_environment then env name else "") ∷ other ∷ [])

  text_by_order :
      (name own other : String) → text_setting env json c name own other ≡ by_order own name other
  unfolding text_setting
  text_by_order name own other = by_flag c.check_environment (env name) own other

  -- The settings that are texts, by the documented order of preference.
  pub record FollowsOrder (r : Settings) : Type 0 where
    pub hostname : r.hostname ≡ by_order c.hostname "PANOS_HOSTNAME" json.hostname
    pub username : r.username ≡ by_order c.username "PANOS_USERNAME" json.username
    pub password : r.password ≡ by_order c.password "PANOS_PASSWORD" json.password
    pub api_key : r.api_key ≡ by_order c.api_key "PANOS_API_KEY" json.api_key
    pub target : r.target ≡ by_order c.target "PANOS_TARGET" json.target

  through-FollowsOrder : FollowsOrder (through (steps env json) c)
  unfolding hostname_step username_step password_step api_key_step protocol_step port_step
      timeout_step target_step verify_step logging_step con_step sanity_step url_step
  through-FollowsOrder = record {
    hostname = text_by_order "PANOS_HOSTNAME" c.hostname json.hostname;
    username = text_by_order "PANOS_USERNAME" c.username json.username;
    password = text_by_order "PANOS_PASSWORD" c.password json.password;
    api_key = text_by_order "PANOS_API_KEY" c.api_key json.api_key;
    target = text_by_order "PANOS_TARGET" c.target json.target;
  }

  -- Where `initCon` returns no error, the hostname, the username, the password, the API key and the
  -- target are the first that is not empty of what the client had, what the environment has, if it
  -- is to be read, and what the file has.
  pub init_con-FollowsOrder : FollowsOrder (init_con env load c).1
  init_con-FollowsOrder = subst (λ r. FollowsOrder r.1) (sym init_con_ok.1) through-FollowsOrder

  -- Where `initCon` returns no error, certificates are verified if the client was to do so or the file
  -- says so, whatever the environment says.
  pub verify_certificate_lem :
      (c.verify_certificate || json.verify_certificate) ≡ true
      → (init_con env load c).1.verify_certificate ≡ true
  verify_certificate_lem asked =
      subst (λ r. r.1.verify_certificate ≡ true) (sym init_con_ok.1)
        (through_verifies env json c init_con_ok.0 asked)
