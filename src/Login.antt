-- ===== src/Login.antt =====
-- app/autologin.py: the settings of the login, what a reconnect logs in with, and the terminal's own
-- settings files. `strip`, `lower` and `int` of a text are parameters, and a file's content is none
-- where it cannot be read.
pub mod Terminal
pub mod Kept
pub mod Relogin
pub mod Marker
use mt5_gateway.Prelude.{
  ℤ, String, Bool, true, false, Option, none, some, List, [], ◌∷◌, ◌++◌, any, map, str_eq, not,
  ◌&&◌, ◌||◌, if◌then◌else◌,
}
use mt5_gateway.Access.{joined}
use mt5_gateway.Host.{Credentials}

-- An environ-like mapping.
abbrev pub Environ : Type 0
Environ = String → Option String

pub record AutoLoginSettings : Type 0 where
  pub login : String
  pub password : String
  pub server : String
  pub enable_algo_trading : Bool

abbrev pub get_or_blank : Environ → String → String
get_or_blank env key = elim (env key) [ none ↦ "" | some s ↦ s ]

abbrev pub switched_off : List String
switched_off = "0" ∷ "false" ∷ "no" ∷ "off" ∷ "disabled" ∷ []

abbrev pub is_enabled : AutoLoginSettings → Bool
is_enabled s = not (str_eq s.login "")

-- The message of the ValueError, or none.
unfoldable pub validate : AutoLoginSettings → Option String
validate s =
    if is_enabled s && str_eq s.server ""
    then some "MT5_LOGIN set but MT5_SERVER is empty"
    else if is_enabled s && str_eq s.password ""
    then some "MT5_LOGIN set but MT5_PASSWORD is empty"
    else none

module _ (strip lower : String → String) where
  unfoldable pub bool_env : Option String → Bool → Bool
  bool_env none default = default
  bool_env (some v) default =
      if str_eq (strip v) "" then default else not (any (str_eq (lower (strip v))) switched_off)

  unfoldable pub load_settings : Environ → AutoLoginSettings
  load_settings env = record {
    login = strip (get_or_blank env "MT5_LOGIN");
    password = get_or_blank env "MT5_PASSWORD";
    server = strip (get_or_blank env "MT5_SERVER");
    enable_algo_trading = bool_env (env "MT5_ENABLE_ALGO_TRADING") true;
  }

  -- `(login_server or "").strip() or settings.server`
  unfoldable pub server_to_try : Option String → AutoLoginSettings → String
  server_to_try login_server s =
      let known = strip (elim login_server [ none ↦ "" | some a ↦ a ]) in
      if str_eq known "" then s.server else known

  unfoldable pub reconnect_credentials : (String → Option ℤ) → Environ → Option String → Credentials
  reconnect_credentials parse_int env login_server =
      let s = load_settings env in
      if not (is_enabled s) || str_eq s.password "" then none else elim (parse_int s.login) [
        | none ↦ none
        | some login ↦ some (login, s.password, server_to_try login_server s)
      ]

  -- The content of the file that the boot script leaves.
  unfoldable pub read_login_server : Option String → Option String
  read_login_server none = none
  read_login_server (some content) =
      if str_eq (strip content) "" then none else some (strip content)

  -- `MT5Connection._reconnect_credentials`
  unfoldable pub relogin_of : (String → Option ℤ) → Environ → Option String → Credentials
  relogin_of parse_int env file = reconnect_credentials parse_int env (read_login_server file)
