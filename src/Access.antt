-- ===== src/Access.antt =====
-- app/security.py and app/kill_switch.py: what a request has to pass before its handler runs. The
-- kill switch is on while its file exists. `hmac.compare_digest` is a parameter; it raises where a
-- text is not ASCII.
pub mod Gate
use mt5_gateway.Prelude.{
  String, Bool, true, false, Option, none, some, List, [], ◌∷◌, any, str_eq, not, ◌&&◌, ◌||◌,
  if◌then◌else◌,
}
use mt5_gateway.Prelude.Texts.{len, prefix_of}
use mt5_gateway.Json.{text, Response, respond}
use mt5_gateway.Flow.{Flow, value, ◌>>=◌}

abbrev pub auth_exempt : List String
auth_exempt = "/health/live" ∷ []

abbrev pub auth_exempt_prefixes : List String
auth_exempt_prefixes = "/apidocs" ∷ "/apispec_" ∷ "/flasgger_static/" ∷ []

abbrev pub kill_gated : List String
kill_gated =
    "/order" ∷ "/modify_sl_tp" ∷ "/position_close_partial" ∷ "/close_position"
    ∷ "/close_all_positions" ∷ []

abbrev pub writing_methods : List String
writing_methods = "POST" ∷ "PUT" ∷ "PATCH" ∷ "DELETE" ∷ []

-- `path.startswith(prefix)`
abbrev pub starts_with : String → String → Bool
starts_with path prefix = str_eq (prefix_of (len prefix) path) prefix

unfoldable pub is_auth_exempt : String → Bool
is_auth_exempt path = any (str_eq path) auth_exempt || any (starts_with path) auth_exempt_prefixes

-- `f"Bearer {api_key}"`
abbrev pub joined : String → String → String
joined String.[] t = t
joined (String.◌∷◌ c s) t = String.◌∷◌ c (joined s t)

pub record Hook : Type 0 where
  pub compare_digest : String → String → Flow Bool
  pub api_key : String
  -- `kill_switch.is_active()`
  pub active : Bool

pub record Request : Type 0 where
  pub method : String
  pub path : String
  pub authorization : Option String

unfoldable pub unauthorized : Response
unauthorized =
    respond 401 (("error", text "Unauthorized") ∷ ("error_type", text "authentication_error") ∷ [])

unfoldable pub halted : Response
halted = respond 423 (
    ("error", text "Trading is halted by the kill switch")
    ∷ ("error_type", text "kill_switch_active")
    ∷ [])

abbrev pub supplied : Request → String
supplied r = elim r.authorization [ none ↦ "" | some s ↦ s ]

unfoldable pub is_gated : Request → Bool
is_gated r = any (str_eq r.method) writing_methods && any (str_eq r.path) kill_gated

-- The test of the key: true where the request may go on.
unfoldable pub authorized : Hook → Request → Flow Bool
authorized k r =
    if not (str_eq k.api_key "") && not (is_auth_exempt r.path)
    then k.compare_digest (supplied r) (joined "Bearer " k.api_key)
    else value true

-- None lets the request through to its handler.
unfoldable pub enforce_security : Hook → Request → Flow (Option Response)
enforce_security k r = authorized k r >>= λ ok.
    value
      (if not ok then some unauthorized else if k.active && is_gated r then some halted else none)
