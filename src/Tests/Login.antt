-- ===== src/Tests/Login.antt =====
-- The settings of the login and the terminal's files.
use mt5_gateway.Prelude.{
  ◌≡◌, ◌≢◌, refl, ℕ, ◌*◌, ℤ, pos, String, Bool, true, false, Option, none, some, List, [], ◌∷◌,
  str_eq, if◌then◌else◌, ◌+◌, ◌/◌, ◌≤◌, ◌<◌, All,
}
use mt5_gateway.Json.{Number}
use mt5_gateway.Validation.{amount}
use mt5_gateway.Login.{Environ, load_settings, validate, relogin_of, bool_env}
use mt5_gateway.Login.Terminal.{settings, persist_algo_trading}
use mt5_gateway.Login.Kept.{setting, outside, other, of_kind, Plain, persist_algo_trading_settles}
use mt5_gateway.Login.Relogin.{relogin_of_lem}
use mt5_gateway.Login.Marker.{
  millisecond, rounded, write_session_marker, session_attached, session_attached-write,
}

abbrev same_text : String → String
same_text s = s

abbrev lower_heading : String → String
lower_heading s = if str_eq s "[Experts]" then "[experts]" else s

plain : Plain same_text lower_heading
unfolding settings
plain = record { experts_stripped = refl; experts_lowered = refl; settings_stripped = stripped }
  where
    stripped : (enabled : Bool) → All (λ l. same_text l ≡ l) (settings enabled)
    stripped true = (refl, (refl, (refl, tt)))
    stripped false = (refl, (refl, (refl, tt)))

abbrev before_login : List String
before_login = "[Common]" ∷ "Login=7" ∷ "[Experts]" ∷ "Enabled=0" ∷ "Allow=1" ∷ "[Charts]" ∷ []

persist_algo_trading_settles_example :
    let out = persist_algo_trading same_text lower_heading true before_login in
    (of_kind same_text lower_heading setting false out
      ≡ "AllowLiveTrading=1" ∷ "Enabled=1" ∷ "Account=0" ∷ [])
    × (of_kind same_text lower_heading outside false out
        ≡ of_kind same_text lower_heading outside false before_login)
    × (of_kind same_text lower_heading other false out
        ≡ of_kind same_text lower_heading other false before_login)
    × (persist_algo_trading same_text lower_heading true
          (persist_algo_trading same_text lower_heading false before_login)
        ≡ out)
persist_algo_trading_settles_example =
    persist_algo_trading_settles same_text lower_heading plain true false before_login

abbrev environment : Environ
environment k =
    if str_eq k "MT5_LOGIN"
    then some "7001"
    else if str_eq k "MT5_PASSWORD"
    then some "pw"
    else if str_eq k "MT5_SERVER"
    then some "Demo"
    else none

abbrev seven_thousand : String → Option ℤ
seven_thousand s = some (pos 7001)

accepted_settings : validate (load_settings same_text same_text environment) ≡ none
unfolding validate load_settings bool_env
accepted_settings = refl

relogin_of_lem_example :
    ((n : ℤ)
      → ◌≢◌ {A = String} "7001" ""
      → seven_thousand "7001" ≡ some n
      → (relogin_of same_text same_text seven_thousand environment (some "10.0.0.1:443")
          ≡ some (n, "pw", "10.0.0.1:443"))
        × (◌≢◌ {A = String} "10.0.0.1:443" "")
        × (◌≢◌ {A = String} "pw" ""))
    × (◌≡◌ {A = String} "7001" ""
        → relogin_of same_text same_text seven_thousand environment (some "10.0.0.1:443") ≡ none)
relogin_of_lem_example =
    relogin_of_lem same_text same_text seven_thousand refl (λ t. refl) environment
      (some "10.0.0.1:443") accepted_settings

abbrev noon : ℕ
noon = 120000 * millisecond

abbrev two_words : String → List String
two_words s = "7001" ∷ "120.000" ∷ []

abbrev printed : ℕ → String
printed n = "120.000"

abbrev read_back : String → Option Number
read_back s = some (amount (rounded noon))

abbrev attached_since : ℕ → Bool
attached_since since =
    session_attached same_text two_words printed read_back
      (some (write_session_marker same_text two_words printed read_back "7001" noon)) "7001" since

session_attached-write_example :
    ("7001" ≡ same_text "7001" → 5 + millisecond / 2 ≤ noon → attached_since 5 ≡ true)
    × (noon + millisecond / 2 < 5 → attached_since 5 ≡ false)
    × ("7001" ≢ same_text "7001" → attached_since 5 ≡ false)
session_attached-write_example =
    session_attached-write same_text two_words printed read_back "7001" "7001" noon 5 refl refl
