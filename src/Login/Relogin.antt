-- ===== src/Login/Relogin.antt =====
-- What a reconnect logs in with (app/autologin.py).
use mt5_gateway.Prelude.{
  ◌≡◌, ◌≢◌, refl, arith, ℤ, String, true, false, Option, none, some, Bool-cases, inl, inr, str_eq,
  eq_iff, if◌then◌else◌,
}
use mt5_gateway.Login.{
  Environ, AutoLoginSettings, validate, load_settings, server_to_try, reconnect_credentials,
  read_login_server, relogin_of, get_or_blank,
}

str_ne : (a b : String) → str_eq a b ≡ false → a ≢ b
str_ne a b e h = let t : str_eq a b ≡ true = (eq_iff a b).1 h in cc

ne_str : (a b : String) → a ≢ b → str_eq a b ≡ false
ne_str a b h = elim (Bool-cases (str_eq a b)) [ inl e ↦ absurd (h ((eq_iff a b).0 e)) | inr e ↦ e ]

validate_complete :
    (s : AutoLoginSettings) → validate s ≡ none → s.login ≢ "" → (s.server ≢ "") × (s.password ≢ "")
unfolding validate
validate_complete s ok on =
    let enabled = ne_str s.login "" on in
    (
      str_ne s.server "" (ground (arith, enabled, ok)),
      str_ne s.password "" (ground (arith, enabled, ok)),
    )

module _ (strip lower : String → String) (parse_int : String → Option ℤ) where
  -- What the environment says.
  abbrev pub login_of : Environ → String
  login_of env = strip (get_or_blank env "MT5_LOGIN")

  abbrev pub server_of : Environ → String
  server_of env = strip (get_or_blank env "MT5_SERVER")

  abbrev pub password_of : Environ → String
  password_of env = get_or_blank env "MT5_PASSWORD"

  -- The text of the boot script's file, or, where there is none or it is blank, the configured server.
  abbrev pub address_of : Environ → Option String → String
  address_of env none = server_of env
  address_of env (some content) = if str_eq (strip content) "" then server_of env else strip content

  module _ (blank : strip "" ≡ "") (twice : (t : String) → strip (strip t) ≡ strip t) where
    server_to_try-address :
        (env : Environ) (file : Option String)
        → server_to_try strip lower
            (read_login_server strip lower file)
            (load_settings strip lower env)
          ≡ address_of env file
    unfolding server_to_try read_login_server load_settings
    server_to_try-address env none = rw blank refl
    server_to_try-address env (some content) = elim (Bool-cases (str_eq (strip content) "")) [
      | inl e ↦ rw (e, blank) refl
      | inr e ↦ rw (e, twice content, e) refl
    ]

    address-ne :
        (env : Environ) (file : Option String) → server_of env ≢ "" → address_of env file ≢ ""
    address-ne env none h = h
    address-ne env (some content) h = elim (Bool-cases (str_eq (strip content) "")) [
      | inl e ↦ rw e h
      | inr e ↦ rw e (str_ne (strip content) "" e)
    ]

    -- Where the configuration is accepted at the start and `strip` is idempotent and keeps the empty
    -- text, a reconnect logs in, if MT5_LOGIN is a number: with that number, MT5_PASSWORD, and the
    -- address in the boot script's file or, where that is missing or blank, MT5_SERVER; neither the
    -- address nor the password is empty. Without a login it passes nothing.
    pub relogin_of_lem :
        (env : Environ) (file : Option String)
        → validate (load_settings strip lower env) ≡ none
        → ((n : ℤ)
            → login_of env ≢ ""
            → parse_int (login_of env) ≡ some n
            → (relogin_of strip lower parse_int env file
                ≡ some (n, password_of env, address_of env file))
              × (address_of env file ≢ "")
              × (password_of env ≢ ""))
          × (login_of env ≡ "" → relogin_of strip lower parse_int env file ≡ none)
    unfolding relogin_of reconnect_credentials load_settings
    relogin_of_lem env file ok = (
      λ n on number.
          let s = load_settings strip lower env in
          let (server, password) = validate_complete s ok on in
          (
            rw (ne_str s.login "" on, ne_str s.password "" password, number)
                (rw (server_to_try-address env file) refl),
            address-ne env file server,
            password,
          ),
      λ off.
          let e : str_eq (load_settings strip lower env).login "" ≡ true = (eq_iff _ _).1 off in
          rw e refl,
    )
