-- ===== src/Login/Terminal.antt =====
-- The start file and the terminal's own settings (app/autologin.py), as their lines; both are written
-- with CRLF behind each.
use mt5_gateway.Prelude.{
  String, Bool, true, false, List, [], ◌∷◌, ◌++◌, any, str_eq, not, ◌&&◌, if◌then◌else◌,
}
use mt5_gateway.Access.{joined, starts_with}
use mt5_gateway.Login.{AutoLoginSettings}

abbrev pub switch : Bool → String
switch true = "1"
switch false = "0"

-- `"\r\n".join(lines) + "\r\n"`
unfoldable pub crlf_text : List String → String
crlf_text [] = ""
crlf_text (l ∷ ls) = joined l (joined "\r\n" (crlf_text ls))

unfoldable pub start_lines : AutoLoginSettings → List String
start_lines s =
    "[Common]"
    ∷ joined "Login=" s.login
    ∷ joined "Password=" s.password
    ∷ joined "Server=" s.server
    ∷ ""
    ∷ "[Experts]"
    ∷ joined "AllowLiveTrading=" (switch s.enable_algo_trading)
    ∷ joined "Enabled=" (switch s.enable_algo_trading)
    ∷ "Account=0"
    ∷ []

unfoldable pub render_start_ini : AutoLoginSettings → String
render_start_ini s = crlf_text (start_lines s)

abbrev pub wanted : List String
wanted = "AllowLiveTrading" ∷ "Enabled" ∷ "Account" ∷ []

unfoldable pub settings : Bool → List String
settings enabled =
    joined "AllowLiveTrading=" (switch enabled)
    ∷ joined "Enabled=" (switch enabled)
    ∷ "Account=0"
    ∷ []

-- `s.split("=", 1)[0]`
unfoldable pub before_equals : String → String
before_equals String.[] = ""
before_equals (String.◌∷◌ c s) =
    let rest = before_equals s in
    if str_eq (String.◌∷◌ c String.[]) "=" then "" else String.◌∷◌ c rest

module _ (strip lower : String → String) where
  unfoldable pub is_heading : String → Bool
  is_heading stripped = starts_with stripped "["

  unfoldable pub is_experts : String → Bool
  is_experts stripped = str_eq (lower stripped) "[experts]"

  -- Whether the line sets one of the three switches.
  unfoldable pub is_wanted : String → Bool
  is_wanted stripped = any (str_eq (before_equals stripped)) wanted

  -- `in_experts` once a line has been looked at
  abbrev pub in_experts : Bool → String → Bool
  in_experts before stripped = if is_heading stripped then is_experts stripped else before

  -- The loop of `persist_algo_trading`: the lines kept, and those of [Experts] that are not set anew.
  unfoldable pub scan : Bool → List String → List String × List String
  scan before [] = ([], [])
  scan before (l ∷ ls) =
      let stripped = strip l in
      let now = in_experts before stripped in
      let (kept, other) = scan now ls in
      if is_heading stripped && now
      then (kept, other)
      else if not now
      then (l ∷ kept, other)
      else if is_wanted stripped
      then (kept, other)
      else (kept, l ∷ other)

  -- The lines that the file has afterwards.
  unfoldable pub persist_algo_trading : Bool → List String → List String
  persist_algo_trading enabled existing =
      let (kept, other) = scan false existing in kept ++ ("[Experts]" ∷ settings enabled ++ other)
