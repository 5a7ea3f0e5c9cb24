-- ===== src/Resolver.antt =====
-- app/broker_resolver.py: the addresses that a broker's server is tried at. `strip` and `lower`, the
-- JSON parser, `str` of a JSON value and the quoting of a URL are parameters; so are the contents of
-- the baked table and the network, whose state is `S`.
pub mod Candidates
use mt5_gateway.Prelude.{
  ℕ, String, Bool, true, false, Option, none, some, List, [], ◌∷◌, ◌++◌, map, select, any, not,
  str_eq, ◌&&◌, ◌||◌, if◌then◌else◌,
}
use mt5_gateway.Json.{Json, null, text, arr, obj, Items, nil, cons, Fields, end, field, is_truthy}
use mt5_gateway.Flow.{Flow, value, reply, raised, type_error, attribute_error, ◌>>=◌}
use mt5_gateway.Access.{joined}
use mt5_gateway.Host.{Answer, gives, raises, Call}

-- The environment variables that are read, as they are set; MT5_AUTORESOLVE is "1" where it is not,
-- the others are the empty text.
pub record Env : Type 0 where
  pub server_addr : String
  pub server : String
  pub autoresolve : String
  pub resolver_url : String

pub record Texts : Type 0 where
  pub strip : String → String
  pub lower : String → String
  pub quote : String → String
  pub str_of : Json → String
  pub parse_json : String → Option Json

abbrev pub BrokerTable : Type 0
BrokerTable = List (String × List String)

abbrev pub default_resolvers : List String
default_resolvers = "https://mt5.mtapi.io" ∷ "http://mt5-resolver:80" ∷ []

abbrev pub falsy : List String
falsy = "0" ∷ "false" ∷ "no" ∷ "off" ∷ []

-- `s.rstrip("/")`
unfoldable pub without_slashes : String → String
without_slashes String.[] = ""
without_slashes (String.◌∷◌ c s) =
    let rest = without_slashes s in
    if str_eq rest "" && str_eq (String.◌∷◌ c String.[]) "/" then "" else String.◌∷◌ c rest

-- `s.split(",")`, from a first piece that is begun
unfoldable pub pieces : String → List String
pieces String.[] = "" ∷ []
pieces (String.◌∷◌ c s) =
    let rest = pieces s in
    if str_eq (String.◌∷◌ c String.[]) ","
    then "" ∷ rest
    else elim rest [ [] ↦ [] | p ∷ ps ↦ String.◌∷◌ c p ∷ ps ]

-- `s.split("-", 1)[0]`
unfoldable pub before_dash : String → String
before_dash String.[] = ""
before_dash (String.◌∷◌ c s) =
    let rest = before_dash s in
    if str_eq (String.◌∷◌ c String.[]) "-" then "" else String.◌∷◌ c rest

unfoldable pub key_of : String → Fields → Option Json
key_of k end = none
key_of k (field j v d) = if str_eq j k then some v else key_of k d

-- The characters of a text, each as a text.
unfoldable pub characters : String → Items
characters String.[] = nil
characters (String.◌∷◌ c s) = cons (text (String.◌∷◌ c String.[])) (characters s)

unfoldable pub keys : Fields → Items
keys end = nil
keys (field k v d) = cons (text k) (keys d)

-- What a `for` goes through.
unfoldable pub iterated : Json → Flow Items
iterated (arr vs) = value vs
iterated (text s) = value (characters s)
iterated (obj d) = value (keys d)
iterated _ = raised type_error

-- `d.get(key) or []`
unfoldable pub list_of : String → Fields → Json
list_of k d = elim (key_of k d) [ none ↦ arr nil | some v ↦ if is_truthy v then v else arr nil ]

module _ (t : Texts) where
  unfoldable pub resolver_urls : Env → List String
  resolver_urls env =
      let raw = t.strip env.resolver_url in
      if str_eq raw ""
      then map without_slashes default_resolvers
      else map (λ u. without_slashes (t.strip u))
          (select (λ u. not (str_eq (t.strip u) "")) (pieces raw))

  unfoldable pub derive_keyword : String → String
  derive_keyword server_name = t.strip (before_dash server_name)

  unfoldable pub exact_entry : String → BrokerTable → Option (List String)
  exact_entry name [] = none
  exact_entry name ((n, access) ∷ rest) =
      if str_eq n name then some access else exact_entry name rest

  -- `s.strip().lower()`
  unfoldable pub folded : String → String
  folded s = t.lower (t.strip s)

  unfoldable pub folded_entry : String → BrokerTable → List String
  folded_entry target [] = []
  folded_entry target ((n, access) ∷ rest) =
      if str_eq (folded n) target then access else folded_entry target rest

  unfoldable pub table_access : String → BrokerTable → List String
  table_access name table = elim (exact_entry name table) [
    | some access ↦ access
    | none ↦ folded_entry (folded name) table
  ]

  -- An address that is not blank and not there yet goes to the end.
  unfoldable pub add_item : String → List String → List String
  add_item item out =
      let stripped = t.strip item in
      if not (str_eq stripped "") && not (any (str_eq stripped) out)
      then out ++ stripped ∷ []
      else out

  unfoldable pub add : List String → List String → List String
  add [] out = out
  add (item ∷ items) out = add items (add_item item out)

  unfoldable pub add_endpoints : Items → List String → List String
  add_endpoints nil out = out
  add_endpoints (cons e es) out = add_endpoints es (add_item (t.str_of e) out)

  unfoldable pub server_name_of : Fields → String
  server_name_of d = folded (elim (key_of "name" d) [ none ↦ "" | some v ↦ t.str_of v ])

  -- One record of the results; a record that is no object has no `get`.
  unfoldable pub read_server : String → Json → List String → Flow (List String)
  read_server target (obj d) out =
      if not (str_eq (server_name_of d) target)
      then value out
      else iterated (list_of "access" d) >>= λ es. value (add_endpoints es out)
  read_server target _ out = raised attribute_error

  unfoldable pub read_servers : String → Items → List String → Flow (List String)
  read_servers target nil out = value out
  read_servers target (cons v vs) out = read_server target v out >>= read_servers target vs

  unfoldable pub read_company : String → Json → List String → Flow (List String)
  read_company target (obj d) out =
      iterated (list_of "results" d) >>= λ servers. read_servers target servers out
  read_company target _ out = value out

  unfoldable pub read_companies : String → Items → List String → Flow (List String)
  read_companies target nil out = value out
  read_companies target (cons v vs) out = read_company target v out >>= read_companies target vs

  unfoldable pub read_response : String → Option Json → Flow (List String)
  read_response target (some (arr companies)) = read_companies target companies []
  read_response target _ = value []

  unfoldable pub parse_access : String → String → Flow (List String)
  parse_access search_text server_name =
      read_response (folded server_name) (t.parse_json search_text)

  module _ {S : Type 0} (fetch : String → Call S String) where
    unfoldable pub search_url : String → String → String
    search_url base server_name =
        joined base (joined "/Search?company=" (t.quote (derive_keyword server_name)))

    -- A fetch that fails finds nothing; what it gives is read outside of the `try`.
    unfoldable pub query_resolver : String → String → S → Flow (List String) × S
    query_resolver base server_name s =
        let (answer, s') = fetch (search_url base server_name) s in
        (elim answer [ raises e ↦ value [] | gives body ↦ parse_access body server_name ], s')

    -- The first resolver that finds something.
    unfoldable pub resolve_with : String → List String → S → Flow (List String) × S
    resolve_with server_name [] s = (value [], s)
    resolve_with server_name (base ∷ urls) s =
        let (access, s') = query_resolver base server_name s in
        let rest = resolve_with server_name urls s' in
        elim access [
          | value [] ↦ rest
          | value (a ∷ more) ↦ (value (a ∷ more), s')
          | reply r ↦ (reply r, s')
          | raised e ↦ (raised e, s')
        ]

    unfoldable pub resolve_access : String → List String → S → Flow (List String) × S
    resolve_access server_name urls s =
        if str_eq server_name "" then (value [], s) else resolve_with server_name urls s

    -- The resolvers' answers, added in the resolvers' order.
    unfoldable pub add_resolved : String → List String → List String → S → Flow (List String) × S
    add_resolved name [] out s = (value out, s)
    add_resolved name (base ∷ urls) out s =
        let (access, s') = query_resolver base name s in
        elim access [
          | value found ↦ add_resolved name urls (add found out) s'
          | reply r ↦ (reply r, s')
          | raised e ↦ (raised e, s')
        ]

    -- `add([name])`, the last resort
    unfoldable pub with_name : String → Flow (List String) × S → Flow (List String) × S
    with_name name (out, s) = (out >>= λ found. value (add (name ∷ []) found), s)

    unfoldable pub connect_candidates : Env → BrokerTable → S → Flow (List String) × S
    connect_candidates env table s =
        let addr = t.strip env.server_addr in
        let name = t.strip env.server in
        let known = add (table_access name table) [] in
        if not (str_eq addr "")
        then (value (addr ∷ []), s)
        else if str_eq name ""
        then (value [], s)
        else if any (str_eq (folded env.autoresolve)) falsy
        then with_name name (value known, s)
        else with_name name (add_resolved name (resolver_urls env) known s)

    unfoldable pub first_or_blank : List String → String
    first_or_blank [] = ""
    first_or_blank (c ∷ cs) = c

    unfoldable pub choose_server : Env → BrokerTable → S → Flow String × S
    choose_server env table s =
        let (candidates, s') = connect_candidates env table s in
        (candidates >>= λ cs. value (first_or_blank cs), s')
