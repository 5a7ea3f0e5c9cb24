-- ===== src/Retcodes.antt =====
-- app/retcodes.py: what a trade-server return code means for a retry.
pub mod Laws
use mt5_gateway.Prelude.{
  ℕ, String, Bool, true, false, Option, none, some, List, [], ◌∷◌, ◌==◌, str_eq, if◌then◌else◌, pos,
}
use mt5_gateway.Json.{Message, say, lit, shown_int}

pub data RetcodeClass : Type 0 where
  success retryable ambiguous permanent : RetcodeClass

pub record RetcodeInfo : Type 0 where
  pub name : Message
  pub classification : RetcodeClass

unfoldable pub is_success : RetcodeInfo → Bool
is_success i = elim i.classification [ success ↦ true | _ ↦ false ]

unfoldable pub is_retryable : RetcodeInfo → Bool
is_retryable i = elim i.classification [ retryable ↦ true | _ ↦ false ]

unfoldable pub is_ambiguous : RetcodeInfo → Bool
is_ambiguous i = elim i.classification [ ambiguous ↦ true | _ ↦ false ]

abbrev pub Table : Type 0
Table = List (ℕ × String)

abbrev pub success_codes : Table
success_codes = (10008, "PLACED") ∷ (10009, "DONE") ∷ (10010, "DONE_PARTIAL") ∷ []

abbrev pub retryable_codes : Table
retryable_codes =
    (10004, "REQUOTE")
    ∷ (10020, "PRICE_CHANGED")
    ∷ (10021, "PRICE_OFF")
    ∷ (10024, "TOO_MANY_REQUESTS")
    ∷ []

abbrev pub ambiguous_codes : Table
ambiguous_codes = (10012, "TIMEOUT") ∷ (10031, "CONNECTION") ∷ []

abbrev pub permanent_codes : Table
permanent_codes =
    (10006, "REJECT")
    ∷ (10007, "CANCEL")
    ∷ (10011, "ERROR")
    ∷ (10013, "INVALID")
    ∷ (10014, "INVALID_VOLUME")
    ∷ (10015, "INVALID_PRICE")
    ∷ (10016, "INVALID_STOPS")
    ∷ (10017, "TRADE_DISABLED")
    ∷ (10018, "MARKET_CLOSED")
    ∷ (10019, "NO_MONEY")
    ∷ (10022, "INVALID_EXPIRATION")
    ∷ (10023, "ORDER_CHANGED")
    ∷ (10025, "NO_CHANGES")
    ∷ (10026, "SERVER_DISABLES_AT")
    ∷ (10027, "CLIENT_DISABLES_AT")
    ∷ (10028, "LOCKED")
    ∷ (10029, "FROZEN")
    ∷ (10030, "INVALID_FILL")
    ∷ (10032, "ONLY_REAL")
    ∷ (10033, "LIMIT_ORDERS")
    ∷ (10034, "LIMIT_VOLUME")
    ∷ (10035, "INVALID_ORDER")
    ∷ (10036, "POSITION_CLOSED")
    ∷ (10038, "INVALID_CLOSE_VOLUME")
    ∷ (10039, "CLOSE_ORDER_EXIST")
    ∷ []

unfoldable pub name_in : ℕ → Table → Option String
name_in n [] = none
name_in n ((k, s) ∷ t) = if k == n then some s else name_in n t

abbrev info : String → RetcodeClass → RetcodeInfo
info s c = record { name = say s; classification = c }

-- The first table that lists the code decides; a code in none is ambiguous.
unfoldable pub classify_retcode : ℕ → RetcodeInfo
classify_retcode n = elim (name_in n success_codes) [
  | some s ↦ info s success
  | none ↦ elim (name_in n retryable_codes) [
    | some s ↦ info s retryable
    | none ↦ elim (name_in n ambiguous_codes) [
      | some s ↦ info s ambiguous
      | none ↦ elim (name_in n permanent_codes) [
        | some s ↦ info s permanent
        | none ↦ record {
          name = lit "UNKNOWN_" ∷ shown_int (pos n) ∷ [];
          classification = ambiguous;
        }
      ]
    ]
  ]
]

unfoldable pub success_state : ℕ → String
success_state n =
    if n == 10008
    then "placed"
    else if n == 10009
    then "executed"
    else if n == 10010
    then "partially_executed"
    else "unknown"

-- `info.name == "DONE_PARTIAL"`: a name with an interpolated number equals no literal.
unfoldable pub is_named : RetcodeInfo → String → Bool
is_named i s = elim i.name [ lit t ∷ [] ↦ str_eq t s | _ ↦ false ]
