-- ===== src/Flow.antt =====
-- How a piece of a handler ends: with a value, with the response that an early `return` sends, or
-- with an exception. The exceptions are those that the handlers tell apart.
use mt5_gateway.Prelude.{String, Bool, true, false, ◌≡◌, refl}
use mt5_gateway.Json.{Message, Response}

pub data Exn : Type 0 where
  order_request_error : Message → Exn
  numeric_validation_error : Message → Exn
  pre_trade_error : Message → Exn
  server_offset_unavailable : Message → Exn
  runtime_error : Message → Exn
  value_error type_error key_error overflow_error attribute_error : Exn
  -- whatever a called library raises
  foreign_error : String → Exn

pub data Flow {ℓ} (A : Type ℓ) : Type ℓ where
  value : A → Flow A
  reply : Response → Flow A
  raised : Exn → Flow A

infixl 5 ◌>>=◌ ◌>>◌
abbrev pub ◌>>=◌ {ℓ κ} : {A : Type ℓ} {B : Type κ} → Flow A → (A → Flow B) → Flow B
value a >>= f = f a
reply r >>= f = reply r
raised e >>= f = raised e

abbrev pub ◌>>◌ {ℓ} : {B : Type ℓ} → Flow (Unit {0}) → Flow B → Flow B
m >> k = m >>= λ _. k

-- `if test: raise e`
abbrev pub raise_if : Bool → Exn → Flow (Unit {0})
raise_if true e = raised e
raise_if false e = value tt

-- Inversion of a bind that yields a value.
pub >>=-eq-value {ℓ κ} :
    {A : Type ℓ} {B : Type κ} (m : Flow A) (f : A → Flow B) {b : B}
    → (m >>= f) ≡ value b
    → (a : A) × (m ≡ value a) × (f a ≡ value b)
>>=-eq-value (value a) f h = (a, refl, h)
>>=-eq-value (reply r) f h = cc
>>=-eq-value (raised e) f h = cc
