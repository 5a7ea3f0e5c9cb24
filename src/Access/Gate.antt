-- ===== src/Access/Gate.antt =====
-- Which requests reach their handlers (app/security.py).
use mt5_gateway.Prelude.{
  ◌≡◌, ◌⊎◌, inl, inr, arith, String, true, false, none, Bool-cases, eq_iff, str_eq,
}
use mt5_gateway.Flow.{value, >>=-eq-value}
use mt5_gateway.Access.{
  Hook, Request, is_auth_exempt, joined, supplied, is_gated, authorized, enforce_security,
}

authorized_sound :
    (k : Hook) (r : Request)
    → ((a b : String) → k.compare_digest a b ≡ value true → a ≡ b)
    → authorized k r ≡ value true
    → (k.api_key ≡ "") ⊎ (is_auth_exempt r.path ≡ true) ⊎ (supplied r ≡ joined "Bearer " k.api_key)
unfolding authorized
authorized_sound k r exact h = elim (Bool-cases (str_eq k.api_key "")) [
  | inl e ↦ inl ((eq_iff k.api_key "").0 e)
  | inr e ↦ elim (Bool-cases (is_auth_exempt r.path)) [
    | inl f ↦ inr (inl f)
    | inr f ↦
        inr (inr (exact (supplied r) (joined "Bearer " k.api_key) (rw (e, f, authorized) at h)))
  ]
]

-- Where the comparison of digests accepts equal texts only, a request that reaches its handler
-- either carries the configured key, or asks for an exempt path, or no key is configured; and while
-- the kill switch is on, it is no trading request.
pub enforce_security_sound :
    (k : Hook) (r : Request)
    → ((a b : String) → k.compare_digest a b ≡ value true → a ≡ b)
    → enforce_security k r ≡ value none
    → ((k.api_key ≡ "")
        ⊎ (is_auth_exempt r.path ≡ true)
        ⊎ (supplied r ≡ joined "Bearer " k.api_key))
      × (k.active ≡ true → is_gated r ≡ false)
unfolding enforce_security
enforce_security_sound k r exact h =
    let (ok, passed, rest) = >>=-eq-value (authorized k r) _ h in
    let yes_ok : ok ≡ true = ground (arith, rest) in
    (authorized_sound k r exact (rw yes_ok at passed), λ on. ground (arith, rest, on))
