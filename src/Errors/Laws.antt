-- ===== src/Errors/Laws.antt =====
-- The status codes of app/errors.py against the classes of app/retcodes.py.
use mt5_gateway.Prelude.{
  ◌≡◌, ◌≢◌, ◌↔◌, refl, ◌⊎◌, inl, inr, arith, String, Bool-cases, Bool, true, false, Option, some,
  none, str_eq, [], ◌∷◌, if◌then◌else◌,
}
use mt5_gateway.Json.{Json, text, obj, Fields, field, end, object}
use mt5_gateway.Retcodes.{
  RetcodeClass, ambiguous, is_success, is_ambiguous, is_retryable, classify_retcode,
}
use mt5_gateway.Host.{SendResult}
use mt5_gateway.Errors.{
  RequestId, with_request_id, status_of_class, retry_guidance, mt5_error_response,
}

-- The value of a key in a response's object.
pub body_field : String → Json → Option Json
body_field k (obj d) = in_fields d
  where
    in_fields : Fields → Option Json
    in_fields end = none
    in_fields (field j v r) = let rest = in_fields r in if str_eq j k then some v else rest
body_field k _ = none

guidance_of :
    (id : RequestId) (e t m : Json) (b : Bool)
    → body_field "retry_guidance" (
        object (
          with_request_id id (
            ("error", e)
            ∷ ("error_type", t)
            ∷ ("mt5_error", m)
            ∷ (if b then retry_guidance else []))))
      ≡ (if b
          then some (text "Reconcile positions and order/deal history before retrying.")
          else none)
unfolding body_field with_request_id
guidance_of none e t m true = refl
guidance_of none e t m false = refl
guidance_of (some id) e t m true = elim (Bool-cases (str_eq id "")) [
  | inl h ↦ rw h refl
  | inr h ↦ rw h refl
]
guidance_of (some id) e t m false = elim (Bool-cases (str_eq id "")) [
  | inl h ↦ rw h refl
  | inr h ↦ rw h refl
]

status_iff_ambiguous : (c : RetcodeClass) → ((status_of_class c).0 ≡ 502) ↔ (c ≡ ambiguous)
unfolding status_of_class
status_iff_ambiguous c = (ground arith, ground arith)

-- For a result that is not a success, the status code says what a client may do: 409 exactly for
-- a code that may be retried, 502 exactly for one whose outcome is unknown, 400 for the rest; and
-- the advice to reconcile before a retry is given exactly with 502, whatever the request's id.
mt5_error_response_status :
    (id : RequestId) (operation : String) (r : SendResult)
    → is_success (classify_retcode r.retcode) ≡ false
    → let info = classify_retcode r.retcode in
      let response = mt5_error_response id operation r in
      ((response.status ≡ 409) ↔ (is_retryable info ≡ true))
      × ((response.status ≡ 502) ↔ (is_ambiguous info ≡ true))
      × ((response.status ≡ 409) ⊎ (response.status ≡ 502) ⊎ (response.status ≡ 400))
      × ((body_field "retry_guidance" response.body ≢ none) ↔ (response.status ≡ 502))
unfolding mt5_error_response status_of_class is_success is_retryable is_ambiguous
mt5_error_response_status id operation r h = (
  (ground arith, ground arith),
  (ground arith, ground arith),
  ground arith,
  rw (guidance_of id _ _ _ (is_ambiguous (classify_retcode r.retcode)))
      (ground arith, ground arith),
)
