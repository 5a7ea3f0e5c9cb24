-- ===== src/Errors.antt =====
-- app/errors.py: the error responses. Logging is left out; the request's id is an argument.
pub mod Laws
use mt5_gateway.Prelude.{
  ℕ, String, Bool, true, false, Option, none, some, List, [], ◌∷◌, ◌++◌, str_eq, not, if◌then◌else◌,
  pos,
}
use mt5_gateway.Json.{
  Message, say, lit, shown_int, Json, null, int, text, said, Dict, object, Response, respond, array,
}
use mt5_gateway.Retcodes.{
  RetcodeClass, success, retryable, ambiguous, permanent, RetcodeInfo, classify_retcode,
  is_ambiguous,
}
use mt5_gateway.Host.{CallError, SendResult}

abbrev pub RequestId : Type 0
RequestId = Option String

-- `if request_id: response["request_id"] = request_id`
unfoldable pub with_request_id : RequestId → Dict → Dict
with_request_id none d = d
with_request_id (some id) d = if str_eq id "" then d else d ++ ("request_id", text id) ∷ []

abbrev pub retry_guidance : Dict
retry_guidance =
    ("retry_guidance", text "Reconcile positions and order/deal history before retrying.") ∷ []

-- A class that the dict does not list is an internal error.
unfoldable pub status_of_class : RetcodeClass → ℕ × String
status_of_class retryable = (409, "retryable")
status_of_class ambiguous = (502, "unknown_outcome")
status_of_class permanent = (400, "mt5_rejected")
status_of_class success = (500, "invalid_error_classification")

unfoldable pub mt5_error_response : RequestId → String → SendResult → Response
unfolding with_request_id
mt5_error_response id operation r =
    let info = classify_retcode r.retcode in
    let (code, error_type) = status_of_class info.classification in
    respond code (
      with_request_id id (
        ("error", said (lit operation ∷ lit " failed: " ∷ lit r.comment ∷ []))
        ∷ ("error_type", text error_type)
        ∷ (
          "mt5_error",
          object (
              ("retcode", int (pos r.retcode))
              ∷ ("retcode_name", said info.name)
              ∷ ("comment", text r.comment)
              ∷ []),
        )
        ∷ (if is_ambiguous info then retry_guidance else [])))

error_tuple : Option CallError → Json
error_tuple none = null
error_tuple (some e) = array (int e.code ∷ text e.message ∷ [])

unfoldable pub unknown_outcome_response : RequestId → String → Option CallError → Response
unfolding with_request_id error_tuple
unknown_outcome_response id operation last_error = respond 502 (
    with_request_id id (
      ("error", said (lit operation ∷ lit " outcome is unknown" ∷ []))
        ∷ ("error_type", text "unknown_outcome")
        ∷ retry_guidance
      ++ (elim last_error [
        | none ↦ []
        | some e ↦ ("mt5_error", object (("last_error", error_tuple (some e)) ∷ [])) ∷ []
      ])))

unfoldable pub mt5_connection_error_response : RequestId → String → Option CallError → Response
unfolding with_request_id error_tuple
mt5_connection_error_response id operation last_error = respond 503 (
    with_request_id id (
      ("error", said (lit operation ∷ lit " failed because MT5 is unavailable" ∷ []))
      ∷ ("error_type", text "connection_error")
      ∷ ("mt5_error", object (("last_error", error_tuple last_error) ∷ []))
      ∷ []))

unfoldable pub internal_error_response : RequestId → String → Message → Response
unfolding with_request_id
internal_error_response id operation exception = respond 500 (
    with_request_id id (
      ("error", text "Internal server error")
      ∷ ("operation", text operation)
      ∷ ("detail", said exception)
      ∷ []))

-- `details` is left out where it is empty.
unfoldable pub validation_error_response : RequestId → Message → Dict → Response
unfolding with_request_id
validation_error_response id message details = respond 400 (
    with_request_id id (
      ("error", said message)
      ∷ ("error_type", text "validation_error")
      ∷ (elim details [ [] ↦ [] | d ∷ ds ↦ ("details", object (d ∷ ds)) ∷ [] ])))
