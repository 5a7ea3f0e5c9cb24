-- ===== src/Service/Envelope.antt =====
-- app/responses.py: what every JSON answer gets on its way out.
use mt5_gateway.Prelude.{String, none, some, ltb, str_eq, if◌then◌else◌}
use mt5_gateway.Json.{Json, bool, text, obj, Fields, end, field, Response}
use mt5_gateway.Errors.{RequestId}

-- `payload.setdefault(key, v)`
unfoldable pub set_default : String → Json → Fields → Fields
set_default key v end = field key v end
set_default key v (field j w d) =
    let rest = set_default key v d in if str_eq j key then field j w d else field j w rest

-- A payload that is no object is put under "data".
unfoldable pub payload_of : Json → Fields
payload_of (obj d) = d
payload_of v = field "data" v end

unfoldable pub with_default_id : RequestId → Fields → Fields
with_default_id none d = d
with_default_id (some id) d = if str_eq id "" then d else set_default "request_id" (text id) d

-- `install_response_envelope`
unfoldable pub envelope : RequestId → Response → Response
envelope id r = record r {
  body = obj (with_default_id id (set_default "ok" (bool (ltb r.status 400)) (payload_of r.body)));
}
