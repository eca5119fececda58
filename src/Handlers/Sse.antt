-- ===== src/Handlers/Sse.antt =====
-- internal/handlers/events.go: the messages that the browser is sent over server-sent events.
pub mod Frames
use slimwhats.Base.{ℕ, Bool, List, [], ◌∷◌, ◌++◌, Option, none, some, Bytes, codes}
use slimwhats.Base.Result.{Result, ok, err}
use slimwhats.Webhook.Json.{Object, empty, field, text}
use slimwhats.Webhook.Normalize.{
  WaEvent, message_received, receipt, connected, disconnected, logged_out, connect_failure,
  pair_error, pair_passkey_error, pair_success, contact_changed, group_info, presence, qr,
  other_event,
}
use slimwhats.Handlers.Audit.{AuditEntry}

abbrev pub status_of : Bytes → Bytes → Object → Bytes × Object
status_of id status more = (
  codes "status",
  field (codes "instance_id") (text id) (field (codes "status") (text status) more),
)

-- `emitEvent`; none where it writes nothing. `now` is the text of the time.
unfoldable pub emit_event : Bytes → Bytes → WaEvent → Option (Bytes × Object)
emit_event now id connected = some (status_of id (codes "connected") empty)
emit_event now id disconnected = some (status_of id (codes "disconnected") empty)
emit_event now id (logged_out reason) = some (status_of id (codes "logged_out") empty)
emit_event now id (connect_failure reason_code reason msg) =
    some (status_of id (codes "error") empty)
emit_event now id (pair_error failure) = some (status_of id (codes "pairing") empty)
emit_event now id (pair_passkey_error failure continuation) =
    some (status_of id (codes "pairing") empty)
emit_event now id (pair_success jid lid) = some (
    status_of id (codes "connected") (
      field (codes "phone") (text jid.user)
        (field (codes "jid") (text jid.text) (field (codes "lid") (text lid.text) empty))))
emit_event now id (message_received i m) =
    some (status_of id (codes "connected") (field (codes "last_seen") (text now) empty))
emit_event now id (qr batch) = some (codes "qr_update", field (codes "instance_id") (text id) empty)
emit_event now id _ = none

abbrev pub message_text : Bytes → Result Bytes Bytes → Bytes
message_text event (err e) = codes ": marshal-error: " ++ (e ++ (10 ∷ 10 ∷ []))
message_text event (ok payload) =
    codes "event: " ++ (event ++ (10 ∷ (codes "data: " ++ (payload ++ (10 ∷ 10 ∷ [])))))

-- `formatSSE`, on the answer of the encoder; none is its nil.
unfoldable pub format_sse : Bytes → Option (Result Bytes Bytes) → Bytes
format_sse event none = codes ":" ++ (event ++ (10 ∷ 10 ∷ []))
format_sse event (some encoded) = message_text event encoded
