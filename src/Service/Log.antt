-- ===== src/Service/Log.antt =====
-- `logEntry` of cmd/slimwhats/main.go: the entry of instance_logs for an event.
use slimwhats.Base.{ℕ, Bool, not, List, Option, none, some, Bytes, codes, ◌++◌}
use slimwhats.Base.Result.{Result}
use slimwhats.Webhook.Json.{Object, empty, field, text, flag, texts}
use slimwhats.Webhook.Normalize.{
  WaEvent, to_lower, message_received, receipt, connected, disconnected, logged_out,
  connect_failure, pair_error, pair_passkey_error, pair_success, contact_changed, group_info,
  presence, qr, other_event,
}
use slimwhats.Instance.Logs.{
  LogEntry, LogLevel, LogCategory, log_info, log_warn, log_connect, log_message, log_receipt,
  log_group, log_contact, log_presence, insert_log,
}

pub record Line : Type 0 where
  pub level : LogLevel
  pub category : LogCategory
  pub message : Bytes
  pub payload : Option Object

-- What the switch of `logEntry` chooses; none is its early return.
unfoldable pub line_of : WaEvent → Option Line
line_of connected = some (record {
  level = log_info;
  category = log_connect;
  message = codes "instance connected";
  payload = none;
})
line_of disconnected = some (record {
  level = log_info;
  category = log_connect;
  message = codes "instance disconnected";
  payload = none;
})
line_of (logged_out reason) = some (record {
  level = log_warn;
  category = log_connect;
  message = codes "instance logged out";
  payload = some (field (codes "reason") (text reason) empty);
})
line_of (connect_failure reason_code reason msg) = some (record {
  level = log_warn;
  category = log_connect;
  message = codes "connect failure from server";
  payload = some (
      field (codes "reason_code") (text reason_code)
        (field (codes "reason") (text reason) (field (codes "message") (text msg) empty)));
})
line_of (pair_error failure) = some (record {
  level = log_warn;
  category = log_connect;
  message = codes "pair error";
  payload = some (field (codes "error") (text failure) empty);
})
line_of (pair_passkey_error failure continuation) = some (record {
  level = log_warn;
  category = log_connect;
  message = codes "pair passkey error";
  payload = some (
      field (codes "error") (text failure)
        (field (codes "continuation") (flag continuation) empty));
})
line_of (pair_success id lid) = some (record {
  level = log_info;
  category = log_connect;
  message = codes "instance paired successfully";
  payload = some (
      field (codes "phone") (text id.user)
        (field (codes "jid") (text id.text) (field (codes "lid") (text lid.text) empty)));
})
line_of (message_received i m) = some (record {
  level = log_info;
  category = log_message;
  message = codes "message received";
  payload = some (
      field (codes "id") (text i.id) (
        field (codes "from") (text i.sender.text) (
          field (codes "chat") (text i.chat.text) (
            field (codes "is_group") (flag i.is_group) (
              field (codes "type") (text i.message_type)
                (field (codes "timestamp") (text i.timestamp) empty))))));
})
line_of (receipt kind ids chat sender at) = some (record {
  level = log_info;
  category = log_receipt;
  message = codes "receipt: " ++ to_lower kind;
  payload = some (
      field (codes "message_ids") (texts ids)
        (field (codes "chat") (text chat.text) (field (codes "sender") (text sender.text) empty)));
})
line_of (group_info jid name at) = some (record {
  level = log_info;
  category = log_group;
  message = codes "group info changed";
  payload = some (field (codes "jid") (text jid.text) (field (codes "name") name empty));
})
line_of (contact_changed jid at) = some (record {
  level = log_info;
  category = log_contact;
  message = codes "contact changed";
  payload = some (field (codes "jid") (text jid.text) empty);
})
line_of (presence sender unavailable last_seen) = some (record {
  level = log_info;
  category = log_presence;
  message = codes "presence updated";
  payload = some (
      field (codes "from") (text sender.text)
        (field (codes "available") (flag (not unavailable)) empty));
})
line_of (qr batch) = none
line_of (other_event name) = none

abbrev pub insert_line :
    (Object → Result Bytes Bytes)
    → Bool
    → ℕ
    → Option Bytes
    → Bytes
    → Option Line
    → List LogEntry
    → List LogEntry
insert_line marshal fails now new_id id none rows = rows
insert_line marshal fails now new_id id (some l) rows =
    (insert_log marshal fails now new_id id l.level l.category l.message l.payload rows).0

-- `logEntry`; a failure of the insert is passed over.
unfoldable pub log_entry :
    (Object → Result Bytes Bytes)
    → Bool
    → ℕ
    → Option Bytes
    → Bytes
    → WaEvent
    → List LogEntry
    → List LogEntry
log_entry marshal fails now new_id id ev rows =
    insert_line marshal fails now new_id id (line_of ev) rows
