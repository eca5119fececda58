-- ===== src/Webhook/Normalize.antt =====
-- `Normalize` of internal/webhook/events.go: which events of whatsmeow become events of a webhook.
pub mod Envelope
use slimwhats.Base.{
  ℕ, Bool, true, false, not, List, [], ◌∷◌, ◌++◌, Option, none, some, Bytes, codes, is_empty, leb,
  ltb, ◌&&◌, ◌+◌, if◌then◌else◌,
}
use slimwhats.Webhook.Json.{Value, text, flag, texts, Object, empty, field, set, set_all}
use slimwhats.Webhook.Events.{Jid, Message, set_if_not_empty, extract_message_content}
use slimwhats.Webhook.Dispatcher.Retry.{Event}

-- `types.MessageInfo`
pub record MessageInfo : Type 0 where
  pub id : Bytes
  pub sender : Jid
  pub chat : Jid
  pub is_group : Bool
  pub message_type : Bytes
  pub timestamp : Bytes
  pub is_from_me : Bool
  pub push_name : Bytes

-- The events of whatsmeow that the program looks at, with the fields that it reads.
pub data WaEvent : Type 0 where
  message_received : MessageInfo → Option Message → WaEvent
  receipt :
      (kind : Bytes) (message_ids : List Bytes) (chat sender : Jid) (timestamp : Bytes) → WaEvent
  connected disconnected : WaEvent
  logged_out : (reason : Bytes) → WaEvent
  connect_failure : (reason_code reason text : Bytes) → WaEvent
  pair_error : (failure : Bytes) → WaEvent
  pair_passkey_error : (failure : Bytes) (continuation : Bool) → WaEvent
  pair_success : (id lid : Jid) → WaEvent
  contact_changed : (jid : Jid) (timestamp : Bytes) → WaEvent
  group_info : (jid : Jid) (name : Value) (timestamp : Bytes) → WaEvent
  presence : (sender : Jid) (unavailable : Bool) (last_seen : Option Bytes) → WaEvent
  qr : (codes : List Bytes) → WaEvent
  other_event : (name : Bytes) → WaEvent

-- `strings.ToLower` of ASCII
abbrev pub lower_byte : ℕ → ℕ
lower_byte c = if leb 65 c && leb c 90 then c + 32 else c

abbrev pub to_lower : Bytes → Bytes
to_lower [] = []
to_lower (c ∷ s) = lower_byte c ∷ to_lower s

-- `fmtTimestamp`; none is the zero time.
abbrev pub fmt_timestamp : Option Bytes → Bytes
fmt_timestamp none = []
fmt_timestamp (some t) = t

abbrev pub content_of : Option Message → Object
content_of none = empty
content_of (some m) = extract_message_content m

-- The data of a message before its content.
unfoldable pub message_data : MessageInfo → Object
message_data i = set_if_not_empty (codes "push_name") i.push_name (
    field (codes "id") (text i.id) (
      field (codes "from") (text i.sender.text) (
        field (codes "chat") (text i.chat.text) (
          field (codes "is_group") (flag i.is_group) (
            field (codes "type") (text i.message_type) (
              field (codes "timestamp") (text i.timestamp)
                (field (codes "from_me") (flag i.is_from_me) empty)))))))

abbrev pub envelope : Bytes → Bytes → Bytes → Object → Option (Event Object)
envelope event instance_id ts payload =
    some (record { event = event; instance_id = instance_id; timestamp = ts; payload = payload })

-- `Normalize`; none is its false.
unfoldable pub normalize : Bytes → Bytes → WaEvent → Option (Event Object)
normalize id ts (message_received i m) =
    envelope (codes "message.received") id ts (set_all (content_of m) (message_data i))
normalize id ts (receipt kind ids chat sender at) =
    envelope (codes "message." ++ to_lower kind) id ts (
      field (codes "message_ids") (texts ids) (
        field (codes "chat") (text chat.text)
          (field (codes "sender") (text sender.text) (field (codes "timestamp") (text at) empty))))
normalize id ts connected = envelope (codes "instance.connected") id ts empty
normalize id ts disconnected = envelope (codes "instance.disconnected") id ts empty
normalize id ts (logged_out reason) =
    envelope (codes "instance.logged_out") id ts (field (codes "reason") (text reason) empty)
normalize id ts (pair_success jid lid) = envelope (codes "instance.pair_success") id ts (
    field (codes "phone") (text jid.user)
      (field (codes "jid") (text jid.text) (field (codes "lid") (text lid.text) empty)))
normalize id ts (contact_changed jid at) =
    envelope (codes "contact.changed") id ts
      (field (codes "jid") (text jid.text) (field (codes "timestamp") (text at) empty))
normalize id ts (group_info jid name at) = envelope (codes "group.changed") id ts (
    field (codes "jid") (text jid.text)
      (field (codes "name") name (field (codes "timestamp") (text at) empty)))
normalize id ts (presence sender unavailable last_seen) =
    envelope (codes "presence.updated") id ts (
      field (codes "from") (text sender.text) (
        field (codes "available") (flag (not unavailable))
          (field (codes "last_seen") (text (fmt_timestamp last_seen)) empty)))
normalize id ts _ = none
