-- ===== src/Handlers/Audit.antt =====
-- internal/handlers/audit_bus.go and audit.go: the bus of audit entries, whose channels are numbers
-- with what is buffered in each, and the logger in front of it. A nil bus has no state to model.
pub mod Bus
use slimwhats.Base.{
  ℕ, suc, Bool, true, false, not, List, [], ◌∷◌, ◌++◌, Option, none, some, Bytes, codes, ltb,
  length, ◌==◌, is_empty, if◌then◌else◌,
}
use slimwhats.Base.Result.{Result, ok, err}
use slimwhats.Webhook.Json.{Object}

pub record AuditEntry : Type 0 where
  pub timestamp : Bytes
  pub username : Bytes
  pub action : Bytes
  pub target_id : Bytes
  pub source_ip : Bytes
  pub user_agent : Bytes

-- A subscriber: its channel, and the entries in its buffer.
pub record Channel : Type 0 where
  pub number : ℕ
  pub buffer : List AuditEntry

-- `subs`, the number of the next channel, and the channels that are closed.
pub record AuditBus : Type 0 where
  pub subs : List Channel
  pub next : ℕ
  pub closed : List ℕ

-- `NewAuditBus`
abbrev pub new_audit_bus : AuditBus
new_audit_bus = record { subs = []; next = 0; closed = [] }

-- `Subscribe`, with the channel.
unfoldable pub subscribe : AuditBus → AuditBus × ℕ
subscribe b = (
  record b { subs = b.subs ++ record { number = b.next; buffer = [] } ∷ []; next = suc b.next },
  b.next,
)

-- The loop of the cancel function, which leaves the others in order.
unfoldable pub without_sub : ℕ → List Channel → List Channel
without_sub ch [] = []
without_sub ch (s ∷ ss) = let rest = without_sub ch ss in if s.number == ch then ss else s ∷ rest

unfoldable pub is_closed : ℕ → List ℕ → Bool
is_closed ch [] = false
is_closed ch (c ∷ cs) = let rest = is_closed ch cs in if c == ch then true else rest

-- The cancel function; none is the panic of close on a closed channel.
unfoldable pub cancel : ℕ → AuditBus → Option AuditBus
cancel ch b =
    if is_closed ch b.closed
    then none
    else some (record b { subs = without_sub ch b.subs; closed = ch ∷ b.closed })

-- The non-blocking send on a channel with a buffer of 16.
unfoldable pub offer : AuditEntry → List AuditEntry → List AuditEntry
offer e buffer = if ltb (length buffer) 16 then buffer ++ e ∷ [] else buffer

unfoldable pub offer_all : AuditEntry → List Channel → List Channel
offer_all e [] = []
offer_all e (s ∷ ss) = record s { buffer = offer e s.buffer } ∷ offer_all e ss

-- `Publish`
unfoldable pub publish : AuditEntry → AuditBus → AuditBus
publish e b = record b { subs = offer_all e b.subs }

-- `SubscriberCount`
abbrev pub subscriber_count : AuditBus → ℕ
subscriber_count b = length b.subs

-- A row of admin_actions; a target and an agent that are empty are NULL.
pub record ActionRow : Type 0 where
  pub timestamp : ℕ
  pub username : Bytes
  pub action : Bytes
  pub target_id : Option Bytes
  pub source_ip : Bytes
  pub user_agent : Option Bytes
  pub payload : Bytes

pub record AuditLog : Type 0 where
  pub rows : List ActionRow
  pub bus : Option AuditBus

abbrev pub nullable : Bytes → Option Bytes
nullable [] = none
nullable (c ∷ s) = some (c ∷ s)

abbrev pub or_placeholder : Bytes → Bytes → Bytes
or_placeholder placeholder [] = placeholder
or_placeholder placeholder (c ∷ s) = c ∷ s

abbrev pub ok_payload : Result Bytes Bytes → Option Bytes
ok_payload (ok text) = some text
ok_payload (err e) = none

-- The data column: NULL where the data cannot be encoded.
abbrev pub action_payload : (Object → Result Bytes Bytes) → Option Object → Option Bytes
action_payload marshal none = some (codes "{}")
action_payload marshal (some o) = ok_payload (marshal o)

-- The INSERT, which fails on a NULL in the column data.
abbrev pub inserted :
    Bool
    → ℕ
    → (action username target_id source_ip user_agent : Bytes) → Option Bytes
    → List ActionRow
    → List ActionRow
inserted true now action username target_id source_ip user_agent payload rows = rows
inserted false now action username target_id source_ip user_agent none rows = rows
inserted false now action username target_id source_ip user_agent (some text) rows =
    record {
      timestamp = now;
      username = username;
      action = action;
      target_id = nullable target_id;
      source_ip = source_ip;
      user_agent = nullable user_agent;
      payload = text;
    }
    ∷ rows

abbrev pub publish_on : AuditEntry → Option AuditBus → Option AuditBus
publish_on e none = none
publish_on e (some b) = some (publish e b)

-- `Log` of a logger that has a database; the text is the one of the time.
unfoldable pub log_action :
    (Object → Result Bytes Bytes)
    → Bool
    → ℕ
    → Bytes
    → (action target_id username source_ip user_agent : Bytes) → Option Object
    → AuditLog
    → AuditLog
log_action marshal fails now time_text action target_id username source_ip user_agent payload l =
    record {
      rows =
          inserted fails now action (or_placeholder (codes "(unknown)") username) target_id
            (or_placeholder (codes "0.0.0.0") source_ip) user_agent (action_payload marshal payload)
            l.rows;
      bus =
          publish_on
            (record {
              timestamp = time_text;
              username = or_placeholder (codes "(unknown)") username;
              action = action;
              target_id = target_id;
              source_ip = or_placeholder (codes "0.0.0.0") source_ip;
              user_agent = user_agent;
            })
            l.bus;
    }
