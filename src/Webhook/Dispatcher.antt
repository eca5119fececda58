-- ===== src/Webhook/Dispatcher.antt =====
-- internal/webhook/dispatcher.go: the knobs, the error text of an attempt and the rows of
-- webhook_deliveries. The float arithmetic of the backoff is left out.
pub mod Retry
pub mod Queue
use slimwhats.Base.{
  ℕ, zero, suc, ◌+◌, Bool, true, false, not, ◌&&◌, List, [], ◌∷◌, ◌++◌, Option, none, some, Bytes,
  codes, ltb, leb, ◌==◌, ◌*◌, str_eq, if◌then◌else◌,
}
use slimwhats.Base.Clock.{second}
use slimwhats.Base.Int.{ℤ, pos, negsuc}
use slimwhats.Base.Result.{Result, ok, err}

-- The knobs as the caller gives them, Go `int`s and durations.
pub record Knobs : Type 0 where
  pub worker_count : ℤ
  pub queue_size : ℤ
  pub max_attempts : ℤ
  pub base_delay : ℤ
  pub per_instance : ℤ
  pub http_timeout : ℤ

-- The knobs that NewDispatcher keeps, all of them positive.
pub record Config : Type 0 where
  pub worker_count : ℕ
  pub queue_size : ℕ
  pub max_attempts : ℕ
  pub base_delay : ℕ
  pub per_instance : ℕ
  pub http_timeout : ℕ

abbrev pub default_config : Knobs
default_config = record {
  worker_count = pos 8;
  queue_size = pos 1024;
  max_attempts = pos 8;
  base_delay = pos (10 * second);
  per_instance = pos 4;
  http_timeout = pos (10 * second);
}

-- `if cfg.X <= 0 { cfg.X = … }`
abbrev pub or_default : ℕ → ℤ → ℕ
or_default d (pos zero) = d
or_default d (pos (suc n)) = suc n
or_default d (negsuc n) = d

-- The configuration of `NewDispatcher`.
unfoldable pub new_dispatcher_config : Knobs → Config
new_dispatcher_config k = record {
  worker_count = or_default 8 k.worker_count;
  queue_size = or_default 1024 k.queue_size;
  max_attempts = or_default 8 k.max_attempts;
  base_delay = or_default (10 * second) k.base_delay;
  per_instance = or_default 4 k.per_instance;
  http_timeout = or_default (10 * second) k.http_timeout;
}

-- The error text of an attempt: empty, a text with its prefix, a text of net/http, or
-- `status %d`.
pub data ErrStr : Type 0 where
  no_error : ErrStr
  marshal_failed : Bytes → ErrStr
  build_failed : Bytes → ErrStr
  transport_failed : Bytes → ErrStr
  bad_status : ℕ → ErrStr

abbrev pub nullable_int : ℕ → Option ℕ
nullable_int zero = none
nullable_int (suc n) = some (suc n)

abbrev pub nullable_str : ErrStr → Option ErrStr
nullable_str no_error = none
nullable_str (transport_failed []) = none
nullable_str s = some s

unfoldable pub is_permanent_failure : ℕ → Bool
is_permanent_failure code =
    if leb 400 code && ltb code 500 then not (code == 408) && not (code == 429) else false

-- The values of the column `status` that this file writes.
pub data Status : Type 0 where
  pending succeeded failed dead : Status

-- A row of webhook_deliveries.
pub record Delivery : Type 0 where
  pub id : Bytes
  pub instance_id : Bytes
  pub event_type : Bytes
  pub payload : Bytes
  pub status : Status
  pub attempts : ℕ
  pub last_status_code : Option ℕ
  pub last_error : Option ErrStr
  pub created_at : ℕ
  pub updated_at : ℕ

abbrev pub status_of : ℕ → ℕ → Bool → Status
status_of max attempt success =
    if success then succeeded else if attempt == max then dead else failed

-- The row that the UPDATE of `updateDelivery` leaves of one that has the ID.
abbrev pub updated : ℕ → ℕ → Bool → ℕ → ErrStr → ℕ → Delivery → Delivery
updated max attempt success code text now row = record {
  id = row.id;
  instance_id = row.instance_id;
  event_type = row.event_type;
  payload = row.payload;
  status = status_of max attempt success;
  attempts = attempt;
  last_status_code = nullable_int code;
  last_error = nullable_str text;
  created_at = row.created_at;
  updated_at = now;
}

-- The table behind `UPDATE … WHERE id = ?`, which changes every row of the ID.
unfoldable pub update_where : Bytes → (Delivery → Delivery) → List Delivery → List Delivery
update_where id f [] = []
update_where id f (row ∷ rows) = (if str_eq row.id id then f row else row) ∷ update_where id f rows
