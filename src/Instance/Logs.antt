-- ===== src/Instance/Logs.antt =====
-- internal/instance/logs.go: the table instance_logs as a list of rows. The order of rows with one
-- timestamp, which SQL leaves open, is here the order in which they were inserted, the last first.
pub mod Listed
use slimwhats.Base.{
  ℕ, suc, ◌≤◌, Bool, true, false, ◌&&◌, ◌||◌, List, [], ◌∷◌, Option, none, some, Bytes, codes,
  str_eq, is_empty, leb, ltb, filter, take, drop, length, if◌then◌else◌,
}
use slimwhats.Base.Int.{ℤ, pos, negsuc}
use slimwhats.Base.Result.{Result, ok, err}
use slimwhats.Webhook.Json.{Object}

pub data LogLevel : Type 0 where
  log_info log_warn log_error log_debug : LogLevel

pub data LogCategory : Type 0 where
  log_connect log_message log_receipt log_group log_contact log_presence log_system : LogCategory

-- The text of a level and of a category in the table.
abbrev pub level_text : LogLevel → Bytes
level_text log_info = codes "info"
level_text log_warn = codes "warn"
level_text log_error = codes "error"
level_text log_debug = codes "debug"

abbrev pub category_text : LogCategory → Bytes
category_text log_connect = codes "connect"
category_text log_message = codes "message"
category_text log_receipt = codes "receipt"
category_text log_group = codes "group"
category_text log_contact = codes "contact"
category_text log_presence = codes "presence"
category_text log_system = codes "system"

pub record LogEntry : Type 0 where
  pub id : Bytes
  pub instance_id : Bytes
  pub timestamp : ℕ
  pub level : Bytes
  pub category : Bytes
  pub message : Bytes
  pub payload : Bytes

pub record LogQuery : Type 0 where
  pub instance_id : Bytes
  pub level : Bytes
  pub category : Bytes
  pub since : Option ℕ
  pub limit : ℤ
  pub offset : ℤ

pub data LogError : Type 0 where
  log_no_random log_statement_failed : LogError
  log_marshal : Bytes → LogError

-- The text of the data, `{}` without any.
abbrev pub data_json : (Object → Result Bytes Bytes) → Option Object → Result Bytes Bytes
data_json marshal none = ok (codes "{}")
data_json marshal (some o) = marshal o

abbrev pub insert_entry : Bool → LogEntry → List LogEntry → List LogEntry × Result LogError Unit
insert_entry true e rows = (rows, err log_statement_failed)
insert_entry false e rows = (e ∷ rows, ok tt)

abbrev pub insert_marshalled :
    Bool
    → ℕ
    → Bytes
    → Bytes
    → LogLevel
    → LogCategory
    → Bytes
    → Result Bytes Bytes
    → List LogEntry
    → List LogEntry × Result LogError Unit
insert_marshalled fails now id instance_id level category msg (err e) rows =
    (rows, err (log_marshal e))
insert_marshalled fails now id instance_id level category msg (ok payload) rows =
    insert_entry fails
      (record {
        id = id;
        instance_id = instance_id;
        timestamp = now;
        level = level_text level;
        category = category_text category;
        message = msg;
        payload = payload;
      })
      rows

-- `InsertLog`; `new_id` is none where no random bytes are to be had.
unfoldable pub insert_log :
    (Object → Result Bytes Bytes)
    → Bool
    → ℕ
    → Option Bytes
    → Bytes
    → LogLevel
    → LogCategory
    → Bytes
    → Option Object
    → List LogEntry
    → List LogEntry × Result LogError Unit
insert_log marshal fails now none instance_id level category msg payload rows =
    (rows, err log_no_random)
insert_log marshal fails now (some id) instance_id level category msg payload rows =
    insert_marshalled fails now id instance_id level category msg (data_json marshal payload) rows

abbrev pub limit_of : ℤ → ℕ
limit_of (negsuc n) = 50
limit_of (pos n) = if leb n 0 || ltb 500 n then 50 else n

abbrev pub offset_of : ℤ → ℕ
offset_of (negsuc n) = 0
offset_of (pos n) = n

abbrev pub is_since : Option ℕ → ℕ → Bool
is_since none t = true
is_since (some s) t = leb s t

-- The WHERE clause.
unfoldable pub matches : LogQuery → LogEntry → Bool
matches q e =
    str_eq e.instance_id q.instance_id
    && (is_empty q.level || str_eq e.level q.level)
    && (is_empty q.category || str_eq e.category q.category)
    && is_since q.since e.timestamp

-- `ORDER BY timestamp DESC`
unfoldable pub place : LogEntry → List LogEntry → List LogEntry
place e [] = e ∷ []
place e (f ∷ fs) =
    let rest = place e fs in if leb f.timestamp e.timestamp then e ∷ f ∷ fs else f ∷ rest

unfoldable pub newest_first : List LogEntry → List LogEntry
newest_first [] = []
newest_first (e ∷ es) = place e (newest_first es)

-- `ListLogs`
unfoldable pub list_logs : Bool → LogQuery → List LogEntry → Result LogError (List LogEntry)
list_logs fails q rows =
    if fails
    then err log_statement_failed
    else ok (
        take (limit_of q.limit)
          (drop (offset_of q.offset) (newest_first (filter (matches q) rows))))

-- `CountLogsByLevel`
unfoldable pub count_logs_by_level : Bool → Bytes → LogLevel → List LogEntry → Result LogError ℕ
count_logs_by_level fails instance_id level rows =
    if fails
    then err log_statement_failed
    else ok (
        length (
          filter (λ e. str_eq e.instance_id instance_id && str_eq e.level (level_text level)) rows))
