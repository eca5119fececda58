-- ===== src/Handlers/Listings.antt =====
-- internal/handlers/instance_logs.go and webhook_log.go: the handlers that list the log of an instance and
-- its deliveries, on the numbers of the query. A parsed `since` is a number.
use slimwhats.Base.{
  ℕ, Bool, true, ◌&&◌, List, [], ◌∷◌, Option, none, some, Bytes, codes, str_eq, is_empty, leb,
  filter, take, if◌then◌else◌,
}
use slimwhats.Base.Int.{ℤ}
use slimwhats.Base.Result.{Result, ok, err}
use slimwhats.Handlers.Reply.{Reply, json, fail}
use slimwhats.Instance.Logs.{LogEntry, LogError, list_logs, limit_of}
use slimwhats.Webhook.Dispatcher.{Delivery, ErrStr, Status, pending, succeeded, failed, dead}

-- `since`, absent, without the format of RFC 3339, or parsed.
pub data Since : Type 0 where
  no_since bad_since : Since
  since_time : ℕ → Since

-- The body: the ID, the limit and the offset of the query as they came, and the entries.
pub record LogPage : Type 0 where
  pub instance_id : Bytes
  pub limit : ℤ
  pub offset : ℤ
  pub entries : List LogEntry

abbrev pub page_of : Bytes → ℤ → ℤ → Result LogError (List LogEntry) → Reply LogPage
page_of id limit offset (err e) = fail 500 (codes "list_failed")
page_of id limit offset (ok entries) =
    json 200 (record { instance_id = id; limit = limit; offset = offset; entries = entries })

abbrev pub list_since :
    Bool → Bytes → Bytes → Bytes → Option ℕ → ℤ → ℤ → List LogEntry → Reply LogPage
list_since fails id level category since limit offset rows = page_of id limit offset (
    list_logs fails
      (record {
        instance_id = id;
        level = level;
        category = category;
        since = since;
        limit = limit;
        offset = offset;
      })
      rows)

-- `ListInstanceLogsHandler`
unfoldable pub list_instance_logs_handler :
    Bool → Bytes → Bytes → Bytes → Since → ℤ → ℤ → List LogEntry → Reply LogPage
list_instance_logs_handler fails id level category bad_since limit offset rows =
    fail 400 (codes "invalid_since")
list_instance_logs_handler fails id level category no_since limit offset rows =
    list_since fails id level category none limit offset rows
list_instance_logs_handler fails id level category (since_time t) limit offset rows =
    list_since fails id level category (some t) limit offset rows

-- The text of a status in the table.
abbrev pub status_text : Status → Bytes
status_text pending = codes "pending"
status_text succeeded = codes "succeeded"
status_text failed = codes "failed"
status_text dead = codes "dead"

pub record WebhookDelivery : Type 0 where
  pub id : Bytes
  pub instance_id : Bytes
  pub event_type : Bytes
  pub status : Bytes
  pub attempts : ℕ
  pub last_status_code : Option ℕ
  pub last_error : Bytes
  pub created_at : ℕ
  pub updated_at : ℕ

abbrev pub error_or_empty : (ErrStr → Bytes) → Option ErrStr → Bytes
error_or_empty text_of none = []
error_or_empty text_of (some e) = text_of e

abbrev pub delivery_view : (ErrStr → Bytes) → Delivery → WebhookDelivery
delivery_view text_of d = record {
  id = d.id;
  instance_id = d.instance_id;
  event_type = d.event_type;
  status = status_text d.status;
  attempts = d.attempts;
  last_status_code = d.last_status_code;
  last_error = error_or_empty text_of d.last_error;
  created_at = d.created_at;
  updated_at = d.updated_at;
}

-- The WHERE clause.
unfoldable pub selects : Bytes → Bytes → Delivery → Bool
selects id status d =
    str_eq d.instance_id id
    && (if is_empty status then true else str_eq (status_text d.status) status)

-- `ORDER BY created_at DESC`
unfoldable pub place : Delivery → List Delivery → List Delivery
place d [] = d ∷ []
place d (e ∷ es) =
    let rest = place d es in if leb e.created_at d.created_at then d ∷ e ∷ es else e ∷ rest

unfoldable pub newest_first : List Delivery → List Delivery
newest_first [] = []
newest_first (d ∷ ds) = place d (newest_first ds)

abbrev pub delivery_views : (ErrStr → Bytes) → List Delivery → List WebhookDelivery
delivery_views text_of [] = []
delivery_views text_of (d ∷ ds) = delivery_view text_of d ∷ delivery_views text_of ds

-- `ListWebhookDeliveriesHandler`; a scan of these columns does not fail.
unfoldable pub list_webhook_deliveries_handler :
    (ErrStr → Bytes) → Bool → Bytes → ℤ → Bytes → List Delivery → Reply (List WebhookDelivery × ℕ)
list_webhook_deliveries_handler text_of fails id limit status rows =
    if fails
    then fail 500 (codes "list_failed")
    else json 200 (
      delivery_views text_of
          (take (limit_of limit) (newest_first (filter (selects id status) rows))),
      limit_of limit,
    )
