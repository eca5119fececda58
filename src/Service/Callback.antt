-- ===== src/Service/Callback.antt =====
-- The callback that cmd/slimwhats/main.go gives to SubscribeEvents, over the manager with the table
-- of the instances, the log, the deliveries and the queue of the dispatcher.
pub mod Status
pub mod Forward
use slimwhats.Base.{
  ℕ, Bool, true, false, not, List, [], ◌∷◌, Option, none, some, Bytes, is_empty, before_byte,
  if◌then◌else◌,
}
use slimwhats.Base.Result.{Result, ok, err}
use slimwhats.Webhook.Json.{Object}
use slimwhats.Webhook.Events.{Jid}
use slimwhats.Webhook.Normalize.{WaEvent, connected, disconnected, logged_out, qr, normalize}
use slimwhats.Webhook.Dispatcher.{Config, Delivery, pending}
use slimwhats.Webhook.Dispatcher.Retry.{Event}
use slimwhats.Webhook.Dispatcher.Queue.{Pool, Enqueued, panics, answers, enqueue}
use slimwhats.Instance.Store.{Row, StoreError, set_status, set_identity, load_webhook_secret}
use slimwhats.Instance.Store
use slimwhats.Instance.Logs.{LogEntry}
use slimwhats.Instance.Manager.{
  Manager, Container, Weather, get, is_expected_disconnect, logout_and_reset, qr_state_of,
  set_qr_state,
}
use slimwhats.Instance.Qr
use slimwhats.Instance.Qr.{QrState}
use slimwhats.Service.Log.{log_entry}

pub record Service : Type 0 where
  pub manager : Manager
  pub logs : List LogEntry
  pub deliveries : List Delivery
  pub pool : Pool Object

-- What a paired client has in its store; a LID without user is none.
pub record Identity : Type 0 where
  pub jid : Jid
  pub lid : Jid

-- What the callback takes from outside: the container, what fails, the clock, the random IDs, the
-- identity of a client by its number, the encoder, and the configuration of the dispatcher.
pub record Outside : Type 0 where
  pub container : Container
  pub weather : Weather
  pub status_fails : Bool
  pub identity_fails : Bool
  pub log_fails : Bool
  pub record_fails : Bool
  pub load_fails : Bool
  pub log_id : Option Bytes
  pub delivery_id : Option Bytes
  pub timestamp : Bytes
  pub identity : ℕ → Option Identity
  pub marshal : Object → Result Bytes Bytes
  pub payload_of : Event Object → Bytes
  pub text_of : StoreError → Bytes
  pub config : Config

abbrev pub lid_text : Jid → Bytes
lid_text lid = if is_empty lid.user then [] else lid.text

-- `instanceStore.SetIdentity`, with the phone: the user of the JID up to its colon.
abbrev pub store_identity : Outside → Bytes → Option Identity → List Row → List Row
store_identity o id none db = db
store_identity o id (some i) db =
    (set_identity o.identity_fails id i.jid.text (lid_text i.lid) (before_byte 58 i.jid.user)
      o.weather.now db).0

abbrev pub identity_of : Outside → Option ℕ → Option Identity
identity_of o none = none
identity_of o (some client) = o.identity client

abbrev pub with_db : List Row → Manager → Manager
with_db db m = record m { db = db }

abbrev pub identified : Outside → Bytes → Manager × Option ℕ → Manager
identified o id (m, client) = with_db (store_identity o id (identity_of o client) m.db) m

-- The case of Connected: the status, and then the identity of the client.
unfoldable pub on_connected : Outside → Bytes → Manager → Manager
on_connected o id m = identified o id (
    get o.container o.weather id (
      with_db
        (set_status o.status_fails id Store.connected (some o.weather.now) (some o.weather.now)
          o.weather.now m.db).0
        m))

-- The case of Disconnected.
unfoldable pub on_disconnected : Outside → Bytes → Manager → Manager
on_disconnected o id m =
    if not (is_expected_disconnect id m)
    then with_db (set_status o.status_fails id Store.disconnected none none o.weather.now m.db).0 m
    else m

abbrev pub set_batch : Bytes → List Bytes → Option QrState → Manager → Manager
set_batch id batch none m = m
set_batch id batch (some q) m = set_qr_state id (Qr.set batch q) m

-- The switch of the callback and, for a QR event, the buffer of the instance.
unfoldable pub on_client_event : Outside → Bytes → WaEvent → Manager → Manager
on_client_event o id connected m = on_connected o id m
on_client_event o id disconnected m = on_disconnected o id m
on_client_event o id (logged_out reason) m = (logout_and_reset o.weather id m).0
on_client_event o id (qr batch) m = set_batch id batch (qr_state_of id m) m
on_client_event o id _ m = m

abbrev pub new_delivery : Outside → Bytes → Bytes → Event Object → Delivery
new_delivery o delivery_id id ev = record {
  id = delivery_id;
  instance_id = id;
  event_type = ev.event;
  payload = o.payload_of ev;
  status = pending;
  attempts = 0;
  last_status_code = none;
  last_error = none;
  created_at = o.weather.now;
  updated_at = o.weather.now;
}

abbrev pub recorded :
    Outside
    → Bytes
    → Event Object
    → Option Bytes
    → Bool
    → List Delivery
    → List Delivery × Option Bytes
recorded o id ev none fails rows = (rows, none)
recorded o id ev (some d) true rows = (rows, none)
recorded o id ev (some d) false rows = (new_delivery o d id ev ∷ rows, some d)

-- `RecordDelivery`; none is its error.
unfoldable pub record_delivery :
    Outside → Bytes → Event Object → List Delivery → List Delivery × Option Bytes
record_delivery o id ev rows = recorded o id ev o.delivery_id o.record_fails rows

abbrev pub loaded : Outside → Result StoreError (Bytes × Bytes) → Result Bytes (Bytes × Bytes)
loaded o (err e) = err (o.text_of e)
loaded o (ok hook) = ok hook

-- What the callback comes to; a send on the closed queue panics.
pub data Called : Type 0 where
  crashed : Called
  returned : Service → Called

abbrev pub after_enqueue : Service → Enqueued Object → Called
after_enqueue s panics = crashed
after_enqueue s (answers b p) = returned (record s { pool = p })

abbrev pub deliver_recorded :
    Outside → Bytes → Event Object → Service → List Delivery × Option Bytes → Called
deliver_recorded o id ev s (rows, none) = returned (record s { deliveries = rows })
deliver_recorded o id ev s (rows, some d) =
    after_enqueue (record s { deliveries = rows })
      (enqueue o.config (loaded o (load_webhook_secret o.load_fails id s.manager.db)) id d ev
        s.pool)

abbrev pub forward : Outside → Bytes → Option (Event Object) → Service → Called
forward o id none s = returned s
forward o id (some ev) s = deliver_recorded o id ev s (record_delivery o id ev s.deliveries)

abbrev pub logged : Outside → Bytes → WaEvent → Service → Service
logged o id ev s = record s {
  manager = on_client_event o id ev s.manager;
  logs = log_entry o.marshal o.log_fails o.weather.now o.log_id id ev s.logs;
}

-- The callback.
unfoldable pub on_event : Outside → Bytes → WaEvent → Service → Called
on_event o id ev s = forward o id (normalize id o.timestamp ev) (logged o id ev s)
