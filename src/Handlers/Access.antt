-- ===== src/Handlers/Access.antt =====
-- internal/handlers/instance_actions.go: the middleware of the API keys with the ping behind it, and the
-- handlers that show the status and the QR code of an instance.
pub mod Admits
pub mod Pairing
use slimwhats.Base.{
  ℕ, Bool, true, false, not, ◌&&◌, ◌||◌, List, [], ◌∷◌, Option, none, some, Bytes, codes, str_eq,
  ltb, length, take, drop, if◌then◌else◌,
}
use slimwhats.Base.Result.{Result, ok, err}
use slimwhats.Handlers.Reply.{Reply, json, fail}
use slimwhats.Instance.Store.{Row, Instance, StoreError, Status, text_or_empty}
use slimwhats.Instance.Lookup.{get_by_api_key}
use slimwhats.Instance.Manager.{
  Manager, Container, Weather, Call, connect, called, get, lookup_by_id, qr_state_of, set_qr_state,
}
use slimwhats.Instance.Qr.{QrState, Wakeup, QrError, already_paired, get_latest_qr, new_qr_state}

abbrev pub keyed :
    Container
    → Weather
    → Result StoreError (Option Instance)
    → Manager
    → Manager × Result StoreError (Option (Instance × Option ℕ))
keyed c w (err e) m = (m, err e)
keyed c w (ok none) m = (m, ok none)
keyed c w (ok (some inst)) m =
    let (m', client) = get c w inst.id m in (m', ok (some (inst, client)))

-- `GetByAPIKey` of the manager, with the client.
unfoldable pub get_by_api_key_client :
    Container
    → Weather
    → Bytes
    → Manager
    → Manager × Result StoreError (Option (Instance × Option ℕ))
get_by_api_key_client c w plaintext m = keyed c w (get_by_api_key w.load_fails plaintext m.db) m

-- What the middleware comes to: a refusal, or the instance and the client for the handlers behind it.
pub data Admission : Type 0 where
  refused : Reply Bytes → Admission
  admitted : Instance → ℕ → Admission

abbrev pub admit : Result StoreError (Option (Instance × Option ℕ)) → Admission
admit (err e) = refused (fail 500 (codes "lookup_failed"))
admit (ok none) = refused (fail 401 (codes "invalid_api_key"))
admit (ok (some (inst, none))) = refused (fail 401 (codes "invalid_api_key"))
admit (ok (some (inst, some client))) = admitted inst client

abbrev pub with_key_of :
    Manager × Result StoreError (Option (Instance × Option ℕ)) → Manager × Admission
with_key_of (m, r) = (m, admit r)

-- `InstanceAPIKeyAuth`
unfoldable pub instance_api_key_auth : Container → Weather → Bytes → Manager → Manager × Admission
instance_api_key_auth c w header m =
    if ltb (length header) 8 || not (str_eq (take 7 header) (codes "Bearer "))
    then (m, refused (fail 401 (codes "invalid_api_key")))
    else with_key_of (get_by_api_key_client c w (drop 7 header) m)

pub record PingResponse : Type 0 where
  pub instance_id : Bytes
  pub instance_name : Bytes
  pub connected : Bool

-- `PingHandler`, behind the middleware.
abbrev pub ping_handler : (ℕ → Bool) → Instance → ℕ → PingResponse
ping_handler is_connected inst client = record {
  instance_id = inst.id;
  instance_name = inst.name;
  connected = is_connected client;
}

pub record StatusBody : Type 0 where
  pub id : Bytes
  pub name : Bytes
  pub status : Status
  pub connected : Bool
  pub logged_in : Bool
  pub phone : Bytes
  pub jid : Bytes
  pub lid : Bytes

abbrev pub says : (ℕ → Bool) → Option ℕ → Bool
says is none = false
says is (some client) = is client

abbrev pub status_reply :
    (ℕ → Bool)
    → (ℕ → Bool)
    → Manager × Result StoreError (Option (Instance × Option ℕ))
    → Manager × Reply StatusBody
status_reply is_connected is_logged_in (m, err e) = (m, fail 500 (codes "lookup_failed"))
status_reply is_connected is_logged_in (m, ok none) = (m, fail 404 (codes "not_found"))
status_reply is_connected is_logged_in (m, ok (some (inst, client))) = (
  m,
  json 200 (record {
    id = inst.id;
    name = inst.name;
    status = inst.status;
    connected = says is_connected client;
    logged_in = says is_logged_in client;
    phone = text_or_empty inst.phone;
    jid = text_or_empty inst.jid;
    lid = text_or_empty inst.lid;
  }),
)

-- `InstanceStatusHandler`
unfoldable pub instance_status_handler :
    Container → Weather → (ℕ → Bool) → (ℕ → Bool) → Bytes → Manager → Manager × Reply StatusBody
instance_status_handler c w is_connected is_logged_in id m =
    status_reply is_connected is_logged_in (lookup_by_id c w id m)

abbrev pub qr_reply : Result QrError Bytes → Reply Bytes
qr_reply (ok code) = json 200 code
qr_reply (err already_paired) = fail 409 (codes "already_paired")
qr_reply (err e) = fail 500 (codes "qr_failed")

abbrev pub connects_if : Bool → ℕ → Manager → Manager
connects_if true client m = called (connect client) m
connects_if false client m = m

abbrev pub qr_given :
    Bytes → ℕ → Manager → QrState × Bool × Result QrError Bytes → Manager × Reply Bytes
qr_given id client m (q, calls, code) =
    (set_qr_state id q (connects_if calls client m), qr_reply code)

abbrev pub state_or_new : Option QrState → QrState
state_or_new none = new_qr_state
state_or_new (some q) = q

-- `InstanceQRHandler` on the answer of Get, whose client is in the map.
abbrev pub qr_of_client :
    (ℕ → Bool) → (ℕ → Bool) → Bool → Wakeup → Bytes → Manager × Option ℕ → Manager × Reply Bytes
qr_of_client is_connected is_logged_in prefers_done w id (m, none) =
    (m, fail 404 (codes "not_found"))
qr_of_client is_connected is_logged_in prefers_done w id (m, some client) =
    if is_logged_in client
    then (m, fail 409 (codes "already_paired"))
    else qr_given id client m (
        get_latest_qr (is_logged_in client) (is_connected client) prefers_done w
          (state_or_new (qr_state_of id m)))

unfoldable pub instance_qr_handler :
    Container
    → Weather
    → (ℕ → Bool)
    → (ℕ → Bool)
    → Bool
    → Wakeup
    → Bytes
    → Manager
    → Manager × Reply Bytes
instance_qr_handler c wt is_connected is_logged_in prefers_done w id m =
    qr_of_client is_connected is_logged_in prefers_done w id (get c wt id m)
