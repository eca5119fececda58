-- ===== src/Handlers/Lifecycle.antt =====
-- internal/handlers/lifecycle.go: the handlers that connect, disconnect, reconnect and delete an
-- instance, and the dispatcher of the form. The state is the manager with the table of the instances,
-- and the audit log; a pause is no step of the model.
pub mod Connect
pub mod Delete
pub mod Form
use slimwhats.Base.{
  ℕ, Bool, true, false, not, List, [], ◌∷◌, ◌++◌, Option, none, some, Bytes, codes, str_eq,
  if◌then◌else◌,
}
use slimwhats.Base.Result.{Result, ok, err}
use slimwhats.Handlers.Reply.{Reply, json, fail}
use slimwhats.Handlers.Messages.{
  message, err_code_lookup_failed, err_code_not_found, err_code_connect_failed,
  err_code_disconnect_failed, err_code_reconnect_failed,
}
use slimwhats.Instance.Store
use slimwhats.Instance.Store.{Row, Instance, StoreError, set_status, delete}
use slimwhats.Instance.Manager.{
  Manager, Call, connect, called, Container, Weather, StartError, lookup_by_id, get, start,
  disconnect_instance, reconnect, remove_instance,
}

pub record Lifecycle : Type 0 where
  pub manager : Manager
  pub audit : List (Bytes × Bytes)

-- The container, what fails, whether there is an audit logger, and what a client says of itself.
pub record Setting : Type 0 where
  pub container : Container
  pub weather : Weather
  pub status_fails : Bool
  pub delete_fails : Bool
  pub audits : Bool
  pub is_connected : ℕ → Bool
  pub is_logged_in : ℕ → Bool

-- `if deps.Audit != nil { deps.Audit.Log(…) }`
abbrev pub audited : Setting → Bytes → Bytes → Lifecycle → Lifecycle
audited g action id s = if g.audits then record s { audit = s.audit ++ (action, id) ∷ [] } else s

abbrev pub with_manager : Manager → Lifecycle → Lifecycle
with_manager m s = record s { manager = m }

abbrev pub set_row_status : Setting → Bytes → Store.Status → Option ℕ → Manager → Manager
set_row_status g id status at m = record m {
  db = (set_status g.status_fails id status at at g.weather.now m.db).0;
}

-- `syncStatusToClientState`
unfoldable pub sync_status_to_client_state : Setting → Bytes → ℕ → Manager → Manager
sync_status_to_client_state g id client m =
    if g.is_logged_in client
    then set_row_status g id Store.connected (some g.weather.now) m
    else set_row_status g id Store.pairing none m

-- The lookup that three of the handlers begin with.
abbrev pub looked_up :
    Lifecycle
    → Manager × Result StoreError (Option (Instance × Option ℕ))
    → (Lifecycle → Lifecycle × Reply Bytes)
    → Lifecycle × Reply Bytes
looked_up s (m, err e) next = (with_manager m s, fail 500 (codes "lookup_failed"))
looked_up s (m, ok none) next = (with_manager m s, fail 404 (codes "not_found"))
looked_up s (m, ok (some found)) next = next (with_manager m s)

-- The end of an action on the manager.
abbrev pub acted :
    Setting
    → Bytes
    → Bytes
    → Bytes
    → Bytes
    → Lifecycle
    → Manager × Result StartError Unit
    → Lifecycle × Reply Bytes
acted g id action failure status s (m, err e) = (with_manager m s, fail 500 failure)
acted g id action failure status s (m, ok t) =
    (audited g action id (with_manager m s), json 202 status)

abbrev pub connect_client :
    Setting → Bytes → Lifecycle → Manager × Option ℕ → Lifecycle × Reply Bytes
connect_client g id s (m, none) = (with_manager m s, fail 409 (codes "not_paired"))
connect_client g id s (m, some client) =
    if g.is_connected client
    then (
      with_manager (sync_status_to_client_state g id client m) s,
      json 200 (codes "already_connected"),
    )
    else if not (g.is_logged_in client)
    then (with_manager m s, fail 409 (codes "not_paired"))
    else acted g id (codes "instance.connect") (codes "start_failed") (codes "connecting") s
        (start g.container g.weather id m)

-- `ConnectInstanceHandler`
unfoldable pub connect_instance_handler : Setting → Bytes → Lifecycle → Lifecycle × Reply Bytes
connect_instance_handler g id s =
    looked_up s (lookup_by_id g.container g.weather id s.manager)
      (λ t. connect_client g id t (get g.container g.weather id t.manager))

abbrev pub disconnected_reply :
    Setting → Bytes → Lifecycle → Manager × Bool → Lifecycle × Reply Bytes
disconnected_reply g id s (m, false) = (with_manager m s, fail 404 (codes "not_loaded"))
disconnected_reply g id s (m, true) = (
  audited g (codes "instance.disconnect") id
      (with_manager (set_row_status g id Store.disconnected none m) s),
  json 200 (codes "disconnected"),
)

-- `DisconnectInstanceHandler`; the manager has no other error than ErrNotLoaded.
unfoldable pub disconnect_instance_handler : Setting → Bytes → Lifecycle → Lifecycle × Reply Bytes
disconnect_instance_handler g id s = disconnected_reply g id s (disconnect_instance id s.manager)

-- `ReconnectInstanceHandler`
unfoldable pub reconnect_instance_handler : Setting → Bytes → Lifecycle → Lifecycle × Reply Bytes
reconnect_instance_handler g id s =
    looked_up s (lookup_by_id g.container g.weather id s.manager) (λ t.
      acted g id (codes "instance.reconnect") (codes "reconnect_failed") (codes "reconnecting") t
        (reconnect g.container g.weather id t.manager))

abbrev pub deleted :
    Setting → Bytes → Lifecycle → List Row × Result StoreError Unit → Lifecycle × Reply Bytes
deleted g id s (db, err e) =
    (with_manager (record s.manager { db = db }) s, fail 500 (codes "delete_failed"))
deleted g id s (db, ok t) = (
  audited g (codes "instance.delete") id (with_manager (record s.manager { db = db }) s),
  json 200 (codes "deleted"),
)

abbrev pub delete_row : Setting → Bytes → Lifecycle → Lifecycle × Reply Bytes
delete_row g id s = deleted g id s (delete g.delete_fails id s.manager.db)

-- `DeleteInstanceHandler`
unfoldable pub delete_instance_handler : Setting → Bytes → Lifecycle → Lifecycle × Reply Bytes
delete_instance_handler g id s =
    looked_up s (lookup_by_id g.container g.weather id s.manager)
      (λ t. delete_row g id (with_manager (remove_instance id t.manager) t))

-- The message in the alert slot, and whether it is of the class "ok".
pub record Alert : Type 0 where
  pub text : Bytes
  pub is_ok : Bool

abbrev pub alert_error : Bytes → Alert
alert_error code = record { text = message code; is_ok = false }

abbrev pub alert_ok : Bytes → Alert
alert_ok t = record { text = t; is_ok = true }

abbrev pub looked_up_form :
    Lifecycle
    → Manager × Result StoreError (Option (Instance × Option ℕ))
    → (Lifecycle → Lifecycle × Alert)
    → Lifecycle × Alert
looked_up_form s (m, err e) next = (with_manager m s, alert_error err_code_lookup_failed)
looked_up_form s (m, ok none) next = (with_manager m s, alert_error err_code_not_found)
looked_up_form s (m, ok (some found)) next = next (with_manager m s)

abbrev pub acted_form :
    Setting
    → Bytes
    → Bytes
    → Bytes
    → Bytes
    → Lifecycle
    → Manager × Result StartError Unit
    → Lifecycle × Alert
acted_form g id action failure done s (m, err e) = (with_manager m s, alert_error failure)
acted_form g id action failure done s (m, ok t) =
    (audited g action id (with_manager m s), alert_ok done)

-- An em dash, in UTF-8.
abbrev dash : Bytes
dash = 226 ∷ 128 ∷ 148 ∷ []

abbrev pub already_connected : Bool → Alert
already_connected true = alert_ok (codes "Already connected.")
already_connected false =
    alert_ok (codes "Already connected (waiting for QR scan " ++ dash ++ codes " see below).")

-- A client that is not there is looked for again, and connected if it is there by then.
abbrev pub kick : Manager × Option ℕ → Manager
kick (m, none) = m
kick (m, some client) = called (connect client) m

abbrev pub loading : Alert
loading = alert_ok (codes "Loading fresh QR " ++ dash ++ codes " page will show it momentarily.")

abbrev pub connect_client_form :
    Setting → Bytes → Lifecycle → Manager × Option ℕ → Lifecycle × Alert
connect_client_form g id s (m, none) =
    (with_manager (kick (get g.container g.weather id m)) s, loading)
connect_client_form g id s (m, some client) =
    if g.is_connected client
    then (
      with_manager (sync_status_to_client_state g id client m) s,
      already_connected (g.is_logged_in client),
    )
    else if not (g.is_logged_in client)
    then (with_manager (called (connect client) m) s, loading)
    else acted_form g id (codes "instance.connect") err_code_connect_failed (codes "Connecting.") s
        (start g.container g.weather id m)

abbrev pub disconnected_form : Setting → Bytes → Lifecycle → Manager × Bool → Lifecycle × Alert
disconnected_form g id s (m, false) = (with_manager m s, alert_error err_code_disconnect_failed)
disconnected_form g id s (m, true) = (
  audited g (codes "instance.disconnect") id
      (with_manager (set_row_status g id Store.disconnected none m) s),
  alert_ok (codes "Disconnected."),
)

-- `LifecycleActionHandler`, up to the page that it renders.
unfoldable pub lifecycle_action_handler : Setting → Bytes → Bytes → Lifecycle → Lifecycle × Alert
lifecycle_action_handler g action id s =
    if str_eq action (codes "connect")
    then looked_up_form s (lookup_by_id g.container g.weather id s.manager)
        (λ t. connect_client_form g id t (get g.container g.weather id t.manager))
    else if str_eq action (codes "disconnect")
    then disconnected_form g id s (disconnect_instance id s.manager)
    else if str_eq action (codes "reconnect")
    then looked_up_form s (lookup_by_id g.container g.weather id s.manager) (λ t.
      acted_form g id (codes "instance.reconnect") err_code_reconnect_failed (codes "Reconnecting.")
        t (reconnect g.container g.weather id t.manager))
    else (s, record { text = codes "Unknown action: " ++ action; is_ok = false })
