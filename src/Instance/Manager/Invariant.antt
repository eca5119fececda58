-- ===== src/Instance/Manager/Invariant.antt =====
-- What the operations of the manager keep.
use slimwhats.Base.{All, get_elem?, ℕ, List, [], ◌∷◌, Option, none, some, Bytes}
use slimwhats.Base.Dict.{Dict}
use slimwhats.Base.Result.{Result}
use slimwhats.Instance.Store.{Instance}
use slimwhats.Instance.Qr.{QrState}
use slimwhats.Instance.Manager.{
  cancel_handlers, Manager, Container, Weather, start, disconnect_instance, logout_and_reset,
  reconnect, remove_instance, get, lookup_by_id, stop_all, subscribe_events, add_event_handler,
  set_qr_state,
}
use slimwhats.Instance.Manager.Numbered.{IsNumbered}
use slimwhats.Instance.Manager.Heard.{IsBelow, IsHeard}

-- The manager, and the cancel functions that AddEventHandler has returned.
pub record World : Type 0 where
  pub manager : Manager
  pub cancels : List (Dict ℕ)

-- Every client has a number of its own, and is heard by the callback where one is set.
pub record IsManaged (cancels : List (Dict ℕ)) (m : Manager) : Type 0 where
  pub numbered :
      IsNumbered m.next_client (IsHeard m.event_callback m.next_handler cancels) m.clients
  pub given : All (IsBelow m.next_handler) cancels

-- One call of the manager.
pub data Op : Type 0 where
  start_op reconnect_op get_op lookup_op : Container → Weather → Bytes → Op
  logout_op : Weather → Bytes → Op
  disconnect_op remove_op : Bytes → Op
  set_qr_op : Bytes → QrState → Op
  subscribe_op add_handler_op stop_op : Op
  cancel_op : ℕ → Op

-- A call of a cancel function, where there is one.
abbrev pub cancelled : Option (Dict ℕ) → Manager → Manager
cancelled none m = m
cancelled (some ids) m = record m { clients = cancel_handlers ids m.clients }

abbrev pub act : Op → Manager → Manager
act (start_op c w id) m = (start c w id m).0
act (reconnect_op c w id) m = (reconnect c w id m).0
act (get_op c w id) m = (get c w id m).0
act (lookup_op c w id) m = (lookup_by_id c w id m).0
act (logout_op w id) m = (logout_and_reset w id m).0
act (disconnect_op id) m = (disconnect_instance id m).0
act (remove_op id) m = remove_instance id m
act (set_qr_op id q) m = set_qr_state id q m
act subscribe_op m = subscribe_events m
act add_handler_op m = (add_event_handler m).0
act stop_op m = stop_all m
act (cancel_op n) m = m

abbrev pub perform : Op → World → World
perform add_handler_op s = record {
  manager = (add_event_handler s.manager).0;
  cancels = (add_event_handler s.manager).1 ∷ s.cancels;
}
perform (cancel_op n) s = record s { manager = cancelled (get_elem? s.cancels n) s.manager }
perform o s = record s { manager = act o s.manager }

abbrev pub perform_all : List Op → World → World
perform_all [] s = s
perform_all (o ∷ os) s = perform_all os (perform o s)

abbrev pub IsManagedWorld : World → Type 0
IsManagedWorld s = IsManaged s.cancels s.manager
