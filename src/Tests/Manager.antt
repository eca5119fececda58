-- ===== src/Tests/Manager.antt =====
-- The manager of the clients on small inputs.
use slimwhats.Base.{
  ℕ, suc, ◌≡◌, ◌≢◌, refl, Bool, true, false, List, [], ◌∷◌, ◌++◌, Option, none, some, Bytes, codes,
  arith, length, ◌≤◌, All,
}
use slimwhats.Base.Dict.{lookup}
use slimwhats.Base.Int.{pos}
use slimwhats.Base.Result.{ok}
use slimwhats.Base.{take, drop}
use slimwhats.Instance.Logs.{limit_of, offset_of}
use slimwhats.Instance.Manager.{disconnect}
use slimwhats.Instance.Store.{Row, connected}
use slimwhats.Instance.Store
use slimwhats.Instance.Lookup.{get_by_id}
use slimwhats.Instance.Qr.{new_qr_state}
use slimwhats.Instance.Logs.{LogEntry, LogQuery, list_logs, matches}
use slimwhats.Instance.Logs.Listed.{Wanted, Covers, IsNewestFirst, list_logs_sound}
use slimwhats.Instance.Manager.{
  Manager, ManagedClient, Container, Weather, Call, connect, start, get, logout_and_reset, evict,
  without_identity, client_of, add_event_handler, cancel_handlers,
}
use slimwhats.Instance.Manager.Invariant.{
  World, Op, start_op, subscribe_op, disconnect_op, get_op, add_handler_op, cancel_op,
}
use slimwhats.Instance.Manager.Kept.{logout-get}
use slimwhats.Instance.Manager.Race.{Run, start_twice_leaks}
use slimwhats.Instance.Manager.Numbered.{IsUnused}
use slimwhats.Instance.Manager.Subscribers.{add_event_handler-cancel}

abbrev pub container : Container
container = record { parses = λ jid. true; get_device = λ jid. ok (some true) }

abbrev pub weather : Weather
weather = record { load_fails = false; update_fails = false; now = 9 }

abbrev pub paired_row : Row
paired_row = record {
  id = codes "i1";
  name = codes "shop";
  api_key = some (codes "sk_live_abc");
  webhook_url = some (codes "https://a.br");
  webhook_secret = some (codes "s");
  status = connected;
  phone = some (codes "55");
  jid = some (codes "55:8@s.whatsapp.net");
  lid = none;
  connected_at = none;
  last_seen_at = none;
  api_key_set_at = some 5;
  created_at = 5;
  updated_at = 5;
}

abbrev pub first_client : ManagedClient
first_client = record {
  client = 0;
  handlers = 0 ∷ [];
  expected_disconnect = false;
  qr_state = new_qr_state;
}

abbrev pub booted : Manager
booted = record {
  clients = [];
  event_callback = false;
  db = paired_row ∷ [];
  next_client = 0;
  next_handler = 0;
  calls = [];
}

abbrev pub running : Manager
running = record {
  clients = (codes "i1", first_client) ∷ [];
  event_callback = true;
  db = paired_row ∷ [];
  next_client = 1;
  next_handler = 1;
  calls = [];
}

-- A paired instance is connected as it is started.
start_run : (start container weather (codes "i1") booted).0.calls ≡ connect 0 ∷ []
unfolding start get_by_id Store.select_id slimwhats.Base.str_eq
    slimwhats.Instance.Lookup.scan_instance_rows lookup slimwhats.Instance.Manager.device_for
    Store.instance_of slimwhats.Instance.Manager.publish
start_run = refl

abbrev ops : List Op
ops =
    start_op container weather (codes "i1")
    ∷ subscribe_op
    ∷ add_handler_op
    ∷ disconnect_op (codes "i1")
    ∷ cancel_op 0
    ∷ get_op container weather (codes "i1")
    ∷ []

abbrev world : World
world = record { manager = booted; cancels = [] }

logout-get_example :
    ((get container weather (codes "i1") (logout_and_reset weather (codes "i1") running).0).1
      ≡ some 1)
    × ((get container weather
          (codes "i1")
          (logout_and_reset weather (codes "i1") running).0).0.calls
        ≡ disconnect 0 ∷ [])
    × (Store.select_id
          (codes "i1")
          (get container weather
            (codes "i1")
            (logout_and_reset weather (codes "i1") running).0).0.db
        ≡ some (record paired_row {
          jid = none;
          lid = none;
          phone = none;
          status = Store.pairing;
          updated_at = 9;
        }))
unfolding Store.select_id slimwhats.Base.str_eq lookup
logout-get_example =
    logout-get container weather weather (codes "i1") running paired_row refl refl refl

start_twice_leaks_example :
    (after : Manager) × Run container
      (record { manager = booted; starting = [] })
      (record { manager = after; starting = [] })
    × (client_of (lookup (codes "i1") after.clients) ≡ some 1)
    × (after.calls ≡ connect 0 ∷ connect 1 ∷ [])
    × IsUnused 0 after.clients
unfolding get_by_id Store.select_id slimwhats.Base.str_eq
    slimwhats.Instance.Lookup.scan_instance_rows lookup slimwhats.Instance.Manager.device_for
    Store.instance_of
start_twice_leaks_example =
    start_twice_leaks container weather (codes "i1") (Store.instance_of paired_row) booted tt refl
      refl refl

add_event_handler-cancel_example :
    cancel_handlers (add_event_handler running).1 (add_event_handler running).0.clients
    ≡ running.clients
unfolding lookup
add_event_handler-cancel_example = add_event_handler-cancel running (refl, (omega arith, tt), tt)

abbrev entry : ℕ → LogEntry
entry t = record {
  id = codes "l";
  instance_id = codes "i1";
  timestamp = t;
  level = codes "info";
  category = codes "connect";
  message = codes "m";
  payload = codes "{}";
}

abbrev query : LogQuery
query = record {
  instance_id = codes "i1";
  level = codes "info";
  category = [];
  since = none;
  limit = pos 2;
  offset = pos 0;
}

list_logs_run :
    list_logs false query (entry 2 ∷ entry 3 ∷ entry 1 ∷ []) ≡ ok (entry 3 ∷ entry 2 ∷ [])
unfolding list_logs slimwhats.Instance.Logs.newest_first matches slimwhats.Base.str_eq
    slimwhats.Instance.Logs.place
list_logs_run = refl

list_logs_sound_example :
    (all : List LogEntry) × (list_logs false query (entry 2 ∷ entry 3 ∷ entry 1 ∷ [])
      ≡ ok (take (limit_of query.limit) (drop (offset_of query.offset) all)))
    × IsNewestFirst all
    × All (Wanted query) all
    × Covers query all (entry 2 ∷ entry 3 ∷ entry 1 ∷ [])
    × (length all ≤ 3)
    × (length (take (limit_of query.limit) (drop (offset_of query.offset) all)) ≤ 500)
list_logs_sound_example = list_logs_sound query (entry 2 ∷ entry 3 ∷ entry 1 ∷ [])
