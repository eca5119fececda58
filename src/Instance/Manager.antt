-- ===== src/Instance/Manager.antt =====
-- internal/instance/manager.go: the clients in memory, over the table of the instances. A client of
-- whatsmeow is a number, and what the manager does to clients is a list of calls; a call of Connect
-- in a goroutine is one call. whatsmeow's container of devices is a parameter. A client that is
-- found again is the same one: the map holds numbers, so that two names of a client share it.
pub mod Effects
pub mod Subscribers
pub mod Race
pub mod Kept
pub mod Heard
pub mod Loaded
pub mod Numbered
pub mod Invariant
use slimwhats.Base.{
  ℕ, zero, suc, ◌+◌, Bool, true, false, not, List, [], ◌∷◌, ◌++◌, Option, none, some, Bytes, codes,
  ◌==◌, is_empty, if◌then◌else◌,
}
use slimwhats.Base.Dict
use slimwhats.Base.Dict.{Dict}
use slimwhats.Base.Result.{Result, ok, err}
use slimwhats.Instance.Store.{
  Row, Instance, StoreError, Status, pairing, update_rows, exec, text_or_empty,
}
use slimwhats.Instance.Lookup.{get_by_id}
use slimwhats.Instance.Qr.{QrState, new_qr_state}

-- The number of the client, and the IDs of the event handlers that are registered with it.
pub record ManagedClient : Type 0 where
  pub client : ℕ
  pub handlers : List ℕ
  pub expected_disconnect : Bool
  pub qr_state : QrState

pub data Call : Type 0 where
  connect disconnect : ℕ → Call

-- `db` is the table, `next_client` and `next_handler` the numbers that are not given away.
pub record Manager : Type 0 where
  pub clients : Dict ManagedClient
  pub event_callback : Bool
  pub db : List Row
  pub next_client : ℕ
  pub next_handler : ℕ
  pub calls : List Call

-- What the container answers for a JID: whether it parses, and the device, with whether it has an ID.
pub record Container : Type 0 where
  pub parses : Bytes → Bool
  pub get_device : Bytes → Result Bytes (Option Bool)

pub data StartError : Type 0 where
  load_failed : StoreError → StartError
  instance_not_found parse_stored_jid get_device_failed : StartError

-- What fails in a call, and the reading of the clock.
pub record Weather : Type 0 where
  pub load_fails : Bool
  pub update_fails : Bool
  pub now : ℕ

-- `UPDATE instances SET jid=NULL, lid=NULL, phone=NULL, status=?, updated_at=? WHERE id=?`
abbrev pub without_identity : ℕ → Row → Row
without_identity now r = record r {
  jid = none;
  lid = none;
  phone = none;
  status = pairing;
  updated_at = now;
}

unfoldable pub clear_identity : Weather → Bytes → List Row → List Row × Result StoreError Unit
clear_identity w id = exec w.update_fails (update_rows (without_identity w.now) id)

-- The device that Start works with, as whether it has an ID, and the table. A stored JID whose
-- device is gone falls back to a new device, whether or not the UPDATE works.
abbrev pub device_found :
    Weather → Bytes → List Row → Result Bytes (Option Bool) → List Row × Result StartError Bool
device_found w id db (err e) = (db, err get_device_failed)
device_found w id db (ok none) = ((clear_identity w id db).0, ok false)
device_found w id db (ok (some paired)) = (db, ok paired)

unfoldable pub device_for :
    Container → Weather → Bytes → Bytes → List Row → List Row × Result StartError Bool
device_for c w id jid db =
    if is_empty jid
    then (db, ok false)
    else if not (c.parses jid)
    then (db, err parse_stored_jid)
    else device_found w id db (c.get_device jid)

abbrev pub called : Call → Manager → Manager
called call m = record m { calls = m.calls ++ call ∷ [] }

abbrev pub connects : Bool → ℕ → Manager → Manager
connects false h m = m
connects true h m = called (connect h) m

-- The callback's handler, where a callback is set.
abbrev pub first_handlers : Bool → ℕ → List ℕ
first_handlers false next = []
first_handlers true next = next ∷ []

-- `&managedClient{…}`, with the next number.
abbrev pub new_client : Manager → ManagedClient
new_client m = record {
  client = m.next_client;
  handlers = first_handlers m.event_callback m.next_handler;
  expected_disconnect = false;
  qr_state = new_qr_state;
}

-- The new client is published, and connected if its device has an ID.
unfoldable pub publish : Bytes → Bool → Manager → Manager
publish id paired m = connects paired m.next_client (record m {
  clients = Dict.insert id (new_client m) m.clients;
  next_client = suc m.next_client;
  next_handler = suc m.next_handler;
})

abbrev pub start_new :
    Bytes → Manager → List Row × Result StartError Bool → Manager × Result StartError Unit
start_new id m (db, err e) = (record m { db = db }, err e)
start_new id m (db, ok paired) = (publish id paired (record m { db = db }), ok tt)

-- `existing.expectedDisconnect = false`, and Connect.
abbrev pub restart : Bytes → ManagedClient → Manager → Manager
restart id mc m =
    called (connect mc.client)
      (record m { clients = Dict.insert id (record mc { expected_disconnect = false }) m.clients })

abbrev pub start_loaded :
    Container
    → Weather
    → Bytes
    → Instance
    → Option ManagedClient
    → Manager
    → Manager × Result StartError Unit
start_loaded c w id inst (some mc) m = (restart id mc m, ok tt)
start_loaded c w id inst none m = start_new id m (device_for c w id (text_or_empty inst.jid) m.db)

abbrev pub start_found :
    Container
    → Weather
    → Bytes
    → Result StoreError (Option Instance)
    → Manager
    → Manager × Result StartError Unit
start_found c w id (err e) m = (m, err (load_failed e))
start_found c w id (ok none) m = (m, err instance_not_found)
start_found c w id (ok (some inst)) m = start_loaded c w id inst (Dict.lookup id m.clients) m

-- `Start`, with no other call between its two locked parts; Race takes these apart.
unfoldable pub start : Container → Weather → Bytes → Manager → Manager × Result StartError Unit
start c w id m = start_found c w id (get_by_id w.load_fails id m.db) m

-- `StartAll`, on the IDs in the order of the SELECT: an instance that does not start is passed over.
unfoldable pub start_all : Container → (Bytes → Weather) → List Bytes → Manager → Manager
start_all c w [] m = m
start_all c w (id ∷ ids) m = start_all c w ids (start c (w id) id m).0

abbrev pub disconnect_found : Bytes → Option ManagedClient → Manager → Manager × Bool
disconnect_found id none m = (m, false)
disconnect_found id (some mc) m = (
  called (disconnect mc.client)
      (record m { clients = Dict.insert id (record mc { expected_disconnect = true }) m.clients }),
  true,
)

-- `Disconnect`; false is ErrNotLoaded.
unfoldable pub disconnect_instance : Bytes → Manager → Manager × Bool
disconnect_instance id m = disconnect_found id (Dict.lookup id m.clients) m

-- The client is out of the map when its flag is set, so that the flag is lost with it.
abbrev pub evict : Bytes → Option ManagedClient → Manager → Manager
evict id none m = m
evict id (some mc) m =
    called (disconnect mc.client) (record m { clients = Dict.remove id m.clients })

unfoldable pub logout_and_reset : Weather → Bytes → Manager → Manager × Result StoreError Unit
logout_and_reset w id m =
    let evicted = evict id (Dict.lookup id m.clients) m in
    let (db, r) = clear_identity w id m.db in (record evicted { db = db }, r)

unfoldable pub reconnect : Container → Weather → Bytes → Manager → Manager × Result StartError Unit
reconnect c w id m = start c w id (disconnect_instance id m).0

-- `Remove`
unfoldable pub remove_instance : Bytes → Manager → Manager
remove_instance id m = evict id (Dict.lookup id m.clients) m

abbrev pub flag_of : Option ManagedClient → Bool
flag_of none = false
flag_of (some mc) = mc.expected_disconnect

unfoldable pub is_expected_disconnect : Bytes → Manager → Bool
is_expected_disconnect id m = flag_of (Dict.lookup id m.clients)

abbrev pub client_of : Option ManagedClient → Option ℕ
client_of none = none
client_of (some mc) = some mc.client

-- The second look at the map, behind the lazy Start.
abbrev pub after_start : Bytes → Manager × Result StartError Unit → Manager × Option ℕ
after_start id (m, err e) = (m, none)
after_start id (m, ok t) = (m, client_of (Dict.lookup id m.clients))

abbrev pub get_found :
    Container → Weather → Bytes → Option ManagedClient → Manager → Manager × Option ℕ
get_found c w id (some mc) m = (m, some mc.client)
get_found c w id none m = after_start id (start c w id m)

-- `Get`
unfoldable pub get : Container → Weather → Bytes → Manager → Manager × Option ℕ
get c w id m = get_found c w id (Dict.lookup id m.clients) m

abbrev pub looked_up :
    Container
    → Weather
    → Bytes
    → Result StoreError (Option Instance)
    → Manager
    → Manager × Result StoreError (Option (Instance × Option ℕ))
looked_up c w id (err e) m = (m, err e)
looked_up c w id (ok none) m = (m, ok none)
looked_up c w id (ok (some inst)) m = let (m', cli) = get c w id m in (m', ok (some (inst, cli)))

-- `LookupByID`
unfoldable pub lookup_by_id :
    Container
    → Weather
    → Bytes
    → Manager
    → Manager × Result StoreError (Option (Instance × Option ℕ))
lookup_by_id c w id m = looked_up c w id (get_by_id w.load_fails id m.db) m

abbrev pub disconnect_calls : Dict ManagedClient → List Call
disconnect_calls [] = []
disconnect_calls ((id, mc) ∷ rest) = disconnect mc.client ∷ disconnect_calls rest

-- `StopAll`: the clients stay in the map.
unfoldable pub stop_all : Manager → Manager
stop_all m = record m { calls = m.calls ++ disconnect_calls m.clients }

abbrev pub qr_of : Option ManagedClient → Option QrState
qr_of none = none
qr_of (some mc) = some mc.qr_state

-- `QRState`
unfoldable pub qr_state_of : Bytes → Manager → Option QrState
qr_state_of id m = qr_of (Dict.lookup id m.clients)

-- `All`
unfoldable pub all : Dict ManagedClient → List Bytes
all [] = []
all ((id, mc) ∷ rest) = id ∷ all rest

-- A handler is registered with every client, from the number `next` on.
unfoldable pub add_handlers : ℕ → Dict ManagedClient → Dict ManagedClient
add_handlers next [] = []
add_handlers next ((id, mc) ∷ rest) =
    (id, record mc { handlers = mc.handlers ++ next ∷ [] }) ∷ add_handlers (suc next) rest

-- The numbers that `add_handlers` has given, by instance: the map `ids` of AddEventHandler.
unfoldable pub given_handlers : ℕ → Dict ManagedClient → Dict ℕ
given_handlers next [] = []
given_handlers next ((id, mc) ∷ rest) = (id, next) ∷ given_handlers (suc next) rest

unfoldable pub count : Dict ManagedClient → ℕ
count [] = 0
count ((id, mc) ∷ rest) = suc (count rest)

-- `SubscribeEvents`
unfoldable pub subscribe_events : Manager → Manager
subscribe_events m = record m {
  event_callback = true;
  clients = add_handlers m.next_handler m.clients;
  next_handler = m.next_handler + count m.clients;
}

-- `AddEventHandler`, with the map that its cancel function holds.
unfoldable pub add_event_handler : Manager → Manager × Dict ℕ
add_event_handler m = (
  record m {
    clients = add_handlers m.next_handler m.clients;
    next_handler = m.next_handler + count m.clients;
  },
  given_handlers m.next_handler m.clients,
)

-- `RemoveEventHandler`
unfoldable pub without_handler : ℕ → List ℕ → List ℕ
without_handler h [] = []
without_handler h (k ∷ ks) = let rest = without_handler h ks in if k == h then rest else k ∷ rest

abbrev pub without_given : Option ℕ → ManagedClient → ManagedClient
without_given none mc = mc
without_given (some h) mc = record mc { handlers = without_handler h mc.handlers }

-- The cancel function, on the clients that are there by then.
unfoldable pub cancel_handlers : Dict ℕ → Dict ManagedClient → Dict ManagedClient
cancel_handlers ids [] = []
cancel_handlers ids ((id, mc) ∷ rest) =
    (id, without_given (Dict.lookup id ids) mc) ∷ cancel_handlers ids rest

abbrev pub set_qr_found : Bytes → QrState → Option ManagedClient → Manager → Manager
set_qr_found id q none m = m
set_qr_found id q (some mc) m = record m {
  clients = Dict.insert id (record mc { qr_state = q }) m.clients;
}

-- The buffer of an instance is another one.
unfoldable pub set_qr_state : Bytes → QrState → Manager → Manager
set_qr_state id q m = set_qr_found id q (Dict.lookup id m.clients) m
