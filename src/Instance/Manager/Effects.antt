-- ===== src/Instance/Manager/Effects.antt =====
-- What Start may do to the manager, as a relation that the other proofs take cases on.
use slimwhats.Base.{◌≡◌, refl, Bool, List, Option, none, some, Bytes}
use slimwhats.Base.Dict.{lookup}
use slimwhats.Base.Result.{Result, ok, err}
use slimwhats.Instance.Store.{Row, Instance, StoreError, text_or_empty}
use slimwhats.Instance.Lookup.{get_by_id}
use slimwhats.Instance.Manager.{
  Manager, ManagedClient, Container, Weather, StartError, start, start_found, start_loaded,
  start_new, publish, device_for, restart,
}

pub data Started (id : Bytes) (m : Manager) : Manager → Type 0 where
  stopped : (db : List Row) → Started id m (record m { db = db })
  again : (mc : ManagedClient) → lookup id m.clients ≡ some mc → Started id m (restart id mc m)
  fresh :
      (paired : Bool) (db : List Row)
      → lookup id m.clients ≡ none
      → Started id m (publish id paired (record m { db = db }))

start_new-Started :
    (id : Bytes) (m : Manager) (r : List Row × Result StartError Bool)
    → lookup id m.clients ≡ none
    → Started id m (start_new id m r).0
start_new-Started id m (db, err e) h = stopped db
start_new-Started id m (db, ok paired) h = fresh paired db h

start_loaded-Started :
    (c : Container) (w : Weather) (id : Bytes) (inst : Instance) (m : Manager)
    (o : Option ManagedClient)
    → lookup id m.clients ≡ o
    → Started id m (start_loaded c w id inst o m).0
start_loaded-Started c w id inst m none h =
    start_new-Started id m (device_for c w id (text_or_empty inst.jid) m.db) h
start_loaded-Started c w id inst m (some mc) h = again mc h

start_found-Started :
    (c : Container) (w : Weather) (id : Bytes) (r : Result StoreError (Option Instance))
    (m : Manager)
    → Started id m (start_found c w id r m).0
start_found-Started c w id (err e) m = stopped m.db
start_found-Started c w id (ok none) m = stopped m.db
start_found-Started c w id (ok (some inst)) m =
    start_loaded-Started c w id inst m (lookup id m.clients) refl

pub start-Started :
    (c : Container) (w : Weather) (id : Bytes) (m : Manager) → Started id m (start c w id m).0
unfolding start
start-Started c w id m = start_found-Started c w id (get_by_id w.load_fails id m.db) m
