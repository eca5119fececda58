-- ===== src/Instance/Manager/Race.antt =====
-- Start of internal/instance/manager.go as it runs beside other calls: the lock is held while the map
-- is looked up, released while the device is fetched, and held again while the client is published.
use slimwhats.Base.{
  suc, ◌≡◌, refl, Bool, true, List, [], ◌∷◌, ◌++◌, none, some, Bytes, append_assoc, arith,
}
use slimwhats.Base.Dict.{lookup, insert, lookup-insert, insert-insert, str_eq_refl}
use slimwhats.Base.Result.{ok}
use slimwhats.Instance.Store.{Row, Instance, text_or_empty}
use slimwhats.Instance.Lookup.{get_by_id}
use slimwhats.Instance.Manager.{
  Manager, ManagedClient, connect, Container, Weather, device_for, restart, publish, new_client,
  client_of,
}
use slimwhats.Instance.Manager.Numbered.{IsNumbered, IsUnused, IsUnused-insert, IsNumbered-IsUnused}

-- A call of Start that is about to publish its client: the instance, and whether its device has an ID.
pub record Fetched : Type 0 where
  pub id : Bytes
  pub paired : Bool

-- The manager, and the calls between their two locked parts.
pub record System : Type 0 where
  pub manager : Manager
  pub starting : List Fetched

-- The two parts of Start: an instance that is loaded is restarted in the first one.
pub data Step (c : Container) : System → System → Type 0 where
  look_loaded :
      (w : Weather) (id : Bytes) (inst : Instance) (mc : ManagedClient) (m : Manager)
      (s : List Fetched)
      → get_by_id w.load_fails id m.db ≡ ok (some inst)
      → lookup id m.clients ≡ some mc
      → Step c
          (record { manager = m; starting = s })
          (record { manager = restart id mc m; starting = s })
  look_missing :
      (w : Weather) (id : Bytes) (inst : Instance) (db : List Row) (paired : Bool) (m : Manager)
      (s : List Fetched)
      → get_by_id w.load_fails id m.db ≡ ok (some inst)
      → lookup id m.clients ≡ none
      → device_for c w id (text_or_empty inst.jid) m.db ≡ (db, ok paired)
      → Step c
          (record { manager = m; starting = s })
          (record {
            manager = record m { db = db };
            starting = s ++ record { id = id; paired = paired } ∷ [];
          })
  published :
      (f : Fetched) (before after : List Fetched) (m : Manager)
      → Step c
          (record { manager = m; starting = before ++ f ∷ after })
          (record { manager = publish f.id f.paired m; starting = before ++ after })

pub data Run (c : Container) : System → System → Type 0 where
  rest : (s : System) → Run c s s
  step : (s t u : System) → Step c s t → Run c t u → Run c s u

-- Two calls of Start on a paired instance that is not loaded, of which each looks at the map before the
-- other publishes its client, end with a client in the map and another one, connected as well, that
-- is in no entry of the map, so that no call of the manager reaches it any more.
pub start_twice_leaks :
    (c : Container) (w : Weather) (id : Bytes) (inst : Instance) (m : Manager)
    → IsNumbered m.next_client (λ hs. Unit) m.clients
    → get_by_id w.load_fails id m.db ≡ ok (some inst)
    → lookup id m.clients ≡ none
    → device_for c w id (text_or_empty inst.jid) m.db ≡ (m.db, ok true)
    → (after : Manager) × Run c
        (record { manager = m; starting = [] })
        (record { manager = after; starting = [] })
      × (client_of (lookup id after.clients) ≡ some (suc m.next_client))
      × (after.calls ≡ m.calls ++ connect m.next_client ∷ connect (suc m.next_client) ∷ [])
      × IsUnused m.next_client after.clients
start_twice_leaks c w id inst m i row none_yet device = (
  publish id true (publish id true m),
  step _ _ _ (look_missing w id inst m.db true m [] row none_yet device) (
      step _ _ _ (look_missing w id inst m.db true m (f ∷ []) row none_yet device) (
        step _ _ _ (published f [] (f ∷ []) m)
          (step _ _ _ (published f [] [] (publish id true m)) (rest _)))),
  unfold publish in
      rw
        (
          lookup-insert id id (new_client (publish id true m)) (insert id (new_client m) m.clients),
          str_eq_refl id,
        )
        refl,
  unfold publish in
      append_assoc m.calls (connect m.next_client ∷ []) (connect (suc m.next_client) ∷ []),
  unfold publish in
      rw (insert-insert id (new_client (publish id true m)) (new_client m) m.clients) (
        IsUnused-insert m.next_client id (new_client (publish id true m)) m.clients
          (λ e. absurd (omega (arith, e)))
          (IsNumbered-IsUnused m.next_client m.next_client (λ hs. Unit) m.clients (omega arith) i)),
)
  where
    f : Fetched
    f = record { id = id; paired = true }
