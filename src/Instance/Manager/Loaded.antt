-- ===== src/Instance/Manager/Loaded.antt =====
-- The calls of the manager on an instance that the table has, and on one that is loaded as well.
use slimwhats.Base.{◌≡◌, ap, ◌∙◌, none, some, Bytes}
use slimwhats.Base.Dict.{lookup}
use slimwhats.Base.Result.{ok}
use slimwhats.Instance.Store.{Instance}
use slimwhats.Instance.Lookup.{get_by_id}
use slimwhats.Instance.Manager.{
  Manager, ManagedClient, Container, Weather, start, start_found, start_loaded, restart, get,
  get_found, lookup_by_id, looked_up,
}

module _ (c : Container) (w : Weather) (id : Bytes) (m : Manager) where
  pub lookup_by_id-found :
      (inst : Instance)
      → get_by_id w.load_fails id m.db ≡ ok (some inst)
      → lookup_by_id c w id m ≡ ((get c w id m).0, ok (some (inst, (get c w id m).1)))
  unfolding lookup_by_id
  lookup_by_id-found inst h = ap (λ r. looked_up c w id r m) h

  pub lookup_by_id-missing :
      get_by_id w.load_fails id m.db ≡ ok none → lookup_by_id c w id m ≡ (m, ok none)
  unfolding lookup_by_id
  lookup_by_id-missing h = ap (λ r. looked_up c w id r m) h

  pub get-loaded :
      (mc : ManagedClient) → lookup id m.clients ≡ some mc → get c w id m ≡ (m, some mc.client)
  unfolding get
  get-loaded mc h = ap (λ o. get_found c w id o m) h

  pub start-loaded :
      (inst : Instance) (mc : ManagedClient)
      → get_by_id w.load_fails id m.db ≡ ok (some inst)
      → lookup id m.clients ≡ some mc
      → start c w id m ≡ (restart id mc m, ok tt)
  unfolding start
  start-loaded inst mc h loaded =
      ap (λ r. start_found c w id r m) h ∙ ap (λ o. start_loaded c w id inst o m) loaded
