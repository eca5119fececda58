-- ===== src/Handlers/Lifecycle/Delete.antt =====
-- What the handler of Delete leaves.
use slimwhats.Base.{
  ◌≡◌, refl, ap, ◌∙◌, Bool, true, false, List, [], ◌∷◌, ◌++◌, none, some, Bytes, codes,
  if◌then◌else◌,
}
use slimwhats.Base.Dict.{lookup, str_eq_refl}
use slimwhats.Base.Result.{ok}
use slimwhats.Handlers.Reply.{json, fail}
use slimwhats.Handlers.Lifecycle.{
  Lifecycle, Setting, looked_up, delete_row, deleted, with_manager, delete_instance_handler,
}
use slimwhats.Instance.Store.{Row, Instance, select_id, delete}
use slimwhats.Instance.Store.Table.{select_id-delete}
use slimwhats.Instance.Lookup.{get_by_id, scan_found}
use slimwhats.Instance.Manager.{Manager, get, remove_instance}
use slimwhats.Instance.Manager.Kept.{evict-none}
use slimwhats.Instance.Manager.Loaded.{lookup_by_id-found, lookup_by_id-missing}

-- What stands in the state behind a deletion.
pub record IsGone (id : Bytes) (before after : Lifecycle) : Type 0 where
  pub row_gone : select_id id after.manager.db ≡ none
  pub client_gone : lookup id after.manager.clients ≡ none
  pub entry : after.audit ≡ before.audit ++ (codes "instance.delete", id) ∷ []

remove-gone : (id : Bytes) (m : Manager) → lookup id (remove_instance id m).clients ≡ none
unfolding remove_instance
remove-gone id m = evict-none id (lookup id m.clients) m refl

delete-gone : (id : Bytes) (db : List Row) → select_id id (delete false id db).0 ≡ none
unfolding delete
delete-gone id db = rw (select_id-delete id id db, str_eq_refl id) refl

loads-found :
    (fails : Bool) (id : Bytes) (db : List Row) (inst : Instance)
    → get_by_id fails id db ≡ ok (some inst)
    → fails ≡ false
unfolding get_by_id
loads-found true id db inst h = absurd (cc)
loads-found false id db inst h = refl

missing :
    (fails : Bool) (id : Bytes) (db : List Row)
    → fails ≡ false
    → select_id id db ≡ none
    → get_by_id fails id db ≡ ok none
unfolding get_by_id
missing true id db f h = absurd (cc)
missing false id db f h = ap (scan_found 14) h

-- The handler of Delete on an instance that exists, where the statement works and actions are audited:
-- it answers 200, the row and the client are gone, and one entry is added to the audit log. A second
-- Delete answers 404 and changes nothing.
pub delete_delete :
    (g : Setting) (id : Bytes) (s : Lifecycle) (inst : Instance)
    → get_by_id g.weather.load_fails id s.manager.db ≡ ok (some inst)
    → g.delete_fails ≡ false
    → g.audits ≡ true
    → (t : Lifecycle) × (delete_instance_handler g id s ≡ (t, json 200 (codes "deleted")))
      × IsGone id s t
      × (delete_instance_handler g id t ≡ (t, fail 404 (codes "not_found")))
unfolding delete_instance_handler delete
delete_delete g id s inst found works on = (
  after,
  delete_found,
  record {
    row_gone = delete-gone id removed.db;
    client_gone = remove-gone id looked;
    entry = refl;
  },
  delete_missing,
)
  where
    looked : Manager
    looked = (get g.container g.weather id s.manager).0

    removed : Manager
    removed = remove_instance id looked

    after : Lifecycle
    after = record {
      manager = record removed { db = (delete false id removed.db).0 };
      audit = s.audit ++ (codes "instance.delete", id) ∷ [];
    }

    delete_found : delete_instance_handler g id s ≡ (after, json 200 (codes "deleted"))
    delete_found =
        ap
          (λ r.
            looked_up s r (λ t. delete_row g id (with_manager (remove_instance id t.manager) t)))
          (lookup_by_id-found g.container g.weather id s.manager inst found)
        ∙ ap (λ b. deleted g id (with_manager removed s) (delete b id removed.db)) works
        ∙ ap
            (λ b.
              (if b then after else record after { audit = s.audit }, json 200 (codes "deleted")))
            on

    delete_missing : delete_instance_handler g id after ≡ (after, fail 404 (codes "not_found"))
    delete_missing =
        ap
          (λ r.
            looked_up after r
              (λ t. delete_row g id (with_manager (remove_instance id t.manager) t)))
          (lookup_by_id-missing g.container g.weather id after.manager (
            missing g.weather.load_fails id after.manager.db
              (loads-found g.weather.load_fails id s.manager.db inst found)
              (delete-gone id removed.db)))
