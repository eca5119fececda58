-- ===== src/Instance/Manager/Kept.antt =====
-- What Start, Disconnect and LogoutAndReset keep, and what they change.
use slimwhats.Base.{
  ◌++◌, List, [], ◌∷◌, ◌≡◌, refl, ap, true, false, Option, none, some, Bytes, arith, str_eq_iff,
}
use slimwhats.Base.Dict.{Dict, lookup, insert, lookup-insert, lookup-remove, str_eq_refl}
use slimwhats.Instance.Store.{Row, select_id, instance_of, pairing}
use slimwhats.Instance.Store.Table.{select_id-update_rows}
use slimwhats.Instance.Lookup.{get_by_id, scan_instance_rows}
use slimwhats.Instance.Manager.{
  Call, disconnect, Manager, ManagedClient, Container, Weather, start, publish, new_client, evict,
  logout_and_reset, clear_identity, without_identity, client_of, get, device_for,
}
use slimwhats.Instance.Manager.Effects.{Started, stopped, again, fresh, start-Started}

insert-keeps :
    (id j : Bytes) (mc new : ManagedClient) (d : Dict ManagedClient)
    → lookup id d ≡ none
    → lookup j d ≡ some mc
    → lookup j (insert id new d) ≡ some mc
insert-keeps id j mc new d n h = ground (arith, lookup-insert id j new d, str_eq_iff id j, n, h)

Started-keeps :
    (id j : Bytes) (m after : Manager) (mc : ManagedClient)
    → Started id m after
    → lookup j m.clients ≡ some mc
    → client_of (lookup j after.clients) ≡ some mc.client
unfolding publish
Started-keeps id j m _ mc (stopped db) h = rw h refl
Started-keeps id j m _ mc (again old p) h = ground (
  arith,
  lookup-insert id j (record old { expected_disconnect = false }) m.clients,
  str_eq_iff id j,
  p,
  h,
)
Started-keeps id j m _ mc (fresh true db p) h = ap client_of (insert-keeps id j mc _ m.clients p h)
Started-keeps id j m _ mc (fresh false db p) h = ap client_of (insert-keeps id j mc _ m.clients p h)

-- Whatever Start answers, on this instance or on another, a client that is loaded stays the client
-- of its instance.
pub start-keeps :
    (c : Container) (w : Weather) (id j : Bytes) (m : Manager) (mc : ManagedClient)
    → lookup j m.clients ≡ some mc
    → client_of (lookup j (start c w id m).0.clients) ≡ some mc.client
start-keeps c w id j m mc h = Started-keeps id j m _ mc (start-Started c w id m) h

-- Get on a row without JID that is not loaded.
get-fresh :
    (c : Container) (v : Weather) (id : Bytes) (m : Manager) (row : Row)
    → lookup id m.clients ≡ none
    → select_id id m.db ≡ some row
    → row.jid ≡ none
    → v.load_fails ≡ false
    → get c v id m ≡ (publish id false m, some m.next_client)
unfolding get start get_by_id publish device_for scan_instance_rows instance_of
get-fresh c v id m row n h e loads =
    rw (n, loads, h, e, n, lookup-insert id id (new_client m) m.clients, str_eq_refl id) refl

pub evict-none :
    (id : Bytes) (o : Option ManagedClient) (m : Manager)
    → lookup id m.clients ≡ o
    → lookup id (evict id o m).clients ≡ none
evict-none id none m h = h
evict-none id (some mc) m h = rw (lookup-remove id id m.clients, str_eq_refl id) refl

evict-next :
    (id : Bytes) (o : Option ManagedClient) (m : Manager)
    → (evict id o m).next_client ≡ m.next_client
evict-next id none m = refl
evict-next id (some mc) m = refl

-- The calls of a manager, with Disconnect of a client that is loaded.
abbrev pub disconnected : Option ManagedClient → List Call → List Call
disconnected none calls = calls
disconnected (some mc) calls = calls ++ disconnect mc.client ∷ []

evict-calls :
    (id : Bytes) (o : Option ManagedClient) (m : Manager)
    → (evict id o m).calls ≡ disconnected o m.calls
evict-calls id none m = refl
evict-calls id (some mc) m = refl

-- LogoutAndReset on an instance of the table, and then Get on it, where neither the UPDATE nor the look at the
-- row fails: Disconnect is called on the client that was loaded, if any, and no other call is made; the row
-- keeps all but its JID, LID and phone, which are gone, and its status, which is "pairing"; and Get
-- answers a client with a new number.
pub logout-get :
    (c : Container) (w v : Weather) (id : Bytes) (m : Manager) (row : Row)
    → select_id id m.db ≡ some row
    → w.update_fails ≡ false
    → v.load_fails ≡ false
    → ((get c v id (logout_and_reset w id m).0).1 ≡ some m.next_client)
      × ((get c v id (logout_and_reset w id m).0).0.calls
          ≡ disconnected (lookup id m.clients) m.calls)
      × (select_id id (get c v id (logout_and_reset w id m).0).0.db
          ≡ some (record row {
            jid = none;
            lid = none;
            phone = none;
            status = pairing;
            updated_at = w.now;
          }))
logout-get c w v id m row h works loads =
    let gone = evict-none id (lookup id m.clients) m refl in
    let cleared : select_id id (logout_and_reset w id m).0.db ≡ some (without_identity w.now row) =
      (unfold logout_and_reset clear_identity in
        rw
          (
            works,
            select_id-update_rows (without_identity w.now) (λ r. refl) id id m.db,
            str_eq_refl id,
            h,
          )
          refl) in
    let found =
      get-fresh c v id (logout_and_reset w id m).0 (without_identity w.now row)
        (unfold logout_and_reset in gone) cleared refl loads in
    rw found (
      unfold logout_and_reset publish in
      (
        ap some (evict-next id (lookup id m.clients) m),
        evict-calls id (lookup id m.clients) m,
        cleared,
      ))
