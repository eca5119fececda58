-- ===== src/Service/Callback/Status.antt =====
-- What the events of a client do to the status and the identity in the table of the instances.
use slimwhats.Base.{
  ℕ, ◌≡◌, refl, true, false, List, Option, none, some, Bytes, before_byte, inl, inr, Bool-cases,
  if◌then◌else◌,
}
use slimwhats.Base.Dict.{lookup, lookup-insert, str_eq_refl}
use slimwhats.Instance.Store.{
  Row, select_id, update_rows, set_status, set_identity, unless_empty, coalesce,
}
use slimwhats.Instance.Store
use slimwhats.Instance.Store.Table.{select_id-update_rows}
use slimwhats.Instance.Manager.{
  Manager, ManagedClient, disconnect_instance, is_expected_disconnect, get,
}
use slimwhats.Service.Callback.{
  Outside, Identity, lid_text, on_disconnected, on_connected, on_client_event,
}
use slimwhats.Base.{ap, ◌∙◌}
use slimwhats.Instance.Qr
use slimwhats.Instance.Qr.{QrState}
use slimwhats.Instance.Manager.{
  Weather, logout_and_reset, clear_identity, without_identity, qr_state_of, set_qr_state,
  set_qr_found,
}
use slimwhats.Service.Callback.{set_batch}
use slimwhats.Webhook.Normalize.{
  WaEvent, message_received, receipt, connected, disconnected, logged_out, connect_failure,
  pair_error, pair_passkey_error, pair_success, contact_changed, group_info, presence, qr,
  other_event,
}

select-set_status :
    (id : Bytes) (st : Store.Status) (c l : Option ℕ) (now : ℕ) (db : List Row) (row : Row)
    → select_id id db ≡ some row
    → select_id id (set_status false id st c l now db).0
      ≡ some (record row {
        status = st;
        connected_at = coalesce c row.connected_at;
        last_seen_at = coalesce l row.last_seen_at;
        updated_at = now;
      })
unfolding set_status
select-set_status id st c l now db row h =
    rw
      (
        select_id-update_rows
            (λ r. record r {
              status = st;
              connected_at = coalesce c r.connected_at;
              last_seen_at = coalesce l r.last_seen_at;
              updated_at = now;
            })
            (λ r. refl) id id db,
        str_eq_refl id,
        h,
      )
      refl

select-set_identity :
    (id jid lid phone : Bytes) (now : ℕ) (db : List Row) (row : Row)
    → select_id id db ≡ some row
    → select_id id (set_identity false id jid lid phone now db).0
      ≡ some (record row {
        jid = unless_empty jid row.jid;
        lid = unless_empty lid row.lid;
        phone = unless_empty phone row.phone;
        updated_at = now;
      })
unfolding set_identity
select-set_identity id jid lid phone now db row h =
    rw
      (
        select_id-update_rows
            (λ r. record r {
              jid = unless_empty jid r.jid;
              lid = unless_empty lid r.lid;
              phone = unless_empty phone r.phone;
              updated_at = now;
            })
            (λ r. refl) id id db,
        str_eq_refl id,
        h,
      )
      refl

pub disconnected_event :
    (o : Outside) (id : Bytes) (m : Manager) (mc : ManagedClient) (row : Row)
    → lookup id m.clients ≡ some mc
    → select_id id m.db ≡ some row
    → o.status_fails ≡ false
    → (on_client_event o id disconnected (disconnect_instance id m).0
        ≡ (disconnect_instance id m).0)
      × (select_id id (on_client_event o id disconnected m).db
          ≡ some (
              if mc.expected_disconnect
              then row
              else record row { status = Store.disconnected; updated_at = o.weather.now }))
unfolding on_client_event on_disconnected is_expected_disconnect disconnect_instance
disconnected_event o id m mc row h found works = (
  rw (h, lookup-insert id id (record mc { expected_disconnect = true }) m.clients, str_eq_refl id)
      refl,
  elim (Bool-cases mc.expected_disconnect) [
    | inl e ↦ rw (h, e, found) refl
    | inr e ↦
        rw (h, e, works)
          (select-set_status id Store.disconnected none none o.weather.now m.db row found)
  ],
)

-- The Connected event of a loaded client with an identity sets the status to "connected" with the two
-- times, and stores the JID, the LID and the phone; where one of these is empty, the old one is kept.
connected_event :
    (o : Outside) (id : Bytes) (m : Manager) (mc : ManagedClient) (row : Row) (i : Identity)
    → lookup id m.clients ≡ some mc
    → select_id id m.db ≡ some row
    → o.identity mc.client ≡ some i
    → o.status_fails ≡ false
    → o.identity_fails ≡ false
    → select_id id (on_client_event o id connected m).db
      ≡ some (record row {
        status = Store.connected;
        connected_at = some o.weather.now;
        last_seen_at = some o.weather.now;
        jid = unless_empty i.jid.text row.jid;
        lid = unless_empty (lid_text i.lid) row.lid;
        phone = unless_empty (before_byte 58 i.jid.user) row.phone;
        updated_at = o.weather.now;
      })
unfolding on_client_event on_connected get
connected_event o id m mc row i h found known works stored =
    rw (works, h, known, stored)
      (select-set_identity id i.jid.text (lid_text i.lid) (before_byte 58 i.jid.user) o.weather.now
        (set_status false id Store.connected (some o.weather.now) (some o.weather.now) o.weather.now
          m.db).0
        _
        (select-set_status id Store.connected (some o.weather.now) (some o.weather.now)
          o.weather.now m.db row found))

-- The row of a loaded instance behind an event of its client.
abbrev pub row_after : Outside → WaEvent → ManagedClient → Identity → Row → Row
row_after o connected mc i row = record row {
  status = Store.connected;
  connected_at = some o.weather.now;
  last_seen_at = some o.weather.now;
  jid = unless_empty i.jid.text row.jid;
  lid = unless_empty (lid_text i.lid) row.lid;
  phone = unless_empty (before_byte 58 i.jid.user) row.phone;
  updated_at = o.weather.now;
}
row_after o disconnected mc i row =
    if mc.expected_disconnect
    then row
    else record row { status = Store.disconnected; updated_at = o.weather.now }
row_after o (logged_out reason) mc i row = record row {
  jid = none;
  lid = none;
  phone = none;
  status = Store.pairing;
  updated_at = o.weather.now;
}
row_after o _ mc i row = row

select-logout :
    (w : Weather) (id : Bytes) (m : Manager) (row : Row)
    → select_id id m.db ≡ some row
    → w.update_fails ≡ false
    → select_id id (logout_and_reset w id m).0.db ≡ some (without_identity w.now row)
unfolding logout_and_reset clear_identity
select-logout w id m row h works =
    rw
      (
        works,
        select_id-update_rows (without_identity w.now) (λ r. refl) id id m.db,
        str_eq_refl id,
        h,
      )
      refl

set_batch-db :
    (id : Bytes) (batch : List Bytes) (q : Option QrState) (m : Manager)
    → (set_batch id batch q m).db ≡ m.db
unfolding set_qr_state
set_batch-db id batch none m = refl
set_batch-db id batch (some q) m = found-db (lookup id m.clients)
  where
    found-db : (c : Option ManagedClient) → (set_qr_found id (Qr.set batch q) c m).db ≡ m.db
    found-db none = refl
    found-db (some mc) = refl

-- For a loaded instance of the table, whose client has an identity, and where the statements work, each event
-- has one effect on the row. Connected sets the status "connected" with both times, and the JID, the LID and
-- the phone, of which an empty one leaves the old; Disconnected sets "disconnected" unless it was expected;
-- LoggedOut clears the identity and sets "pairing"; and every other event leaves the row as it is.
pub event_row :
    (o : Outside) (id : Bytes) (ev : WaEvent) (m : Manager) (mc : ManagedClient) (row : Row)
    (i : Identity)
    → lookup id m.clients ≡ some mc
    → select_id id m.db ≡ some row
    → o.identity mc.client ≡ some i
    → o.status_fails ≡ false
    → o.identity_fails ≡ false
    → o.weather.update_fails ≡ false
    → select_id id (on_client_event o id ev m).db ≡ some (row_after o ev mc i row)
unfolding on_client_event
event_row o id connected m mc row i h found known works stored clears =
    connected_event o id m mc row i h found known works stored
event_row o id disconnected m mc row i h found known works stored clears =
    (disconnected_event o id m mc row h found works).1
event_row o id (logged_out r) m mc row i h found known works stored clears =
    select-logout o.weather id m row found clears
event_row o id (qr batch) m mc row i h found known works stored clears =
    ap (select_id id) (set_batch-db id batch (qr_state_of id m) m) ∙ found
event_row o id (message_received i' m') m mc row i h found known works stored clears = found
event_row o id (receipt k i' c n t) m mc row i h found known works stored clears = found
event_row o id (connect_failure a b c) m mc row i h found known works stored clears = found
event_row o id (pair_error a) m mc row i h found known works stored clears = found
event_row o id (pair_passkey_error a b) m mc row i h found known works stored clears = found
event_row o id (pair_success a b) m mc row i h found known works stored clears = found
event_row o id (contact_changed a b) m mc row i h found known works stored clears = found
event_row o id (group_info a b c) m mc row i h found known works stored clears = found
event_row o id (presence a b c) m mc row i h found known works stored clears = found
event_row o id (other_event n) m mc row i h found known works stored clears = found
