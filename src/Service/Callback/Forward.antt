-- ===== src/Service/Callback/Forward.antt =====
-- What the callback logs, records and queues.
use slimwhats.Instance.Manager.{Manager}
use slimwhats.Base.{
  ◌⊎◌, inl, inr, Bool, Option, ◌≢◌, ◌≤◌, ◌<◌, true, ◌≡◌, refl, false, [], ◌∷◌, ◌++◌, none, some,
  Bytes, arith, length, ltb, if◌then◌else◌,
}
use slimwhats.Base.Result.{Result, ok, err}
use slimwhats.Webhook.Json.{Object}
use slimwhats.Webhook.Normalize.{
  WaEvent, normalize, message_received, receipt, connected, disconnected, logged_out,
  connect_failure, pair_error, pair_passkey_error, pair_success, contact_changed, group_info,
  presence, qr, other_event,
}
use slimwhats.Webhook.Dispatcher.{Delivery, pending}
use slimwhats.Webhook.Dispatcher.Retry.{Event}
use slimwhats.Webhook.Dispatcher.Queue.{Pool, panics, answers, enqueue, offer}
use slimwhats.Instance.Store.{StoreError, load_webhook_secret}
use slimwhats.Service.Log.{line_of, log_entry}
use slimwhats.Service.Callback.{
  Service, Outside, Called, crashed, returned, on_event, forward, logged, deliver_recorded,
  record_delivery, recorded, new_delivery, after_enqueue, loaded, on_client_event,
}

-- The row that RecordDelivery inserts for an event: pending, without an attempt.
pub record IsRecorded (id : Bytes) (e : Event Object) (row : Delivery) : Type 0 where
  pub for_instance : row.instance_id ≡ id
  pub of_type : row.event_type ≡ e.event
  pub is_pending : row.status ≡ pending
  pub untried : row.attempts ≡ 0
  pub unanswered : (row.last_status_code ≡ none) × (row.last_error ≡ none)

-- The queue gets one job behind the others, for the delivery of the row, with the webhook that the table has
-- behind the event; it was open and had room.
pub record IsQueued (o : Outside) (id : Bytes) (e : Event Object) (row : Delivery) (m : Manager)
    (p q : Pool Object) : Type 0 where
  pub url : Bytes
  pub secret : Bytes
  pub hook : load_webhook_secret o.load_fails id m.db ≡ ok (url, secret)
  pub has_url : url ≢ []
  pub opened : p.closed ≡ false
  pub room : length p.queue < o.config.queue_size
  pub queued : q ≡ record p {
    queue =
        p.queue
        ++ record { delivery_id = row.id; instance_id = id; url = url; secret = secret; event = e }
          ∷ [];
  }

-- What an event comes to, on what its switch and its log entry leave.
pub data Forwards (o : Outside) (id : Bytes) (ev : WaEvent) (s : Service) : Called → Type 0 where
  -- It is no event of a webhook, or could not be recorded: nothing is queued.
  ignored :
      ((normalize id o.timestamp ev ≡ none) ⊎ ((o.delivery_id ≡ none) ⊎ (o.record_fails ≡ true)))
      → Forwards o id ev s (returned s)
  -- It is recorded, but has no webhook to go to or finds no room, so that it stays pending.
  kept :
      (e : Event Object) (row : Delivery)
      → normalize id o.timestamp ev ≡ some e
      → o.delivery_id ≡ some row.id
      → IsRecorded id e row
      → ((x : StoreError) × (load_webhook_secret o.load_fails id s.manager.db ≡ err x))
        ⊎ (((secret : Bytes) × (load_webhook_secret o.load_fails id s.manager.db ≡ ok ([], secret)))
            ⊎ (o.config.queue_size ≤ length s.pool.queue))
      → Forwards o id ev s (returned (record s { deliveries = row ∷ s.deliveries }))
  -- It is recorded and queued.
  queued :
      (e : Event Object) (row : Delivery) (p : Pool Object)
      → normalize id o.timestamp ev ≡ some e
      → o.delivery_id ≡ some row.id
      → IsRecorded id e row
      → IsQueued o id e row s.manager s.pool p
      → Forwards o id ev s (returned (record s { deliveries = row ∷ s.deliveries; pool = p }))
  -- The queue is closed.
  panicked : s.pool.closed ≡ true → Forwards o id ev s crashed

new_delivery-IsRecorded :
    (o : Outside) (id d : Bytes) (e : Event Object) → IsRecorded id e (new_delivery o d id e)
new_delivery-IsRecorded o id d e = record {
  for_instance = refl;
  of_type = refl;
  is_pending = refl;
  untried = refl;
  unanswered = (refl, refl);
}

module _ (o : Outside) (id : Bytes) (ev : WaEvent) (s : Service) where
  -- The select of Enqueue, by its two tests.
  offered-Forwards :
      (e : Event Object) (d url secret : Bytes)
      → url ≢ []
      → normalize id o.timestamp ev ≡ some e
      → o.delivery_id ≡ some d
      → load_webhook_secret o.load_fails id s.manager.db ≡ ok (url, secret)
      → (closed room : Bool) → s.pool.closed ≡ closed
      → ltb (length s.pool.queue) o.config.queue_size ≡ room
      → Forwards o id ev s (
          after_enqueue
            (record s { deliveries = new_delivery o d id e ∷ s.deliveries })
            (if closed
              then panics
              else if room
              then answers true (record s.pool {
                queue =
                    s.pool.queue
                    ++ record {
                      delivery_id = d;
                      instance_id = id;
                      url = url;
                      secret = secret;
                      event = e;
                    }
                      ∷ [];
              })
              else answers false s.pool))
  offered-Forwards e d url secret u n f h true room shut free = panicked shut
  offered-Forwards e d url secret u n f h false true opened free =
      queued e (new_delivery o d id e) _ n f (new_delivery-IsRecorded o id d e) (record {
        url = url;
        secret = secret;
        hook = h;
        has_url = u;
        opened = opened;
        room = ground (arith, free);
        queued = refl;
      })
  offered-Forwards e d url secret u n f h false false opened full =
      kept e (new_delivery o d id e) n f (new_delivery-IsRecorded o id d e)
        (inr (inr (ground (arith, full))))

  enqueued-Forwards :
      (e : Event Object) (d : Bytes) (hook : Result StoreError (Bytes × Bytes))
      → normalize id o.timestamp ev ≡ some e
      → o.delivery_id ≡ some d
      → load_webhook_secret o.load_fails id s.manager.db ≡ hook
      → Forwards o id ev s (
          after_enqueue
            (record s { deliveries = new_delivery o d id e ∷ s.deliveries })
            (enqueue o.config (loaded o hook) id d e s.pool))
  unfolding enqueue offer
  enqueued-Forwards e d (err x) n f h =
      kept e (new_delivery o d id e) n f (new_delivery-IsRecorded o id d e) (inl (x, h))
  enqueued-Forwards e d (ok ([], secret)) n f h =
      kept e (new_delivery o d id e) n f (new_delivery-IsRecorded o id d e) (inr (inl (secret, h)))
  enqueued-Forwards e d (ok (c ∷ url, secret)) n f h =
      offered-Forwards e d (c ∷ url) secret (λ z. absurd (ground (arith, z))) n f h s.pool.closed
        (ltb (length s.pool.queue) o.config.queue_size) refl refl

  recorded-Forwards :
      (e : Event Object) (d : Option Bytes) (fails : Bool)
      → normalize id o.timestamp ev ≡ some e
      → o.delivery_id ≡ d
      → o.record_fails ≡ fails
      → Forwards o id ev s (deliver_recorded o id e s (recorded o id e d fails s.deliveries))
  recorded-Forwards e none fails n f r = ignored (inr (inl f))
  recorded-Forwards e (some d) true n f r = ignored (inr (inr r))
  recorded-Forwards e (some d) false n f r = enqueued-Forwards e d _ n f refl

  forward-Forwards :
      (e : Option (Event Object))
      → normalize id o.timestamp ev ≡ e
      → Forwards o id ev s (forward o id e s)
  unfolding record_delivery
  forward-Forwards none n = ignored (inl n)
  forward-Forwards (some e) n = recorded-Forwards e o.delivery_id o.record_fails n refl refl

-- Whatever event comes and whatever fails: an event that is no event of a webhook, or whose row is not inserted,
-- queues nothing; any other has a new row, pending and without an attempt, and either one job for that
-- row is put behind the queue, with the webhook that the table has behind the event, or there is none, or
-- the queue is full, and the row stays pending. The callback panics only where the queue is closed.
pub forwarded_event :
    (o : Outside) (id : Bytes) (ev : WaEvent) (s : Service)
    → Forwards o id ev (logged o id ev s) (on_event o id ev s)
unfolding on_event
forwarded_event o id ev s =
    forward-Forwards o id ev (logged o id ev s) (normalize id o.timestamp ev) refl

-- An event that is not logged is not forwarded either: the logs, the deliveries and the queue stay.
pub unlogged_event :
    (o : Outside) (id : Bytes) (ev : WaEvent) (s : Service)
    → line_of ev ≡ none
    → on_event o id ev s ≡ returned (record s { manager = on_client_event o id ev s.manager })
unfolding on_event log_entry line_of normalize
unlogged_event o id (qr batch) s h = refl
unlogged_event o id (other_event name) s h = refl
unlogged_event o id (message_received i m) s h = absurd (cc)
unlogged_event o id (receipt k i c n t) s h = absurd (cc)
unlogged_event o id connected s h = absurd (cc)
unlogged_event o id disconnected s h = absurd (cc)
unlogged_event o id (logged_out r) s h = absurd (cc)
unlogged_event o id (connect_failure a b c) s h = absurd (cc)
unlogged_event o id (pair_error a) s h = absurd (cc)
unlogged_event o id (pair_passkey_error a b) s h = absurd (cc)
unlogged_event o id (pair_success a b) s h = absurd (cc)
unlogged_event o id (contact_changed a b) s h = absurd (cc)
unlogged_event o id (group_info a b c) s h = absurd (cc)
unlogged_event o id (presence a b c) s h = absurd (cc)
