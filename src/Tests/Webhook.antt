-- ===== src/Tests/Webhook.antt =====
-- internal/webhook/dispatcher.go on small inputs.
use slimwhats.Base.{ℕ, ◌≤◌, ◌≡◌, refl, true, false, [], ◌∷◌, none, codes, length}
use slimwhats.Base.Int.{pos, negsuc}
use slimwhats.Base.Result.{ok}
use slimwhats.Webhook.Dispatcher.{
  Knobs, Config, default_config, new_dispatcher_config, Delivery, pending, dead,
}
use slimwhats.Webhook.Dispatcher.Retry.{Event, Job, Request, Net, World, deliver}
use slimwhats.Webhook.Dispatcher.Retry.Ending.{Ends, Leaves, deliver-Ends}
use slimwhats.Webhook.Dispatcher.Queue.{Pool, panics, new_pool, enqueue, shutdown, Run, here, next}
use slimwhats.Webhook.Dispatcher.Queue.Bounded.{IsBounded, Run-IsBounded, shutdown_drains}

-- Two attempts at most.
abbrev two_attempts : Knobs
two_attempts = record default_config { max_attempts = pos 2; per_instance = negsuc 0 }

abbrev event : Event ℕ
event = record {
  event = codes "message.received";
  instance_id = codes "i1";
  timestamp = codes "now";
  payload = 7;
}

abbrev job : Job ℕ
job = record {
  delivery_id = codes "d1";
  instance_id = codes "i1";
  url = codes "https://a.br";
  secret = codes "s";
  event = event;
}

-- A receiver that always answers 503.
abbrev busy : Net ℕ
busy = record {
  marshal = λ e. ok (codes "{}");
  bad_url = λ u. none;
  answer = λ n r. ok 503;
  clock = λ n. n;
  update_fails = λ n. false;
}

abbrev world : World
world = record {
  current_attempt = 0;
  deliveries =
      record {
        id = codes "d1";
        instance_id = codes "i1";
        event_type = codes "message.received";
        payload = codes "{}";
        status = pending;
        attempts = 0;
        last_status_code = none;
        last_error = none;
        created_at = 0;
        updated_at = 0;
      }
      ∷ [];
  sent = [];
  sleeps = [];
}

deliver_run : (deliver busy job 2 true world).sleeps ≡ 1 ∷ []
unfolding deliver slimwhats.Webhook.Dispatcher.Retry.retry
    slimwhats.Webhook.Dispatcher.Retry.attempt slimwhats.Webhook.Dispatcher.is_permanent_failure
    slimwhats.Webhook.Dispatcher.Retry.update_delivery
deliver_run = refl

deliver-Ends_example :
    (k : ℕ) × Ends busy job (new_dispatcher_config two_attempts).max_attempts 0 1 k
    × Leaves busy job
        (new_dispatcher_config two_attempts).max_attempts
        0
        1
        k
        world
        (deliver busy job (new_dispatcher_config two_attempts).max_attempts true world)
deliver-Ends_example = deliver-Ends busy job two_attempts world

abbrev stopped : Pool ℕ
stopped = record (new_pool ℕ (new_dispatcher_config two_attempts).worker_count) { closed = true }

abbrev stopping :
    Run
      (new_dispatcher_config two_attempts)
      (new_pool ℕ (new_dispatcher_config two_attempts).worker_count)
      stopped
stopping = next here (shutdown refl)

Run-IsBounded_example : IsBounded (new_dispatcher_config two_attempts) stopped
Run-IsBounded_example = Run-IsBounded two_attempts stopping

shutdown_drains_example :
    (length (new_pool ℕ (new_dispatcher_config two_attempts).worker_count).queue
      ≤ length (new_pool ℕ (new_dispatcher_config two_attempts).worker_count).queue)
    × (stopped.closed ≡ true)
    × (enqueue
          (new_dispatcher_config two_attempts)
          (ok (codes "https://a.br", codes "s"))
          (codes "i1")
          (codes "d1")
          event
          stopped
        ≡ panics)
shutdown_drains_example =
    shutdown_drains (new_dispatcher_config two_attempts) b'h' (codes "ttps://a.br") (codes "s")
      (codes "i1") (codes "d1") event refl here
