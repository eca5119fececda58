-- ===== src/Webhook/Dispatcher/Retry.antt =====
-- `deliver`, `attempt` and `updateDelivery` of internal/webhook/dispatcher.go, on what they change:
-- the counter of requests, the table of deliveries, the requests sent and the sleeps.
pub mod Ending
use slimwhats.Base.{
  ℕ, zero, suc, ◌+◌, Bool, true, false, ◌&&◌, List, [], ◌∷◌, ◌++◌, Option, none, some, Bytes, codes,
  ltb, leb, ◌==◌, if◌then◌else◌,
}
use slimwhats.Base.Result.{Result, ok, err}
use slimwhats.Webhook.Dispatcher.{
  ErrStr, no_error, marshal_failed, build_failed, transport_failed, bad_status,
  is_permanent_failure, Delivery, updated, update_where,
}

-- The answer of an attempt: whether it succeeded, the status code, the error text.
pub record Outcome : Type 0 where
  pub success : Bool
  pub status_code : ℕ
  pub err_str : ErrStr

pub record Event (Data : Type 0) : Type 0 where
  pub event : Bytes
  pub instance_id : Bytes
  pub timestamp : Bytes
  pub payload : Data

pub record Job (Data : Type 0) : Type 0 where
  pub delivery_id : Bytes
  pub instance_id : Bytes
  pub url : Bytes
  pub secret : Bytes
  pub event : Event Data

-- A request as it is sent, with its X-Webhook- headers.
pub record Request : Type 0 where
  pub url : Bytes
  pub body : Bytes
  pub secret : Bytes
  pub event : Bytes
  pub delivery_id : Bytes
  pub attempt : ℕ

-- What lies outside: the encoder, the test of the URL, the answer to the n-th request of the
-- process, and at the n-th attempt the clock and whether the database refuses the update.
pub record Net (Data : Type 0) : Type 0 where
  pub marshal : Event Data → Result Bytes Bytes
  pub bad_url : Bytes → Option Bytes
  pub answer : ℕ → Request → Result Bytes ℕ
  pub clock : ℕ → ℕ
  pub update_fails : ℕ → Bool

pub record World : Type 0 where
  pub current_attempt : ℕ
  pub deliveries : List Delivery
  pub sent : List Request
  pub sleeps : List ℕ

module _ {Data : Type 0} (net : Net Data) (j : Job Data) where
  abbrev pub request : Bytes → ℕ → Request
  request body n = record {
    url = j.url;
    body = body;
    secret = j.secret;
    event = j.event.event;
    delivery_id = j.delivery_id;
    attempt = n;
  }

  abbrev pub outcome_of : Result Bytes ℕ → Outcome
  outcome_of (err e) = record { success = false; status_code = 0; err_str = transport_failed e }
  outcome_of (ok code) =
      if leb 200 code && ltb code 300
      then record { success = true; status_code = code; err_str = no_error }
      else record { success = false; status_code = code; err_str = bad_status code }

  abbrev pub sending : Request → World → World
  sending r w = record {
    current_attempt = suc w.current_attempt;
    deliveries = w.deliveries;
    sent = w.sent ++ r ∷ [];
    sleeps = w.sleeps;
  }

  -- The counter moves, and a request is sent, only behind the encoder and the test of the URL.
  abbrev pub post : Result Bytes Bytes → Option Bytes → World → Outcome × World
  post (err e) bad w = (record { success = false; status_code = 0; err_str = marshal_failed e }, w)
  post (ok body) (some e) w =
      (record { success = false; status_code = 0; err_str = build_failed e }, w)
  post (ok body) none w =
      let r = request body (suc w.current_attempt) in
      (outcome_of (net.answer (suc w.current_attempt) r), sending r w)

  unfoldable pub attempt : World → Outcome × World
  attempt w = post (net.marshal j.event) (net.bad_url j.url) w

  unfoldable pub update_delivery : ℕ → ℕ → Outcome → World → World
  update_delivery max n o w = if net.update_fails n then w else record {
    current_attempt = w.current_attempt;
    deliveries =
        update_where j.delivery_id (updated max n o.success o.status_code o.err_str (net.clock n))
          w.deliveries;
    sent = w.sent;
    sleeps = w.sleeps;
  }

  abbrev pub sleep : ℕ → World → World
  sleep n w = record {
    current_attempt = w.current_attempt;
    deliveries = w.deliveries;
    sent = w.sent;
    sleeps = w.sleeps ++ n ∷ [];
  }

  -- The loop from the n-th attempt on.
  unfoldable pub retry : ℕ → ℕ → ℕ → World → World
  retry max zero n w = w
  retry max (suc fuel) n w =
      let (o, tried) = attempt w in
      let logged = update_delivery max n o tried in
      let rest = retry max fuel (suc n) (sleep n logged) in
      if leb n max
      then (if o.success
          then logged
          else if is_permanent_failure o.status_code
          then logged
          else if n == max
          then logged
          else rest)
      else w

  -- `acquired` is false where the semaphore of the instance has not opened in 5 seconds.
  unfoldable pub deliver : ℕ → Bool → World → World
  deliver max acquired w = if acquired then retry max max 1 w else w
