-- ===== src/Webhook/Dispatcher/Queue.antt =====
-- The channel, the workers and the semaphores of internal/webhook/dispatcher.go as a system of
-- steps: `Enqueue`, `Shutdown`, and what `worker` and `deliver` do around the retry loop.
pub mod Bounded
use slimwhats.Base.{
  ℕ, zero, suc, ◌+◌, ◌≡◌, ◌<◌, Bool, true, false, List, [], ◌∷◌, ◌++◌, Bytes, length, ltb, is_empty,
  if◌then◌else◌, ◌-◌, ◌==◌, Option, none, some,
}
use slimwhats.Base.Dict.{Dict, lookup, insert}
use slimwhats.Base.Result.{Result, ok, err}
use slimwhats.Webhook.Dispatcher.{Config}
use slimwhats.Webhook.Dispatcher.Retry.{Job, Event}

-- A job that a worker has taken, with the channel that `semFor` gave it for its instance.
pub record Taken (Data : Type 0) : Type 0 where
  pub channel : ℕ
  pub job : Job Data

-- `idle` are the workers at the queue, `waiting` the jobs whose worker waits for a place in its channel, and
-- `holding` those that have put their token there. A channel is a number, and `buffered` tells how many
-- tokens are in each; `sem` is the map of the channels.
pub record Pool (Data : Type 0) : Type 0 where
  pub queue : List (Job Data)
  pub closed : Bool
  pub idle : ℕ
  pub sem : Dict ℕ
  pub next_channel : ℕ
  pub buffered : ℕ → ℕ
  pub waiting : List (Taken Data)
  pub holding : List (Taken Data)

-- `NewDispatcher`, and `Start` with its number of workers.
abbrev pub new_pool : (Data : Type 0) → ℕ → Pool Data
new_pool Data workers = record {
  queue = [];
  closed = false;
  idle = workers;
  sem = [];
  next_channel = 0;
  buffered = λ c. 0;
  waiting = [];
  holding = [];
}

-- A token more in a channel, and one less.
abbrev pub put_token : ℕ → (ℕ → ℕ) → ℕ → ℕ
put_token c f k = if k == c then suc (f k) else f k

abbrev pub take_token : ℕ → (ℕ → ℕ) → ℕ → ℕ
take_token c f k = if k == c then f k - 1 else f k

-- What `Enqueue` comes to; a send on the closed channel panics.
pub data Enqueued (Data : Type 0) : Type 0 where
  panics : Enqueued Data
  answers : Bool → Pool Data → Enqueued Data

module _ {Data : Type 0} where
  -- The select with its default, on a job.
  unfoldable pub offer : Config → Job Data → Pool Data → Enqueued Data
  offer cfg j p =
      if p.closed
      then panics
      else if ltb (length p.queue) cfg.queue_size
      then answers true (record p { queue = p.queue ++ j ∷ [] })
      else answers false p

  -- `loaded` is the answer of LoadWebhookSecret, the URL and the secret.
  unfoldable pub enqueue :
      Config → Result Bytes (Bytes × Bytes) → Bytes → Bytes → Event Data → Pool Data → Enqueued Data
  enqueue cfg (err e) instance_id delivery_id ev p = answers false p
  enqueue cfg (ok (url, secret)) instance_id delivery_id ev p =
      if is_empty url
      then answers false p
      else offer cfg
          (record {
            delivery_id = delivery_id;
            instance_id = instance_id;
            url = url;
            secret = secret;
            event = ev;
          })
          p

  -- A new channel is stored, so that the next job of the instance gets the same one.
  abbrev pub stored_channel : Bytes → Pool Data → Option ℕ → Pool Data × ℕ
  stored_channel instance_id p (some c) = (p, c)
  stored_channel instance_id p none = (
    record p { sem = insert instance_id p.next_channel p.sem; next_channel = suc p.next_channel },
    p.next_channel,
  )

  -- `semFor`
  unfoldable pub sem_for : Bytes → Pool Data → Pool Data × ℕ
  sem_for instance_id p = stored_channel instance_id p (lookup instance_id p.sem)

  -- A worker has taken a job from the queue, and asks for its channel.
  abbrev pub taken : Job Data → ℕ → Pool Data × ℕ → Pool Data
  taken j idle (p, c) = record p {
    idle = idle;
    waiting = record { channel = c; job = j } ∷ p.waiting;
  }

  -- Enqueue from anywhere; a worker takes a job; its token finds room in the channel, which holds PerInstance
  -- tokens, or the worker gives up after 5 seconds; a delivery ends and takes its token back; Shutdown
  -- closes the queue; and a worker leaves a closed queue that is empty.
  pub data Step (cfg : Config) (p : Pool Data) : Pool Data → Type 0 where
    call :
        {q : Pool Data} (loaded : Result Bytes (Bytes × Bytes)) (instance_id delivery_id : Bytes)
        (ev : Event Data) (b : Bool)
        → enqueue cfg loaded instance_id delivery_id ev p ≡ answers b q
        → Step cfg p q
    receive :
        (j : Job Data) (js : List (Job Data)) (idle : ℕ)
        → p.queue ≡ j ∷ js
        → p.idle ≡ suc idle
        → Step cfg p (taken j idle (sem_for j.instance_id (record p { queue = js })))
    acquire :
        (before : List (Taken Data)) (t : Taken Data) (after : List (Taken Data))
        → p.waiting ≡ before ++ t ∷ after
        → p.buffered t.channel < cfg.per_instance
        → Step cfg p (record p {
          buffered = put_token t.channel p.buffered;
          waiting = before ++ after;
          holding = t ∷ p.holding;
        })
    give_up :
        (before : List (Taken Data)) (t : Taken Data) (after : List (Taken Data))
        → p.waiting ≡ before ++ t ∷ after
        → Step cfg p (record p { idle = suc p.idle; waiting = before ++ after })
    finish :
        (before : List (Taken Data)) (t : Taken Data) (after : List (Taken Data))
        → p.holding ≡ before ++ t ∷ after
        → Step cfg p (record p {
          idle = suc p.idle;
          buffered = take_token t.channel p.buffered;
          holding = before ++ after;
        })
    shutdown : p.closed ≡ false → Step cfg p (record p { closed = true })
    leave :
        (idle : ℕ)
        → p.closed ≡ true
        → p.queue ≡ []
        → p.idle ≡ suc idle
        → Step cfg p (record p { idle = idle })

  -- Any number of steps.
  pub data Run (cfg : Config) (p : Pool Data) : Pool Data → Type 0 where
    here : Run cfg p p
    next : {q r : Pool Data} → Run cfg p q → Step cfg q r → Run cfg p r
