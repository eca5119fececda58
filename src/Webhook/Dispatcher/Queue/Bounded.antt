-- ===== src/Webhook/Dispatcher/Queue/Bounded.antt =====
-- The bounds of the queue, the workers and the semaphores in every state that the dispatcher reaches.
use mathlib.Core.Path.{subst}
use slimwhats.Base.{
  ℕ, suc, ◌+◌, ◌≤◌, ◌≡◌, refl, Bool, true, List, [], ◌∷◌, ◌++◌, Bytes, length, arith, length-append,
  ap, ◌∙◌, str_eq, str_eq_iff, ◌==◌, ==_iff, ltb, Option, none, some, Option-cases, All, Bool-cases,
  inl, inr, if◌then◌else◌,
}
use slimwhats.Base.Dict.{Dict, lookup, insert, lookup-insert, str_eq_refl}
use slimwhats.Base.Result.{Result, ok, err}
use slimwhats.Webhook.Dispatcher.{Config, Knobs, new_dispatcher_config}
use slimwhats.Webhook.Dispatcher.Retry.{Job, Event}
use slimwhats.Webhook.Dispatcher.Queue.{
  Pool, Taken, panics, answers, offer, enqueue, sem_for, stored_channel, taken, Step, call, receive,
  acquire, give_up, finish, shutdown, leave, Run, here, next, new_pool,
}

module _ {Data : Type 0} where
  -- How many of the jobs are of the instance.
  unfoldable pub jobs_of : Bytes → List (Taken Data) → ℕ
  jobs_of id [] = 0
  jobs_of id (t ∷ ts) = (if str_eq t.job.instance_id id then 1 else 0) + jobs_of id ts

  -- How many of the jobs have their token in the channel.
  unfoldable tokens : ℕ → List (Taken Data) → ℕ
  tokens c [] = 0
  tokens c (t ∷ ts) = (if c == t.channel then 1 else 0) + tokens c ts

  tokens-append :
      (c : ℕ) (xs ys : List (Taken Data)) → tokens c (xs ++ ys) ≡ tokens c xs + tokens c ys
  unfolding tokens
  tokens-append c [] ys = omega arith
  tokens-append c (x ∷ xs) ys = omega (arith, tokens-append c xs ys)

  length-middle :
      (xs : List (Taken Data)) (t : Taken Data) (ys : List (Taken Data))
      → length (xs ++ t ∷ ys) ≡ suc (length (xs ++ ys))
  length-middle xs t ys = omega (arith, length-append xs (t ∷ ys), length-append xs ys)

  tokens-middle :
      (c : ℕ) (xs : List (Taken Data)) (t : Taken Data) (ys : List (Taken Data))
      → tokens c (xs ++ t ∷ ys) ≡ (if c == t.channel then 1 else 0) + tokens c (xs ++ ys)
  unfolding tokens
  tokens-middle c xs t ys = omega (arith, tokens-append c xs (t ∷ ys), tokens-append c xs ys)

  -- The map has the channel of the job for its instance.
  abbrev IsKnown : Dict ℕ → Taken Data → Type 0
  IsKnown sem t = lookup t.job.instance_id sem ≡ some t.channel

  IsKnown-middle :
      (sem : Dict ℕ) (xs : List (Taken Data)) (t : Taken Data) (ys : List (Taken Data))
      → All (IsKnown sem) (xs ++ t ∷ ys)
      → IsKnown sem t × All (IsKnown sem) (xs ++ ys)
  IsKnown-middle sem [] t ys (k, a) = (k, a)
  IsKnown-middle sem (x ∷ xs) t ys (k, a) =
      let (first, rest) = IsKnown-middle sem xs t ys a in (first, (k, rest))

  -- The tokens in the channels are those of the jobs, and every job of an instance has its channel.
  record IsTracked (cfg : Config) (p : Pool Data) : Type 0 where
    queued : length p.queue ≤ cfg.queue_size
    busy : p.idle + (length p.waiting + length p.holding) ≤ cfg.worker_count
    room : (c : ℕ) → p.buffered c ≤ cfg.per_instance
    counted : (c : ℕ) → tokens c p.holding ≡ p.buffered c
    known_waiting : All (IsKnown p.sem) p.waiting
    known_holding : All (IsKnown p.sem) p.holding

  IsTracked-queue :
      (cfg : Config) (p : Pool Data) (qs : List (Job Data))
      → length qs ≤ cfg.queue_size
      → IsTracked cfg p
      → IsTracked cfg (record p { queue = qs })
  IsTracked-queue cfg p qs l i = record {
    queued = l;
    busy = i.busy;
    room = i.room;
    counted = i.counted;
    known_waiting = i.known_waiting;
    known_holding = i.known_holding;
  }

  offer-IsTracked :
      (cfg : Config) (j : Job Data) (p q : Pool Data) (b : Bool)
      → IsTracked cfg p
      → offer cfg j p ≡ answers b q
      → IsTracked cfg q
  unfolding offer
  offer-IsTracked cfg j p q b i e = elim (Bool-cases p.closed) [
    | inl shut ↦ absurd (ground (arith, shut))
    | inr opened ↦ elim (Bool-cases (ltb (length p.queue) cfg.queue_size)) [
      | inl room ↦
          let same : q ≡ record p { queue = p.queue ++ j ∷ [] } = ground (arith, opened, room) in
          rw same (
            IsTracked-queue cfg p (p.queue ++ j ∷ [])
              (ground (arith, room, length-append p.queue (j ∷ []))) i)
      | inr full ↦ let same : q ≡ p = ground (arith, opened, full) in rw same i
    ]
  ]

  enqueue-IsTracked :
      (cfg : Config) (loaded : Result Bytes (Bytes × Bytes)) (id d : Bytes) (ev : Event Data)
      (p q : Pool Data) (b : Bool)
      → IsTracked cfg p
      → enqueue cfg loaded id d ev p ≡ answers b q
      → IsTracked cfg q
  unfolding enqueue
  enqueue-IsTracked cfg (err e) id d ev p q b i h = let same : q ≡ p = ground arith in rw same i
  enqueue-IsTracked cfg (ok ([], secret)) id d ev p q b i h =
      let same : q ≡ p = ground arith in rw same i
  enqueue-IsTracked cfg (ok (c ∷ url, secret)) id d ev p q b i h = offer-IsTracked cfg _ p q b i h

  -- A new channel for an instance without one hides no other.
  IsKnown-insert :
      (id : Bytes) (c : ℕ) (sem : Dict ℕ) (ts : List (Taken Data))
      → lookup id sem ≡ none
      → All (IsKnown sem) ts
      → All (IsKnown (insert id c sem)) ts
  IsKnown-insert id c sem [] n a = tt
  IsKnown-insert id c sem (t ∷ ts) n (k, a) = (
    ground (arith, lookup-insert id t.job.instance_id c sem, str_eq_iff id t.job.instance_id, n, k),
    IsKnown-insert id c sem ts n a,
  )

  stored-IsTracked :
      (cfg : Config) (p : Pool Data) (j : Job Data) (idle : ℕ) (o : Option ℕ)
      → lookup j.instance_id p.sem ≡ o
      → p.idle ≡ suc idle
      → IsTracked cfg p
      → IsTracked cfg (taken j idle (stored_channel j.instance_id p o))
  stored-IsTracked cfg p j idle (some c) found h i = record {
    queued = i.queued;
    busy = omega (arith, i.busy, h);
    room = i.room;
    counted = i.counted;
    known_waiting = (found, i.known_waiting);
    known_holding = i.known_holding;
  }
  stored-IsTracked cfg p j idle none missing h i = record {
    queued = i.queued;
    busy = omega (arith, i.busy, h);
    room = i.room;
    counted = i.counted;
    known_waiting = (
      lookup-insert j.instance_id j.instance_id p.next_channel p.sem
          ∙ rw (str_eq_refl j.instance_id) refl,
      IsKnown-insert j.instance_id p.next_channel p.sem p.waiting missing i.known_waiting,
    );
    known_holding =
        IsKnown-insert j.instance_id p.next_channel p.sem p.holding missing i.known_holding;
  }

  taken-IsTracked :
      (cfg : Config) (p : Pool Data) (j : Job Data) (idle : ℕ)
      → p.idle ≡ suc idle
      → IsTracked cfg p
      → IsTracked cfg (taken j idle (sem_for j.instance_id p))
  unfolding sem_for
  taken-IsTracked cfg p j idle h i =
      stored-IsTracked cfg p j idle (lookup j.instance_id p.sem) refl h i

  Step-IsTracked :
      (cfg : Config) {p q : Pool Data} → IsTracked cfg p → Step cfg p q → IsTracked cfg q
  unfolding tokens
  Step-IsTracked cfg {p} {q} i (call loaded id d ev b e) =
      enqueue-IsTracked cfg loaded id d ev p q b i e
  Step-IsTracked cfg {p} i (receive j js idle e h) =
      taken-IsTracked cfg (record p { queue = js }) j idle h
        (IsTracked-queue cfg p js (omega (arith, i.queued, ap length e)) i)
  Step-IsTracked cfg {p} i (acquire before t after e h) =
      let (first, rest) =
        IsKnown-middle p.sem before t after (subst (All (IsKnown p.sem)) e i.known_waiting) in
      record {
        queued = i.queued;
        busy = omega (arith, i.busy, ap length e, length-middle before t after);
        room = λ c. ground (arith, i.room c, h, ==_iff c t.channel);
        counted = λ c. ground (arith, i.counted c);
        known_waiting = rest;
        known_holding = (first, i.known_holding);
      }
  Step-IsTracked cfg {p} i (give_up before t after e) = record {
    queued = i.queued;
    busy = omega (arith, i.busy, ap length e, length-middle before t after);
    room = i.room;
    counted = i.counted;
    known_waiting =
        (IsKnown-middle p.sem before t after (subst (All (IsKnown p.sem)) e i.known_waiting)).1;
    known_holding = i.known_holding;
  }
  Step-IsTracked cfg {p} i (finish before t after e) = record {
    queued = i.queued;
    busy = omega (arith, i.busy, ap length e, length-middle before t after);
    room = λ c. ground (arith, i.room c);
    counted = λ c. ground (arith, i.counted c, ap (tokens c) e, tokens-middle c before t after);
    known_waiting = i.known_waiting;
    known_holding =
        (IsKnown-middle p.sem before t after (subst (All (IsKnown p.sem)) e i.known_holding)).1;
  }
  Step-IsTracked cfg i (shutdown h) = record {
    queued = i.queued;
    busy = i.busy;
    room = i.room;
    counted = i.counted;
    known_waiting = i.known_waiting;
    known_holding = i.known_holding;
  }
  Step-IsTracked cfg i (leave idle h e f) = record {
    queued = i.queued;
    busy = omega (arith, i.busy, f);
    room = i.room;
    counted = i.counted;
    known_waiting = i.known_waiting;
    known_holding = i.known_holding;
  }

  -- The jobs of an instance have their tokens in one channel.
  jobs-tokens :
      (id : Bytes) (c : ℕ) (sem : Dict ℕ) (ts : List (Taken Data))
      → lookup id sem ≡ some c
      → All (IsKnown sem) ts
      → jobs_of id ts ≤ tokens c ts
  unfolding jobs_of tokens
  jobs-tokens id c sem [] e a = omega arith
  jobs-tokens id c sem (t ∷ ts) e (k, a) = elim (Bool-cases (str_eq t.job.instance_id id)) [
    | inl same ↦
        let same_channel : t.channel ≡ c =
          ground (arith, ap (λ x. lookup x sem) ((str_eq_iff t.job.instance_id id).0 same), e, k) in
        ground (arith, jobs-tokens id c sem ts e a, same, ==_iff c t.channel, same_channel)
    | inr other ↦ ground (arith, jobs-tokens id c sem ts e a, other)
  ]

  jobs-none :
      (id : Bytes) (sem : Dict ℕ) (ts : List (Taken Data))
      → lookup id sem ≡ none
      → All (IsKnown sem) ts
      → jobs_of id ts ≡ 0
  unfolding jobs_of
  jobs-none id sem [] e a = refl
  jobs-none id sem (t ∷ ts) e (k, a) = elim (Bool-cases (str_eq t.job.instance_id id)) [
    | inl same ↦
        absurd
          (ground (arith, ap (λ x. lookup x sem) ((str_eq_iff t.job.instance_id id).0 same), e, k))
    | inr other ↦ ground (arith, jobs-none id sem ts e a, other)
  ]

  pub record IsBounded (cfg : Config) (p : Pool Data) : Type 0 where
    pub queued : length p.queue ≤ cfg.queue_size
    pub busy : length p.waiting + length p.holding ≤ cfg.worker_count
    pub held : (id : Bytes) → jobs_of id p.holding ≤ cfg.per_instance

  Tracked-IsBounded : (cfg : Config) (p : Pool Data) → IsTracked cfg p → IsBounded cfg p
  Tracked-IsBounded cfg p i = record {
    queued = i.queued;
    busy = omega (arith, i.busy);
    held = λ id. elim (Option-cases (lookup id p.sem)) [
      | inl missing ↦ omega (arith, jobs-none id p.sem p.holding missing i.known_holding)
      | inr (c, found) ↦
          omega
            (arith, jobs-tokens id c p.sem p.holding found i.known_holding, i.counted c, i.room c)
    ];
  }

  Run-IsTracked :
      (cfg : Config) {p : Pool Data} → Run cfg (new_pool Data cfg.worker_count) p → IsTracked cfg p
  unfolding tokens
  Run-IsTracked cfg here = record {
    queued = omega arith;
    busy = omega arith;
    room = λ c. omega arith;
    counted = λ c. refl;
    known_waiting = tt;
    known_holding = tt;
  }
  Run-IsTracked cfg (next r s) = Step-IsTracked cfg (Run-IsTracked cfg r) s

  -- In every state that the dispatcher reaches from its start, with any knobs, the queue holds at most QueueSize
  -- jobs, at most WorkerCount are with a worker, and of each instance at most PerInstance are
  -- delivered at a time.
  pub Run-IsBounded :
      (knobs : Knobs) {p : Pool Data}
      → Run
          (new_dispatcher_config knobs)
          (new_pool Data (new_dispatcher_config knobs).worker_count)
          p
      → IsBounded (new_dispatcher_config knobs) p
  Run-IsBounded knobs {p} r =
      Tracked-IsBounded (new_dispatcher_config knobs) p
        (Run-IsTracked (new_dispatcher_config knobs) r)

  enqueue-closed :
      (cfg : Config) (loaded : Result Bytes (Bytes × Bytes)) (id d : Bytes) (ev : Event Data)
      (p q : Pool Data) (b : Bool)
      → p.closed ≡ true
      → enqueue cfg loaded id d ev p ≡ answers b q
      → q ≡ p
  unfolding enqueue offer
  enqueue-closed cfg (err e) id d ev p q b h f = ground arith
  enqueue-closed cfg (ok ([], secret)) id d ev p q b h f = ground arith
  enqueue-closed cfg (ok (c ∷ url, secret)) id d ev p q b h f = absurd (ground (arith, h))

  -- Neither the flag nor the queue changes with the map.
  stored-same :
      (id : Bytes) (p : Pool Data) (o : Option ℕ)
      → ((stored_channel id p o).0.closed ≡ p.closed) × ((stored_channel id p o).0.queue ≡ p.queue)
  stored-same id p none = (refl, refl)
  stored-same id p (some c) = (refl, refl)

  Step-closed :
      (cfg : Config) {p q : Pool Data}
      → p.closed ≡ true
      → Step cfg p q
      → (q.closed ≡ true) × (length q.queue ≤ length p.queue)
  unfolding sem_for
  Step-closed cfg {p} {q} h (call loaded id d ev b e) =
      let same = enqueue-closed cfg loaded id d ev p q b h e in rw same (h, omega arith)
  Step-closed cfg {p} h (receive j js idle e l) = (
    (stored-same j.instance_id (record p { queue = js }) (lookup j.instance_id p.sem)).0 ∙ h,
    omega (
      arith,
      ap length e,
      ap length
          (stored-same j.instance_id (record p { queue = js }) (lookup j.instance_id p.sem)).1,
    ),
  )
  Step-closed cfg h (acquire before j after e l) = (h, omega arith)
  Step-closed cfg h (give_up before j after e) = (h, omega arith)
  Step-closed cfg h (finish before j after e) = (h, omega arith)
  Step-closed cfg h (shutdown e) = (refl, omega arith)
  Step-closed cfg h (leave idle c e f) = (h, omega arith)

  -- A dispatcher that is shut down stays so and only drains: no run makes its queue longer, and an
  -- event of an instance that has a webhook makes Enqueue panic in each of its states.
  pub shutdown_drains :
      (cfg : Config) {p q : Pool Data} (c : ℕ) (url secret id d : Bytes) (ev : Event Data)
      → p.closed ≡ true
      → Run cfg p q
      → (length q.queue ≤ length p.queue)
        × (q.closed ≡ true)
        × (enqueue cfg (ok (c ∷ url, secret)) id d ev q ≡ panics)
  unfolding enqueue offer
  shutdown_drains cfg c url secret id d ev h here = (omega arith, h, rw h refl)
  shutdown_drains cfg c url secret id d ev h (next r s) =
      let (shorter, closed, stuck) = shutdown_drains cfg c url secret id d ev h r in
      let (still, shrinks) = Step-closed cfg closed s in
      (omega (arith, shorter, shrinks), still, rw still refl)
