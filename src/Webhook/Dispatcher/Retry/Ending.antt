-- ===== src/Webhook/Dispatcher/Retry/Ending.antt =====
-- Where the retry loop ends, and what it leaves in the row of the delivery.
use slimwhats.Base.{
  ℕ, zero, suc, ◌+◌, ◌-◌, ◌≤◌, ◌<◌, ◌≡◌, ◌≢◌, refl, ◌∙◌, ◌⊎◌, inl, inr, Bool, true, false, List, [],
  ◌∷◌, ◌++◌, Option, none, some, Bytes, All, arith, if◌then◌else◌, Bool-cases, length,
  length-append, append-nil, append_assoc,
}
use slimwhats.Base.Result.{Result, ok, err}
use slimwhats.Webhook.Dispatcher.{
  Knobs, new_dispatcher_config, Delivery, updated, update_where, is_permanent_failure,
}
use slimwhats.Webhook.Dispatcher.Retry.{
  Outcome, Job, Net, World, attempt, update_delivery, sleep, retry, deliver, post,
}

-- A later UPDATE of a row leaves nothing of an earlier one.
update_where-updated :
    (id : Bytes) (max n k : ℕ) (a b : Outcome) (t u : ℕ) (rows : List Delivery)
    → update_where id
        (updated max k b.success b.status_code b.err_str u)
        (update_where id (updated max n a.success a.status_code a.err_str t) rows)
      ≡ update_where id (updated max k b.success b.status_code b.err_str u) rows
unfolding update_where
update_where-updated id max n k a b t u [] = refl
update_where-updated id max n k a b t u (row ∷ rows) =
    ground (arith, update_where-updated id max n k a b t u rows)

-- The numbers from `n`, `count` of them.
abbrev pub numbers : ℕ → ℕ → List ℕ
numbers zero n = []
numbers (suc count) n = n ∷ numbers count (suc n)

pub Retriable : Outcome → Type 0
Retriable o = (o.success ≡ false) × (is_permanent_failure o.status_code ≡ false)

module _ {Data : Type 0} (net : Net Data) (j : Job Data) (max : ℕ) where
  -- The answer of the n-th attempt of a delivery that starts at a counter of `c`.
  abbrev pub nth : ℕ → ℕ → Outcome
  nth c n =
      (post net j (net.marshal j.event) (net.bad_url j.url)
        (record { current_attempt = (c + n) - 1; deliveries = []; sent = []; sleeps = [] })).0

  abbrev pub ready : Result Bytes Bytes → Option Bytes → Bool
  ready (ok body) none = true
  ready _ _ = false

  -- The attempts from the n-th on end with the k-th.
  pub record Ends (c n k : ℕ) : Type 0 where
    pub from : n ≤ k
    pub within : k ≤ max
    pub before : All (λ i. Retriable (nth c i)) (numbers (k - n) n)
    pub stop :
        ((nth c k).success ≡ true)
        ⊎ ((is_permanent_failure (nth c k).status_code ≡ true) ⊎ (k ≡ max))

  Aligned : ℕ → ℕ → World → Type 0
  Aligned c n w =
      ready (net.marshal j.event) (net.bad_url j.url) ≡ true → suc w.current_attempt ≡ c + n

  post-nth :
      (m : Result Bytes Bytes) (b : Option Bytes) (w v : World)
      → (ready m b ≡ true → w.current_attempt ≡ v.current_attempt)
      → (post net j m b w).0 ≡ (post net j m b v).0
  post-nth (err e) b w v h = refl
  post-nth (ok body) (some e) w v h = refl
  post-nth (ok body) none w v h = rw (h refl) refl

  post-counter :
      (m : Result Bytes Bytes) (b : Option Bytes) (w : World)
      → ready m b ≡ true
      → (post net j m b w).1.current_attempt ≡ suc w.current_attempt
  post-counter (ok body) none w h = refl
  post-counter (err e) b w h = absurd (ground arith)
  post-counter (ok body) (some e) w h = absurd (ground arith)

  post-same :
      (m : Result Bytes Bytes) (b : Option Bytes) (w : World)
      → ((post net j m b w).1.deliveries ≡ w.deliveries)
        × ((post net j m b w).1.sleeps ≡ w.sleeps)
        × (length (post net j m b w).1.sent
            ≡ (if ready m b then suc (length w.sent) else length w.sent))
  post-same (err e) b w = (refl, refl, refl)
  post-same (ok body) (some e) w = (refl, refl, refl)
  post-same (ok body) none w = (refl, refl, omega (arith, length-append w.sent))

  -- What the attempts from the n-th to the k-th make of a world.
  pub record Leaves (c n k : ℕ) (w w' : World) : Type 0 where
    pub row :
        (net.update_fails k ≡ true)
        ⊎ (w'.deliveries
            ≡ update_where j.delivery_id
                (updated max k
                  (nth c k).success
                  (nth c k).status_code
                  (nth c k).err_str
                  (net.clock k))
                w.deliveries)
    pub slept : w'.sleeps ≡ w.sleeps ++ numbers (k - n) n
    pub requests : length w'.sent ≡ (
        if ready (net.marshal j.event) (net.bad_url j.url)
        then (suc k - n) + length w.sent
        else length w.sent)

  module _ (c n : ℕ) (w : World) where
    tried : World
    tried = (attempt net j w).1

    logged : World
    logged = update_delivery net j max n (attempt net j w).0 tried

    attempt-nth : Aligned c n w → (attempt net j w).0 ≡ nth c n
    unfolding attempt Aligned
    attempt-nth a =
        post-nth (net.marshal j.event) (net.bad_url j.url) w
          (record { current_attempt = (c + n) - 1; deliveries = []; sent = []; sleeps = [] })
          (λ r. omega (arith, a r))

    logged-same :
        (logged.sleeps ≡ w.sleeps)
        × (length logged.sent ≡ (
            if ready (net.marshal j.event) (net.bad_url j.url)
            then suc (length w.sent)
            else length w.sent))
        × (logged.current_attempt ≡ tried.current_attempt)
    unfolding logged update_delivery attempt tried
    logged-same = ground (arith, post-same (net.marshal j.event) (net.bad_url j.url) w)

    logged-row :
        net.update_fails n ≡ false
        → logged.deliveries
          ≡ update_where j.delivery_id
              (updated max n
                (attempt net j w).0.success
                (attempt net j w).0.status_code
                (attempt net j w).0.err_str
                (net.clock n))
              w.deliveries
    unfolding logged update_delivery attempt tried
    logged-row h = rw (h, (post-same (net.marshal j.event) (net.bad_url j.url) w).0) refl

    logged-Aligned : Aligned c n w → Aligned c (suc n) (sleep net j n logged)
    unfolding Aligned tried attempt
    logged-Aligned a r =
        omega
          (arith, logged-same.2, a r, post-counter (net.marshal j.event) (net.bad_url j.url) w r)

    retry-stops :
        (fuel : ℕ) (o : Outcome)
        → n ≤ max
        → (attempt net j w).0 ≡ o
        → (o.success ≡ true) ⊎ ((is_permanent_failure o.status_code ≡ true) ⊎ (n ≡ max))
        → retry net j max (suc fuel) n w ≡ logged
    unfolding retry logged tried
    retry-stops fuel o h e s = ground (arith, e)

    retry-goes :
        (fuel : ℕ) (o : Outcome)
        → n < max
        → (attempt net j w).0 ≡ o
        → Retriable o
        → retry net j max (suc fuel) n w ≡ retry net j max fuel (suc n) (sleep net j n logged)
    unfolding retry logged tried Retriable
    retry-goes fuel o h e s = ground (arith, e)

    logged-fails : net.update_fails n ≡ true → logged.deliveries ≡ w.deliveries
    unfolding logged update_delivery attempt tried
    logged-fails h = rw h (post-same (net.marshal j.event) (net.bad_url j.url) w).0

    logged-overwritten :
        (k : ℕ) (o : Outcome) (t : ℕ)
        → update_where j.delivery_id
            (updated max k o.success o.status_code o.err_str t)
            logged.deliveries
          ≡ update_where j.delivery_id
              (updated max k o.success o.status_code o.err_str t)
              w.deliveries
    logged-overwritten k o t = elim (Bool-cases (net.update_fails n)) [
      | inl fails ↦ rw (logged-fails fails) refl
      | inr works ↦ rw (logged-row works) (
          update_where-updated j.delivery_id max n k (attempt net j w).0 o (net.clock n) t
            w.deliveries)
    ]

    stopped-Leaves : Aligned c n w → Leaves c n n w logged
    stopped-Leaves a = record {
      row = elim (Bool-cases (net.update_fails n)) [
        | inl fails ↦ inl fails
        | inr works ↦ inr (logged-row works ∙ rw (attempt-nth a) refl)
      ];
      slept = let z : n - n ≡ 0 = omega arith in rw (z, append-nil w.sleeps) logged-same.0;
      requests = ground (arith, logged-same);
    }

  -- The later attempts overwrite what the n-th has left.
  later-Leaves :
      (c n k : ℕ) (w w' : World)
      → n < k
      → Leaves c (suc n) k (sleep net j n (logged c n w)) w'
      → Leaves c n k w w'
  later-Leaves c n k w w' h l = record {
    row = elim l.row [
      | inl fails ↦ inl fails
      | inr stored ↦ inr (stored ∙ logged-overwritten c n w k (nth c k) (net.clock k))
    ];
    slept =
        let z : k - n ≡ suc (k - suc n) = omega arith in
        rw (z, l.slept, (logged-same c n w).0)
          (append_assoc w.sleeps (n ∷ []) (numbers (k - suc n) (suc n)));
    requests = ground (arith, l.requests, logged-same c n w);
  }

  -- One attempt more in front of those that end with the k-th.
  later-Ends : (c n k : ℕ) → n ≤ max → Retriable (nth c n) → Ends c (suc n) k → Ends c n k
  later-Ends c n k h r e = record {
    from = omega (arith, e.from);
    within = e.within;
    before = let z : k - n ≡ suc (k - suc n) = omega (arith, e.from) in rw z (r, e.before);
    stop = e.stop;
  }

  outcome-cases :
      (o : Outcome) (n : ℕ)
      → ((o.success ≡ true) ⊎ ((is_permanent_failure o.status_code ≡ true) ⊎ (n ≡ max)))
        ⊎ (Retriable o × (n ≢ max))
  unfolding Retriable
  outcome-cases o n = ground arith

  retry-Ends :
      (fuel c n : ℕ) (w : World)
      → fuel + n ≡ suc max
      → n ≤ max
      → Aligned c n w
      → (k : ℕ) × Ends c n k × Leaves c n k w (retry net j max fuel n w)
  retry-Ends zero c n w e h a = absurd (omega arith)
  retry-Ends (suc fuel) c n w e h a = elim (outcome-cases (nth c n) n) [
    | inl stop ↦ (
      n,
      record {
        from = omega arith;
        within = h;
        before = let z : n - n ≡ 0 = omega arith in rw z tt;
        stop = stop;
      },
      rw (retry-stops c n w fuel (nth c n) h (attempt-nth c n w a) stop) (stopped-Leaves c n w a),
    )
    | inr (r, more) ↦
        let next = sleep net j n (logged c n w) in
        let (k, ends, leaves) =
          retry-Ends fuel c (suc n) next (omega arith) (ground arith) (logged-Aligned c n w a) in
        (
          k,
          later-Ends c n k h r ends,
          rw (retry-goes c n w fuel (nth c n) (ground arith) (attempt-nth c n w a) r)
              (later-Leaves c n k w (retry net j max fuel (suc n) next) (ends.from) leaves),
        )
  ]

new_dispatcher-max : (k : Knobs) → 0 < (new_dispatcher_config k).max_attempts
unfolding new_dispatcher_config
new_dispatcher-max k = ground (arith, k.max_attempts)

-- A delivery that has got its semaphore makes between one and MaxAttempts attempts, whatever the
-- knobs given: it ends with the first attempt that succeeds or fails for good, or with the last one,
-- and every attempt before that one has failed with an error that is retried. Each attempt sends a
-- request, where the event can be encoded and the URL is one; the loop sleeps after every attempt
-- but the one it ends with; and where that one's update of the database works, it alone decides the
-- row of the delivery.
pub deliver-Ends :
    {Data : Type 0} (net : Net Data) (j : Job Data) (knobs : Knobs) (w : World)
    → (k : ℕ) × Ends net j (new_dispatcher_config knobs).max_attempts w.current_attempt 1 k
      × Leaves net j
          (new_dispatcher_config knobs).max_attempts
          w.current_attempt
          1
          k
          w
          (deliver net j (new_dispatcher_config knobs).max_attempts true w)
unfolding deliver Aligned
deliver-Ends net j knobs w =
    let max = (new_dispatcher_config knobs).max_attempts in
    retry-Ends net j max max w.current_attempt 1 w (omega arith) (new_dispatcher-max knobs)
      (λ r. omega arith)
