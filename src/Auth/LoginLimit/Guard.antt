-- ===== src/Auth/LoginLimit/Guard.antt =====
-- An invariant of the failures and the lock of one address.
use mathlib.Core.Bool.{false≢true}
use slimwhats.Base.{
  ◌≢◌, ◌∙◌, ℕ, sym, ap, str_eq_iff, ◌+◌, ◌≤◌, ◌<◌, ◌≡◌, refl, List, [], ◌∷◌, ◌++◌, Bytes, leb,
  arith, length, inl, inr, Bool-cases, All, All-append, All-filter, length-append, str_eq,
}
use slimwhats.Base.Clock.{
  is_recent, prune, prune-prune, prune-append, prune-later, prune-eq-nil, All-later,
}
use slimwhats.Base.Dict.{str_eq_refl}
use slimwhats.Auth.LoginLimit.Lockout.{
  counted, failures_of-record_failure, failures_of-check, check-check, record_failure-check,
  record_success-clears, other_address,
}
use slimwhats.Auth.LoginLimit.{LoginRateLimiter, check, failures_of, record_failure, record_success}

-- The invariant of one address from time `m` on.
pub record IsGuarded (ip : Bytes) (m : ℕ) (l : LoginRateLimiter) : Type 0 where
  pub past : All (λ t. t ≤ m) (failures_of l ip)
  pub bounded : (n : ℕ) → m ≤ n → length (prune l.window n (failures_of l ip)) ≤ l.max_failures
  pub free :
      (n : ℕ)
      → m ≤ n
      → (check ip n l).1 ≡ 0
      → length (prune l.window n (failures_of l ip)) < l.max_failures

All-old :
    (window lockout m now : ℕ) (b : List ℕ)
    → window ≤ lockout
    → m + lockout ≤ now
    → All (λ t. t ≤ m) b
    → All (λ t. t + window ≤ now) b
All-old window lockout m now [] h p a = tt
All-old window lockout m now (t ∷ b) h p (q, a) =
    (omega arith, All-old window lockout m now b h p a)

-- The failures of the address after one more.
abbrev after : Bytes → ℕ → LoginRateLimiter → List ℕ
after ip now l = prune l.window now (failures_of l ip) ++ now ∷ []

module _ (ip : Bytes) (m now : ℕ) (l : LoginRateLimiter) where
  after-past : m ≤ now → All (λ t. t ≤ m) (failures_of l ip) → All (λ t. t ≤ now) (after ip now l)
  after-past h a =
      All-append (λ t. t ≤ now) (prune l.window now (failures_of l ip)) (now ∷ [])
        (All-filter (λ t. t ≤ now) (is_recent l.window now) (failures_of l ip)
          (All-later m now (failures_of l ip) h a))
        (omega arith, tt)

  after-le-counted :
      (n : ℕ) → now ≤ n → length (prune l.window n (after ip now l)) ≤ counted ip now l
  after-le-counted n h = ground (
    arith,
    prune-append l.window n (prune l.window now (failures_of l ip)) (now ∷ []),
    prune-prune l.window now n (failures_of l ip) h,
    prune-later l.window now n (failures_of l ip) h,
    length-append (prune l.window n (failures_of l ip)) (prune l.window n (now ∷ [])),
  )

  -- An open lock leaves room for the failure, and a full window closes the lock until all have aged.
  after-lt-max :
      (n : ℕ)
      → l.window ≤ l.lockout
      → 0 < l.max_failures
      → m ≤ now
      → now ≤ n
      → All (λ t. t ≤ m) (failures_of l ip)
      → (check ip n (record_failure ip now l).0).1 ≡ 0
      → length (prune l.window n (after ip now l)) < l.max_failures
  after-lt-max n w p h k a e = elim (Bool-cases (leb l.max_failures (counted ip now l))) [
    | inl full ↦
        let left : now + l.lockout ≤ n = ground (arith, (record_failure-check ip now n l).0) in
        rw
          (prune-eq-nil l.window n (after ip now l)
            (All-old l.window l.lockout now n (after ip now l) w left (after-past h a)))
          p
    | inr room ↦ ground (arith, after-le-counted n k)
  ]

module _ (ip : Bytes) (now : ℕ) (l : LoginRateLimiter) where
  after-eq : failures_of (record_failure ip now l).0 ip ≡ after ip now l
  after-eq = failures_of-record_failure ip ip now l ∙ rw str_eq_refl

  pub max-record_failure : (record_failure ip now l).0.max_failures ≡ l.max_failures
  unfolding record_failure
  max-record_failure = ground arith

  pub window-record_failure : (record_failure ip now l).0.window ≡ l.window
  unfolding record_failure
  window-record_failure = ground arith

  pub lockout-record_failure : (record_failure ip now l).0.lockout ≡ l.lockout
  unfolding record_failure
  lockout-record_failure = ground arith

-- A failure recorded while the lock is open keeps the invariant, where the lockout is at least
-- as long as the window and at least one failure is admitted.
pub record_failure-IsGuarded :
    (ip : Bytes) (m now : ℕ) (l : LoginRateLimiter)
    → l.window ≤ l.lockout
    → 0 < l.max_failures
    → m ≤ now
    → (check ip now l).1 ≡ 0
    → IsGuarded ip m l
    → IsGuarded ip now (record_failure ip now l).0
record_failure-IsGuarded ip m now l w p h e g = record {
  past = rw after-eq (after-past ip m now l h g.past);
  bounded = λ n k.
      rw (after-eq, max-record_failure, window-record_failure)
        (omega (arith, after-le-counted ip m now l n k, g.free now h e));
  free = λ n k f.
      rw (after-eq, max-record_failure, window-record_failure)
        (after-lt-max ip m now l n w p h k g.past f);
}

module _ (ip : Bytes) (now : ℕ) (l : LoginRateLimiter) where
  pub max-check : (check ip now l).0.max_failures ≡ l.max_failures
  unfolding check
  max-check = ground arith

  pub window-check : (check ip now l).0.window ≡ l.window
  unfolding check
  window-check = ground arith

  pub lockout-check : (check ip now l).0.lockout ≡ l.lockout
  unfolding check
  lockout-check = ground arith

-- The invariant depends on the failures, the limits and the answers alone.
IsGuarded-same :
    (j : Bytes) (m now : ℕ) (l l' : LoginRateLimiter)
    → m ≤ now
    → failures_of l' j ≡ failures_of l j
    → l'.max_failures ≡ l.max_failures
    → l'.window ≡ l.window
    → ((n : ℕ) → now ≤ n → (check j n l').1 ≡ (check j n l).1)
    → IsGuarded j m l
    → IsGuarded j now l'
IsGuarded-same j m now l l' h f x w c g = record {
  past = rw f (All-later m now (failures_of l j) h g.past);
  bounded = λ n k. rw (f, x, w) (g.bounded n (omega arith));
  free = λ n k e. rw (f, x, w) (g.free n (omega arith) (sym (c n k) ∙ e));
}

pub IsGuarded-later :
    (j : Bytes) (m now : ℕ) (l : LoginRateLimiter) → m ≤ now → IsGuarded j m l → IsGuarded j now l
IsGuarded-later j m now l h g = IsGuarded-same j m now l l h refl refl refl (λ n k. refl) g

pub check-IsGuarded :
    (ip j : Bytes) (m now : ℕ) (l : LoginRateLimiter)
    → m ≤ now
    → IsGuarded j m l
    → IsGuarded j now (check ip now l).0
check-IsGuarded ip j m now l h g =
    IsGuarded-same j m now l (check ip now l).0 h (failures_of-check ip j now l)
      (max-check ip now l) (window-check ip now l) (λ n k. check-check ip j now n l k) g

pub record_failure-other-IsGuarded :
    (ip j : Bytes) (m now : ℕ) (l : LoginRateLimiter)
    → ip ≢ j
    → m ≤ now
    → IsGuarded j m l
    → IsGuarded j now (record_failure ip now l).0
record_failure-other-IsGuarded ip j m now l ne h g =
    IsGuarded-same j m now l (record_failure ip now l).0 h
      (other_address ip j now now l ne (omega arith)).0 (max-record_failure ip now l)
      (window-record_failure ip now l) (λ n k. (other_address ip j now n l ne k).3) g

pub record_success-IsGuarded :
    (ip j : Bytes) (m now : ℕ) (l : LoginRateLimiter)
    → 0 < l.max_failures
    → m ≤ now
    → IsGuarded j m l
    → IsGuarded j now (record_success ip l)
record_success-IsGuarded ip j m now l p h g = elim (Bool-cases (str_eq ip j)) [
  | inl same ↦
      let e = (str_eq_iff ip j).0 same in
      let none_left =
        ap (failures_of (record_success ip l)) (sym e) ∙ (record_success-clears ip now l).0 in
      record {
        past = rw none_left tt;
        bounded = λ n k. rw none_left (omega arith);
        free = λ n k f. rw none_left (unfold record_success in p);
      }
  | inr other ↦
      let ne = λ (q : ip ≡ j). false≢true (sym other ∙ (str_eq_iff ip j).1 q) in
      IsGuarded-same j m now l (record_success ip l) h
        (other_address ip j now now l ne (omega arith)).1 (unfold record_success in refl)
        (unfold record_success in refl) (λ n k. (other_address ip j now n l ne k).4) g
]
