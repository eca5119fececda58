-- ===== src/Auth/LoginLimit/Lockout.antt =====
-- The limiter after a failure, a success or a check, seen from one address and from another.
use slimwhats.Base.{
  ℕ, ◌+◌, ◌-◌, ◌≤◌, ◌≡◌, [], ◌∷◌, ◌++◌, Bytes, leb, arith, length, str_eq, str_eq_iff, some, ◌≢◌,
  length-append, if◌then◌else◌,
}
use slimwhats.Base.Clock.{prune}
use slimwhats.Base.Dict.{lookup, lookup-insert, lookup-remove, str_eq_refl}
use slimwhats.Auth.LoginLimit.{LoginRateLimiter, check, failures_of, record_failure, record_success}

-- The failures that count at `now`, the one being recorded included.
abbrev pub counted : Bytes → ℕ → LoginRateLimiter → ℕ
counted ip now l = length (prune l.window now (failures_of l ip)) + 1

module _ (ip j : Bytes) (now : ℕ) (l : LoginRateLimiter) where
  pub failures_of-record_failure :
      failures_of (record_failure ip now l).0 j
      ≡ (if str_eq ip j then prune l.window now (failures_of l ip) ++ now ∷ [] else failures_of l j)
  unfolding record_failure
  failures_of-record_failure =
      ground
        (arith, lookup-insert ip j (prune l.window now (failures_of l ip) ++ now ∷ []) l.failures)

  pub locked_until-record_failure : lookup j (record_failure ip now l).0.locked_until ≡ (
      if leb l.max_failures (counted ip now l)
      then (if str_eq ip j then some (now + l.lockout) else lookup j l.locked_until)
      else lookup j l.locked_until)
  unfolding record_failure
  locked_until-record_failure = ground (
    arith,
    lookup-insert ip j (now + l.lockout) l.locked_until,
    length-append (prune l.window now (failures_of l ip)) (now ∷ []),
  )

  pub failures_of-check : failures_of (check ip now l).0 j ≡ failures_of l j
  unfolding check
  failures_of-check = ground arith

-- Right after a failure is recorded, a check of the address at any later time gives what is left
-- of `lockout` from the failure on, 0 when that is over, where the failures that count reach the
-- maximum; and where they do not, what it would have given without the failure. The failure
-- itself is answered with the lockout in the first case and 0 in the second.
pub record_failure-check :
    (ip : Bytes) (now later : ℕ) (l : LoginRateLimiter)
    → ((check ip later (record_failure ip now l).0).1 ≡ (
        if leb l.max_failures (counted ip now l)
        then now + l.lockout - later
        else (check ip later l).1))
      × ((record_failure ip now l).1
          ≡ (if leb l.max_failures (counted ip now l) then l.lockout else 0))
unfolding check
record_failure-check ip now later l = (
  ground (arith, locked_until-record_failure ip ip now l, str_eq_refl ip),
  unfold record_failure in
      ground (arith, length-append (prune l.window now (failures_of l ip)) (now ∷ [])),
)

-- A check changes no later answer, neither for its own address nor for another.
pub check-check :
    (ip j : Bytes) (now later : ℕ) (l : LoginRateLimiter)
    → now ≤ later
    → (check j later (check ip now l).0).1 ≡ (check j later l).1
unfolding check
check-check ip j now later l h = ground (arith, lookup-remove ip j l.locked_until, str_eq_iff ip j)

-- What has run out stays run out.
pub check-later :
    (ip : Bytes) (now later : ℕ) (l : LoginRateLimiter)
    → now ≤ later
    → (check ip now l).1 ≡ 0
    → (check ip later l).1 ≡ 0
unfolding check
check-later ip now later l h e = ground arith

-- A recorded failure or success, or a check, of one address changes neither the failures of
-- another nor any answer that a check of the other gives from then on.
pub other_address :
    (ip j : Bytes) (now later : ℕ) (l : LoginRateLimiter)
    → ip ≢ j
    → now ≤ later
    → (failures_of (record_failure ip now l).0 j ≡ failures_of l j)
      × (failures_of (record_success ip l) j ≡ failures_of l j)
      × (failures_of (check ip now l).0 j ≡ failures_of l j)
      × ((check j later (record_failure ip now l).0).1 ≡ (check j later l).1)
      × ((check j later (record_success ip l)).1 ≡ (check j later l).1)
      × ((check j later (check ip now l).0).1 ≡ (check j later l).1)
unfolding check record_success
other_address ip j now later l ne h = (
  ground (arith, failures_of-record_failure ip j now l, str_eq_iff ip j),
  ground (arith, lookup-remove ip j l.failures, str_eq_iff ip j),
  failures_of-check ip j now l,
  ground (arith, locked_until-record_failure ip j now l, str_eq_iff ip j),
  ground (arith, lookup-remove ip j l.locked_until, str_eq_iff ip j),
  check-check ip j now later l h,
)

-- A success clears the address: no failure counts, and every check lets it pass.
pub record_success-clears :
    (ip : Bytes) (later : ℕ) (l : LoginRateLimiter)
    → (failures_of (record_success ip l) ip ≡ [])
      × ((check ip later (record_success ip l)).1 ≡ 0)
      × (counted ip later (record_success ip l) ≡ 1)
unfolding record_success check
record_success-clears ip later l = (
  ground (arith, lookup-remove ip ip l.failures, str_eq_refl ip),
  ground (arith, lookup-remove ip ip l.locked_until, str_eq_refl ip),
  ground (arith, lookup-remove ip ip l.failures, str_eq_refl ip),
)
