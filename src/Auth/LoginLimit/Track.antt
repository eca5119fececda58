-- ===== src/Auth/LoginLimit/Track.antt =====
-- The limiter against a history of the failures of one address.
use slimwhats.Base.{ℕ, ◌≤◌, ◌<◌, ◌≡◌, ◌≢◌, refl, List, [], ◌∷◌, ◌++◌, Bytes, arith}
use slimwhats.Base.Dict.{str_eq_refl}
use slimwhats.Base.Clock.{prune, prune-prune, prune-append}
use slimwhats.Auth.LoginLimit.Lockout.{
  failures_of-record_failure, failures_of-check, record_success-clears, other_address,
}
use slimwhats.Auth.LoginLimit.Guard.{
  IsGuarded, record_failure-IsGuarded, max-record_failure, window-record_failure,
  lockout-record_failure, max-check, window-check, lockout-check, check-IsGuarded,
  record_failure-other-IsGuarded, record_success-IsGuarded, IsGuarded-later,
}
use slimwhats.Auth.LoginLimit.{LoginRateLimiter, check, failures_of, record_failure, record_success}

-- From time `m` on the failures of `j` that count are those of the history `h`, and the address is
-- guarded, under limits that guard it.
pub record Tracks (j : Bytes) (m : ℕ) (l : LoginRateLimiter) (h : List ℕ) : Type 0 where
  pub guarded : IsGuarded j m l
  pub shows : (n : ℕ) → m ≤ n → prune l.window n (failures_of l j) ≡ prune l.window n h
  pub outlasts : l.window ≤ l.lockout
  pub positive : 0 < l.max_failures

Tracks-same :
    (j : Bytes) (m now : ℕ) (l l' : LoginRateLimiter) (h : List ℕ)
    → m ≤ now
    → failures_of l' j ≡ failures_of l j
    → l'.max_failures ≡ l.max_failures
    → l'.window ≡ l.window
    → l'.lockout ≡ l.lockout
    → IsGuarded j now l'
    → Tracks j m l h
    → Tracks j now l' h
Tracks-same j m now l l' h p f x w o g t = record {
  guarded = g;
  shows = λ n k. rw (f, w) (t.shows n (omega arith));
  outlasts = rw (w, o) t.outlasts;
  positive = rw x t.positive;
}

pub Tracks-later :
    (j : Bytes) (m now : ℕ) (l : LoginRateLimiter) (h : List ℕ)
    → m ≤ now
    → Tracks j m l h
    → Tracks j now l h
Tracks-later j m now l h p t =
    Tracks-same j m now l l h p refl refl refl refl (IsGuarded-later j m now l p t.guarded) t

pub check-Tracks :
    (ip j : Bytes) (m now : ℕ) (l : LoginRateLimiter) (h : List ℕ)
    → m ≤ now
    → Tracks j m l h
    → Tracks j now (check ip now l).0 h
check-Tracks ip j m now l h p t =
    Tracks-same j m now l (check ip now l).0 h p (failures_of-check ip j now l) (max-check ip now l)
      (window-check ip now l) (lockout-check ip now l) (check-IsGuarded ip j m now l p t.guarded) t

-- One more failure of the address, while its lock is open.
pub record_failure-Tracks :
    (ip : Bytes) (m now : ℕ) (l : LoginRateLimiter) (h : List ℕ)
    → m ≤ now
    → (check ip now l).1 ≡ 0
    → Tracks ip m l h
    → Tracks ip now (record_failure ip now l).0 (h ++ now ∷ [])
record_failure-Tracks ip m now l h p e t = record {
  guarded = record_failure-IsGuarded ip m now l t.outlasts t.positive p e t.guarded;
  shows = λ n k. rw window-record_failure (
      ground (
        arith,
        failures_of-record_failure ip ip now l,
        str_eq_refl ip,
        prune-append l.window n (prune l.window now (failures_of l ip)) (now ∷ []),
        prune-append l.window n h (now ∷ []),
        prune-prune l.window now n (failures_of l ip) k,
        t.shows n (omega arith),
      ));
  outlasts = rw (window-record_failure, lockout-record_failure) t.outlasts;
  positive = rw max-record_failure t.positive;
}

pub record_failure-other-Tracks :
    (ip j : Bytes) (m now : ℕ) (l : LoginRateLimiter) (h : List ℕ)
    → ip ≢ j
    → m ≤ now
    → Tracks j m l h
    → Tracks j now (record_failure ip now l).0 h
record_failure-other-Tracks ip j m now l h ne p t =
    Tracks-same j m now l (record_failure ip now l).0 h p
      (other_address ip j now now l ne (omega arith)).0 (max-record_failure ip now l)
      (window-record_failure ip now l) (lockout-record_failure ip now l)
      (record_failure-other-IsGuarded ip j m now l ne p t.guarded) t

pub record_success-Tracks :
    (ip : Bytes) (m now : ℕ) (l : LoginRateLimiter) (h : List ℕ)
    → m ≤ now
    → Tracks ip m l h
    → Tracks ip now (record_success ip l) []
record_success-Tracks ip m now l h p t = record {
  guarded = record_success-IsGuarded ip ip m now l t.positive p t.guarded;
  shows = λ n k. rw ((record_success-clears ip now l).0);
  outlasts = unfold record_success in t.outlasts;
  positive = unfold record_success in t.positive;
}

pub record_success-other-Tracks :
    (ip j : Bytes) (m now : ℕ) (l : LoginRateLimiter) (h : List ℕ)
    → ip ≢ j
    → m ≤ now
    → Tracks j m l h
    → Tracks j now (record_success ip l) h
record_success-other-Tracks ip j m now l h ne p t =
    Tracks-same j m now l (record_success ip l) h p
      (other_address ip j now now l ne (omega arith)).1 (unfold record_success in refl)
      (unfold record_success in refl) (unfold record_success in refl)
      (record_success-IsGuarded ip j m now l t.positive p t.guarded) t
