-- ===== src/Auth/LoginLimit.antt =====
-- internal/auth/ratelimit.go: the limiter of failed logins from one source IP. Times are numbers of
-- nanoseconds, and `time.Now()` is an argument of each call.
pub mod Lockout
pub mod Guard
pub mod Track
use slimwhats.Base.{
  ℕ, ◌+◌, ◌-◌, ◌*◌, List, [], ◌∷◌, ◌++◌, Option, none, some, Bytes, ltb, leb, length, if◌then◌else◌,
}
use slimwhats.Base.Clock.{minute, prune}
use slimwhats.Base.Dict.{Dict, lookup, insert, remove}

pub record LoginRateLimiter : Type 0 where
  pub failures : Dict (List ℕ)
  pub locked_until : Dict ℕ
  pub max_failures : ℕ
  pub window : ℕ
  pub lockout : ℕ

abbrev pub new_login_rate_limiter_with : ℕ → ℕ → ℕ → LoginRateLimiter
new_login_rate_limiter_with max_failures window lockout = record {
  failures = [];
  locked_until = [];
  max_failures = max_failures;
  window = window;
  lockout = lockout;
}

abbrev pub new_login_rate_limiter : LoginRateLimiter
new_login_rate_limiter = new_login_rate_limiter_with 5 (10 * minute) (15 * minute)

-- On `l.lockedUntil[ip]`; `time.Until(until)` is positive where `now` is before `until`.
abbrev pub check_lock : Bytes → ℕ → LoginRateLimiter → Option ℕ → LoginRateLimiter × ℕ
check_lock ip now l none = (l, 0)
check_lock ip now l (some until) =
    if ltb now until
    then (l, until - now)
    else (record l { locked_until = remove ip l.locked_until }, 0)

unfoldable pub check : Bytes → ℕ → LoginRateLimiter → LoginRateLimiter × ℕ
check ip now l = check_lock ip now l (lookup ip l.locked_until)

-- `l.failures[ip]`, nil where there is no entry
abbrev pub times_or_nil : Option (List ℕ) → List ℕ
times_or_nil none = []
times_or_nil (some ts) = ts

abbrev pub failures_of : LoginRateLimiter → Bytes → List ℕ
failures_of l ip = times_or_nil (lookup ip l.failures)

unfoldable pub record_failure : Bytes → ℕ → LoginRateLimiter → LoginRateLimiter × ℕ
record_failure ip now l =
    let keep = prune l.window now (failures_of l ip) ++ now ∷ [] in
    let l' = record l { failures = insert ip keep l.failures } in
    if leb l.max_failures (length keep)
    then (record l' { locked_until = insert ip (now + l.lockout) l.locked_until }, l.lockout)
    else (l', 0)

unfoldable pub record_success : Bytes → LoginRateLimiter → LoginRateLimiter
record_success ip l = record l {
  failures = remove ip l.failures;
  locked_until = remove ip l.locked_until;
}
