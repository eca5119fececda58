-- ===== src/Send/RateLimit.antt =====
-- internal/send/ratelimit.go: the limiter of sends to one recipient. A time is a number of
-- nanoseconds since a fixed instant, and `time.Now()` is an argument. The mutex makes each call
-- one step, so a run of the limiter is a sequence of calls.
pub mod Window
pub mod Retry
use slimwhats.Base.{
  ℕ, ◌+◌, ◌-◌, ◌*◌, Bool, true, false, List, [], ◌∷◌, ◌++◌, Option, none, some, Bytes, ltb, leb,
  length, filter, if◌then◌else◌,
}
use slimwhats.Base.Clock.{second, prune}
use slimwhats.Base.Dict.{Dict, lookup, insert}

-- A `bucket` is its only field, the timestamps.
pub record PerJidRateLimiter : Type 0 where
  pub buckets : Dict (List ℕ)
  pub max : ℕ
  pub window : ℕ

abbrev pub new_per_jid_rate_limiter : PerJidRateLimiter
new_per_jid_rate_limiter = record { buckets = []; max = 20; window = 60 * second }

-- `b, ok := l.buckets[jid]`, with an empty bucket where there is none
abbrev pub bucket_or_empty : Option (List ℕ) → List ℕ
bucket_or_empty none = []
bucket_or_empty (some b) = b

abbrev pub bucket : PerJidRateLimiter → Bytes → List ℕ
bucket l jid = bucket_or_empty (lookup jid l.buckets)

-- `b.timestamps[0]`; the code reads it where there are `max` or more timestamps, and its `max` is 20, so that
-- the empty list, on which it would panic, does not arise.
abbrev pub oldest : List ℕ → ℕ
oldest [] = 0
oldest (t ∷ ts) = t

-- `oldest.Add(l.window).Sub(now)`, at least a second. The timestamp is recent, so that the
-- difference is positive.
abbrev pub retry_after : ℕ → ℕ → ℕ → ℕ
retry_after window now t =
    let after = t + window - now in if ltb after second then second else after

-- The new timestamps of the bucket, and the answer: whether the send is allowed, and else the wait.
unfoldable pub check_bucket : ℕ → ℕ → ℕ → List ℕ → List ℕ × Bool × ℕ
check_bucket max window now keep =
    if leb max (length keep)
    then (keep, false, retry_after window now (oldest keep))
    else (keep ++ now ∷ [], true, 0)

unfoldable pub check : Bytes → ℕ → PerJidRateLimiter → PerJidRateLimiter × Bool × ℕ
unfolding check_bucket
check jid now l =
    let (b, allowed, retry) = check_bucket l.max l.window now (prune l.window now (bucket l jid)) in
    (record l { buckets = insert jid b l.buckets }, allowed, retry)
