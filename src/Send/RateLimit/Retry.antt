-- ===== src/Send/RateLimit/Retry.antt =====
-- The invariant of the buckets, and what the Retry-After hint promises.
use slimwhats.Base.{
  ℕ, ◌+◌, ◌≤◌, ◌<◌, ◌≡◌, refl, Bool-cases, inl, inr, ◌⊎◌, ltb, leb, Bool, true, false, List, [],
  ◌∷◌, ◌++◌, Bytes, leb, arith, length, Bool-cases, inl, inr, sym, ◌∙◌, filter, All, All-append,
  All-filter, length-append, length-filter-le, str_eq, if◌then◌else◌,
}
use slimwhats.Base.Dict.{lookup-insert, str_eq_refl}
use slimwhats.Base.Clock.{second, is_recent, prune, All-later}
use slimwhats.Send.RateLimit.{PerJidRateLimiter, bucket, check_bucket, check}

-- Oldest first.
abbrev pub IsChronological : List ℕ → Type 0
IsChronological [] = Unit
IsChronological (t ∷ ts) = All (λ s. t ≤ s) ts × IsChronological ts

-- What holds of a bucket at time `now`.
pub record IsBucket (max now : ℕ) (b : List ℕ) : Type 0 where
  pub bounded : length b ≤ max
  pub chronological : IsChronological b
  pub past : All (λ t. t ≤ now) b

-- What holds of the limiter at time `now`.
pub record IsValid (now : ℕ) (l : PerJidRateLimiter) : Type 0 where
  pub buckets : (jid : Bytes) → IsBucket l.max now (bucket l jid)

IsChronological-if :
    (c : Bool) (t : ℕ) (b : List ℕ)
    → All (λ s. t ≤ s) b
    → IsChronological b
    → IsChronological (if c then t ∷ b else b)
IsChronological-if true t b a h = (a, h)
IsChronological-if false t b a h = h

IsChronological-filter :
    (p : ℕ → Bool) (b : List ℕ) → IsChronological b → IsChronological (filter p b)
IsChronological-filter p [] h = tt
IsChronological-filter p (t ∷ b) (a, h) =
    IsChronological-if (p t) t _ (All-filter (λ s. t ≤ s) p b a) (IsChronological-filter p b h)

IsChronological-concat :
    (b : List ℕ) (now : ℕ)
    → IsChronological b
    → All (λ t. t ≤ now) b
    → IsChronological (b ++ now ∷ [])
IsChronological-concat [] now h a = (tt, tt)
IsChronological-concat (t ∷ b) now (c, h) (p, a) =
    (All-append (λ s. t ≤ s) b (now ∷ []) c (p, tt), IsChronological-concat b now h a)

IsBucket-later : (max m n : ℕ) (b : List ℕ) → m ≤ n → IsBucket max m b → IsBucket max n b
IsBucket-later max m n b h v = record {
  bounded = v.bounded;
  chronological = v.chronological;
  past = All-later m n b h v.past;
}

pub IsBucket-prune :
    (max window m now : ℕ) (b : List ℕ)
    → m ≤ now
    → IsBucket max m b
    → IsBucket max now (prune window now b)
IsBucket-prune max window m now b h v = record {
  bounded = omega (arith, length-filter-le (is_recent window now) b, v.bounded);
  chronological = IsChronological-filter (is_recent window now) b v.chronological;
  past = All-filter (λ t. t ≤ now) (is_recent window now) b (All-later m now b h v.past);
}

pub IsBucket-check_bucket :
    (max window now : ℕ) (b : List ℕ)
    → IsBucket max now b
    → IsBucket max now (check_bucket max window now b).0
unfolding check_bucket
IsBucket-check_bucket max window now b v = elim (Bool-cases (leb max (length b))) [
  | inl full ↦ rw full v
  | inr room ↦ rw room (record {
    bounded = ground (arith, length-append b (now ∷ []));
    chronological = IsChronological-concat b now v.chronological v.past;
    past = All-append (λ t. t ≤ now) b (now ∷ []) v.past (omega arith, tt);
  })
]

pub bucket-check :
    (jid j : Bytes) (now : ℕ) (l : PerJidRateLimiter)
    → bucket (check jid now l).0 j ≡ (
        if str_eq jid j
        then (check_bucket l.max l.window now (prune l.window now (bucket l jid))).0
        else bucket l j)
unfolding check
bucket-check jid j now l = rw lookup-insert (ground arith)

IsBucket-if :
    (max now : ℕ) (c : Bool) (a b : List ℕ)
    → IsBucket max now a
    → IsBucket max now b
    → IsBucket max now (if c then a else b)
IsBucket-if max now true a b v w = v
IsBucket-if max now false a b v w = w

-- Every call keeps the invariant.
pub check-IsValid :
    (jid : Bytes) (m now : ℕ) (l : PerJidRateLimiter)
    → m ≤ now
    → IsValid m l
    → IsValid now (check jid now l).0
check-IsValid jid m now l h v = record {
  buckets = λ j. rw bucket-check (
      unfold check in
      IsBucket-if l.max now (str_eq jid j) _ (bucket l j)
        (IsBucket-check_bucket l.max l.window now _
          (IsBucket-prune l.max l.window m now _ h (v.buckets jid)))
        (IsBucket-later l.max m now _ h (v.buckets j)));
}

-- The wait is at least a second.
second-le-retry :
    (max window now : ℕ) (b : List ℕ)
    → (check_bucket max window now b).1 ≡ false
    → second ≤ (check_bucket max window now b).2
unfolding check_bucket
second-le-retry max window now b h = ground arith

-- After the wait the oldest timestamp has left the window.
allowed_after :
    (max window now later : ℕ) (b : List ℕ)
    → 0 < max
    → length b ≤ max
    → (check_bucket max window now b).1 ≡ false
    → now + (check_bucket max window now b).2 ≤ later
    → (check_bucket max window later (prune window later (check_bucket max window now b).0)).1
      ≡ true
unfolding check_bucket
allowed_after max window now later [] p bounded h q = ground arith
allowed_after max window now later (t ∷ ts) p bounded h q =
    ground (arith, length-filter-le (is_recent window later) ts)

prune-All :
    (window later t : ℕ) (b : List ℕ)
    → later < t + window
    → All (λ s. t ≤ s) b
    → prune window later b ≡ b
prune-All window later t [] p a = refl
prune-All window later t (s ∷ b) p (q, a) = ground (arith, prune-All window later t b p a)

-- Until then the bucket stays full.
denied_before :
    (max window now later : ℕ) (b : List ℕ)
    → 0 < max
    → IsChronological b
    → (check_bucket max window now b).1 ≡ false
    → second < (check_bucket max window now b).2
    → later < now + (check_bucket max window now b).2
    → (check_bucket max window later (prune window later (check_bucket max window now b).0)).1
      ≡ false
unfolding check_bucket
denied_before max window now later [] p c h q r = ground arith
denied_before max window now later (t ∷ ts) p (a, c) h q r =
    ground (arith, prune-All window later t ts (ground arith) a)

module _ (jid : Bytes) (now : ℕ) (l : PerJidRateLimiter) where
  abbrev kept : List ℕ
  kept = prune l.window now (bucket l jid)

  check-answer : (check jid now l).1 ≡ (check_bucket l.max l.window now kept).1
  unfolding check
  check-answer = refl

  check-hint : (check jid now l).2 ≡ (check_bucket l.max l.window now kept).2
  unfolding check
  check-hint = refl

module _ (jid : Bytes) (now later : ℕ) (l : PerJidRateLimiter) where
  -- The answer of a second call for the same recipient.
  check-check :
      (check jid later (check jid now l).0).1
      ≡ (check_bucket l.max l.window later
          (prune l.window later (check_bucket l.max l.window now (kept jid now l)).0)).1
  check-check =
      check-answer jid later (check jid now l).0
      ∙ rw (bucket-check, str_eq_refl jid) (unfold check in refl)

module _ (jid : Bytes) (m now later : ℕ) (l : PerJidRateLimiter) where
  later-allowed :
      m ≤ now
      → IsValid m l
      → 0 < l.max
      → (check jid now l).1 ≡ false
      → now + (check jid now l).2 ≤ later
      → (check jid later (check jid now l).0).1 ≡ true
  later-allowed h v p denied q =
      let w = IsBucket-prune l.max l.window m now _ h (v.buckets jid) in
      check-check jid now later l
      ∙ allowed_after l.max l.window now later (kept jid now l) p w.bounded
          (sym (check-answer jid now l) ∙ denied) (rw (check-hint jid now l) at q)

  earlier-denied :
      m ≤ now
      → IsValid m l
      → 0 < l.max
      → (check jid now l).1 ≡ false
      → second < (check jid now l).2
      → later < now + (check jid now l).2
      → (check jid later (check jid now l).0).1 ≡ false
  earlier-denied h v p denied q r =
      let hint = check-hint jid now l in
      let w = IsBucket-prune l.max l.window m now _ h (v.buckets jid) in
      check-check jid now later l
      ∙ denied_before l.max l.window now later (kept jid now l) p w.chronological
          (sym (check-answer jid now l) ∙ denied) (rw hint at q) (rw hint at r)

-- After a denied call, where the limiter admits at least one send: the hint is at least a second; a
-- call for the same recipient is allowed from `now` + the hint on; and where the hint is more than
-- a second, such a call is allowed exactly from then on.
pub retry_after_exact :
    (jid : Bytes) (m now later : ℕ) (l : PerJidRateLimiter)
    → m ≤ now
    → IsValid m l
    → 0 < l.max
    → (check jid now l).1 ≡ false
    → (second ≤ (check jid now l).2)
      × ((later < now + (check jid now l).2) ⊎ ((check jid later (check jid now l).0).1 ≡ true))
      × (((check jid now l).2 ≡ second)
          ⊎ ((check jid later (check jid now l).0).1 ≡ leb (now + (check jid now l).2) later))
retry_after_exact jid m now later l h v p denied =
    let full = sym (check-answer jid now l) ∙ denied in
    let hint = check-hint jid now l in
    let least : second ≤ (check jid now l).2 =
      rw hint (second-le-retry l.max l.window now (kept jid now l) full) in
    elim (Bool-cases (leb (now + (check jid now l).2) later)) [
      | inl over ↦
          let passes = later-allowed jid m now later l h v p denied (ground arith) in
          (least, inr passes, inr (passes ∙ sym over))
      | inr before ↦ (
        least,
        inl (ground arith),
        elim (Bool-cases (ltb second (check jid now l).2)) [
          | inl long ↦ inr (
              earlier-denied jid m now later l h v p denied (ground arith) (ground arith)
              ∙ sym before)
          | inr short ↦ inl (ground arith)
        ],
      )
    ]
