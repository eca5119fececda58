-- ===== src/Base/Clock.antt =====
-- Times and durations: numbers of nanoseconds, a time since a fixed instant.
use Prim.Native.Nat.{ℕ, ◌+◌, ◌*◌, ◌≤◌}
use mathlib.Core.Path.{◌≡◌, refl}
use mathlib.Core.Bool.{Bool}
use mathlib.Core.List.{List, [], ◌∷◌, ◌++◌}
use native.Mathlib.Omega.{arith}
use slimwhats.Base.Tests.{ltb}
use slimwhats.Base.Lists.{length, filter, filter-append, All}

-- `time.Second`
abbrev pub second : ℕ
second = 1000000000

-- `time.Minute`
abbrev pub minute : ℕ
minute = 60 * second

-- `time.Hour`
abbrev pub hour : ℕ
hour = 60 * minute

-- `t.After(now.Add(-window))`, with the window on the other side, for `-` on ℕ stops at 0
abbrev pub is_recent : ℕ → ℕ → ℕ → Bool
is_recent window now t = ltb now (t + window)

-- `keep := ts[:0]; for _, t := range ts { if t.After(cutoff) { keep = append(keep, t) } }`
abbrev pub prune : ℕ → ℕ → List ℕ → List ℕ
prune window now = filter (is_recent window now)

pub prune-prune :
    (window m n : ℕ) (b : List ℕ) → m ≤ n → prune window n (prune window m b) ≡ prune window n b
prune-prune window m n [] h = refl
prune-prune window m n (t ∷ b) h = ground (arith, prune-prune window m n b h)

pub prune-append :
    (window n : ℕ) (b c : List ℕ) → prune window n (b ++ c) ≡ prune window n b ++ prune window n c
prune-append window n b c = filter-append (is_recent window n) b c

-- Fewer times are recent later.
pub prune-later :
    (window m n : ℕ) (b : List ℕ) → m ≤ n → length (prune window n b) ≤ length (prune window m b)
prune-later window m n [] h = omega arith
prune-later window m n (t ∷ b) h = ground (arith, prune-later window m n b h)

-- What is older than the window is dropped.
pub prune-eq-nil :
    (window now : ℕ) (b : List ℕ) → All (λ t. t + window ≤ now) b → prune window now b ≡ []
prune-eq-nil window now [] a = refl
prune-eq-nil window now (t ∷ b) (p, a) = ground (arith, prune-eq-nil window now b a)

pub All-later : (m n : ℕ) (b : List ℕ) → m ≤ n → All (λ t. t ≤ m) b → All (λ t. t ≤ n) b
All-later m n [] h a = tt
All-later m n (t ∷ b) h (p, a) = (omega arith, All-later m n b h a)
