-- ===== src/Instance/Logs/Listed.antt =====
-- What ListLogs answers.
use mathlib.Core.Path.{subst}
use slimwhats.Base.{
  ◌⊎◌, inl, inr, ◌↔◌, Option, none, some, Bytes, is_empty, str_eq, str_eq_iff, sym,
  length-filter-le, if◌then◌else◌, ℕ, suc, ◌≤◌, ◌≡◌, zero, refl, Bool, true, false, List, [], ◌∷◌,
  arith, leb, leb→le, filter, take, drop, length, All, if_holds,
}
use slimwhats.Base.Int.{ℤ, pos, negsuc}
use slimwhats.Base.Result.{ok}
use slimwhats.Instance.Logs.{
  LogEntry, LogQuery, is_since, matches, place, newest_first, list_logs, limit_of, offset_of,
}

-- No entry is newer than the one before it.
abbrev pub IsNewestFirst : List LogEntry → Type 0
IsNewestFirst [] = Unit
IsNewestFirst (e ∷ es) = All (λ f. f.timestamp ≤ e.timestamp) es × IsNewestFirst es

module _ (P : LogEntry → Type 0) where
  All-place : (e : LogEntry) (es : List LogEntry) → P e → All P es → All P (place e es)
  unfolding place
  All-place e [] p a = (p, tt)
  All-place e (f ∷ fs) p (q, a) =
      if_holds (All P) (leb f.timestamp e.timestamp) (λ h. (p, (q, a)))
        (λ h. (q, All-place e fs p a))

  All-newest_first : (es : List LogEntry) → All P es → All P (newest_first es)
  unfolding newest_first
  All-newest_first [] a = tt
  All-newest_first (e ∷ es) (p, a) = All-place e (newest_first es) p (All-newest_first es a)

All-weaken :
    (t u : ℕ) (es : List LogEntry)
    → t ≤ u
    → All (λ f. LogEntry.timestamp f ≤ t) es
    → All (λ f. LogEntry.timestamp f ≤ u) es
All-weaken t u [] l a = tt
All-weaken t u (e ∷ es) l (p, a) = (omega (arith, p, l), All-weaken t u es l a)

place-IsNewestFirst :
    (e : LogEntry) (es : List LogEntry) → IsNewestFirst es → IsNewestFirst (place e es)
unfolding place
place-IsNewestFirst e [] s = (tt, tt)
place-IsNewestFirst e (f ∷ fs) (a, s) =
    if_holds IsNewestFirst (leb f.timestamp e.timestamp)
      (λ h. (
        (
          leb→le f.timestamp e.timestamp h,
          All-weaken f.timestamp e.timestamp fs (leb→le f.timestamp e.timestamp h) a,
        ),
        (a, s),
      ))
      (λ h. (
        All-place (λ g. g.timestamp ≤ f.timestamp) e fs (ground (arith, h)) a,
        place-IsNewestFirst e fs s,
      ))

newest_first-IsNewestFirst : (es : List LogEntry) → IsNewestFirst (newest_first es)
unfolding newest_first
newest_first-IsNewestFirst [] = tt
newest_first-IsNewestFirst (e ∷ es) =
    place-IsNewestFirst e (newest_first es) (newest_first-IsNewestFirst es)

All-filter : (p : LogEntry → Bool) (es : List LogEntry) → All (λ e. p e ≡ true) (filter p es)
All-filter p [] = tt
All-filter p (e ∷ es) =
    if_holds (All (λ f. p f ≡ true)) (p e) (λ h. (h, All-filter p es)) (λ h. All-filter p es)

length-take : (n : ℕ) (es : List LogEntry) → length (take n es) ≤ n
length-take zero es = omega arith
length-take (suc n) [] = omega arith
length-take (suc n) (e ∷ es) = omega (arith, length-take n es)

limit-le : (l : ℤ) → limit_of l ≤ 500
limit-le (negsuc n) = omega arith
limit-le (pos n) = ground arith

-- What a query asks for, of the time that it names.
abbrev pub NotBefore : Option ℕ → ℕ → Type 0
NotBefore none t = Unit
NotBefore (some s) t = s ≤ t

-- What a query asks for: the instance, and a level, a category and a time where they are given.
abbrev pub Wanted : LogQuery → LogEntry → Type 0
Wanted q e =
    (e.instance_id ≡ q.instance_id)
    × ((q.level ≡ []) ⊎ (e.level ≡ q.level))
    × ((q.category ≡ []) ⊎ (e.category ≡ q.category))
    × NotBefore q.since e.timestamp

is_since_iff : (o : Option ℕ) (t : ℕ) → (is_since o t ≡ true) ↔ NotBefore o t
is_since_iff none t = ground arith
is_since_iff (some s) t = ground arith

text_iff :
    (given found : Bytes)
    → ((if is_empty given then true else str_eq found given) ≡ true)
      ↔ ((given ≡ []) ⊎ (found ≡ given))
text_iff [] found = ground arith
text_iff (c ∷ given) found = (
  λ h. inr ((str_eq_iff found (c ∷ given)).0 h),
  λ h. elim h [ inl z ↦ absurd (ground (arith, z)) | inr e ↦ (str_eq_iff found (c ∷ given)).1 e ],
)

matches_iff : (q : LogQuery) (e : LogEntry) → (matches q e ≡ true) ↔ Wanted q e
unfolding matches
matches_iff q e = ground (
  arith,
  str_eq_iff e.instance_id q.instance_id,
  text_iff q.level e.level,
  text_iff q.category e.category,
  is_since_iff q.since e.timestamp,
)

-- The entry is in the list.
abbrev pub IsIn : LogEntry → List LogEntry → Type 0
IsIn e [] = ⊥
IsIn e (f ∷ fs) = (e ≡ f) ⊎ IsIn e fs

IsIn-place-here : (e : LogEntry) (es : List LogEntry) → IsIn e (place e es)
unfolding place
IsIn-place-here e [] = inl refl
IsIn-place-here e (f ∷ fs) =
    if_holds (IsIn e) (leb f.timestamp e.timestamp) (λ h. inl refl)
      (λ h. inr (IsIn-place-here e fs))

IsIn-place : (x e : LogEntry) (es : List LogEntry) → IsIn x es → IsIn x (place e es)
unfolding place
IsIn-place x e [] m = absurd m
IsIn-place x e (f ∷ fs) (inl same) =
    if_holds (IsIn x) (leb f.timestamp e.timestamp) (λ h. inr (inl same)) (λ h. inl same)
IsIn-place x e (f ∷ fs) (inr m) =
    if_holds (IsIn x) (leb f.timestamp e.timestamp) (λ h. inr (inr m))
      (λ h. inr (IsIn-place x e fs m))

IsIn-newest_first : (x : LogEntry) (es : List LogEntry) → IsIn x es → IsIn x (newest_first es)
unfolding newest_first
IsIn-newest_first x [] m = absurd m
IsIn-newest_first x (e ∷ es) (inl same) =
    subst (λ y. IsIn y (place e (newest_first es))) (sym same) (IsIn-place-here e (newest_first es))
IsIn-newest_first x (e ∷ es) (inr m) = IsIn-place x e (newest_first es) (IsIn-newest_first x es m)

length-place : (e : LogEntry) (es : List LogEntry) → length (place e es) ≡ suc (length es)
unfolding place
length-place e [] = refl
length-place e (f ∷ fs) = ground (arith, length-place e fs)

length-newest_first : (es : List LogEntry) → length (newest_first es) ≡ length es
unfolding newest_first
length-newest_first [] = refl
length-newest_first (e ∷ es) =
    omega (arith, length-place e (newest_first es), length-newest_first es)

All-Wanted :
    (q : LogQuery) (es : List LogEntry) → All (λ e. matches q e ≡ true) es → All (Wanted q) es
All-Wanted q [] a = tt
All-Wanted q (e ∷ es) (m, a) = ((matches_iff q e).0 m, All-Wanted q es a)

-- Every row is in the list, or it is none that the query asks for.
abbrev pub Covers : LogQuery → List LogEntry → List LogEntry → Type 0
Covers q all rows = All (λ e. IsIn e all ⊎ (¬ Wanted q e)) rows

Covers-weaken :
    (q : LogQuery) (x : LogEntry) (all rows : List LogEntry)
    → Covers q all rows
    → Covers q (x ∷ all) rows
Covers-weaken q x all [] c = tt
Covers-weaken q x all (e ∷ rows) (inl m, c) = (inl (inr m), Covers-weaken q x all rows c)
Covers-weaken q x all (e ∷ rows) (inr n, c) = (inr n, Covers-weaken q x all rows c)

filter-Covers : (q : LogQuery) (rows : List LogEntry) → Covers q (filter (matches q) rows) rows
filter-Covers q [] = tt
filter-Covers q (e ∷ rows) =
    if_holds (λ l. Covers q l (e ∷ rows)) (matches q e)
      (λ h.
        (inl (inl refl), Covers-weaken q e (filter (matches q) rows) rows (filter-Covers q rows)))
      (λ h. (inr (λ w. absurd (ground (arith, (matches_iff q e).1 w, h))), filter-Covers q rows))

newest_first-Covers :
    (q : LogQuery) (all rows : List LogEntry) → Covers q all rows → Covers q (newest_first all) rows
newest_first-Covers q all [] c = tt
newest_first-Covers q all (e ∷ rows) (inl m, c) =
    (inl (IsIn-newest_first e all m), newest_first-Covers q all rows c)
newest_first-Covers q all (e ∷ rows) (inr n, c) = (inr n, newest_first-Covers q all rows c)

-- Where the SELECT works, ListLogs answers a page, of at most 500 entries, of the list of the rows that the query
-- asks for by instance, level, category and time: the list is the newest first, holds only such rows
-- and each of them, and is no longer than the table.
pub list_logs_sound :
    (q : LogQuery) (rows : List LogEntry)
    → (all : List LogEntry) × (list_logs false q rows
        ≡ ok (take (limit_of q.limit) (drop (offset_of q.offset) all)))
      × IsNewestFirst all
      × All (Wanted q) all
      × Covers q all rows
      × (length all ≤ length rows)
      × (length (take (limit_of q.limit) (drop (offset_of q.offset) all)) ≤ 500)
unfolding list_logs
list_logs_sound q rows =
    let found = filter (matches q) rows in
    let all = newest_first found in
    (
      all,
      refl,
      newest_first-IsNewestFirst found,
      All-Wanted q all
          (All-newest_first (λ e. matches q e ≡ true) found (All-filter (matches q) rows)),
      newest_first-Covers q found rows (filter-Covers q rows),
      omega (arith, length-newest_first found, length-filter-le (matches q) rows),
      omega
          (arith, length-take (limit_of q.limit) (drop (offset_of q.offset) all), limit-le q.limit),
    )
