-- ===== src/Send/RateLimit/Window.antt =====
-- A whole run of the limiter against a limiter that remembers every send it allowed.
use slimwhats.Base.{
  ℕ, ◌≤◌, ◌≡◌, refl, Bool, true, false, List, [], ◌∷◌, ◌++◌, Bytes, ltb, arith, length, str_eq,
  str_eq_iff, length-append, append-nil, if◌then◌else◌,
}
use mathlib.Core.Path.{ap₂}
use slimwhats.Base.Dict.{lookup}
use slimwhats.Send.RateLimit.Retry.{bucket-check}
use slimwhats.Base.Clock.{prune, prune-prune, prune-append, prune-later}
use slimwhats.Send.RateLimit.{PerJidRateLimiter, bucket, check_bucket, check}

-- A call of `Check`: the recipient and the time.
abbrev pub Call : Type 0
Call = Bytes × ℕ

-- The answers to a sequence of calls.
pub answers : List Call → PerJidRateLimiter → List Bool
answers [] l = []
answers ((jid, now) ∷ calls) l =
    let (l', allowed, retry) = check jid now l in allowed ∷ answers calls l'

-- The times at which a history has allowed a send to the recipient.
pub sent_to : Bytes → List Call → List ℕ
sent_to jid [] = []
sent_to jid ((j, t) ∷ h) = let rest = sent_to jid h in if str_eq j jid then t ∷ rest else rest

-- The sends to the recipient in the window that ends now.
abbrev pub recent_sends : ℕ → Bytes → ℕ → List Call → ℕ
recent_sends window jid now h = length (prune window now (sent_to jid h))

-- The specification: a send is allowed where fewer than `max` sends to its recipient were allowed
-- in the window that ends now.
abbrev pub permits : ℕ → ℕ → Bytes → ℕ → List Call → Bool
permits max window jid now h = ltb (recent_sends window jid now h) max

pub spec_answers : ℕ → ℕ → List Call → List Call → List Bool
spec_answers max window [] h = []
spec_answers max window ((jid, now) ∷ calls) h =
    let ok = permits max window jid now h in
    ok ∷ spec_answers max window calls (if ok then h ++ (jid, now) ∷ [] else h)

-- The sends that the limiter allows in a sequence of calls, behind those allowed before.
pub allowed_sends : List Call → PerJidRateLimiter → List Call → List Call
allowed_sends [] l h = h
allowed_sends ((jid, now) ∷ calls) l h =
    let (l', allowed, retry) = check jid now l in
    allowed_sends calls l' (if allowed then h ++ (jid, now) ∷ [] else h)

-- Times do not go back, and start at `m` or later.
abbrev pub IsMonotone : ℕ → List Call → Type 0
IsMonotone m [] = Unit
IsMonotone m ((jid, now) ∷ calls) = (m ≤ now) × IsMonotone now calls

-- The last time of a sequence that starts at `m`.
abbrev pub end_time : ℕ → List Call → ℕ
end_time m [] = m
end_time m ((jid, now) ∷ calls) = end_time now calls

sent_to-append :
    (jid j : Bytes) (t : ℕ) (h : List Call)
    → sent_to jid (h ++ (j, t) ∷ []) ≡ sent_to jid h ++ (if str_eq j jid then t ∷ [] else [])
unfolding sent_to
sent_to-append jid j t [] = ground arith
sent_to-append jid j t ((i, s) ∷ h) = ground (arith, sent_to-append jid j t h)

-- From `now` on the buckets show the same recent sends as the history.
record Shows (now : ℕ) (l : PerJidRateLimiter) (h : List Call) : Type 0 where
  same :
      (jid : Bytes) (n : ℕ)
      → now ≤ n
      → prune l.window n (bucket l jid) ≡ prune l.window n (sent_to jid h)

-- One call answers as the specification does, and keeps the relation.
check-permits :
    (jid : Bytes) (m now : ℕ) (l : PerJidRateLimiter) (h : List Call)
    → m ≤ now
    → Shows m l h
    → (check jid now l).1 ≡ permits l.max l.window jid now h
unfolding check
check-permits jid m now l h p r = ground (arith, r.same jid now p)

bucket-same :
    (max window now n : ℕ) (b s : List ℕ)
    → now ≤ n
    → prune window now b ≡ prune window now s
    → prune window n b ≡ prune window n s
    → prune window n (check_bucket max window now (prune window now b)).0
      ≡ prune window n (if ltb (length (prune window now s)) max then s ++ now ∷ [] else s)
unfolding check_bucket
bucket-same max window now n b s p e f = ground (
  arith,
  prune-append window n (prune window now b) (now ∷ []),
  prune-append window n s (now ∷ []),
  prune-prune window now n b p,
)

sent-if :
    (jid j : Bytes) (now : ℕ) (c : Bool) (h : List Call)
    → sent_to j (if c then h ++ (jid, now) ∷ [] else h) ≡ (
        if str_eq jid j
        then (if c then sent_to jid h ++ now ∷ [] else sent_to jid h)
        else sent_to j h)
sent-if jid j now c h =
    ground (arith, sent_to-append j jid now h, str_eq_iff jid j, append-nil (sent_to j h))

prune-if :
    (window n : ℕ) (c : Bool) (a b x y : List ℕ)
    → prune window n a ≡ prune window n x
    → prune window n b ≡ prune window n y
    → prune window n (if c then a else b) ≡ prune window n (if c then x else y)
prune-if window n true a b x y p q = p
prune-if window n false a b x y p q = q

check-Shows :
    (jid : Bytes) (m now : ℕ) (l : PerJidRateLimiter) (h : List Call)
    → m ≤ now
    → Shows m l h
    → Shows now
        (check jid now l).0
        (if permits l.max l.window jid now h then h ++ (jid, now) ∷ [] else h)
check-Shows jid m now l h p r = record {
  same = λ j n q.
      rw (bucket-check, sent-if)
        (unfold check in
          prune-if l.window n (str_eq jid j) _ _ _ _
            (bucket-same l.max l.window now n _ _ q (r.same jid now p) (r.same jid n (omega arith)))
            (r.same j n (omega arith)));
}

answers-spec :
    (calls h : List Call) (m : ℕ) (l : PerJidRateLimiter)
    → Shows m l h
    → IsMonotone m calls
    → answers calls l ≡ spec_answers l.max l.window calls h
unfolding answers spec_answers check
answers-spec [] h m l r p = refl
answers-spec ((jid, now) ∷ calls) h m l r (p, q) =
    ap₂ (λ a rest. a ∷ rest) (check-permits jid m now l h p r)
      (answers-spec calls _ now (check jid now l).0 (check-Shows jid m now l h p r) q)

-- On calls whose times do not go back, a limiter with no buckets gives the answers of the
-- specification that remembers every allowed send: pruning forgets nothing that matters.
pub check-refines :
    (calls : List Call) (max window : ℕ)
    → IsMonotone 0 calls
    → answers calls (record { buckets = []; max = max; window = window })
      ≡ spec_answers max window calls []
check-refines calls max window p =
    answers-spec calls [] 0 (record { buckets = []; max = max; window = window })
      (record { same = λ jid n q. unfold lookup sent_to in refl }) p

-- No recipient has more than `max` recent sends.
abbrev Bounded : ℕ → ℕ → ℕ → List Call → Type 0
Bounded max window m h = (jid : Bytes) (n : ℕ) → m ≤ n → recent_sends window jid n h ≤ max

if-Bounded :
    (max window m now : ℕ) (jid : Bytes) (h : List Call)
    → m ≤ now
    → Bounded max window m h
    → Bounded max window now (if permits max window jid now h then h ++ (jid, now) ∷ [] else h)
if-Bounded max window m now jid h p b j n q = rw sent-if (
    ground (
      arith,
      b jid n (omega arith),
      b j n (omega arith),
      prune-append window n (sent_to jid h) (now ∷ []),
      length-append (prune window n (sent_to jid h)) (prune window n (now ∷ [])),
      prune-later window now n (sent_to jid h) q,
    ))

allowed_sends-Bounded :
    (calls h : List Call) (m : ℕ) (l : PerJidRateLimiter)
    → Shows m l h
    → Bounded l.max l.window m h
    → IsMonotone m calls
    → Bounded l.max l.window (end_time m calls) (allowed_sends calls l h)
unfolding allowed_sends check
allowed_sends-Bounded [] h m l r b p = b
allowed_sends-Bounded ((jid, now) ∷ calls) h m l r b (p, q) = rw (check-permits jid m now l h p r) (
    allowed_sends-Bounded calls _ now (check jid now l).0 (check-Shows jid m now l h p r)
      (if-Bounded l.max l.window m now jid h p b) q)

-- On calls whose times do not go back, a limiter that starts with no buckets never lets more than
-- `max` sends to one recipient into a window: at every instant from the last call on, at most
-- `max` of the sends that it allowed are younger than the window.
pub allowed_sends-le-max :
    (calls : List Call) (max window : ℕ) (jid : Bytes) (n : ℕ)
    → IsMonotone 0 calls
    → end_time 0 calls ≤ n
    → recent_sends window jid n
        (allowed_sends calls (record { buckets = []; max = max; window = window }) [])
      ≤ max
allowed_sends-le-max calls max window jid n p q =
    allowed_sends-Bounded calls [] 0 (record { buckets = []; max = max; window = window })
      (record { same = λ j k _. unfold lookup sent_to in refl })
      (λ j k _. unfold sent_to in omega arith) p jid n q
