-- ===== src/Instance/Manager/Heard.antt =====
-- Which handlers of a client the cancel functions of AddEventHandler can take away.
use mathlib.Core.Path.{subst}
use slimwhats.Base.{
  zero, suc, ◌+◌, ◌<◌, ◌≤◌, ◌≢◌, ◌++◌, ◌⊎◌, inl, inr, ◌∙◌, sym, arith, All, ◌==◌, ==_iff, str_eq,
  Bool-cases, if_holds, get_elem?, ℕ, ◌≡◌, refl, Bool, true, false, List, [], ◌∷◌, Option, none,
  some, Bytes,
}
use slimwhats.Base.Dict.{Dict, lookup}
use slimwhats.Instance.Manager.{
  count, given_handlers, without_handler, without_given, ManagedClient, first_handlers,
}

-- A cancel function of AddEventHandler holds only numbers below `n`, or not the number `h`.
abbrev pub IsBelow : ℕ → Dict ℕ → Type 0
IsBelow n [] = Unit
IsBelow n ((id, k) ∷ ids) = (k < n) × IsBelow n ids

abbrev pub IsFree : ℕ → Dict ℕ → Type 0
IsFree h [] = Unit
IsFree h ((id, k) ∷ ids) = (k ≢ h) × IsFree h ids

abbrev pub IsMember : ℕ → List ℕ → Type 0
IsMember h [] = ⊥
IsMember h (k ∷ ks) = (k ≡ h) ⊎ IsMember h ks

-- Where a callback is set, one of the handlers is its own: no cancel function holds it.
abbrev pub IsHeard : Bool → ℕ → List (Dict ℕ) → List ℕ → Type 0
IsHeard false next cancels hs = Unit
IsHeard true next cancels hs = (h : ℕ) × IsMember h hs × (h < next) × All (IsFree h) cancels

IsBelow-later : (n t : ℕ) (ids : Dict ℕ) → n ≤ t → IsBelow n ids → IsBelow t ids
IsBelow-later n t [] l b = tt
IsBelow-later n t ((id, k) ∷ ids) l (a, b) = (omega (arith, a, l), IsBelow-later n t ids l b)

pub All-IsBelow-later :
    (n t : ℕ) (cs : List (Dict ℕ)) → n ≤ t → All (IsBelow n) cs → All (IsBelow t) cs
All-IsBelow-later n t [] l b = tt
All-IsBelow-later n t (c ∷ cs) l (a, b) = (IsBelow-later n t c l a, All-IsBelow-later n t cs l b)

IsBelow-IsFree : (n h : ℕ) (ids : Dict ℕ) → n ≤ h → IsBelow n ids → IsFree h ids
IsBelow-IsFree n h [] l b = tt
IsBelow-IsFree n h ((id, k) ∷ ids) l (a, b) =
    (λ e. absurd (omega (arith, a, l, e)), IsBelow-IsFree n h ids l b)

All-IsFree : (n h : ℕ) (cs : List (Dict ℕ)) → n ≤ h → All (IsBelow n) cs → All (IsFree h) cs
All-IsFree n h [] l b = tt
All-IsFree n h (c ∷ cs) l (a, b) = (IsBelow-IsFree n h c l a, All-IsFree n h cs l b)

IsMember-last : (h : ℕ) (hs : List ℕ) → IsMember h (hs ++ h ∷ [])
IsMember-last h [] = inl refl
IsMember-last h (k ∷ hs) = inr (IsMember-last h hs)

IsMember-append : (h k : ℕ) (hs : List ℕ) → IsMember h hs → IsMember h (hs ++ k ∷ [])
IsMember-append h k [] m = absurd m
IsMember-append h k (x ∷ hs) (inl e) = inl e
IsMember-append h k (x ∷ hs) (inr m) = inr (IsMember-append h k hs m)

IsMember-without_handler :
    (h k : ℕ) (hs : List ℕ) → k ≢ h → IsMember h hs → IsMember h (without_handler k hs)
unfolding without_handler
IsMember-without_handler h k [] n m = absurd m
IsMember-without_handler h k (x ∷ hs) n (inl e) =
    if_holds (IsMember h) (x == k) (λ same. absurd (n (sym ((==_iff x k).0 same) ∙ e)))
      (λ other. inl e)
IsMember-without_handler h k (x ∷ hs) n (inr m) =
    if_holds (IsMember h) (x == k) (λ same. IsMember-without_handler h k hs n m)
      (λ other. inr (IsMember-without_handler h k hs n m))

IsFree-lookup :
    (h k : ℕ) (id : Bytes) (ids : Dict ℕ) → IsFree h ids → lookup id ids ≡ some k → k ≢ h
unfolding lookup
IsFree-lookup h k id [] f e = absurd (cc)
IsFree-lookup h k id ((j, x) ∷ ids) (a, f) e = elim (Bool-cases (str_eq j id)) [
  | inl here ↦ let same : x ≡ k = ground (arith, e, here) in λ z. a (same ∙ z)
  | inr later ↦ IsFree-lookup h k id ids f (ground (arith, e, later))
]

pub later-IsHeard :
    (b : Bool) (n t : ℕ) (cs : List (Dict ℕ)) (hs : List ℕ)
    → n ≤ t
    → IsHeard b n cs hs
    → IsHeard b t cs hs
later-IsHeard false n t cs hs l i = tt
later-IsHeard true n t cs hs l (h, m, a, f) = (h, m, omega (arith, a, l), f)

pub first-IsHeard :
    (b : Bool) (n : ℕ) (cs : List (Dict ℕ))
    → All (IsBelow n) cs
    → IsHeard b (suc n) cs (first_handlers b n)
first-IsHeard false n cs b = tt
first-IsHeard true n cs b = (n, inl refl, omega arith, All-IsFree n n cs (omega arith) b)

-- A handler of the callback is added, or another one, whose number its cancel function holds.
pub subscribed-IsHeard :
    (b : Bool) (n k t : ℕ) (cs : List (Dict ℕ)) (hs : List ℕ)
    → All (IsBelow n) cs
    → n ≤ k
    → k < t
    → IsHeard true t cs (hs ++ k ∷ [])
subscribed-IsHeard b n k t cs hs g l u = (k, IsMember-last k hs, u, All-IsFree n k cs l g)

IsFree-given : (h n : ℕ) (d : Dict ManagedClient) → h < n → IsFree h (given_handlers n d)
unfolding given_handlers
IsFree-given h n [] l = tt
IsFree-given h n ((id, mc) ∷ d) l =
    (λ e. absurd (omega (arith, l, e)), IsFree-given h (suc n) d (omega (arith, l)))

pub IsBelow-given :
    (n t : ℕ) (d : Dict ManagedClient) → n + count d ≤ t → IsBelow t (given_handlers n d)
unfolding given_handlers count
IsBelow-given n t [] l = tt
IsBelow-given n t ((id, mc) ∷ d) l =
    (omega (arith, l), IsBelow-given (suc n) t d (omega (arith, l)))

pub added-IsHeard :
    (b : Bool) (n k t : ℕ) (cs : List (Dict ℕ)) (d : Dict ManagedClient) (hs : List ℕ)
    → n ≤ t
    → IsHeard b n cs hs
    → IsHeard b t (given_handlers n d ∷ cs) (hs ++ k ∷ [])
added-IsHeard false n k t cs d hs l i = tt
added-IsHeard true n k t cs d hs l (h, m, a, f) =
    (h, IsMember-append h k hs m, omega (arith, a, l), (IsFree-given h n d a, f))

pub cancelled-IsHeard :
    (b : Bool) (n : ℕ) (cs : List (Dict ℕ)) (ids : Dict ℕ) (o : Option ℕ) (id : Bytes)
    (mc : ManagedClient)
    → ((h : ℕ) → All (IsFree h) cs → IsFree h ids)
    → lookup id ids ≡ o
    → IsHeard b n cs mc.handlers
    → IsHeard b n cs (without_given o mc).handlers
cancelled-IsHeard false n cs ids o id mc g e i = tt
cancelled-IsHeard true n cs ids none id mc g e i = i
cancelled-IsHeard true n cs ids (some k) id mc g e (h, m, a, f) =
    (h, IsMember-without_handler h k mc.handlers (IsFree-lookup h k id ids (g h f) e) m, a, f)

pub get_elem-IsFree :
    (h n : ℕ) (cs : List (Dict ℕ)) (ids : Dict ℕ)
    → get_elem? cs n ≡ some ids
    → All (IsFree h) cs
    → IsFree h ids
get_elem-IsFree h n [] ids e f = absurd (ground (arith, e, n))
get_elem-IsFree h zero (c ∷ cs) ids e (a, f) =
    let same : c ≡ ids = ground (arith, e) in subst (IsFree h) same a
get_elem-IsFree h (suc n) (c ∷ cs) ids e (a, f) = get_elem-IsFree h n cs ids e f
