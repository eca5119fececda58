-- ===== src/Instance/Manager/Numbered.antt =====
-- The clients that the manager holds: their numbers, and that the callback hears them.
use slimwhats.Base.{
  ◌+◌, refl, Option, none, ℕ, suc, ◌<◌, ◌≡◌, ◌≢◌, List, [], ◌∷◌, ◌++◌, some, Bytes, arith, str_eq,
  if_holds, ◌≤◌, sym,
}
use slimwhats.Base.Dict.{Dict, lookup, insert, remove}
use slimwhats.Instance.Manager.{ManagedClient, add_handlers, count, cancel_handlers, without_given}

client-without_given : (o : Option ℕ) (mc : ManagedClient) → (without_given o mc).client ≡ mc.client
client-without_given none mc = refl
client-without_given (some h) mc = refl

-- No client of the map has the number `n`.
abbrev pub IsUnused : ℕ → Dict ManagedClient → Type 0
IsUnused n [] = Unit
IsUnused n ((id, mc) ∷ rest) = (mc.client ≢ n) × IsUnused n rest

-- Every client has a number of its own, below the next one, and `P` holds of its handlers.
abbrev pub IsNumbered : ℕ → (List ℕ → Type 0) → Dict ManagedClient → Type 0
IsNumbered next P [] = Unit
IsNumbered next P ((id, mc) ∷ rest) =
    (mc.client < next) × P mc.handlers × IsUnused mc.client rest × IsNumbered next P rest

module _ (n : ℕ) where
  -- A client that takes the place of one with the same number.
  IsUnused-replace :
      (id : Bytes) (mc new : ManagedClient) (d : Dict ManagedClient)
      → lookup id d ≡ some mc
      → new.client ≡ mc.client
      → IsUnused n d
      → IsUnused n (insert id new d)
  unfolding lookup insert
  IsUnused-replace id mc new [] h e u = absurd (cc)
  IsUnused-replace id mc new ((j, v) ∷ d) h e (a, u) =
      if_holds (IsUnused n) (str_eq j id)
        (λ here. (let same : v ≡ mc = ground (arith, here) in rw (e, sym same) a, u))
        (λ later. (a, IsUnused-replace id mc new d (ground (arith, later)) e u))

  pub IsUnused-insert :
      (id : Bytes) (new : ManagedClient) (d : Dict ManagedClient)
      → new.client ≢ n
      → IsUnused n d
      → IsUnused n (insert id new d)
  unfolding insert
  IsUnused-insert id new [] e u = (e, tt)
  IsUnused-insert id new ((j, v) ∷ d) e (a, u) =
      if_holds (IsUnused n) (str_eq j id) (λ here. (e, u))
        (λ later. (a, IsUnused-insert id new d e u))

  IsUnused-remove : (id : Bytes) (d : Dict ManagedClient) → IsUnused n d → IsUnused n (remove id d)
  unfolding remove
  IsUnused-remove id [] u = tt
  IsUnused-remove id ((j, v) ∷ d) (a, u) =
      if_holds (IsUnused n) (str_eq j id) (λ here. IsUnused-remove id d u)
        (λ later. (a, IsUnused-remove id d u))

  IsUnused-add_handlers :
      (next : ℕ) (d : Dict ManagedClient) → IsUnused n d → IsUnused n (add_handlers next d)
  unfolding add_handlers
  IsUnused-add_handlers next [] u = tt
  IsUnused-add_handlers next ((j, v) ∷ d) (a, u) = (a, IsUnused-add_handlers (suc next) d u)

  IsUnused-cancel :
      (ids : Dict ℕ) (d : Dict ManagedClient) → IsUnused n d → IsUnused n (cancel_handlers ids d)
  unfolding cancel_handlers
  IsUnused-cancel ids [] u = tt
  IsUnused-cancel ids ((j, v) ∷ d) (a, u) =
      (rw (client-without_given (lookup j ids) v) a, IsUnused-cancel ids d u)

-- A number from the next one on is on no client.
pub IsNumbered-IsUnused :
    (next n : ℕ) (P : List ℕ → Type 0) (d : Dict ManagedClient)
    → next ≤ n
    → IsNumbered next P d
    → IsUnused n d
IsNumbered-IsUnused next n P [] l i = tt
IsNumbered-IsUnused next n P ((id, mc) ∷ d) l (a, h, u, i) =
    (λ e. absurd (omega (arith, a, l, e)), IsNumbered-IsUnused next n P d l i)

module _ (next : ℕ) (P : List ℕ → Type 0) where
  pub IsNumbered-replace :
      (id : Bytes) (mc new : ManagedClient) (d : Dict ManagedClient)
      → lookup id d ≡ some mc
      → new.client ≡ mc.client
      → new.handlers ≡ mc.handlers
      → IsNumbered next P d
      → IsNumbered next P (insert id new d)
  unfolding lookup insert
  IsNumbered-replace id mc new [] h e k i = absurd (cc)
  IsNumbered-replace id mc new ((j, v) ∷ d) h e k (a, s, u, i) =
      if_holds (IsNumbered next P) (str_eq j id)
        (λ here. (let same : v ≡ mc = ground (arith, here) in rw (e, k, sym same) (a, s, u, i)))
        (λ later. (
          a,
          s,
          IsUnused-replace v.client id mc new d (ground (arith, later)) e u,
          IsNumbered-replace id mc new d (ground (arith, later)) e k i,
        ))

  pub IsNumbered-remove :
      (id : Bytes) (d : Dict ManagedClient) → IsNumbered next P d → IsNumbered next P (remove id d)
  unfolding remove
  IsNumbered-remove id [] i = tt
  IsNumbered-remove id ((j, v) ∷ d) (a, s, u, i) =
      if_holds (IsNumbered next P) (str_eq j id) (λ here. IsNumbered-remove id d i)
        (λ later. (a, s, IsUnused-remove v.client id d u, IsNumbered-remove id d i))

  -- The next client is inserted.
  pub IsNumbered-insert :
      (id : Bytes) (new : ManagedClient) (d : Dict ManagedClient)
      → new.client ≡ next
      → P new.handlers
      → IsNumbered next P d
      → IsNumbered (suc next) P (insert id new d)
  unfolding insert
  IsNumbered-insert id new [] e s i = (omega (arith, e), s, tt, tt)
  IsNumbered-insert id new ((j, v) ∷ d) e s (a, t, u, i) =
      if_holds (IsNumbered (suc next) P) (str_eq j id)
        (λ here. (
          omega (arith, e),
          s,
          rw e (IsNumbered-IsUnused next next P d (omega arith) i),
          IsNumbered-later d i,
        ))
        (λ later. (
          omega (arith, a),
          t,
          IsUnused-insert v.client id new d (λ same. absurd (omega (arith, a, e, same))) u,
          IsNumbered-insert id new d e s i,
        ))
    where
      IsNumbered-later :
          (rest : Dict ManagedClient) → IsNumbered next P rest → IsNumbered (suc next) P rest
      IsNumbered-later [] i = tt
      IsNumbered-later ((j, v) ∷ rest) (a, t, u, i) =
          (omega (arith, a), t, u, IsNumbered-later rest i)

pub IsNumbered-weaken :
    (next : ℕ) (P Q : List ℕ → Type 0) (d : Dict ManagedClient)
    → ((hs : List ℕ) → P hs → Q hs)
    → IsNumbered next P d
    → IsNumbered next Q d
IsNumbered-weaken next P Q [] f i = tt
IsNumbered-weaken next P Q ((j, v) ∷ d) f (a, s, u, i) =
    (a, f v.handlers s, u, IsNumbered-weaken next P Q d f i)

-- A handler that is added on every client, with a number from `h` up to `t`.
pub IsNumbered-add_handlers :
    (next h t : ℕ) (P Q : List ℕ → Type 0) (d : Dict ManagedClient)
    → h + count d ≤ t
    → ((hs : List ℕ) (k : ℕ) → h ≤ k → k < t → P hs → Q (hs ++ k ∷ []))
    → IsNumbered next P d
    → IsNumbered next Q (add_handlers h d)
unfolding add_handlers count
IsNumbered-add_handlers next h t P Q [] l f i = tt
IsNumbered-add_handlers next h t P Q ((j, v) ∷ d) l f (a, s, u, i) = (
  a,
  f v.handlers h (omega arith) (omega (arith, l)) s,
  IsUnused-add_handlers v.client (suc h) d u,
  IsNumbered-add_handlers next (suc h) t P Q d (omega (arith, l))
      (λ hs k p q. f hs k (omega (arith, p)) q) i,
)

-- The handlers that a cancel function leaves.
pub IsNumbered-cancel :
    (next : ℕ) (ids : Dict ℕ) (P Q : List ℕ → Type 0) (d : Dict ManagedClient)
    → ((id : Bytes) (mc : ManagedClient)
        → P mc.handlers
        → Q (without_given (lookup id ids) mc).handlers)
    → IsNumbered next P d
    → IsNumbered next Q (cancel_handlers ids d)
unfolding cancel_handlers
IsNumbered-cancel next ids P Q [] f i = tt
IsNumbered-cancel next ids P Q ((j, v) ∷ d) f (a, s, u, i) = (
  rw (client-without_given (lookup j ids) v) a,
  f j v s,
  rw (client-without_given (lookup j ids) v) (IsUnused-cancel v.client ids d u),
  IsNumbered-cancel next ids P Q d f i,
)
