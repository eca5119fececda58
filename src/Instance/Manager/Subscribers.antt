-- ===== src/Instance/Manager/Subscribers.antt =====
-- AddEventHandler of internal/instance/manager.go and the cancel function that it returns.
use slimwhats.Base.{
  ℕ, suc, ◌≤◌, ◌<◌, ◌≡◌, refl, false, List, [], ◌∷◌, ◌++◌, none, Bytes, arith, str_eq, str_eq_iff,
  ==_iff, All,
}
use slimwhats.Base.Dict.{Dict, lookup, str_eq_refl}
use slimwhats.Instance.Manager.{
  Manager, ManagedClient, add_handlers, given_handlers, without_handler, cancel_handlers,
  add_event_handler,
}

-- Every key once, and every handler below the next number.
abbrev pub HasHandlersBelow : ℕ → Dict ManagedClient → Type 0
HasHandlersBelow next [] = Unit
HasHandlersBelow next ((id, mc) ∷ rest) =
    (lookup id rest ≡ none) × All (λ h. h < next) mc.handlers × HasHandlersBelow next rest

without_handler-append :
    (next h : ℕ) (hs : List ℕ)
    → next ≤ h
    → All (λ k. k < next) hs
    → without_handler h (hs ++ h ∷ []) ≡ hs
unfolding without_handler
without_handler-append next h [] l a = ground (arith, ==_iff h h)
without_handler-append next h (k ∷ hs) l (b, a) =
    ground (arith, without_handler-append next h hs l a, b, l, ==_iff k h)

-- A number for an instance that is not in the map.
cancel_handlers-other :
    (ids : Dict ℕ) (id : Bytes) (h : ℕ) (d : Dict ManagedClient)
    → lookup id d ≡ none
    → cancel_handlers ((id, h) ∷ ids) d ≡ cancel_handlers ids d
unfolding cancel_handlers lookup
cancel_handlers-other ids id h [] e = refl
cancel_handlers-other ids id h ((j, mc) ∷ d) e =
    let apart : str_eq id j ≡ false = ground (arith, str_eq_iff id j, str_eq_iff j id) in
    let missing : lookup id d ≡ none = ground arith in
    rw (apart, cancel_handlers-other ids id h d missing) refl

lookup-add_handlers :
    (h : ℕ) (id : Bytes) (d : Dict ManagedClient)
    → lookup id d ≡ none
    → lookup id (add_handlers h d) ≡ none
unfolding lookup add_handlers
lookup-add_handlers h id [] e = refl
lookup-add_handlers h id ((j, mc) ∷ d) e = ground (arith, lookup-add_handlers (suc h) id d)

cancel-add :
    (next h : ℕ) (d : Dict ManagedClient)
    → next ≤ h
    → HasHandlersBelow next d
    → cancel_handlers (given_handlers h d) (add_handlers h d) ≡ d
unfolding cancel_handlers given_handlers add_handlers lookup
cancel-add next h [] l b = refl
cancel-add next h ((id, mc) ∷ d) l (fresh, b, bs) =
    rw
      (
        str_eq_refl id,
        without_handler-append next h mc.handlers l b,
        cancel_handlers-other (given_handlers (suc h) d) id h (add_handlers (suc h) d)
            (lookup-add_handlers (suc h) id d fresh),
        cancel-add next (suc h) d (omega (arith, l)) bs,
      )
      refl

-- The cancel function of AddEventHandler gives the clients the handlers that they had before.
pub add_event_handler-cancel :
    (m : Manager)
    → HasHandlersBelow m.next_handler m.clients
    → cancel_handlers (add_event_handler m).1 (add_event_handler m).0.clients ≡ m.clients
unfolding add_event_handler
add_event_handler-cancel m b = cancel-add m.next_handler m.next_handler m.clients (omega arith) b
