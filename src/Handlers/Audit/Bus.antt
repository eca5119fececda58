-- ===== src/Handlers/Audit/Bus.antt =====
-- What the subscribers of the audit bus receive.
use slimwhats.Base.{
  ℕ, zero, suc, ◌≤◌, ◌<◌, ◌≡◌, refl, ap, ◌∙◌, sym, false, List, [], ◌∷◌, ◌++◌, append-nil,
  append_assoc, Option, none, some, ltb, length, length-append, take, All, ◌==◌, ==_iff, arith,
  if◌then◌else◌, Bool-cases, inl, inr, ltb→le, ltb→lt,
}
use slimwhats.Handlers.Audit.{
  AuditEntry, Channel, AuditBus, subscribe, without_sub, is_closed, cancel, offer, offer_all,
  publish,
}

abbrev pub publish_all : List AuditEntry → AuditBus → AuditBus
publish_all [] b = b
publish_all (e ∷ es) b = publish_all es (publish e b)

-- What the buffer of a channel holds, where it has subscribed.
abbrev pub buffer_of : ℕ → List Channel → Option (List AuditEntry)
buffer_of ch [] = none
buffer_of ch (s ∷ ss) = if s.number == ch then some s.buffer else buffer_of ch ss

abbrev pub offered :
    (List AuditEntry → List AuditEntry) → Option (List AuditEntry) → Option (List AuditEntry)
offered f none = none
offered f (some buffer) = some (f buffer)

buffer-offer_all :
    (ch : ℕ) (e : AuditEntry) (ss : List Channel)
    → buffer_of ch (offer_all e ss) ≡ offered (offer e) (buffer_of ch ss)
unfolding offer_all
buffer-offer_all ch e [] = refl
buffer-offer_all ch e (s ∷ ss) = ground (arith, buffer-offer_all ch e ss)

-- All entries to one buffer, in order.
abbrev pub offers : List AuditEntry → List AuditEntry → List AuditEntry
offers [] buffer = buffer
offers (e ∷ es) buffer = offers es (offer e buffer)

take-all : (n : ℕ) (xs : List AuditEntry) → length xs ≤ n → take n xs ≡ xs
take-all zero [] l = refl
take-all zero (x ∷ xs) l = absurd (omega (arith, l))
take-all (suc n) [] l = refl
take-all (suc n) (x ∷ xs) l = ap (λ ys. x ∷ ys) (take-all n xs (omega (arith, l)))

take-full : (n : ℕ) (xs ys : List AuditEntry) → n ≤ length xs → take n (xs ++ ys) ≡ take n xs
take-full zero xs ys l = refl
take-full (suc n) [] ys l = absurd (omega (arith, l))
take-full (suc n) (x ∷ xs) ys l = ap (λ zs. x ∷ zs) (take-full n xs ys (omega (arith, l)))

offers_lem :
    (es buffer : List AuditEntry) → length buffer ≤ 16 → offers es buffer ≡ take 16 (buffer ++ es)
unfolding offer
offers_lem [] buffer l = sym (rw (append-nil buffer) (take-all 16 buffer l))
offers_lem (e ∷ es) buffer l = elim (Bool-cases (ltb (length buffer) 16)) [
  | inl room ↦ rw room (
      offers_lem es (buffer ++ e ∷ [])
        (omega (arith, length-append buffer (e ∷ []), ltb→lt (length buffer) 16 room))
      ∙ ap (take 16) (append_assoc buffer (e ∷ []) es))
  | inr full ↦
      let fits : 16 ≤ length buffer = ltb→le (length buffer) 16 full in
      rw full (
        offers_lem es buffer l
        ∙ take-full 16 buffer es fits
        ∙ sym (take-full 16 buffer (e ∷ es) fits))
]

buffer-publish_all :
    (ch : ℕ) (es : List AuditEntry) (b : AuditBus) (buffer : List AuditEntry)
    → buffer_of ch b.subs ≡ some buffer
    → buffer_of ch (publish_all es b).subs ≡ some (offers es buffer)
unfolding publish
buffer-publish_all ch [] b buffer h = h
buffer-publish_all ch (e ∷ es) b buffer h =
    buffer-publish_all ch es (publish e b) (offer e buffer)
      (buffer-offer_all ch e b.subs ∙ ap (offered (offer e)) h)

-- What a subscriber finds in its buffer, while it does not read, is the first 16 of the entries that
-- were there and of the ones published since, in order: a burst that fits arrives whole, and of a longer
-- one the last are missing.
pub publish_all-buffer :
    (ch : ℕ) (es : List AuditEntry) (b : AuditBus) (buffer : List AuditEntry)
    → buffer_of ch b.subs ≡ some buffer
    → length buffer ≤ 16
    → buffer_of ch (publish_all es b).subs ≡ some (take 16 (buffer ++ es))
publish_all-buffer ch es b buffer h l =
    buffer-publish_all ch es b buffer h ∙ ap some (offers_lem es buffer l)

without_sub-append :
    (n : ℕ) (ss : List Channel)
    → All (λ s. Channel.number s < n) ss
    → without_sub n (ss ++ record { number = n; buffer = [] } ∷ []) ≡ ss
unfolding without_sub
without_sub-append n [] a = ground (arith, ==_iff n n)
without_sub-append n (s ∷ ss) (l, a) =
    ground (arith, without_sub-append n ss a, l, ==_iff s.number n)

-- The cancel function of a subscription leaves the subscribers that were there before, and called a
-- second time it panics.
pub subscribe-cancel :
    (b : AuditBus)
    → All (λ s. Channel.number s < b.next) b.subs
    → is_closed b.next b.closed ≡ false
    → (c : AuditBus) × (cancel (subscribe b).1 (subscribe b).0 ≡ some c)
      × (c.subs ≡ b.subs)
      × (cancel (subscribe b).1 c ≡ none)
unfolding cancel subscribe
subscribe-cancel b a h = (
  record {
    subs = without_sub b.next (b.subs ++ record { number = b.next; buffer = [] } ∷ []);
    next = suc b.next;
    closed = b.next ∷ b.closed;
  },
  ground (arith, h),
  without_sub-append b.next b.subs a,
  closes,
)
  where
    closes :
        cancel b.next (record {
          subs = without_sub b.next (b.subs ++ record { number = b.next; buffer = [] } ∷ []);
          next = suc b.next;
          closed = b.next ∷ b.closed;
        })
        ≡ none
    closes = unfold is_closed in ground (arith, ==_iff b.next b.next)
