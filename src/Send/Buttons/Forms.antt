-- ===== src/Send/Buttons/Forms.antt =====
-- What the matchers of internal/send/buttons.go accept: the shape of a link, of a phone number, of an address
-- and of a pix key.
use slimwhats.Base.{
  ℕ, ◌≤◌, ◌≡◌, ◌≢◌, refl, ap, ◌∙◌, ◌⊎◌, inl, inr, ◌↔◌, true, false, not, ◌&&◌, [], ◌∷◌, ◌++◌, none,
  Bytes, codes, All, arith, length, is_empty, has_prefix, str_eq, str_eq_iff, ◌==◌, ==_iff,
  Bool-cases,
}
use slimwhats.Send.Recipient.{digits_only}
use slimwhats.Send.Buttons.{
  all_digits, phone_matches, is_address_byte, all_address, dotted_tail, dotted, address_tail,
  email_matches, url_allowed, valid_pix_key_type, validate_pix_key,
}

-- The text begins with the prefix.
abbrev pub StartsWith : Bytes → Bytes → Type 0
StartsWith s p = (r : Bytes) × (s ≡ p ++ r)

has_prefix_iff : (s p : Bytes) → (has_prefix s p ≡ true) ↔ StartsWith s p
unfolding has_prefix
has_prefix_iff s [] = (λ h. (s, refl), λ h. refl)
has_prefix_iff [] (p ∷ ps) = (λ h. absurd (cc), λ h. absurd (ground (arith, h.1)))
has_prefix_iff (c ∷ s) (p ∷ ps) = (
  λ h. let (r, e) = (has_prefix_iff s ps).0 (ground arith) in (r, ground (arith, e, ==_iff c p)),
  λ h. ground (arith, h.1, ==_iff c p, (has_prefix_iff s ps).1 (h.0, ground (arith, h.1))),
)

-- https, or http to this host, of at most 2048 bytes.
abbrev pub IsLink : Bytes → Type 0
IsLink u =
    (length u ≤ 2048)
    × (StartsWith u (codes "https://")
        ⊎ (StartsWith u (codes "http://localhost") ⊎ StartsWith u (codes "http://127.0.0.1")))

pub url_allowed_iff : (u : Bytes) → (url_allowed u ≡ true) ↔ IsLink u
url_allowed_iff u = ground (
  arith,
  has_prefix_iff u (codes "https://"),
  has_prefix_iff u (codes "http://localhost"),
  has_prefix_iff u (codes "http://127.0.0.1"),
)

abbrev pub IsDigit : ℕ → Type 0
IsDigit c = (48 ≤ c) × (c ≤ 57)

all_digits_iff : (s : Bytes) → (all_digits s ≡ true) ↔ All IsDigit s
all_digits_iff [] = ground arith
all_digits_iff (c ∷ s) = ground (arith, all_digits_iff s)

-- A plus, a digit that is not 0, and 6 to 14 digits.
abbrev pub IsPhone : Bytes → Type 0
IsPhone s =
    (d : ℕ) × (r : Bytes) × (s ≡ 43 ∷ d ∷ r)
    × (49 ≤ d)
    × (d ≤ 57)
    × All IsDigit r
    × (6 ≤ length r)
    × (length r ≤ 14)

pub phone_matches_iff : (s : Bytes) → (phone_matches s ≡ true) ↔ IsPhone s
unfolding phone_matches
phone_matches_iff [] = (λ h. absurd (cc), λ (d, r, e, l, u, a, x, y). absurd (ground (arith, e)))
phone_matches_iff (p ∷ []) =
    (λ h. absurd (cc), λ (d, r, e, l, u, a, x, y). absurd (ground (arith, e)))
phone_matches_iff (p ∷ d ∷ s) = (
  λ h. (
    d,
    s,
    ground (arith, ==_iff p 43),
    ground arith,
    ground arith,
    (all_digits_iff s).0 (ground arith),
    ground arith,
    ground arith,
  ),
  λ (d', r, e, l, u, a, x, y).
      let same : s ≡ r = ground (arith, e) in
      let first : d ≡ d' = ground (arith, e) in
      let plus : p ≡ 43 = ground (arith, e) in
      let digits : all_digits s ≡ true = ground (arith, same, (all_digits_iff r).1 a) in
      ground (arith, same, first, plus, digits, l, u, x, y, ==_iff p 43),
)

-- Neither an at sign nor white space.
abbrev pub IsAddressByte : ℕ → Type 0
IsAddressByte c = (c ≢ 64) × (c ≢ 9) × (c ≢ 10) × (c ≢ 12) × (c ≢ 13) × (c ≢ 32)

is_address_byte_iff : (c : ℕ) → (is_address_byte c ≡ true) ↔ IsAddressByte c
is_address_byte_iff c =
    ground (arith, ==_iff c 64, ==_iff c 9, ==_iff c 10, ==_iff c 12, ==_iff c 13, ==_iff c 32)

all_address_iff : (s : Bytes) → (all_address s ≡ true) ↔ All IsAddressByte s
all_address_iff [] = ground arith
all_address_iff (c ∷ s) = ground (arith, is_address_byte_iff c, all_address_iff s)

-- Address bytes, a dot, and one or more address bytes.
abbrev IsDottedTail : Bytes → Type 0
IsDottedTail s =
    (b : Bytes) × (c : Bytes) × (s ≡ b ++ 46 ∷ c)
    × All IsAddressByte b
    × (c ≢ [])
    × All IsAddressByte c

dotted_tail-make :
    (b c : Bytes)
    → All IsAddressByte b
    → c ≢ []
    → All IsAddressByte c
    → dotted_tail (b ++ 46 ∷ c) ≡ true
dotted_tail-make [] [] a n d = absurd (n refl)
dotted_tail-make [] (c ∷ cs) a n d = ground (arith, (all_address_iff (c ∷ cs)).1 d)
dotted_tail-make (x ∷ b) c (p, a) n d =
    ground (arith, (is_address_byte_iff x).1 p, dotted_tail-make b c a n d)

dotted_tail-split : (s : Bytes) → dotted_tail s ≡ true → IsDottedTail s
dotted_tail-split [] h = absurd (cc)
dotted_tail-split (x ∷ s) h = elim (Bool-cases (x == 46 && not (is_empty s) && all_address s)) [
  | inl here ↦ (
    [],
    s,
    ground (arith, here, ==_iff x 46),
    tt,
    ground (arith, here, s),
    (all_address_iff s).0 (ground (arith, here)),
  )
  | inr later ↦
      let (b, c, e, a, n, d) = dotted_tail-split s (ground (arith, later)) in
      (x ∷ b, c, ap (λ t. x ∷ t) e, ((is_address_byte_iff x).0 (ground (arith, later)), a), n, d)
]

-- An address: bytes, an at sign, bytes, a dot, bytes, each of them not empty.
abbrev pub IsAddress : Bytes → Type 0
IsAddress s =
    (a : Bytes) × (b : Bytes) × (c : Bytes) × (s ≡ a ++ 64 ∷ (b ++ 46 ∷ c))
    × ((a ≢ []) × (b ≢ []) × (c ≢ []))
    × (All IsAddressByte a × All IsAddressByte b × All IsAddressByte c)

dotted-make :
    (b c : Bytes)
    → b ≢ []
    → All IsAddressByte b
    → c ≢ []
    → All IsAddressByte c
    → dotted (b ++ 46 ∷ c) ≡ true
dotted-make [] c m a n d = absurd (m refl)
dotted-make (x ∷ b) c m (p, a) n d =
    ground (arith, (is_address_byte_iff x).1 p, dotted_tail-make b c a n d)

tail-make :
    (a t : Bytes) → All IsAddressByte a → dotted t ≡ true → address_tail (a ++ 64 ∷ t) ≡ true
tail-make [] t p h = ground (arith, h)
tail-make (x ∷ a) t (p, q) h = ground (arith, (is_address_byte_iff x).1 p, tail-make a t q h)

email-make :
    (a t : Bytes)
    → a ≢ []
    → All IsAddressByte a
    → dotted t ≡ true
    → email_matches (a ++ 64 ∷ t) ≡ true
unfolding email_matches
email-make [] t n p h = absurd (n refl)
email-make (x ∷ a) t n (p, q) h = ground (arith, (is_address_byte_iff x).1 p, tail-make a t q h)

tail-split :
    (s : Bytes)
    → address_tail s ≡ true
    → (a : Bytes) × (t : Bytes) × (s ≡ a ++ 64 ∷ t) × All IsAddressByte a × (dotted t ≡ true)
tail-split [] h = absurd (cc)
tail-split (x ∷ s) h = elim (Bool-cases (x == 64 && dotted s)) [
  | inl here ↦ ([], s, ground (arith, here, ==_iff x 64), tt, ground (arith, here))
  | inr later ↦
      let (a, t, e, p, d) = tail-split s (ground (arith, later)) in
      (x ∷ a, t, ap (λ u. x ∷ u) e, ((is_address_byte_iff x).0 (ground (arith, later)), p), d)
]

dotted-split :
    (t : Bytes)
    → dotted t ≡ true
    → (b : Bytes) × (c : Bytes) × (t ≡ b ++ 46 ∷ c)
      × ((b ≢ []) × (c ≢ []))
      × (All IsAddressByte b × All IsAddressByte c)
dotted-split [] h = absurd (cc)
dotted-split (x ∷ t) h =
    let (b, c, e, a, n, d) = dotted_tail-split t (ground arith) in
    (
      x ∷ b,
      c,
      ap (λ u. x ∷ u) e,
      (λ z. absurd (ground (arith, z)), n),
      (((is_address_byte_iff x).0 (ground arith), a), d),
    )

email_matches_iff : (s : Bytes) → (email_matches s ≡ true) ↔ IsAddress s
unfolding email_matches
email_matches_iff [] = (λ h. absurd (cc), λ (a, b, c, e, n, p). e_absurd a (b ++ 46 ∷ c) e)
  where
    e_absurd : (a t : Bytes) → [] ≡ a ++ 64 ∷ t → false ≡ true
    e_absurd [] t e = absurd (ground (arith, e))
    e_absurd (x ∷ a) t e = absurd (ground (arith, e))
email_matches_iff (x ∷ s) = (
  λ h.
      let (a, t, e, p, d) = tail-split s (ground arith) in
      let (b, c, f, n, q) = dotted-split t d in
      (
        x ∷ a,
        b,
        c,
        ap (λ u. x ∷ u) (e ∙ ap (λ u. a ++ 64 ∷ u) f),
        (λ z. absurd (ground (arith, z)), n.0, n.1),
        (((is_address_byte_iff x).0 (ground arith), p), q.0, q.1),
      ),
  λ (a, b, c, e, (na, nb, nc), (pa, pb, pc)).
      ap email_matches e ∙ email-make a (b ++ 46 ∷ c) na pa (dotted-make b c nb pb nc pc),
)

-- A pix key of its type: a phone number, an address, 11 or 14 digits behind what is no digit, or 32 bytes.
abbrev pub IsPixKey : Bytes → Bytes → Type 0
IsPixKey t key =
    ((t ≡ codes "phone") × IsPhone key)
    ⊎ (((t ≡ codes "email") × IsAddress key)
        ⊎ (((t ≡ codes "cpf") × (length (digits_only key) ≡ 11))
            ⊎ (((t ≡ codes "cnpj") × (length (digits_only key) ≡ 14))
                ⊎ ((t ≡ codes "random") × (length key ≡ 32)))))

pix-IsPixKey :
    (t key : Bytes) → valid_pix_key_type t ≡ true → validate_pix_key t key ≡ none → IsPixKey t key
unfolding valid_pix_key_type validate_pix_key
pix-IsPixKey t key v h = elim (Bool-cases (str_eq t (codes "phone"))) [
  | inl a ↦ inl ((str_eq_iff t (codes "phone")).0 a, (phone_matches_iff key).0 (ground (arith, a)))
  | inr a ↦ elim (Bool-cases (str_eq t (codes "email"))) [
    | inl b ↦
        inr (
          inl
            ((str_eq_iff t (codes "email")).0 b, (email_matches_iff key).0 (ground (arith, a, b))))
    | inr b ↦ elim (Bool-cases (str_eq t (codes "cpf"))) [
      | inl c ↦ inr (inr (inl ((str_eq_iff t (codes "cpf")).0 c, ground (arith, a, b, c))))
      | inr c ↦ elim (Bool-cases (str_eq t (codes "cnpj"))) [
        | inl d ↦
            inr (inr (inr (inl ((str_eq_iff t (codes "cnpj")).0 d, ground (arith, a, b, c, d)))))
        | inr d ↦ elim (Bool-cases (str_eq t (codes "random"))) [
          | inl e ↦
              inr (
                inr
                  (inr (inr ((str_eq_iff t (codes "random")).0 e, ground (arith, a, b, c, d, e)))))
          | inr e ↦ absurd (ground (arith, a, b, c, d, e))
        ]
      ]
    ]
  ]
]

-- What validateButtons asks of the type and the key.
abbrev Passes : Bytes → Bytes → Type 0
Passes t key = (valid_pix_key_type t ≡ true) × (validate_pix_key t key ≡ none)

IsPixKey-Passes : (t key : Bytes) → IsPixKey t key → Passes t key
unfolding valid_pix_key_type validate_pix_key str_eq
IsPixKey-Passes t [] (inl (e, p)) = absurd (ground (arith, (phone_matches_iff []).1 p))
IsPixKey-Passes t (x ∷ key) (inl (e, p)) = rw (e, (phone_matches_iff (x ∷ key)).1 p) (refl, refl)
IsPixKey-Passes t [] (inr (inl (e, p))) = absurd (ground (arith, (email_matches_iff []).1 p))
IsPixKey-Passes t (x ∷ key) (inr (inl (e, p))) =
    rw (e, (email_matches_iff (x ∷ key)).1 p) (refl, refl)
IsPixKey-Passes t [] (inr (inr (inl (e, p)))) = absurd (ground (arith, p))
IsPixKey-Passes t (x ∷ key) (inr (inr (inl (e, p)))) = rw (e, p) (refl, refl)
IsPixKey-Passes t [] (inr (inr (inr (inl (e, p))))) = absurd (ground (arith, p))
IsPixKey-Passes t (x ∷ key) (inr (inr (inr (inl (e, p))))) = rw (e, p) (refl, refl)
IsPixKey-Passes t [] (inr (inr (inr (inr (e, p))))) = absurd (ground (arith, p))
IsPixKey-Passes t (x ∷ key) (inr (inr (inr (inr (e, p))))) = rw (e, p) (refl, refl)

pub pix_iff :
    (t key : Bytes)
    → ((valid_pix_key_type t ≡ true) × (validate_pix_key t key ≡ none)) ↔ IsPixKey t key
pix_iff t key = (λ (v, h). pix-IsPixKey t key v h, IsPixKey-Passes t key)
