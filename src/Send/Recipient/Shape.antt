-- ===== src/Send/Recipient/Shape.antt =====
-- What `CreateJID` gives.
use slimwhats.Base.{
  ◌≤◌, ◌<◌, ◌≡◌, ◌⊎◌, inl, inr, refl, Bool, true, false, ◌&&◌, ◌||◌, [], ◌∷◌, ◌++◌, Bytes, codes,
  leb, ◌==◌, arith, length, All, has_prefix, contains, contains-append, is_empty, take, drop,
  length-append, length-drop, length-take-le, length-filter-le, All-append, All-take, All-drop,
  filter-All, if◌then◌else◌,
}
use slimwhats.Send.Recipient.{
  is_digit, digits_only, strip_non_digits_dashes, format_br_number, format_mx_or_ar_number,
  country_rules, has_server, cleaned, with_plus, phone_jid, group_jid, create_jid,
}
use slimwhats.Send.Recipient.Country.{IsDigit}

-- A rule leaves digits, no more of them than before, and some where there were some.
record Reduces (d r : Bytes) : Type 0 where
  digits : All IsDigit r
  shorter : length r ≤ length d
  kept : 0 < length d → 0 < length r

Reduces-mx : (d : Bytes) → All IsDigit d → Reduces d (format_mx_or_ar_number d)
unfolding format_mx_or_ar_number
Reduces-mx d h = record {
  digits = ground (arith, All-drop IsDigit 4 d h, All-drop IsDigit 3 d h);
  shorter = ground (arith, length-drop 4 d, length-drop 3 d);
  kept = λ p. ground (arith, length-drop 4 d, length-drop 3 d);
}

Reduces-br : (d : Bytes) → All IsDigit d → Reduces d (format_br_number d)
unfolding format_br_number
Reduces-br d h =
    let cut = take 4 d ++ drop 5 d in
    let cut_digits =
      All-append IsDigit (take 4 d) (drop 5 d) (All-take IsDigit 4 d h) (All-drop IsDigit 5 d h) in
    let size = length-append (take 4 d) (drop 5 d) in
    record {
      digits = ground (arith, cut_digits);
      shorter = ground (arith, size, length-drop 5 d, length-take-le 4 d);
      kept = λ p. ground (arith, size, length-drop 5 d);
    }

-- The text of a group: digits and dashes.
abbrev pub IsGroupJid : Bytes → Type 0
IsGroupJid r =
    (id : Bytes) × (r ≡ id ++ codes "@g.us") × All (λ c. (is_digit c || c == b'-') ≡ true) id

-- The text of a phone: a plus and up to 17 digits.
abbrev pub IsPhoneJid : Bytes → Type 0
IsPhoneJid r =
    (d : Bytes) × (r ≡ b'+' ∷ (d ++ codes "@s.whatsapp.net"))
    × All IsDigit d
    × (0 < length d)
    × (length d ≤ 17)

with_plus-digits : (d : Bytes) → All IsDigit d → with_plus d ≡ b'+' ∷ d
unfolding has_prefix
with_plus-digits [] h = refl
with_plus-digits (c ∷ d) (p, h) = ground arith

phone_jid_shape :
    (d : Bytes) → All IsDigit d → length d ≤ 17 → (phone_jid d ≡ []) ⊎ IsPhoneJid (phone_jid d)
unfolding phone_jid has_prefix
phone_jid_shape [] h fits = inl refl
phone_jid_shape (c ∷ d) h fits =
    let mx = Reduces-mx (c ∷ d) h in
    let br = Reduces-br (format_mx_or_ar_number (c ∷ d)) mx.digits in
    inr (
      country_rules (c ∷ d),
      ground (arith, with_plus-digits (country_rules (c ∷ d)) br.digits),
      br.digits,
      br.kept (mx.kept (omega arith)),
      omega (arith, br.shorter, mx.shorter),
    )

-- The four kinds of result.
pub data Shape (s r : Bytes) : Type 0 where
  nothing : r ≡ [] → Shape s r
  passed : has_server s ≡ true → r ≡ s → Shape s r
  group : IsGroupJid r → Shape s r
  phone : IsPhoneJid r → Shape s r

Shape-group : (s c : Bytes) → Shape s (group_jid c)
unfolding strip_non_digits_dashes
Shape-group s c = group (_, refl, filter-All (λ x. is_digit x || x == b'-') c)

Shape-phone : (s c : Bytes) → length c ≤ 17 → Shape s (phone_jid (digits_only c))
Shape-phone s c fits =
    elim (phone_jid_shape (digits_only c) (filter-All is_digit c)
      (omega (arith, length-filter-le is_digit c))) [ inl e ↦ nothing e | inr p ↦ phone p ]

Shape-if :
    (s : Bytes) (b : Bool) (x y : Bytes)
    → (b ≡ true → Shape s x)
    → (b ≡ false → Shape s y)
    → Shape s (if b then x else y)
Shape-if s true x y f g = f refl
Shape-if s false x y f g = g refl

-- What `CreateJID` makes of any input: nothing; the input itself, where it names a server; digits
-- and dashes at the server of groups; or a plus and 1 to 17 digits at the server of phones.
create_jid-Shape : (s : Bytes) → Shape s (create_jid s)
unfolding create_jid
create_jid-Shape s =
    let c = cleaned s in
    Shape-if s (is_empty s) _ _ (λ e. nothing refl)
      (λ e.
        Shape-if s (has_server s) _ _ (λ h. passed h refl)
          (λ h.
            Shape-if s (contains c (codes "-") && leb 24 (length c)) _ _ (λ g. Shape-group s c)
              (λ g.
                Shape-if s (leb 18 (length c)) _ _ (λ g'. Shape-group s c)
                  (λ g'. Shape-phone s c (ground arith)))))

-- A result with a server passes through.
create_jid-has_server : (s : Bytes) → has_server s ≡ true → create_jid s ≡ s
unfolding create_jid
create_jid-has_server [] h = refl
create_jid-has_server (c ∷ s) h = rw h

-- `CreateJID` leaves its own results alone.
create_jid_idem : (s : Bytes) → create_jid (create_jid s) ≡ create_jid s
create_jid_idem s = elim (create_jid-Shape s) [
  | nothing e ↦ rw e (unfold create_jid in refl)
  | passed h e ↦ rw e (create_jid-has_server s h)
  | group (id, e, d) ↦ create_jid-has_server (create_jid s) (
      rw e (
        ground
          (arith, contains-append id (codes "@g.us") (codes "@g.us") (unfold contains in refl))))
  | phone (d, e, p, n, m) ↦ create_jid-has_server (create_jid s) (
      rw e (
        ground (
          arith,
          contains-append (b'+' ∷ d) (codes "@s.whatsapp.net") (codes "@s.whatsapp.net")
              (unfold contains in refl),
        )))
]
