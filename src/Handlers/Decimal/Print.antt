-- ===== src/Handlers/Decimal/Print.antt =====
-- What `itoa` prints.
use slimwhats.Base.{
  ℕ, zero, suc, ◌+◌, ◌/◌, ◌^◌, ◌<◌, ◌≤◌, ◌≡◌, ◌≢◌, refl, [], ◌∷◌, some, Bytes, codes, length, arith,
  All, ltb, if◌then◌else◌,
}
use slimwhats.Base.Clock.{second}
use slimwhats.Handlers.Decimal.Digits.{value, IsDigit, write_digits-Written}
use slimwhats.Handlers.Decimal.{Int64, pos, negsuc, write_digits, itoa, format_seconds}

-- The text is the number in decimal, with a sign in front of a negative one.
abbrev pub Prints : Int64 → Bytes → Type 0
Prints (pos n) r = (value 0 r ≡ n) × All IsDigit r × (r ≢ [])
Prints (negsuc n) [] = ⊥
Prints (negsuc n) (c ∷ r) = (c ≡ b'-') × (value 0 r ≡ n + 1) × All IsDigit r × (r ≢ [])

-- In the range of an int64, less its least value.
abbrev pub IsPrintable : Int64 → Type 0
IsPrintable (pos n) = n < 2 ^ 63
IsPrintable (negsuc n) = n + 1 < 2 ^ 63

not-nil : (n : ℕ) (r : Bytes) → value 0 r ≡ suc n → r ≢ []
not-nil n r h e = ground arith

negative :
    (n : ℕ) (r : Bytes)
    → n + 1 < 2 ^ 63
    → write_digits 20 (suc n) [] ≡ some r
    → length r ≤ 19 + 0
    → itoa (negsuc n) ≡ some (b'-' ∷ r)
unfolding itoa
negative n r h e fits = ground (arith, e)

-- Every int64 but the least one is printed in full: the buffer of 20 bytes suffices, and the text
-- reads back as the number.
itoa-Prints : (v : Int64) → IsPrintable v → (r : Bytes) × (itoa v ≡ some r) × Prints v r
unfolding itoa
itoa-Prints (pos zero) h = (codes "0", refl, (refl, omega arith, λ e. cc))
itoa-Prints (pos (suc n)) h =
    let (r, e, w) = write_digits-Written 20 19 (suc n) [] (omega arith) (omega arith) tt in
    (r, e, (w.spelled, w.digits, not-nil n r w.spelled))
itoa-Prints (negsuc n) h =
    let (r, e, w) = write_digits-Written 20 19 (suc n) [] (omega arith) (omega arith) tt in
    (
      b'-' ∷ r,
      negative n r h e w.fits,
      (refl, omega (arith, w.spelled), w.digits, not-nil n r w.spelled),
    )

-- A duration of at most `2 ^ 51` nanoseconds is printed as its whole seconds, and as 1 where it
-- is shorter than a second.
pub format_seconds-Prints :
    (d : ℕ)
    → d ≤ 2 ^ 51
    → (r : Bytes) × (format_seconds d ≡ some r)
      × (value 0 r ≡ (if ltb d second then 1 else d / second))
      × All IsDigit r
unfolding format_seconds
format_seconds-Prints d h =
    let secs = if ltb (d / second) 1 then 1 else d / second in
    let (r, e, w) = itoa-Prints (pos secs) (ground arith) in (r, e, ground (arith, w.0), w.1)
