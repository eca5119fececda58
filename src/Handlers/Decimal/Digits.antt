-- ===== src/Handlers/Decimal/Digits.antt =====
-- The digit loop, for a number that fits the room.
use slimwhats.Base.{
  ℕ, zero, suc, ◌+◌, ◌-◌, ◌*◌, ◌/◌, ◌%◌, ◌^◌, ◌≤◌, ◌<◌, ◌≡◌, refl, [], ◌∷◌, some, Bytes, length,
  arith, All, ◌∙◌, ap,
}
use native.Mathlib.Nat.{pow-suc}
use slimwhats.Handlers.Decimal.{write_digits}

-- The number that digits spell behind `n`.
abbrev pub value : ℕ → Bytes → ℕ
value n [] = n
value n (c ∷ s) = value (n * 10 + (c - b'0')) s

abbrev pub IsDigit : ℕ → Type 0
IsDigit c = (b'0' ≤ c) × (c ≤ b'9')

-- What the loop leaves of a number below `10 ^ k`: at most `k` more digits, which spell the number
-- in front of `out`.
pub record Written (k n : ℕ) (out r : Bytes) : Type 0 where
  pub spelled : value 0 r ≡ value n out
  pub digits : All IsDigit r
  pub fits : length r ≤ k + length out

pub write_digits-Written :
    (room k n : ℕ) (out : Bytes)
    → k ≤ room
    → n < 10 ^ k
    → All IsDigit out
    → (r : Bytes) × (write_digits room n out ≡ some r) × Written k n out r
unfolding write_digits
write_digits-Written zero k zero out l h d =
    (out, refl, record { spelled = refl; digits = d; fits = omega arith })
write_digits-Written (suc room) k zero out l h d =
    (out, refl, record { spelled = refl; digits = d; fits = omega arith })
write_digits-Written room zero (suc n) out l h d = absurd (omega arith)
write_digits-Written zero (suc k) (suc n) out l h d = absurd (omega arith)
write_digits-Written (suc room) (suc k) (suc n) out l h d =
    let (r, e, w) =
      write_digits-Written room k (suc n / 10) ((b'0' + suc n % 10) ∷ out) (omega arith)
        (omega (arith, pow-suc 10 k)) (omega arith, d) in
    (
      r,
      e,
      record {
        spelled = w.spelled ∙ ap (λ m. value m out) (omega arith);
        digits = w.digits;
        fits = omega (arith, w.fits);
      },
    )
