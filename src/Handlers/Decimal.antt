-- ===== src/Handlers/Decimal.antt =====
-- `itoa` and `formatSeconds` of internal/handlers/admin_auth.go, and the same loop in `formatInt`
-- of internal/handlers/admin_pages.go. An `int` is a 64-bit number: its magnitude and its sign.
pub mod Digits
pub mod Print
use slimwhats.Base.{
  ℕ, zero, suc, ◌+◌, ◌-◌, ◌*◌, ◌/◌, ◌%◌, ◌^◌, Bool, true, false, List, [], ◌∷◌, Option, none, some,
  Bytes, codes, ltb, ◌==◌, if◌then◌else◌,
}
use slimwhats.Base.{length}
use slimwhats.Base.Clock.{second}

-- `pos n` is n, and `negsuc n` is -(n + 1).
pub data Int64 : Type 0 where
  pos : ℕ → Int64
  negsuc : ℕ → Int64

-- The loop over `n > 0`, with `room` bytes of the buffer left; none is a write before its start,
-- which panics.
unfoldable pub write_digits : ℕ → ℕ → Bytes → Option Bytes
write_digits room zero out = some out
write_digits zero (suc n) out = none
write_digits (suc room) (suc n) out = write_digits room (suc n / 10) ((b'0' + suc n % 10) ∷ out)

-- `i--; buf[i] = '-'`: the digits must leave a byte of the 20.
abbrev pub write_minus : Option Bytes → Option Bytes
write_minus none = none
write_minus (some out) = if ltb (length out) 20 then some (b'-' ∷ out) else none

-- `n = -n` leaves the least int64 as it is, so that the loop writes nothing.
abbrev pub negated : ℕ → ℕ
negated n = if n == 2 ^ 63 - 1 then 0 else suc n

unfoldable pub itoa : Int64 → Option Bytes
itoa (pos zero) = some (codes "0")
itoa (pos (suc n)) = write_digits 20 (suc n) []
itoa (negsuc n) = write_minus (write_digits 20 (negated n) [])

-- `int(d.Seconds())` drops the part of a second; the float is exact enough for this below `2 ^ 51`
-- nanoseconds, some 26 days, and the limiters' waits are at most 15 minutes.
unfoldable pub format_seconds : ℕ → Option Bytes
format_seconds d = let secs = d / second in itoa (pos (if ltb secs 1 then 1 else secs))
