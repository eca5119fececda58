-- ===== src/Send/Recipient/Country.antt =====
-- The country rules, on numbers of 13 digits.
use slimwhats.Base.{
  ℕ, ◌+◌, ◌-◌, ◌*◌, ◌≡◌, true, false, ◌&&◌, ◌||◌, ◌∷◌, ◌++◌, Bytes, codes, leb, ◌==◌, arith, length,
  has_prefix, if◌then◌else◌,
}
use slimwhats.Send.Recipient.{is_digit, atoi_safe, format_br_number, format_mx_or_ar_number}

abbrev pub IsDigit : ℕ → Type 0
IsDigit c = is_digit c ≡ true

-- A Mexican number of 13 digits loses both digits behind the country code, so that two numbers
-- that differ there come out alike; an Argentine one loses the first digit alone; and a number
-- of 13 digits of another country, or of another length, is kept.
format_mx_or_ar_number_cases :
    (a b : ℕ) (rest jid : Bytes)
    → length rest ≡ 9
    → ((length jid == 13) && (has_prefix jid (codes "52") || has_prefix jid (codes "54"))) ≡ false
    → (format_mx_or_ar_number (codes "52" ++ (a ∷ b ∷ rest)) ≡ codes "52" ++ rest)
      × (format_mx_or_ar_number (codes "54" ++ (a ∷ b ∷ rest)) ≡ codes "54" ++ (b ∷ rest))
      × (format_mx_or_ar_number jid ≡ jid)
unfolding format_mx_or_ar_number has_prefix
format_mx_or_ar_number_cases a b rest jid h e = (ground (arith, h), ground (arith, h), ground arith)

-- A number of 55, two digits of the area, a digit and eight more bytes loses the digit behind the area
-- exactly where the area is 31 or more and the digit is 7 or more, and else stays as it is.
format_br_number_cases :
    (a b c : ℕ) (rest : Bytes)
    → length rest ≡ 8
    → IsDigit a
    → IsDigit b
    → IsDigit c
    → format_br_number (codes "55" ++ (a ∷ b ∷ c ∷ rest)) ≡ (
        if leb 31 ((a - b'0') * 10 + (b - b'0')) && leb 7 (c - b'0')
        then codes "55" ++ (a ∷ b ∷ rest)
        else codes "55" ++ (a ∷ b ∷ c ∷ rest))
unfolding format_br_number has_prefix atoi_safe
format_br_number_cases a b c rest h p q r = ground (arith, h)
