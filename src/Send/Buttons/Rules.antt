-- ===== src/Send/Buttons/Rules.antt =====
-- What the validation of buttons lets through.
use slimwhats.Base.{
  ◌≤◌, ◌≡◌, ◌≢◌, refl, ◌⊎◌, inl, inr, ◌↔◌, Bool, true, false, not, ◌||◌, List, [], ◌∷◌, none, codes,
  All, arith, length, str_eq_iff, Option-cases,
}
use slimwhats.Send.Buttons.Forms.{
  IsLink, IsPhone, IsPixKey, url_allowed_iff, phone_matches_iff, pix_iff,
}
use slimwhats.Base.Result.{ok, Result-cases}
use slimwhats.Send.Buttons.{
  ButtonRequest, ButtonsRequest, Kind, reply, url, copy, call, pix, other, kind_of, check_kind,
  check_button, Has, has_none, seen, check_buttons, combined, validate_buttons,
}

-- What a button of each kind has to be.
abbrev pub Allowed : Kind → ButtonRequest → Type 0
Allowed reply b = (b.id ≢ []) × (length b.id ≤ 256) × (length b.text ≤ 20)
Allowed url b = IsLink b.url × (length b.text ≤ 20)
Allowed copy b = (length b.code ≤ 256) × (length b.text ≤ 20)
Allowed call b = IsPhone b.phone × (length b.text ≤ 20)
Allowed pix b = (b.currency ≡ codes "BRL") × (length b.name ≤ 25) × IsPixKey b.key_type b.key
Allowed other b = ⊥

check-Allowed : (k : Kind) (b : ButtonRequest) → (check_kind k b ≡ none) ↔ Allowed k b
check-Allowed reply b = ground (arith, b.id)
check-Allowed url b = ground (arith, url_allowed_iff b.url)
check-Allowed copy b = ground arith
check-Allowed call b = ground (arith, phone_matches_iff b.phone)
check-Allowed pix b = ground (arith, str_eq_iff b.currency (codes "BRL"), pix_iff b.key_type b.key)
check-Allowed other b = ground arith

abbrev pub is_reply : Kind → Bool
is_reply reply = true
is_reply _ = false

abbrev pub is_pix : Kind → Bool
is_pix pix = true
is_pix _ = false

-- Whether a button passes a test of its kind.
abbrev any : (Kind → Bool) → List ButtonRequest → Bool
any p [] = false
any p (b ∷ bs) = p (kind_of b.type) || any p bs

any-false :
    (p : Kind → Bool) (bs : List ButtonRequest)
    → (any p bs ≡ false) ↔ All (λ b. p (kind_of b.type) ≡ false) bs
any-false p [] = ground arith
any-false p (b ∷ bs) = ground (arith, any-false p bs)

abbrev others : Has → Bool
others h = h.url || h.pix || h.copy || h.call

abbrev mixes : Kind → Bool
mixes k = not (is_reply k)

seen-flags :
    (k : Kind) (h : Has)
    → k ≢ other
    → ((seen k h).reply ≡ (h.reply || is_reply k))
      × ((seen k h).pix ≡ (h.pix || is_pix k))
      × (others (seen k h) ≡ (others h || mixes k))
seen-flags reply h d = ground arith
seen-flags url h d = ground arith
seen-flags copy h d = ground arith
seen-flags call h d = ground arith
seen-flags pix h d = ground arith
seen-flags other h d = absurd (d refl)

abbrev pub Fits : ButtonRequest → Type 0
Fits b = Allowed (kind_of b.type) b

check_button-Fits : (b : ButtonRequest) → (check_button b ≡ none) ↔ Fits b
unfolding check_button
check_button-Fits b = check-Allowed (kind_of b.type) b

Allowed-other : (k : Kind) (b : ButtonRequest) → Allowed k b → k ≢ other
Allowed-other other b a e = a
Allowed-other reply b a e = absurd (ground arith)
Allowed-other url b a e = absurd (ground arith)
Allowed-other copy b a e = absurd (ground arith)
Allowed-other call b a e = absurd (ground arith)
Allowed-other pix b a e = absurd (ground arith)

-- The loop passes buttons that all fit, and its flags are what they show.
check_buttons-ok :
    (bs : List ButtonRequest) (h r : Has)
    → check_buttons bs h ≡ ok r
    → All Fits bs
      × (r.reply ≡ (h.reply || any is_reply bs))
      × (r.pix ≡ (h.pix || any is_pix bs))
      × (others r ≡ (others h || any mixes bs))
unfolding check_buttons
check_buttons-ok [] h r e = ground arith
check_buttons-ok (b ∷ bs) h r e = elim (Option-cases (check_button b)) [
  | inr (x, bad) ↦ absurd (ground (arith, bad))
  | inl good ↦
      let fit = (check_button-Fits b).0 good in
      let flags = seen-flags (kind_of b.type) h (Allowed-other (kind_of b.type) b fit) in
      let (fits, replies, pixes, mixed) =
        check_buttons-ok bs (seen (kind_of b.type) h) r (ground (arith, good)) in
      (
        (fit, fits),
        ground (arith, flags, replies),
        ground (arith, flags, pixes),
        ground (arith, flags, mixed),
      )
]

check_buttons-Fits :
    (bs : List ButtonRequest) (h : Has) → All Fits bs → (r : Has) × (check_buttons bs h ≡ ok r)
unfolding check_buttons
check_buttons-Fits [] h a = (h, refl)
check_buttons-Fits (b ∷ bs) h (fit, a) =
    let (r, e) = check_buttons-Fits bs (seen (kind_of b.type) h) a in
    (r, ground (arith, e, (check_button-Fits b).1 fit))

-- Every button fits its kind and, of a message's buttons, either all are replies, or none is and a
-- pix button is alone.
pub record IsValid (req : ButtonsRequest) : Type 0 where
  pub few : length req.buttons ≤ 3
  pub fit : All Fits req.buttons
  pub together :
      All (λ b. is_reply (kind_of b.type) ≡ true) req.buttons
      ⊎ (All (λ b. is_reply (kind_of b.type) ≡ false) req.buttons
          × (All (λ b. is_pix (kind_of b.type) ≡ false) req.buttons ⊎ (length req.buttons ≡ 1)))

mixes-false :
    (bs : List ButtonRequest)
    → (any mixes bs ≡ false) ↔ All (λ b. is_reply (kind_of b.type) ≡ true) bs
mixes-false [] = ground arith
mixes-false (b ∷ bs) = ground (arith, mixes-false bs)

IsValid-combined :
    (req : ButtonsRequest) (r : Has)
    → length req.buttons ≤ 3
    → All Fits req.buttons
    → r.reply ≡ any is_reply req.buttons
    → r.pix ≡ any is_pix req.buttons
    → others r ≡ any mixes req.buttons
    → (combined (length req.buttons) r ≡ none) ↔ IsValid req
IsValid-combined req r few fit a b c = (
  λ e. record {
    few = few;
    fit = fit;
    together = ground (
      arith,
      any-false is_reply req.buttons,
      any-false is_pix req.buttons,
      mixes-false req.buttons,
    );
  },
  λ v. ground (
    arith,
    v.together,
    any-false is_reply req.buttons,
    any-false is_pix req.buttons,
    mixes-false req.buttons,
  ),
)

pub validate_buttons_iff : (req : ButtonsRequest) → (validate_buttons req ≡ none) ↔ IsValid req
unfolding validate_buttons
validate_buttons_iff req = (
  λ e. elim (Result-cases (check_buttons req.buttons has_none)) [
    | inr (x, bad) ↦ absurd (ground (arith, bad))
    | inl (r, good) ↦
        let (fits, a, b, c) = check_buttons-ok req.buttons has_none r good in
        (IsValid-combined req r (ground arith) fits a b c).0 (ground (arith, good))
  ],
  λ v.
      let (r, good) = check_buttons-Fits req.buttons has_none v.fit in
      let (fits, a, b, c) = check_buttons-ok req.buttons has_none r good in
      ground (arith, v.few, good, (IsValid-combined req r v.few fits a b c).1 v),
)
