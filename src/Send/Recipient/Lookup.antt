-- ===== src/Send/Recipient/Lookup.antt =====
-- What Resolve makes of the answers of WhatsApp.
use slimwhats.Base.{
  ℕ, ◌≡◌, refl, ◌⊎◌, inl, inr, Bool, true, false, List, [], ◌∷◌, Bytes, arith, ◌||◌, is_empty, some,
  Bool-cases, Option-cases,
}
use slimwhats.Base.Result.{Result, ok, err}
use slimwhats.Send.Recipient.{
  Whatsmeow, RecipInput, not_registered, OnWhatsApp, normalize_phone, call_is_on_wa, lookup_on_wa,
  is_bypass_server, resolve,
}

module _ (w : Whatsmeow) where
  open w use {Jid, to_string, parse_jid}

  -- WhatsApp's first entry for the number, as given or normalised, says that it is there and has
  -- this text.
  pub record Confirmed (ask : OnWhatsApp w) (number text : Bytes) : Type 0 where
    pub attempt : ℕ
    pub asked : Bytes
    pub jid : Jid
    pub rest : List (Bool × Jid)
    pub asks : (asked ≡ number) ⊎ (asked ≡ normalize_phone number)
    pub answer : ask attempt asked ≡ ok ((true, jid) ∷ rest)
    pub named : to_string jid ≡ text

  -- An answer that counts has a first entry that is on WhatsApp.
  call-first :
      (r : Result Bytes (List (Bool × Jid))) (text : Bytes)
      → call_is_on_wa w r ≡ some text
      → (jid : Jid) × (rest : List (Bool × Jid)) × (r ≡ ok ((true, jid) ∷ rest))
        × (to_string jid ≡ text)
  call-first (ok ((true, jid) ∷ rest)) text h = (jid, rest, refl, ground arith)
  call-first (ok ((false, jid) ∷ rest)) text h = absurd (cc)
  call-first (ok []) text h = absurd (cc)
  call-first (err e) text h = absurd (cc)

  confirm :
      (ask : OnWhatsApp w) (number : Bytes) (n : ℕ) (q text : Bytes)
      → ((q ≡ number) ⊎ (q ≡ normalize_phone number))
      → call_is_on_wa w (ask n q) ≡ some text
      → Confirmed ask number text
  confirm ask number n q text k h =
      let (jid, rest, e, t) = call-first (ask n q) text h in
      record { attempt = n; asked = q; jid = jid; rest = rest; asks = k; answer = e; named = t }

  lookup-Confirmed :
      (ask : OnWhatsApp w) (number : Bytes)
      → is_empty (lookup_on_wa w ask number) ≡ false
      → Confirmed ask number (lookup_on_wa w ask number)
  unfolding lookup_on_wa
  lookup-Confirmed ask number h = elim (Option-cases (call_is_on_wa w (ask 1 number))) [
    | inr (text, found) ↦
        let same : lookup_on_wa w ask number ≡ text = ground (arith, found) in
        rw same (confirm ask number 1 number text (inl refl) found)
    | inl missed ↦ elim (Option-cases (call_is_on_wa w (ask 2 (normalize_phone number)))) [
      | inl gone ↦ absurd (ground (arith, missed, gone))
      | inr (text, found) ↦
          let same : lookup_on_wa w ask number ≡ text = ground (arith, missed, found) in
          rw same (confirm ask number 2 (normalize_phone number) text (inr refl) found)
    ]
  ]

  -- A number that is neither empty nor of a server that needs no lookup, with the lookup on,
  -- resolves only to what WhatsApp's JID parses to, an answer of a query for the number as given or
  -- normalised whose first entry is on WhatsApp.
  pub resolve_sound :
      (ask : OnWhatsApp w) (input : RecipInput) (jid : Jid)
      → (input.disable_wa || is_bypass_server input.number) ≡ false
      → resolve w ask input ≡ ok jid
      → (text : Bytes) × Confirmed ask input.number text × (parse_jid text ≡ (jid, false))
  unfolding resolve
  resolve_sound ask input jid looked h =
      elim (Bool-cases (is_empty (lookup_on_wa w ask input.number))) [
        | inl none_found ↦ absurd (ground (arith, none_found))
        | inr found ↦ (
          lookup_on_wa w ask input.number,
          lookup-Confirmed ask input.number found,
          ground (arith, found),
        )
      ]

  -- Where both queries fail the number counts as not registered: the error of a query never leads
  -- to the number as it would be parsed without a lookup.
  resolve_without_answers :
      (ask : OnWhatsApp w) (input : RecipInput) (e e' : Bytes)
      → is_empty input.number ≡ false
      → (input.disable_wa || is_bypass_server input.number) ≡ false
      → ask 1 input.number ≡ err e
      → ask 2 (normalize_phone input.number) ≡ err e'
      → resolve w ask input ≡ err not_registered
  unfolding resolve lookup_on_wa
  resolve_without_answers ask input e e' some_number looked first second =
      ground (arith, some_number, looked, first, second)
