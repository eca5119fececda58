-- ===== src/Send/Text/Sent.antt =====
-- How often SendText sends, and to whom.
use slimwhats.Base.{
  ℕ, zero, suc, ◌+◌, ◌≤◌, ◌≡◌, refl, ◌⊎◌, inl, inr, true, false, List, [], ◌++◌, Bytes, arith, ltb,
  ◌==◌, is_empty, length, Bool-cases,
}
use slimwhats.Base.Result.{Result, ok, err, Result-cases}
use slimwhats.Send.Recipient.{Whatsmeow, RecipInput, resolve}
use slimwhats.Send.Text.{
  TextRequest, SendResponse, SendError, send_failed, send_failed_thrice, is_transient,
  send_attempts, Effect, sends, Client, typing, times, message_id_of, text_message, response_of,
  send_to, delay_in_range, send_text,
}

module _ (answer : ℕ → Result Bytes Unit) where
  -- The n-th answer is an error that is worth another attempt.
  abbrev pub Transient : ℕ → Type 0
  Transient n = (e : Bytes) × (answer n ≡ err e) × (is_transient e ≡ true)

  -- The attempt is the last one, and the result is what its answer makes of it.
  abbrev pub Final : ℕ → Result SendError Unit → Type 0
  Final n r =
      ((answer n ≡ ok tt) × (r ≡ ok tt))
      ⊎ ((e : Bytes) × (answer n ≡ err e)
          × (((is_transient e ≡ false) × (r ≡ err (send_failed e)))
              ⊎ ((n ≡ 3) × (is_transient e ≡ true) × (r ≡ err (send_failed_thrice e)))))

  -- The attempts from the n-th on, `count` of them, with their result.
  pub data Attempts : ℕ → ℕ → Result SendError Unit → Type 0 where
    last : {n : ℕ} {r : Result SendError Unit} → Final n r → Attempts n 1 r
    again :
        {n k : ℕ} {r : Result SendError Unit}
        → Transient n
        → Attempts (suc n) k r
        → Attempts n (suc k) r

  pub attempts :
      (fuel n : ℕ)
      → fuel + n ≡ 4
      → n ≤ 3
      → Attempts n (send_attempts answer fuel n).0 (send_attempts answer fuel n).1
  unfolding send_attempts
  attempts zero n e h = absurd (omega arith)
  attempts (suc fuel) n e h = elim (Result-cases (answer n)) [
    | inl (t, sent) ↦
        let v : send_attempts answer (suc fuel) n ≡ (1, ok tt) = ground (arith, sent) in
        rw v (last (inl (sent, refl)))
    | inr (x, failed) ↦ elim (Bool-cases (is_transient x)) [
      | inr fatal ↦
          let v : send_attempts answer (suc fuel) n ≡ (1, err (send_failed x)) =
            ground (arith, failed, fatal) in
          rw v (last (inr (x, failed, inl (fatal, refl))))
      | inl soft ↦ elim (Bool-cases (n == 3)) [
        | inl third ↦
            let v : send_attempts answer (suc fuel) n ≡ (1, err (send_failed_thrice x)) =
              ground (arith, failed, soft, third) in
            rw v (last (inr (x, failed, inr (ground arith, soft, refl))))
        | inr more ↦
            let rest = send_attempts answer fuel (suc n) in
            let v : send_attempts answer (suc fuel) n ≡ (suc rest.0, rest.1) =
              ground (arith, failed, soft, more) in
            rw v (again (x, failed, soft) (attempts fuel (suc n) (omega arith) (ground arith)))
      ]
    ]
  ]

  pub send_attempts-le : (fuel n : ℕ) → (send_attempts answer fuel n).0 ≤ fuel
  unfolding send_attempts
  send_attempts-le zero n = omega arith
  send_attempts-le (suc fuel) n = ground (arith, send_attempts-le fuel (suc n), answer n)

module _ (w : Whatsmeow) where
  open w use {Jid, to_string}

  abbrev recipient : TextRequest → RecipInput
  recipient req = record {
    number = req.to;
    format_jid = req.format_jid;
    disable_wa = req.disable_wa;
  }

  -- The request is in bounds and its recipient resolves, and these are the effects and the answer.
  pub record Delivered (c : Client w) (req : TextRequest)
      (done : List (Effect w) × Result SendError SendResponse) : Type 0 where
    pub jid : Jid
    pub count : ℕ
    pub result : Result SendError Unit
    pub body_given : is_empty req.body ≡ false
    pub body_fits : length req.body ≤ 65536
    pub delay_fits : delay_in_range w req.delay ≡ true
    pub resolved :
        resolve w c.on_whatsapp
          (record { number = req.to; format_jid = req.format_jid; disable_wa = req.disable_wa })
        ≡ ok jid
    pub at_most : count ≤ 3
    pub attempted : Attempts c.answer 1 count result
    pub effects :
        done.0
        ≡ typing w jid req.delay
          ++ times w count
              (sends jid (text_message w c req jid) (message_id_of w req.id c.message_id))
    pub answered : done.1 ≡ response_of w c req jid result

  -- SendText either refuses the request and does nothing, or its body and delay are in bounds, and it
  -- types and sends to no one but the resolved recipient, one message of one ID, one to three times:
  -- again only after an error that is transient, and the last attempt decides what it answers.
  pub send_text-Delivered :
      (c : Client w) (req : TextRequest)
      → (((send_text w c req).0 ≡ []) × ((e : SendError) × ((send_text w c req).1 ≡ err e)))
        ⊎ Delivered c req (send_text w c req)
  unfolding send_text
  send_text-Delivered c req = elim (Bool-cases (is_empty req.body)) [
    | inl missing ↦ inl (rw missing (refl, (_, refl)))
    | inr given ↦ elim (Bool-cases (ltb 65536 (length req.body))) [
      | inl long ↦ inl (rw (given, long) (refl, (_, refl)))
      | inr fits ↦ elim (Bool-cases (delay_in_range w req.delay)) [
        | inr out ↦ inl (rw (given, fits, out) (refl, (_, refl)))
        | inl in_range ↦ elim (Result-cases (resolve w c.on_whatsapp (recipient req))) [
          | inr (e, unresolved) ↦ inl (rw (given, fits, in_range, unresolved) (refl, (_, refl)))
          | inl (jid, found) ↦
              let v : send_text w c req ≡ send_to w c req (ok jid) =
                ground (arith, given, fits, in_range, found) in
              inr (
                rw v (record {
                  jid = jid;
                  count = (send_attempts c.answer 3 1).0;
                  result = (send_attempts c.answer 3 1).1;
                  body_given = given;
                  body_fits = ground arith;
                  delay_fits = in_range;
                  resolved = found;
                  at_most = send_attempts-le c.answer 3 1;
                  attempted = attempts c.answer 3 1 (omega arith) (omega arith);
                  effects = refl;
                  answered = refl;
                }))
        ]
      ]
    ]
  ]
