-- ===== src/Send/Compose/Checked.antt =====
-- What SendButtons sends, and to whom.
use slimwhats.Base.{refl}
use slimwhats.Base.{◌⊎◌, inl, inr, arith, Option}
use slimwhats.Base.Result.{Result}
use slimwhats.Send.Compose.{Effect, ButtonsFailure, ButtonsResponse, no_buttons}
use slimwhats.Send.Text.{SendError}
use slimwhats.Base.{ℕ, ◌≡◌, ◌≢◌, ◌≤◌, ap, if◌then◌else◌, List, [], ◌∷◌, ◌++◌, none, some, Bytes}
use slimwhats.Base.Result.{ok, err}
use slimwhats.Send.Recipient.{Whatsmeow, ResolveError, resolve}
use slimwhats.Send.Buttons.{ButtonRequest, ButtonsRequest, ButtonError, validate_buttons}
use slimwhats.Send.Buttons.Build.{Message, Node, first_type}
use slimwhats.Send.Buttons.Build.Built.{Shows, Frames, validated-Shows}
use slimwhats.Send.Text.{send_attempts}
use slimwhats.Send.Text.Sent.{Attempts, attempts, send_attempts-le}
use slimwhats.Send.Compose.{
  Client, Options, sends, typing, repeated, response, id_or_generated, send_buttons, validated,
  to_recipient, with_secret, send_built, any_button, no_buttons,
}

module _ (w : Whatsmeow) where
  open w use {Jid, server}

  -- No message is sent, at most the typing is shown to the resolved recipient, and the answer is an error.
  pub record Refused (c : Client w) (o : Options w) (req : ButtonsRequest)
      (done : List (Effect w) × Result ButtonsFailure ButtonsResponse) : Type 0 where
    pub error : ButtonsFailure
    pub answered : done.1 ≡ err error
    pub effects :
        (done.0 ≡ [])
        ⊎ ((jid : Jid) × (resolve w c.on_whatsapp
                (record { number = req.to; format_jid = o.format_jid; disable_wa = o.disable_wa })
              ≡ ok jid)
            × (done.0 ≡ typing w jid o.delay))

  -- One message is sent to the resolved recipient, and the attempts end as those of SendText do.
  pub record Delivered (c : Client w) (o : Options w) (req : ButtonsRequest)
      (done : List (Effect w) × Result ButtonsFailure ButtonsResponse) : Type 0 where
    pub jid : Jid
    pub message : Message
    pub nodes : List Node
    pub count : ℕ
    pub result : Result SendError Unit
    pub valid : validate_buttons req ≡ none
    pub resolved :
        resolve w c.on_whatsapp
          (record { number = req.to; format_jid = o.format_jid; disable_wa = o.disable_wa })
        ≡ ok jid
    pub shown : Shows message req.buttons
    pub framed : Frames message req
    pub attempted : Attempts c.answer 1 count result
    pub at_most : count ≤ 3
    pub effects :
        done.0
        ≡ typing w jid o.delay
          ++ repeated w count (sends jid message nodes (id_or_generated o.id c.message_id))
    pub answered : done.1 ≡ response w jid o c (first_type req.buttons) result

  built-Delivered :
      (c : Client w) (o : Options w) (req : ButtonsRequest) (b : ButtonRequest)
      (bs : List ButtonRequest) (jid : Jid) (secret : Bytes)
      → ((n : ℕ) → c.sources.random n ≢ none)
      → req.buttons ≡ b ∷ bs
      → validate_buttons req ≡ none
      → resolve w c.on_whatsapp
          (record { number = req.to; format_jid = o.format_jid; disable_wa = o.disable_wa })
        ≡ ok jid
      → Delivered c o req (with_secret w c o req jid (some secret))
  built-Delivered c o req b bs jid secret random h v r =
      let (msg, nodes, built, shown, framed) =
        validated-Shows c.sources req b bs (server jid) secret random h v in
      record {
        jid = jid;
        message = msg;
        nodes = nodes;
        count = (send_attempts c.answer 3 1).0;
        result = (send_attempts c.answer 3 1).1;
        valid = v;
        resolved = r;
        shown = shown;
        framed = framed;
        attempted = attempts c.answer 3 1 (omega arith) (omega arith);
        at_most = send_attempts-le c.answer 3 1;
        effects = ap (λ x. (send_built w c o req jid x).0) built;
        answered = ap (λ x. (send_built w c o req jid x).1) built;
      }

  abbrev Done :
      Client w
      → Options w
      → ButtonsRequest
      → List (Effect w) × Result ButtonsFailure ButtonsResponse
      → Type 0
  Done c o req done = Refused c o req done ⊎ Delivered c o req done

  with_secret-Done :
      (c : Client w) (o : Options w) (req : ButtonsRequest) (b : ButtonRequest)
      (bs : List ButtonRequest) (jid : Jid) (secret : Option Bytes)
      → ((n : ℕ) → c.sources.random n ≢ none)
      → req.buttons ≡ b ∷ bs
      → validate_buttons req ≡ none
      → resolve w c.on_whatsapp
          (record { number = req.to; format_jid = o.format_jid; disable_wa = o.disable_wa })
        ≡ ok jid
      → Done c o req (with_secret w c o req jid secret)
  with_secret-Done c o req b bs jid none random h v r =
      inl (record { error = _; answered = refl; effects = inr (jid, r, refl) })
  with_secret-Done c o req b bs jid (some secret) random h v r =
      inr (built-Delivered c o req b bs jid secret random h v r)

  recipient-Done :
      (c : Client w) (o : Options w) (req : ButtonsRequest) (b : ButtonRequest)
      (bs : List ButtonRequest) (found : Result ResolveError Jid)
      → ((n : ℕ) → c.sources.random n ≢ none)
      → req.buttons ≡ b ∷ bs
      → validate_buttons req ≡ none
      → resolve w c.on_whatsapp
          (record { number = req.to; format_jid = o.format_jid; disable_wa = o.disable_wa })
        ≡ found
      → Done c o req (to_recipient w c o req found)
  recipient-Done c o req b bs (err e) random h v r =
      inl (record { error = _; answered = refl; effects = inl refl })
  recipient-Done c o req b bs (ok jid) random h v r =
      with_secret-Done c o req b bs jid c.secret random h v r

  validated-Done :
      (c : Client w) (o : Options w) (req : ButtonsRequest) (b : ButtonRequest)
      (bs : List ButtonRequest) (checked : Option ButtonError)
      → ((n : ℕ) → c.sources.random n ≢ none)
      → req.buttons ≡ b ∷ bs
      → validate_buttons req ≡ checked
      → Done c o req (validated w c o req checked)
  validated-Done c o req b bs (some e) random h v =
      inl (record { error = _; answered = refl; effects = inl refl })
  validated-Done c o req b bs none random h v = recipient-Done c o req b bs _ random h v refl

  some-Done :
      (c : Client w) (o : Options w) (req : ButtonsRequest) (buttons : List ButtonRequest)
      → ((n : ℕ) → c.sources.random n ≢ none)
      → req.buttons ≡ buttons
      → Done c o req (
          if any_button w buttons
          then validated w c o req (validate_buttons req)
          else ([], err no_buttons))
  some-Done c o req [] random h = inl (record { error = _; answered = refl; effects = inl refl })
  some-Done c o req (b ∷ bs) random h =
      validated-Done c o req b bs (validate_buttons req) random h refl

  -- Where random bytes are to be had, SendButtons either answers an error, sends no message and at most shows
  -- the typing to the resolved recipient; or the request is valid, and it types and sends to no one but
  -- the resolved recipient one message of one ID, which shows all the buttons of the request, one to three
  -- times: again only after an error that is transient, and the last attempt decides what it answers.
  pub send_buttons-Shows :
      (c : Client w) (o : Options w) (req : ButtonsRequest)
      → ((n : ℕ) → c.sources.random n ≢ none)
      → Refused c o req (send_buttons w c o req) ⊎ Delivered c o req (send_buttons w c o req)
  unfolding send_buttons
  send_buttons-Shows c o req random = some-Done c o req req.buttons random refl
