-- ===== src/Send/Buttons/Build/Built.antt =====
-- The message of a validated request, and the buttons that it shows.
use slimwhats.Base.{
  ℕ, suc, ◌≡◌, ◌≢◌, ◌∙◌, ap, refl, inl, inr, true, false, List, [], ◌∷◌, none, Bytes, codes, All,
  arith, Option-cases, length, Option, some, ◌++◌, str_eq, is_empty, if◌then◌else◌,
}
use slimwhats.Base.Result.{ok}
use slimwhats.Send.Buttons.{
  ButtonRequest, ButtonsRequest, Kind, reply, url, copy, call, pix, other, kind_of,
  validate_buttons,
}
use slimwhats.Send.Buttons.Rules.{Allowed, Fits, is_reply, validate_buttons_iff}
use slimwhats.Send.Buttons.Build.{
  Json, text, member, element, NativeFlowButton, Node, Message, buttons_message,
  interactive_message, Sources, flow_button, build_native_flow_button, flow_buttons, reply_buttons,
  build_buttons_message, pix_payload, build_reply_buttons_message, wrap_flow, format_body,
  message_params, letters,
}

-- The value at a path of names; of an array, the first element is looked at.
unfoldable pub json_at : List Bytes → Json → Option Json
json_at [] j = some j
json_at (k ∷ ks) (member name value rest) = elim (str_eq name k) [
  | true ↦ json_at ks value
  | false ↦ json_at (k ∷ ks) rest
]
json_at (k ∷ ks) (element j rest) = json_at (k ∷ ks) j
json_at (k ∷ ks) _ = none

abbrev pub Says : Json → List Bytes → Bytes → Type 0
Says params path t = json_at path params ≡ some (text t)

-- A flow button has the name of its kind, and its parameters say what the button does.
abbrev pub ShowsFlow : Kind → ButtonRequest → NativeFlowButton → Type 0
ShowsFlow url b f =
    (f.name ≡ codes "cta_url")
    × Says f.params (codes "display_text" ∷ []) b.text
    × Says f.params (codes "url" ∷ []) b.url
ShowsFlow copy b f =
    (f.name ≡ codes "cta_copy")
    × Says f.params (codes "display_text" ∷ []) b.text
    × Says f.params (codes "copy_code" ∷ []) (if is_empty b.code then b.id else b.code)
ShowsFlow call b f =
    (f.name ≡ codes "cta_call")
    × Says f.params (codes "display_text" ∷ []) b.text
    × Says f.params (codes "phone_number" ∷ []) b.phone
ShowsFlow pix b f =
    (f.name ≡ codes "payment_info")
    × Says f.params (codes "currency" ∷ []) b.currency
    × Says f.params
        (codes "payment_settings" ∷ codes "pix_static_code" ∷ codes "merchant_name" ∷ []) b.name
    × Says f.params (codes "payment_settings" ∷ codes "pix_static_code" ∷ codes "key" ∷ []) b.key
ShowsFlow reply b f = ⊥
ShowsFlow other b f = ⊥

-- The message shows these buttons: each reply with its ID and text, each other with its flow.
abbrev pub Shows : Message → List ButtonRequest → Type 0
Shows (buttons_message body footer [] secret) [] = Unit
Shows (buttons_message body footer (r ∷ rs) secret) (b ∷ bs) =
    (r.button_id ≡ b.id)
    × (r.display_text ≡ b.text)
    × (kind_of b.type ≡ reply)
    × Shows (buttons_message body footer rs secret) bs
Shows (interactive_message body footer [] params secret) [] = Unit
Shows (interactive_message body footer (f ∷ fs) params secret) (b ∷ bs) =
    ShowsFlow (kind_of b.type) b f × Shows (interactive_message body footer fs params secret) bs
Shows _ _ = ⊥

-- The texts of the request that stand around the buttons.
abbrev pub Frames : Message → ButtonsRequest → Type 0
Frames (buttons_message body footer rs secret) req = (body ≡ req.body) × (footer ≡ req.footer)
Frames (interactive_message body footer fs params secret) req =
    (body ≡ (if is_empty req.header then req.body else req.header ++ (10 ∷ 10 ∷ req.body)))
    × (footer ≡ req.footer)

reply-Shows :
    (body footer secret : Bytes) (bs : List ButtonRequest)
    → All (λ b. is_reply (kind_of b.type) ≡ true) bs
    → Shows (buttons_message body footer (reply_buttons bs) secret) bs
unfolding reply_buttons
reply-Shows body footer secret [] a = tt
reply-Shows body footer secret (b ∷ bs) (r, a) =
    (refl, refl, ground arith, reply-Shows body footer secret bs a)

module _ (s : Sources) (random_works : (n : ℕ) → s.random n ≢ none) where
  flow_button-ok :
      (n : ℕ) (k : Kind) (b : ButtonRequest)
      → Allowed k b
      → is_reply k ≡ false
      → (f : NativeFlowButton) × (flow_button s n k b ≡ ok f) × ShowsFlow k b f
  unfolding json_at str_eq
  flow_button-ok n url b a h = (_, refl, (refl, refl, refl))
  flow_button-ok n copy b a h = (_, refl, (refl, refl, refl))
  flow_button-ok n call b a h = (_, refl, (refl, refl, refl))
  flow_button-ok n pix b a h = elim (Option-cases (s.random n)) [
    | inl fails ↦ absurd (random_works n fails)
    | inr (bytes, e) ↦ (
      record { name = codes "payment_info"; params = pix_payload (letters bytes) b },
      rw e refl,
      (refl, refl, refl, refl),
    )
  ]
  flow_button-ok n reply b a h = absurd (ground arith)
  flow_button-ok n other b a h = absurd a

  flow_buttons-ok :
      (n : ℕ) (bs : List ButtonRequest) (body footer secret : Bytes) (params : Json)
      → All Fits bs
      → All (λ b. is_reply (kind_of b.type) ≡ false) bs
      → (fs : List NativeFlowButton) × (flow_buttons s n bs ≡ ok fs)
        × Shows (interactive_message body footer fs params secret) bs
  unfolding flow_buttons build_native_flow_button
  flow_buttons-ok n [] body footer secret params a r = ([], refl, tt)
  flow_buttons-ok n (b ∷ bs) body footer secret params (fit, a) (other_kind, r) =
      let (f, made, named) = flow_button-ok n (kind_of b.type) b fit other_kind in
      let (fs, rest, shown) = flow_buttons-ok (suc n) bs body footer secret params a r in
      (f ∷ fs, ground (arith, made, rest), (named, shown))

  flow-first :
      (req : ButtonsRequest) (b : ButtonRequest) (bs : List ButtonRequest) (server secret : Bytes)
      → req.buttons ≡ b ∷ bs
      → is_reply (kind_of b.type) ≡ false
      → build_buttons_message s req server secret
        ≡ wrap_flow s req b.type server secret (flow_buttons s 0 req.buttons)
  unfolding build_buttons_message kind_of
  flow-first req b bs server secret e h = ground (arith, e)

  reply-first :
      (req : ButtonsRequest) (b : ButtonRequest) (bs : List ButtonRequest) (server secret : Bytes)
      → req.buttons ≡ b ∷ bs
      → is_reply (kind_of b.type) ≡ true
      → build_buttons_message s req server secret
        ≡ ok (build_reply_buttons_message req server secret)
  unfolding build_buttons_message kind_of
  reply-first req b bs server secret e h = ground (arith, e)

pub validated-Shows :
    (s : Sources) (req : ButtonsRequest) (b : ButtonRequest) (bs : List ButtonRequest)
    (server secret : Bytes)
    → ((n : ℕ) → s.random n ≢ none)
    → req.buttons ≡ b ∷ bs
    → validate_buttons req ≡ none
    → (m : Message) × (nodes : List Node) × (build_buttons_message s req server secret
        ≡ ok (m, nodes))
      × Shows m req.buttons
      × Frames m req
validated-Shows s req b bs server secret random_works e v =
    let valid = (validate_buttons_iff req).0 v in
    elim valid.together [
      | inl replies ↦ (
        _,
        _,
        reply-first s random_works req b bs server secret e (ground (arith, replies, e)),
        reply-Shows req.body req.footer secret req.buttons replies,
        (refl, refl),
      )
      | inr (flows, alone) ↦
          let (fs, made, shown) =
            flow_buttons-ok s random_works 0 req.buttons (format_body req.body req.header)
              req.footer secret (message_params (s.unix_nano (length req.buttons)) b.type) valid.fit
              flows in
          (
            _,
            _,
            flow-first s random_works req b bs server secret e (ground (arith, flows, e))
                ∙ ap (wrap_flow s req b.type server secret) made,
            shown,
            (refl, refl),
          )
    ]
