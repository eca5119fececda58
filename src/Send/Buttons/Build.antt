-- ===== src/Send/Buttons/Build.antt =====
-- internal/send/buttons.go: the message for a validated request. The source of random bytes, the
-- clock and the printer of numbers are arguments; a JSON value is kept as a tree.
pub mod Built
use slimwhats.Base.{
  ℕ, zero, suc, ◌+◌, ◌/◌, ◌%◌, Bool, true, false, ◌&&◌, List, [], ◌∷◌, ◌++◌, Option, none, some,
  Bytes, codes, str_eq, is_empty, length, get_elem?, if◌then◌else◌,
}
use slimwhats.Base.Result.{Result, ok, err}
use slimwhats.Send.Buttons.{
  ButtonRequest, ButtonsRequest, ButtonError, unknown_type, Kind, reply, url, copy, call, pix,
  other, kind_of,
}

-- A member or an element comes before those that follow it; `empty` ends an object or an array.
pub data Json : Type 0 where
  text : Bytes → Json
  num : ℕ → Json
  flag : Bool → Json
  empty : Json
  member : Bytes → Json → Json → Json
  element : Json → Json → Json

pub record NativeFlowButton : Type 0 where
  pub name : Bytes
  pub params : Json

-- An id and a display text.
pub record ReplyButton : Type 0 where
  pub button_id : Bytes
  pub display_text : Bytes

pub data Node : Type 0 where
  biz : Bytes → Node
  bot : Node

pub data Message : Type 0 where
  buttons_message : Bytes → Bytes → List ReplyButton → Bytes → Message
  interactive_message : Bytes → Bytes → List NativeFlowButton → Json → Bytes → Message

pub data BuildError : Type 0 where
  no_random unknown_button : BuildError

-- `newMessageSecret`'s bytes, `randomID`'s for each button in turn, the clock of each reading and
-- the printed form of a number.
pub record Sources : Type 0 where
  pub random : ℕ → Option (List ℕ)
  pub unix_nano : ℕ → ℕ
  pub format_int : ℕ → Bytes

abbrev pub alphabet : Bytes
alphabet = codes "ABCDEFGHIJKLMNOPQRSTUVWXYZ234567"

abbrev pub or_zero_byte : Option ℕ → ℕ
or_zero_byte none = 0
or_zero_byte (some c) = c

-- The loop of `randomID`; the index is below the length of the alphabet.
unfoldable pub letters : List ℕ → Bytes
letters [] = []
letters (b ∷ bs) = or_zero_byte (get_elem? alphabet (b % 32)) ∷ letters bs

abbrev pub random_id : Option (List ℕ) → Result BuildError Bytes
random_id none = err no_random
random_id (some bs) = ok (letters bs)

unfoldable pub map_pix_key_type : Bytes → Bytes
map_pix_key_type t =
    if str_eq t (codes "phone")
    then codes "PHONE"
    else if str_eq t (codes "email")
    then codes "EMAIL"
    else if str_eq t (codes "cpf")
    then codes "CPF"
    else if str_eq t (codes "cnpj")
    then codes "CNPJ"
    else if str_eq t (codes "random")
    then codes "EVP"
    else []

abbrev pub zero_amount : Json
zero_amount = member (codes "value") (num 0) (member (codes "offset") (num 100) empty)

abbrev pub pix_item : Json
pix_item = member (codes "name") (text []) (
    member (codes "amount") zero_amount
      (member (codes "quantity") (num 0) (member (codes "sale_amount") zero_amount empty)))

abbrev pub pix_order : Json
pix_order = member (codes "status") (text (codes "pending")) (
    member (codes "subtotal") zero_amount (
      member (codes "order_type") (text (codes "ORDER"))
        (member (codes "items") (element pix_item empty) empty)))

abbrev pub pix_setting : ButtonRequest → Json
pix_setting b = member (codes "type") (text (codes "pix_static_code")) (
    member (codes "pix_static_code")
      (member (codes "merchant_name") (text b.name) (
        member (codes "key") (text b.key)
          (member (codes "key_type") (text (map_pix_key_type b.key_type)) empty)))
      empty)

abbrev pub pix_payload : Bytes → ButtonRequest → Json
pix_payload ref_id b = member (codes "currency") (text b.currency) (
    member (codes "total_amount") zero_amount (
      member (codes "reference_id") (text ref_id) (
        member (codes "type") (text (codes "physical-goods")) (
          member (codes "order") pix_order (
            member (codes "payment_settings") (element (pix_setting b) empty)
              (member (codes "share_payment_status") (flag false) empty))))))

abbrev pub build_pix_native_flow_button :
    Result BuildError Bytes → ButtonRequest → Result BuildError NativeFlowButton
build_pix_native_flow_button (err e) b = err e
build_pix_native_flow_button (ok ref_id) b =
    ok (record { name = codes "payment_info"; params = pix_payload ref_id b })

-- `copy_` and the time, where the button has no ID.
abbrev pub copy_params : Bytes → ButtonRequest → Json
copy_params stamp b = member (codes "display_text") (text b.text) (
    member (codes "id") (text (if is_empty b.id then codes "copy_" ++ stamp else b.id))
      (member (codes "copy_code") (text (if is_empty b.code then b.id else b.code)) empty))

-- The switch of `buildNativeFlowButton` for the n-th button.
abbrev pub flow_button : Sources → ℕ → Kind → ButtonRequest → Result BuildError NativeFlowButton
flow_button s n url b = ok (record {
  name = codes "cta_url";
  params =
      member (codes "display_text") (text b.text)
        (member (codes "url") (text b.url) (member (codes "merchant_url") (text b.url) empty));
})
flow_button s n copy b =
    ok (record { name = codes "cta_copy"; params = copy_params (s.format_int (s.unix_nano n)) b })
flow_button s n call b = ok (record {
  name = codes "cta_call";
  params =
      member (codes "display_text") (text b.text)
        (member (codes "phone_number") (text b.phone) empty);
})
flow_button s n pix b = build_pix_native_flow_button (random_id (s.random n)) b
flow_button s n reply b = err unknown_button
flow_button s n other b = err unknown_button

unfoldable pub build_native_flow_button :
    Sources → ℕ → ButtonRequest → Result BuildError NativeFlowButton
build_native_flow_button s n b = flow_button s n (kind_of b.type) b

-- The loop of `buildNativeFlowMessage`.
unfoldable pub flow_buttons :
    Sources → ℕ → List ButtonRequest → Result BuildError (List NativeFlowButton)
flow_buttons s n [] = ok []
flow_buttons s n (b ∷ bs) =
    let rest = flow_buttons s (suc n) bs in
    elim (build_native_flow_button s n b) [
      | err e ↦ err e
      | ok nb ↦ elim rest [ err e ↦ err e | ok nbs ↦ ok (nb ∷ nbs) ]
    ]

abbrev pub format_body : Bytes → Bytes → Bytes
format_body body header = if is_empty header then body else header ++ 10 ∷ 10 ∷ body

-- `<biz>…` of the name, and `<bot biz_bot="1"/>` for a chat with one user.
abbrev pub nodes_for : Bytes → Bytes → List Node
nodes_for name server =
    if str_eq server (codes "s.whatsapp.net") then biz name ∷ bot ∷ [] else biz name ∷ []

unfoldable pub biz_name_for_buttons : Bytes → Bytes
biz_name_for_buttons t =
    if str_eq t (codes "reply")
    then codes "quick_reply"
    else if str_eq t (codes "pix")
    then codes "payment_info"
    else codes "mixed"

unfoldable pub reply_buttons : List ButtonRequest → List ReplyButton
reply_buttons [] = []
reply_buttons (b ∷ bs) = record { button_id = b.id; display_text = b.text } ∷ reply_buttons bs

abbrev pub build_reply_buttons_message : ButtonsRequest → Bytes → Bytes → Message × List Node
build_reply_buttons_message req server secret = (
  buttons_message req.body req.footer (reply_buttons req.buttons) secret,
  nodes_for (codes "quick_reply") server,
)

abbrev pub message_params : ℕ → Bytes → Json
message_params now t =
    if str_eq t (codes "pix")
    then member (codes "native_flow_name") (text (codes "order_details"))
        (member (codes "version") (num 1) empty)
    else member (codes "from") (text (codes "api"))
        (member (codes "templateId") (num (now / 1000000)) empty)

abbrev pub wrap_flow :
    Sources
    → ButtonsRequest
    → Bytes
    → Bytes
    → Bytes
    → Result BuildError (List NativeFlowButton)
    → Result BuildError (Message × List Node)
wrap_flow s req first server secret (err e) = err e
wrap_flow s req first server secret (ok nfb) = ok (
  interactive_message (format_body req.body req.header) req.footer nfb
      (message_params (s.unix_nano (length req.buttons)) first) secret,
  nodes_for (biz_name_for_buttons first) server,
)

-- `req.Buttons[0]` of an empty list does not arise: SendButtons refuses such a request before.
abbrev pub first_type : List ButtonRequest → Bytes
first_type [] = []
first_type (b ∷ bs) = b.type

unfoldable pub build_buttons_message :
    Sources → ButtonsRequest → Bytes → Bytes → Result BuildError (Message × List Node)
build_buttons_message s req server secret =
    if str_eq (first_type req.buttons) (codes "reply")
    then ok (build_reply_buttons_message req server secret)
    else wrap_flow s req (first_type req.buttons) server secret (flow_buttons s 0 req.buttons)
