-- ===== src/Send/Buttons.antt =====
-- internal/send/buttons.go: the request for a message with buttons and its validation. The fields
-- that no code reads (amount, txid and the merchant's) are left out. The two regular expressions
-- are written out as matchers of bytes; an error is a constructor for each text of the source.
pub mod Forms
pub mod Rules
pub mod Build
use slimwhats.Base.{
  ℕ, zero, suc, ◌+◌, Bool, true, false, not, ◌&&◌, ◌||◌, List, [], ◌∷◌, ◌++◌, Option, none, some,
  Bytes, codes, ltb, leb, ◌==◌, str_eq, is_empty, has_prefix, length, if◌then◌else◌,
}
use slimwhats.Base.Result.{Result, ok, err}
use slimwhats.Send.Recipient.{is_digit, digits_only}

pub record ButtonRequest : Type 0 where
  pub type : Bytes
  pub id : Bytes
  pub text : Bytes
  pub url : Bytes
  pub code : Bytes
  pub phone : Bytes
  pub currency : Bytes
  pub name : Bytes
  pub key_type : Bytes
  pub key : Bytes

pub record ButtonsRequest : Type 0 where
  pub to : Bytes
  pub body : Bytes
  pub header : Bytes
  pub footer : Bytes
  pub buttons : List ButtonRequest

pub data ButtonError : Type 0 where
  too_many : ButtonError
  reply_requires_id reply_id_length reply_text_length : ButtonError
  url_invalid url_text_length : ButtonError
  copy_code_length copy_text_length : ButtonError
  call_phone_invalid call_text_length : ButtonError
  pix_currency pix_name_length pix_key_type : ButtonError
  pix_key_required pix_key_phone pix_key_email pix_key_cpf pix_key_cnpj pix_key_random : ButtonError
  unknown_type : Bytes → ButtonError
  reply_combined pix_not_alone reply_too_many : ButtonError

abbrev pub all_digits : Bytes → Bool
all_digits [] = true
all_digits (c ∷ s) = is_digit c && all_digits s

-- `^\+[1-9]\d{6,14}$`
unfoldable pub phone_matches : Bytes → Bool
phone_matches (p ∷ d ∷ s) =
    p == b'+'
    && (leb b'1' d && leb d b'9')
    && (all_digits s && leb 6 (length s) && leb (length s) 14)
phone_matches _ = false

-- `[^@\s]`; a byte of a longer rune is none of the excluded ones.
abbrev pub is_address_byte : ℕ → Bool
is_address_byte c =
    not (c == b'@')
    && not (c == 9)
    && not (c == 10)
    && not (c == 12)
    && not (c == 13)
    && not (c == 32)

-- `[^@\s]*$`
abbrev pub all_address : Bytes → Bool
all_address [] = true
all_address (c ∷ s) = is_address_byte c && all_address s

-- `[^@\s]*\.[^@\s]+$`
abbrev pub dotted_tail : Bytes → Bool
dotted_tail [] = false
dotted_tail (c ∷ s) =
    (c == b'.' && not (is_empty s) && all_address s) || (is_address_byte c && dotted_tail s)

-- `[^@\s]+\.[^@\s]+$`
abbrev pub dotted : Bytes → Bool
dotted [] = false
dotted (c ∷ s) = is_address_byte c && dotted_tail s

-- `[^@\s]*@[^@\s]+\.[^@\s]+$`
abbrev pub address_tail : Bytes → Bool
address_tail [] = false
address_tail (c ∷ s) = (c == b'@' && dotted s) || (is_address_byte c && address_tail s)

-- `^[^@\s]+@[^@\s]+\.[^@\s]+$`
unfoldable pub email_matches : Bytes → Bool
email_matches [] = false
email_matches (c ∷ s) = is_address_byte c && address_tail s

unfoldable pub validate_pix_key : Bytes → Bytes → Option ButtonError
validate_pix_key key_type key =
    if is_empty key
    then some pix_key_required
    else if str_eq key_type (codes "phone")
    then (if phone_matches key then none else some pix_key_phone)
    else if str_eq key_type (codes "email")
    then (if email_matches key then none else some pix_key_email)
    else if str_eq key_type (codes "cpf")
    then (if length (digits_only key) == 11 then none else some pix_key_cpf)
    else if str_eq key_type (codes "cnpj")
    then (if length (digits_only key) == 14 then none else some pix_key_cnpj)
    else if str_eq key_type (codes "random")
    then (if length key == 32 then none else some pix_key_random)
    else none

unfoldable pub valid_pix_key_type : Bytes → Bool
valid_pix_key_type t =
    str_eq t (codes "phone")
    || str_eq t (codes "email")
    || str_eq t (codes "cpf")
    || str_eq t (codes "cnpj")
    || str_eq t (codes "random")

-- The cases of the switch of `validateButtons`, and of `buildNativeFlowButton`.
pub data Kind : Type 0 where
  reply url copy call pix other : Kind

unfoldable pub kind_of : Bytes → Kind
kind_of t =
    if str_eq t (codes "reply")
    then reply
    else if str_eq t (codes "url")
    then url
    else if str_eq t (codes "copy")
    then copy
    else if str_eq t (codes "call")
    then call
    else if str_eq t (codes "pix")
    then pix
    else other

abbrev pub url_allowed : Bytes → Bool
url_allowed u =
    leb (length u) 2048
    && (has_prefix u (codes "https://")
        || has_prefix u (codes "http://localhost")
        || has_prefix u (codes "http://127.0.0.1"))

-- One turn of the loop of `validateButtons`, behind its switch.
abbrev pub check_kind : Kind → ButtonRequest → Option ButtonError
check_kind reply b =
    if is_empty b.id
    then some reply_requires_id
    else if ltb 256 (length b.id)
    then some reply_id_length
    else if ltb 20 (length b.text)
    then some reply_text_length
    else none
check_kind url b =
    if not (url_allowed b.url)
    then some url_invalid
    else if ltb 20 (length b.text)
    then some url_text_length
    else none
check_kind copy b =
    if ltb 256 (length b.code)
    then some copy_code_length
    else if ltb 20 (length b.text)
    then some copy_text_length
    else none
check_kind call b =
    if not (phone_matches b.phone)
    then some call_phone_invalid
    else if ltb 20 (length b.text)
    then some call_text_length
    else none
check_kind pix b =
    if not (str_eq b.currency (codes "BRL"))
    then some pix_currency
    else if ltb 25 (length b.name)
    then some pix_name_length
    else if not (valid_pix_key_type b.key_type)
    then some pix_key_type
    else validate_pix_key b.key_type b.key
check_kind other b = some (unknown_type b.type)

unfoldable pub check_button : ButtonRequest → Option ButtonError
check_button b = check_kind (kind_of b.type) b

-- The variables `hasReply`, `hasPix`, `hasCopy`, `hasCall` and `hasURL`.
pub record Has : Type 0 where
  pub reply : Bool
  pub pix : Bool
  pub copy : Bool
  pub call : Bool
  pub url : Bool

abbrev pub has_none : Has
has_none = record { reply = false; pix = false; copy = false; call = false; url = false }

abbrev pub seen : Kind → Has → Has
seen reply h = record { reply = true; pix = h.pix; copy = h.copy; call = h.call; url = h.url }
seen pix h = record { reply = h.reply; pix = true; copy = h.copy; call = h.call; url = h.url }
seen copy h = record { reply = h.reply; pix = h.pix; copy = true; call = h.call; url = h.url }
seen call h = record { reply = h.reply; pix = h.pix; copy = h.copy; call = true; url = h.url }
seen url h = record { reply = h.reply; pix = h.pix; copy = h.copy; call = h.call; url = true }
seen other h = h

unfoldable pub check_buttons : List ButtonRequest → Has → Result ButtonError Has
check_buttons [] h = ok h
check_buttons (b ∷ bs) h =
    let rest = check_buttons bs (seen (kind_of b.type) h) in
    elim (check_button b) [ some e ↦ err e | none ↦ rest ]

-- The tests behind the loop, on the number of buttons.
abbrev pub combined : ℕ → Has → Option ButtonError
combined n h =
    if h.reply && (h.url || h.pix || h.copy || h.call)
    then some reply_combined
    else if h.pix && not (n == 1)
    then some pix_not_alone
    else if h.reply && ltb 3 n
    then some reply_too_many
    else none

abbrev pub then_combined : ℕ → Result ButtonError Has → Option ButtonError
then_combined n (err e) = some e
then_combined n (ok h) = combined n h

unfoldable pub validate_buttons : ButtonsRequest → Option ButtonError
validate_buttons req =
    if ltb 3 (length req.buttons)
    then some too_many
    else then_combined (length req.buttons) (check_buttons req.buttons has_none)
