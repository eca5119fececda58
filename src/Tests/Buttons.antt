-- ===== src/Tests/Buttons.antt =====
-- The messages with buttons, and the limit of a recipient, on a small request.
use slimwhats.Base.{◌⊎◌}
use slimwhats.Base.{
  ℕ, ◌≡◌, ◌≢◌, ◌≤◌, refl, true, false, List, [], ◌∷◌, Option, none, some, Bytes, codes, arith,
}
use slimwhats.Base.Result.{ok}
use slimwhats.Send.Buttons.{ButtonRequest, ButtonsRequest, validate_buttons, pix_not_alone}
use slimwhats.Send.Buttons.Build.{Sources}
use slimwhats.Base.Int.{pos}
use slimwhats.Send.Compose.{Client, Options, send_buttons}
use slimwhats.Send.Compose.Checked.{Refused, Delivered, send_buttons-Shows}
use slimwhats.Base.{◌^◌, ◌/◌, ltb, if◌then◌else◌, All}
use slimwhats.Base.Clock.{second}
use slimwhats.Handlers.Decimal.Digits.{IsDigit, value}
use slimwhats.Handlers.Outbound.{
  ButtonsBody, too_many_requests, send_text_handler, send_buttons_handler,
}
use slimwhats.Handlers.Outbound.Limited.{send_limited}
use slimwhats.Send.RateLimit.{PerJidRateLimiter, check}
use slimwhats.Tests.Text.{text_jids, reconnecting, hello}

abbrev link : ButtonRequest
link = record {
  type = codes "url";
  id = [];
  text = codes "Open";
  url = codes "https://a.br";
  code = [];
  phone = [];
  currency = [];
  name = [];
  key_type = [];
  key = [];
}

abbrev pay : ButtonRequest
pay = record link {
  type = codes "pix";
  currency = codes "BRL";
  name = codes "Ann";
  key_type = codes "cpf";
  key = codes "123.456.789-09";
}

abbrev offer : List ButtonRequest → ButtonsRequest
offer buttons = record {
  to = codes "5511";
  body = codes "Hi";
  header = [];
  footer = [];
  buttons = buttons;
}

validate_buttons_run :
    (validate_buttons (offer (link ∷ link ∷ [])) ≡ none)
    × (validate_buttons (offer (pay ∷ [])) ≡ none)
    × (validate_buttons (offer (pay ∷ link ∷ [])) ≡ some pix_not_alone)
unfolding validate_buttons slimwhats.Send.Buttons.check_buttons slimwhats.Send.Buttons.check_button
    slimwhats.Send.Buttons.kind_of slimwhats.Base.str_eq slimwhats.Base.has_prefix
    slimwhats.Send.Buttons.valid_pix_key_type slimwhats.Send.Buttons.validate_pix_key
validate_buttons_run = (refl, refl, refl)

abbrev zeros : Sources
zeros = record {
  random = λ n. some (0 ∷ 1 ∷ 2 ∷ []);
  unix_nano = λ n. n;
  format_int = λ n. codes "0";
}

abbrev sender : Client text_jids
sender = record {
  on_whatsapp = λ n q. ok ((true, codes "5511@s.whatsapp.net") ∷ []);
  secret = some (codes "k");
  sources = zeros;
  message_id = codes "m1";
  answer = reconnecting;
}

abbrev plain : Options text_jids
plain = record { id = []; delay = pos 0; format_jid = none; disable_wa = false }

send_buttons-Shows_example :
    Refused text_jids sender plain
      (offer (pay ∷ []))
      (send_buttons text_jids sender plain (offer (pay ∷ [])))
    ⊎ Delivered text_jids sender plain
        (offer (pay ∷ []))
        (send_buttons text_jids sender plain (offer (pay ∷ [])))
send_buttons-Shows_example =
    send_buttons-Shows text_jids sender plain (offer (pay ∷ [])) (λ n e. ground arith)

abbrev buttons_body : ButtonsBody
buttons_body = record { request = offer (pay ∷ []); id = []; delay = pos 0 }

-- A limiter that has let one message through.
abbrev spent : PerJidRateLimiter
spent = (check (codes "5511") 1 (record { buckets = []; max = 1; window = 5 })).0

send_limited_example :
    (r : Bytes) × (value 0 r ≡ (
      if ltb (check (codes "5511") 2 spent).2 second
      then 1
      else (check (codes "5511") 2 spent).2 / second))
    × All IsDigit r
    × (send_text_handler text_jids 2 none (some hello) spent
        ≡ ((check (codes "5511") 2 spent).0, [], too_many_requests (some r)))
    × (send_buttons_handler text_jids 2 (some sender) (some buttons_body) spent
        ≡ ((check (codes "5511") 2 spent).0, [], too_many_requests (some r)))
unfolding check slimwhats.Base.Dict.lookup slimwhats.Base.Dict.insert slimwhats.Base.str_eq
send_limited_example =
    send_limited text_jids 2 none (some sender) hello buttons_body spent refl refl (omega arith)
