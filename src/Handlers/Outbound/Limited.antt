-- ===== src/Handlers/Outbound/Limited.antt =====
-- What a sender is told who has sent too much.
use slimwhats.Base.{
  ℕ, ◌≡◌, ◌≤◌, ◌^◌, ◌/◌, refl, ap, ◌∙◌, sym, false, [], Option, some, Bytes, ltb, All,
  if◌then◌else◌,
}
use slimwhats.Base.Clock.{second}
use slimwhats.Handlers.Decimal.{format_seconds}
use slimwhats.Handlers.Decimal.Digits.{IsDigit, value}
use slimwhats.Handlers.Decimal.Print.{format_seconds-Prints}
use slimwhats.Handlers.Outbound.{
  ButtonsBody, too_many_requests, rate_limit_or_abort, text_limited, buttons_limited, options_of,
  send_text_handler, send_buttons_handler,
}
use slimwhats.Send.RateLimit.{PerJidRateLimiter, check}
use slimwhats.Send.Recipient.{Whatsmeow}
use slimwhats.Send.Text.{TextRequest}
use slimwhats.Send.Text
use slimwhats.Send.Compose.{Options}
use slimwhats.Send.Compose

limited :
    {A : Type 0} (now : ℕ) (jid : Bytes) (l : PerJidRateLimiter) (r : Bytes)
    → (check jid now l).1 ≡ false
    → format_seconds (check jid now l).2 ≡ some r
    → rate_limit_or_abort {A = A} now jid l
      ≡ ((check jid now l).0, some (too_many_requests (some r)))
unfolding rate_limit_or_abort
limited now jid l r denied e = rw (denied, e) refl

-- For a text and a message with buttons to one recipient, whom the limiter denies with a wait of at most
-- `2 ^ 51` nanoseconds: both handlers answer 429, do nothing to the client, and leave the limiter as its
-- check does; the Retry-After header is the wait in whole seconds, and 1 where it is shorter than a second.
pub send_limited :
    (w : Whatsmeow) (now : ℕ) (text_client : Option (Text.Client w))
    (buttons_client : Option (Compose.Client w)) (text_req : TextRequest) (body : ButtonsBody)
    (l : PerJidRateLimiter)
    → text_req.to ≡ body.request.to
    → (check text_req.to now l).1 ≡ false
    → (check text_req.to now l).2 ≤ 2 ^ 51
    → (r : Bytes) × (value 0 r ≡ (
        if ltb (check text_req.to now l).2 second then 1 else (check text_req.to now l).2 / second))
      × All IsDigit r
      × (send_text_handler w now text_client (some text_req) l
          ≡ ((check text_req.to now l).0, [], too_many_requests (some r)))
      × (send_buttons_handler w now buttons_client (some body) l
          ≡ ((check text_req.to now l).0, [], too_many_requests (some r)))
unfolding send_text_handler send_buttons_handler
send_limited w now text_client buttons_client text_req body l same denied short =
    let (r, e, v, d) = format_seconds-Prints (check text_req.to now l).2 short in
    (
      r,
      v,
      d,
      ap (text_limited w text_client (record text_req { disable_wa = false }))
          (limited now text_req.to l r denied e),
      ap
            (λ t.
              buttons_limited w buttons_client (options_of w body) body.request
                (rate_limit_or_abort now t l))
            (sym same)
          ∙ ap (buttons_limited w buttons_client (options_of w body) body.request)
              (limited now text_req.to l r denied e),
    )
