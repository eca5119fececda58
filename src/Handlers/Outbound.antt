-- ===== src/Handlers/Outbound.antt =====
-- internal/handlers/send.go: the handlers of POST …/messages/text and …/messages/buttons, behind the
-- middleware of the API keys. The client is the one that the middleware has set, if any.
pub mod Limited
use slimwhats.Base.{ℕ, Bool, true, false, List, [], Option, none, some, Bytes, codes}
use slimwhats.Base.Int.{ℤ}
use slimwhats.Base.Result.{Result, ok, err}
use slimwhats.Handlers.Decimal.{format_seconds}
use slimwhats.Send.RateLimit.{PerJidRateLimiter, check}
use slimwhats.Send.Recipient.{Whatsmeow}
use slimwhats.Send.Buttons.{ButtonsRequest}
use slimwhats.Send.Text.{TextRequest, SendResponse, SendError, send_text}
use slimwhats.Send.Text
use slimwhats.Send.Compose.{Options, ButtonsFailure, ButtonsResponse, send_buttons}
use slimwhats.Send.Compose

-- What a handler answers: a status with its error, 429 with Retry-After, or 200 with the body.
pub data Answer (A : Type 0) : Type 0 where
  fails : ℕ → Bytes → Answer A
  too_many_requests : Option Bytes → Answer A
  succeeds : A → Answer A

-- `rateLimitOrAbort`: none where the request may proceed.
unfoldable pub rate_limit_or_abort :
    {A : Type 0} → ℕ → Bytes → PerJidRateLimiter → PerJidRateLimiter × Option (Answer A)
rate_limit_or_abort now jid l =
    let (l', allowed, retry) = check jid now l in
    (l', elim allowed [ true ↦ none | false ↦ some (too_many_requests (format_seconds retry)) ])

abbrev pub answer_of : {E A : Type 0} → Result E A → Answer A
answer_of (err e) = fails 400 (codes "send_failed")
answer_of (ok a) = succeeds a

abbrev pub answered :
    {F E A : Type 0}
    → PerJidRateLimiter
    → List F × Result E A
    → PerJidRateLimiter × List F × Answer A
answered l (effects, r) = (l, effects, answer_of r)

-- `ButtonsRequestBody`
pub record ButtonsBody : Type 0 where
  pub request : ButtonsRequest
  pub id : Bytes
  pub delay : ℤ

module _ (w : Whatsmeow) where
  abbrev pub text_limited :
      Option (Text.Client w)
      → TextRequest
      → PerJidRateLimiter × Option (Answer SendResponse)
      → PerJidRateLimiter × List (Text.Effect w) × Answer SendResponse
  text_limited client req (l, some refusal) = (l, [], refusal)
  text_limited none req (l, none) = (l, [], fails 500 (codes "client_unavailable"))
  text_limited (some c) req (l, none) = answered l (send_text w c req)

  -- `SendTextHandler`; the request is none where the body does not bind, as without a text. No body names
  -- disable_wa.
  unfoldable pub send_text_handler :
      ℕ
      → Option (Text.Client w)
      → Option TextRequest
      → PerJidRateLimiter
      → PerJidRateLimiter × List (Text.Effect w) × Answer SendResponse
  send_text_handler now client none l = (l, [], fails 400 (codes "invalid_request"))
  send_text_handler now client (some req) l =
      text_limited client (record req { disable_wa = false }) (rate_limit_or_abort now req.to l)

  abbrev pub buttons_limited :
      Option (Compose.Client w)
      → Options w
      → ButtonsRequest
      → PerJidRateLimiter × Option (Answer ButtonsResponse)
      → PerJidRateLimiter × List (Compose.Effect w) × Answer ButtonsResponse
  buttons_limited client o req (l, some refusal) = (l, [], refusal)
  buttons_limited none o req (l, none) = (l, [], fails 500 (codes "client_unavailable"))
  buttons_limited (some c) o req (l, none) = answered l (send_buttons w c o req)

  -- The body names neither format_jid nor disable_wa.
  abbrev pub options_of : ButtonsBody → Options w
  options_of body = record {
    id = body.id;
    delay = body.delay;
    format_jid = none;
    disable_wa = false;
  }

  -- `SendButtonsHandler`
  unfoldable pub send_buttons_handler :
      ℕ
      → Option (Compose.Client w)
      → Option ButtonsBody
      → PerJidRateLimiter
      → PerJidRateLimiter × List (Compose.Effect w) × Answer ButtonsResponse
  send_buttons_handler now client none l = (l, [], fails 400 (codes "invalid_request"))
  send_buttons_handler now client (some body) l =
      buttons_limited client (options_of body) body.request
        (rate_limit_or_abort now body.request.to l)
