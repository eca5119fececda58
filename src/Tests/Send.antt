-- ===== src/Tests/Send.antt =====
-- internal/send on small inputs.
use slimwhats.Base.{
  ℕ, zero, ◌+◌, ◌≤◌, ◌<◌, ◌≡◌, ◌≢◌, refl, ◌⊎◌, ◌↔◌, inl, inr, Bool, true, false, List, [], ◌∷◌,
  ◌++◌, Option, none, some, Bytes, codes, arith, leb, ltb, before_byte, contains, has_prefix,
  if◌then◌else◌, ◌&&◌, ◌-◌, ◌*◌,
}
use slimwhats.Base.Clock.{second}
use slimwhats.Base.Result.{ok, err}
use slimwhats.Send.RateLimit.{PerJidRateLimiter, check}
use slimwhats.Send.RateLimit.Retry.{IsValid, retry_after_exact, check-IsValid}
use slimwhats.Send.RateLimit.Window.{
  Call, answers, spec_answers, allowed_sends, recent_sends, check-refines, allowed_sends-le-max,
}
use slimwhats.Send.Recipient.{
  create_jid, cleaned, phone_jid, lookup_on_wa, format_br_number, format_mx_or_ar_number, Whatsmeow,
  RecipInput, ResolveError, not_registered, OnWhatsApp, resolve,
}
use slimwhats.Send.Recipient.Lookup.{Confirmed, resolve_sound}

abbrev ann : Bytes
ann = codes "ann@s.whatsapp.net"

abbrev calls : List Call
calls = (ann, 1) ∷ (ann, 2) ∷ (ann, 9) ∷ []

abbrev one_per_five : PerJidRateLimiter
one_per_five = record { buckets = []; max = 1; window = 5 }

check-refines_example : answers calls one_per_five ≡ spec_answers 1 5 calls []
check-refines_example = check-refines calls 1 5 (omega arith, (omega arith, (omega arith, tt)))

allowed_sends-le-max_example : recent_sends 5 ann 9 (allowed_sends calls one_per_five []) ≤ 1
allowed_sends-le-max_example =
    allowed_sends-le-max calls 1 5 ann 9 (omega arith, (omega arith, (omega arith, tt)))
      (omega arith)

one_per_five-IsValid : IsValid 0 one_per_five
unfolding slimwhats.Base.Dict.lookup
one_per_five-IsValid = record {
  buckets = λ jid. record { bounded = omega arith; chronological = tt; past = tt };
}

retry_after_exact_example :
    (second ≤ (check ann 2 (check ann 1 one_per_five).0).2)
    × ((9 < 2 + (check ann 2 (check ann 1 one_per_five).0).2)
        ⊎ ((check ann 9 (check ann 2 (check ann 1 one_per_five).0).0).1 ≡ true))
    × (((check ann 2 (check ann 1 one_per_five).0).2 ≡ second)
        ⊎ ((check ann 9 (check ann 2 (check ann 1 one_per_five).0).0).1
            ≡ leb (2 + (check ann 2 (check ann 1 one_per_five).0).2) 9))
unfolding check slimwhats.Base.Dict.lookup slimwhats.Base.Dict.insert slimwhats.Base.str_eq
retry_after_exact_example =
    retry_after_exact ann 1 2 9 (check ann 1 one_per_five).0 (omega arith)
      (check-IsValid ann 0 1 one_per_five (omega arith) one_per_five-IsValid) (omega arith) refl

-- Brazil without the ninth digit, and a group.
create_jid_run :
    (create_jid (codes "+55 (31) 98765-4321") ≡ codes "+553187654321@s.whatsapp.net")
    × (create_jid (codes "120363041234567890") ≡ codes "120363041234567890@g.us")
unfolding create_jid cleaned before_byte phone_jid contains has_prefix format_br_number
    format_mx_or_ar_number slimwhats.Send.Recipient.atoi_safe
    slimwhats.Send.Recipient.strip_non_digits_dashes
create_jid_run = (refl, refl)

-- JIDs that are their own text.
abbrev plain_jids : Whatsmeow
plain_jids = record {
  Jid = Bytes;
  user = λ j. j;
  set_user = λ u j. u;
  server = λ j. codes "s.whatsapp.net";
  to_string = λ j. j;
  parse_jid = λ s. (s, false);
}

abbrev to_ann : RecipInput
to_ann = record { number = codes "5511"; format_jid = none; disable_wa = false }

abbrev ann_is_in : OnWhatsApp plain_jids
ann_is_in n q = ok ((true, ann) ∷ [])

abbrev no_answer : OnWhatsApp plain_jids
no_answer n q = err (codes "timeout")

resolve_sound_example :
    (text : Bytes) × Confirmed plain_jids ann_is_in (codes "5511") text
    × Path (Bytes × Bool) (text, false) (ann, false)
unfolding resolve lookup_on_wa contains
resolve_sound_example = resolve_sound plain_jids ann_is_in to_ann ann refl refl
