-- ===== src/Tests/Text.antt =====
-- internal/send/text.go on a small request.
use slimwhats.Base.{
  ℕ, zero, suc, ◌≡◌, ◌⊎◌, refl, Bool, true, false, List, [], ◌∷◌, Option, none, some, Bytes, codes,
  arith,
}
use slimwhats.Base.Int.{pos}
use slimwhats.Base.Result.{Result, ok, err}
use slimwhats.Send.Recipient.{Whatsmeow}
use slimwhats.Send.Text.{TextRequest, SendError, Client, send_text}
use slimwhats.Send.Text.Sent.{Delivered, send_text-Delivered}

-- JIDs that are their own text.
abbrev pub text_jids : Whatsmeow
text_jids = record {
  Jid = Bytes;
  user = λ j. j;
  set_user = λ u j. u;
  server = λ j. codes "s.whatsapp.net";
  to_string = λ j. j;
  parse_jid = λ s. (s, false);
}

-- The first attempt meets a closed connection.
abbrev pub reconnecting : ℕ → Result Bytes Unit
reconnecting n = elim n [
  | zero ↦ ok tt
  | suc m ↦ elim m [ zero ↦ err (codes "client disconnected") | suc k ↦ ok tt ]
]

abbrev client : Client text_jids
client = record {
  on_whatsapp = λ n q. ok ((true, codes "5511@s.whatsapp.net") ∷ []);
  group_info = λ j. err (codes "no group");
  message_id = codes "m1";
  answer = reconnecting;
}

abbrev pub hello : TextRequest
hello = record {
  to = codes "5511";
  body = codes "Hello";
  id = [];
  delay = pos 0;
  mentions = [];
  mention_all = false;
  quoted = none;
  format_jid = none;
  disable_wa = false;
}

send_text_run :
    (send_text text_jids client hello).1
    ≡ ok (record { id = codes "m1"; chat = codes "5511@s.whatsapp.net"; is_group = false })
unfolding send_text slimwhats.Send.Recipient.resolve slimwhats.Base.contains
    slimwhats.Send.Recipient.lookup_on_wa slimwhats.Send.Text.send_attempts
    slimwhats.Send.Text.is_transient slimwhats.Base.str_eq
send_text_run = refl

send_text-Delivered_example :
    (((send_text text_jids client hello).0 ≡ [])
      × ((e : SendError) × ((send_text text_jids client hello).1 ≡ err e)))
    ⊎ Delivered text_jids client hello (send_text text_jids client hello)
send_text-Delivered_example = send_text-Delivered text_jids client hello
