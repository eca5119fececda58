-- ===== src/Webhook/Normalize/Envelope.antt =====
-- What the event of a received message says of the message itself.
use slimwhats.Base.{◌≡◌, refl, ◌∙◌, false, Option, none, some, Bytes, codes, str_eq, [], ◌∷◌}
use slimwhats.Webhook.Json.{
  Object, text, flag, set_all, value_at, value_at-set, value_at-set_all-none,
}
use slimwhats.Webhook.Events.{Message, set_if_not_empty}
use slimwhats.Webhook.Events.Content.{content_keys, is_content_key}
use slimwhats.Webhook.Normalize.{
  MessageInfo, message_received, normalize, message_data, content_of, envelope,
}

content_none :
    (m : Option Message) (k : Bytes) → is_content_key k ≡ false → value_at k (content_of m) ≡ none
unfolding value_at
content_none none k h = refl
content_none (some m) k h = (content_keys m k h).0

-- The push name, where there is one, stands beside the other fields.
with_push_name :
    (k s : Bytes) (o : Object)
    → str_eq (codes "push_name") k ≡ false
    → value_at k (set_if_not_empty (codes "push_name") s o) ≡ value_at k o
with_push_name k [] o h = refl
with_push_name k (c ∷ s) o h = rw (value_at-set (codes "push_name") k (text (c ∷ s)) o, h) refl

kept :
    (i : MessageInfo) (m : Option Message) (k : Bytes)
    → is_content_key k ≡ false
    → value_at k (set_all (content_of m) (message_data i)) ≡ value_at k (message_data i)
kept i m k h = value_at-set_all-none k (content_of m) (message_data i) (content_none m k h)

-- The event of a received message is message.received, and whatever the message contains, its ID, its
-- sender, its chat and the mark of one's own message are those of the message.
pub received_identity :
    (id ts : Bytes) (i : MessageInfo) (m : Option Message)
    → (o : Object) × (normalize id ts (message_received i m)
        ≡ envelope (codes "message.received") id ts o)
      × (value_at (codes "id") o ≡ some (text i.id))
      × (value_at (codes "from") o ≡ some (text i.sender.text))
      × (value_at (codes "chat") o ≡ some (text i.chat.text))
      × (value_at (codes "from_me") o ≡ some (flag i.is_from_me))
unfolding normalize str_eq value_at
received_identity id ts i m = (
  set_all (content_of m) (message_data i),
  refl,
  kept i m (codes "id") refl
      ∙ (unfold message_data in with_push_name (codes "id") i.push_name _ refl),
  kept i m (codes "from") refl
      ∙ (unfold message_data in with_push_name (codes "from") i.push_name _ refl),
  kept i m (codes "chat") refl
      ∙ (unfold message_data in with_push_name (codes "chat") i.push_name _ refl),
  kept i m (codes "from_me") refl
      ∙ (unfold message_data in with_push_name (codes "from_me") i.push_name _ refl),
)
