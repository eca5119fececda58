-- ===== src/Webhook/Events/Content.antt =====
-- Which fields the content of a message may have.
use slimwhats.Base.{
  ◌≡◌, refl, Bool, false, List, [], ◌∷◌, Option, none, some, Bytes, codes, arith, str_eq, ltb,
  if_holds, ◌||◌, ◌&&◌, not, ℕ,
}
use slimwhats.Webhook.Json.{Value, Object, empty, set, value_at, value_at-set}
use slimwhats.Webhook.Json.Fields.{IsMap, set-IsMap}
use slimwhats.Webhook.Events.{
  Message, message, Bodies, no_bodies, populated, Context, no_context, context, Quotation,
  no_quotation, quotation, Body, Media, set_if_not_empty, extract_media, extract_body, poll_vote,
  switch_body, carries_context, set_mentions, Found, extract_message_content, context_info,
  context_extras, quoted_extras, conversation, extended_text, image, video, audio, document,
  sticker, location, live_location, contact_card, buttons_response, template_button_reply, reaction,
  poll_creation, poll_update, unsupported, has_context_case, rank,
}

abbrev pub is_content_key : Bytes → Bool
is_content_key k =
    str_eq (codes "body") k
    || str_eq (codes "media") k
    || str_eq (codes "location") k
    || str_eq (codes "contact") k
    || str_eq (codes "button_reply") k
    || str_eq (codes "reaction") k
    || str_eq (codes "poll") k
    || str_eq (codes "mentions") k
    || str_eq (codes "quoted") k

-- What the extraction keeps: a key that is no content key has no value, and each key one at most.
module _ (k : Bytes) (other : is_content_key k ≡ false) where
  abbrev Kept : Object → Type 0
  Kept out = (value_at k out ≡ none) × IsMap out

  set-Kept :
      (j : Bytes) (v : Value) (out : Object) → str_eq j k ≡ false → Kept out → Kept (set j v out)
  set-Kept j v out e (a, m) = (ground (arith, value_at-set j k v out, e, a), set-IsMap j v out m)

  not_body : str_eq (codes "body") k ≡ false
  not_body = ground (arith, other)

  if_not_empty-Kept :
      (s : Bytes) (out : Object) → Kept out → Kept (set_if_not_empty (codes "body") s out)
  if_not_empty-Kept [] out a = a
  if_not_empty-Kept (c ∷ s) out a = set-Kept (codes "body") _ out not_body a

  media-Kept :
      (m : Media) (n : ℕ) (s : Bytes) (out : Object) → Kept out → Kept (extract_media out m n s)
  unfolding extract_media
  media-Kept m n s out a =
      set-Kept (codes "media") _ _ (ground (arith, other)) (if_not_empty-Kept m.caption out a)

  vote-Kept : (key : Option Bytes) (n : ℕ) (out : Object) → Kept out → Kept (poll_vote key n out)
  vote-Kept none n out a = a
  vote-Kept (some c) n out a = set-Kept (codes "poll") _ out (ground (arith, other)) a

  body-Kept : (b : Body) (out : Object) → Kept out → Kept (extract_body b out)
  unfolding extract_body
  body-Kept (conversation s) out a = if_not_empty-Kept s out a
  body-Kept (extended_text s) out a = if_not_empty-Kept s out a
  body-Kept (image m) out a = media-Kept m 0 [] out a
  body-Kept (video m n) out a = media-Kept m n [] out a
  body-Kept (audio t l n p) out a = set-Kept (codes "media") _ out (ground (arith, other)) a
  body-Kept (document m name) out a = media-Kept m 0 name out a
  body-Kept (sticker t l n) out a = set-Kept (codes "media") _ out (ground (arith, other)) a
  body-Kept (location x y n d) out a = set-Kept (codes "location") _ out (ground (arith, other)) a
  body-Kept (live_location x y c s m) out a =
      set-Kept (codes "location") _ out (ground (arith, other)) a
  body-Kept (contact_card n v) out a = set-Kept (codes "contact") _ out (ground (arith, other)) a
  body-Kept (buttons_response i t) out a =
      set-Kept (codes "button_reply") _ out (ground (arith, other)) a
  body-Kept (template_button_reply i t n) out a =
      set-Kept (codes "button_reply") _ out (ground (arith, other)) a
  body-Kept (reaction e t) out a = set-Kept (codes "reaction") _ out (ground (arith, other)) a
  body-Kept (poll_creation n o) out a = set-Kept (codes "poll") _ out (ground (arith, other)) a
  body-Kept (poll_update c n) out a = vote-Kept c n out a
  body-Kept unsupported out a = a

  mentions-Kept : (ms : List Bytes) (out : Object) → Kept out → Kept (set_mentions ms out)
  mentions-Kept [] out a = a
  mentions-Kept (c ∷ ms) out a = set-Kept (codes "mentions") _ out (ground (arith, other)) a

  quoted-Kept :
      (q : Quotation) (s p : Bytes) (out : Object) → Kept out → Kept (quoted_extras q s p out)
  unfolding quoted_extras
  quoted-Kept no_quotation s p out a = a
  quoted-Kept (quotation m) s p out a = set-Kept (codes "quoted") _ out (ground (arith, other)) a

  extras-Kept : (c : Context) (out : Object) → Kept out → Kept (context_extras c out)
  unfolding context_extras
  extras-Kept no_context out a = a
  extras-Kept (context ms s p q) out a = quoted-Kept q s p _ (mentions-Kept ms out a)

  context_info-Kept : (bs : Bodies) (out : Object) → Kept out → Kept ((context_info bs).extras out)
  unfolding context_info
  context_info-Kept no_bodies out a = a
  context_info-Kept (populated b c bs) out a =
      if_holds (λ f. Kept (Found.extras f out))
        (has_context_case b && not (ltb (rank (context_info bs).body) (rank b)))
        (λ here. if_holds Kept (carries_context b) (λ found. extras-Kept c out a) (λ lacking. a))
        (λ later. context_info-Kept bs out a)

  content-Kept : (m : Message) → Kept (extract_message_content m)
  unfolding extract_message_content value_at
  content-Kept (message bs) = context_info-Kept bs _ (body-Kept (switch_body bs) empty (refl, tt))

-- The content of a message has no fields but body, media, location, contact, button_reply, reaction,
-- poll, mentions and quoted, and no field twice.
pub content_keys :
    (m : Message) (k : Bytes)
    → is_content_key k ≡ false
    → (value_at k (extract_message_content m) ≡ none) × IsMap (extract_message_content m)
content_keys m k other = content-Kept k other m
