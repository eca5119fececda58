-- ===== src/Webhook/Events/Quoted.antt =====
-- What a reply says of the message that it quotes.
use slimwhats.Base.{
  ◌≡◌, refl, ◌∙◌, true, false, List, [], Option, none, some, Bytes, codes, arith, str_eq,
  str_eq_iff, ◌||◌, if◌then◌else◌, inl, inr, ltb, Bool-cases,
}
use slimwhats.Webhook.Json.{Value, text, object, Object, empty, field, set, value_at, value_at-set}
use slimwhats.Webhook.Json.Fields.{IsMap, or_else}
use slimwhats.Webhook.Events.{
  Message, message, Bodies, no_bodies, populated, conversation, extended_text, image, video, audio,
  document, sticker, location, live_location, contact_card, buttons_response, template_button_reply,
  reaction, poll_creation, poll_update, context, quotation, Body, carries_context, has_context_case,
  set_quoted, set_mentions, extract_message_content, context_info, context_extras, quoted_extras,
  extract_body, switch_body, unsupported, rank,
}
use slimwhats.Webhook.Events.Content.{content_keys, is_content_key}

value_at-set_quoted :
    (k : Bytes) (o q : Object)
    → IsMap o
    → str_eq k (codes "from_me") ≡ false
    → str_eq k (codes "push_name") ≡ false
    → value_at k (set_quoted o q) ≡ or_else (value_at k o) (value_at k q)
unfolding set_quoted value_at
value_at-set_quoted k empty q m a b = refl
value_at-set_quoted k (field j v o) q (n, m) a b =
    elim (Bool-cases (str_eq j (codes "from_me") || str_eq j (codes "push_name"))) [
      | inl skip ↦
          let apart : str_eq j k ≡ false = ground (
            arith,
            skip,
            str_eq_iff j (codes "from_me"),
            str_eq_iff j (codes "push_name"),
            str_eq_iff j k,
            a,
            b,
          ) in
          rw (skip, apart) (value_at-set_quoted k o q m a b)
      | inr copy ↦
          rw (copy, value_at-set_quoted k o (set j v q) m a b, value_at-set j k v q) (chosen n)
    ]
  where
    chosen :
        value_at j o ≡ none
        → or_else (value_at k o) (if str_eq j k then some v else value_at k q)
          ≡ or_else (if str_eq j k then some v else value_at k o) (value_at k q)
    chosen e = ground (arith, e, str_eq_iff j k)

rank-le : (b : Body) → ltb 15 (rank b) ≡ false
rank-le (conversation s) = refl
rank-le (extended_text s) = refl
rank-le (image m) = refl
rank-le (video m n) = refl
rank-le (audio t l n p) = refl
rank-le (document m n) = refl
rank-le (sticker t l n) = refl
rank-le (location x y n d) = refl
rank-le (live_location x y c s m) = refl
rank-le (contact_card n v) = refl
rank-le (buttons_response i t) = refl
rank-le (template_button_reply i t n) = refl
rank-le (reaction e t) = refl
rank-le (poll_creation n o) = refl
rank-le (poll_update k n) = refl
rank-le unsupported = refl

carries-case : (b : Body) → carries_context b ≡ true → has_context_case b ≡ true
carries-case (conversation s) c = absurd (cc)
carries-case (extended_text s) c = refl
carries-case (image m) c = refl
carries-case (video m n) c = refl
carries-case (audio t l n p) c = refl
carries-case (document m n) c = refl
carries-case (sticker t l n) c = refl
carries-case (location x y n d) c = refl
carries-case (live_location x y z s m) c = absurd (cc)
carries-case (contact_card n v) c = refl
carries-case (buttons_response i t) c = refl
carries-case (template_button_reply i t n) c = refl
carries-case (reaction e t) c = refl
carries-case (poll_creation n o) c = refl
carries-case (poll_update k n) c = refl
carries-case unsupported c = absurd (cc)

apart : (k j : Bytes) → is_content_key k ≡ true → is_content_key j ≡ false → str_eq k j ≡ false
apart k j inside outside = elim (Bool-cases (str_eq k j)) [
  | inl same ↦
      absurd (let e : k ≡ j = (str_eq_iff k j).0 same in ground (arith, inside, outside, e))
  | inr differ ↦ differ
]

apart-sym : (k j : Bytes) → is_content_key k ≡ true → is_content_key j ≡ false → str_eq j k ≡ false
apart-sym k j inside outside =
    ground (arith, apart k j inside outside, str_eq_iff k j, str_eq_iff j k)

or_else-none : (o : Option Value) → or_else o none ≡ o
or_else-none none = refl
or_else-none (some v) = refl

module _ (m : Message) (stanza_id participant : Bytes) where
  abbrev quoted_base : Object
  quoted_base =
      field (codes "id") (text stanza_id) (field (codes "sender") (text participant) empty)

  abbrev quoted : Object
  quoted = set_quoted (extract_message_content m) quoted_base

  own_field :
      (k : Bytes) (v : Value)
      → is_content_key k ≡ false
      → str_eq k (codes "from_me") ≡ false
      → str_eq k (codes "push_name") ≡ false
      → value_at k quoted_base ≡ some v
      → value_at k quoted ≡ some v
  own_field k v other a b e =
      rw
        (
          value_at-set_quoted k (extract_message_content m) quoted_base (content_keys m k other).1 a
              b,
          (content_keys m k other).0,
          e,
        )
        refl

  copied_field :
      (k : Bytes)
      → is_content_key k ≡ true
      → value_at k quoted ≡ value_at k (extract_message_content m)
  unfolding value_at str_eq
  copied_field k inside =
      rw
        (
          value_at-set_quoted k (extract_message_content m) quoted_base (content_keys m [] refl).1
              (apart k (codes "from_me") inside refl) (apart k (codes "push_name") inside refl),
          apart-sym k (codes "id") inside refl,
          apart-sym k (codes "sender") inside refl,
        )
        (or_else-none (value_at k (extract_message_content m)))

-- A message whose body carries a context info that quotes another message has a field quoted, with
-- the ID of the quoted message and its sender, and with all that the quoted message itself would say: its
-- body, its media and also what it quotes in turn.
pub quoted_content :
    (b : Body) (mentioned : List Bytes) (stanza_id participant : Bytes) (m : Message) (k : Bytes)
    → carries_context b ≡ true
    → is_content_key k ≡ true
    → (o : Object) × (value_at (codes "quoted") (
          extract_message_content (
            message
              (populated b (context mentioned stanza_id participant (quotation m)) no_bodies)))
        ≡ some (object o))
      × (value_at (codes "id") o ≡ some (text stanza_id))
      × (value_at (codes "sender") o ≡ some (text participant))
      × (value_at k o ≡ value_at k (extract_message_content m))
unfolding str_eq
quoted_content b mentioned stanza_id participant m k c h = (
  quoted m stanza_id participant,
  (unfold extract_message_content context_info context_extras quoted_extras in
      rw (carries-case b c, rank-le b, c)
        (value_at-set (codes "quoted") (codes "quoted") (object (quoted m stanza_id participant))
            (set_mentions mentioned (extract_body (switch_body bodies) empty))
          ∙ (unfold str_eq in refl))),
  own_field m stanza_id participant (codes "id") (text stanza_id) refl refl refl
      (unfold value_at str_eq in refl),
  own_field m stanza_id participant (codes "sender") (text participant) refl refl refl
      (unfold value_at str_eq in refl),
  copied_field m stanza_id participant k h,
)
  where
    bodies : Bodies
    bodies = populated b (context mentioned stanza_id participant (quotation m)) no_bodies
