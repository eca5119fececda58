-- ===== src/Webhook/Events.antt =====
-- internal/webhook/events.go: from the events of whatsmeow to the events of the webhooks. Of the
-- types of whatsmeow, which are not in the repository, the model has the fields that the code
-- reads; a JID comes with the text that its String answers, a time with its RFC 3339 text.
pub mod Content
pub mod Quoted
use slimwhats.Base.{
  ℕ, ltb, Bool, true, false, not, List, [], ◌∷◌, ◌++◌, Option, none, some, Bytes, codes, is_empty,
  str_eq, ◌||◌, ◌&&◌, if◌then◌else◌,
}
use slimwhats.Webhook.Json.{
  Value, text, real, number, flag, texts, object, Object, empty, field, set, set_all,
}
use slimwhats.Webhook.Dispatcher.Retry.{Event}

-- `types.JID`
pub record Jid : Type 0 where
  pub user : Bytes
  pub text : Bytes

-- What image, video and document messages share.
pub record Media : Type 0 where
  pub caption : Bytes
  pub mimetype : Bytes
  pub file_length : ℕ

-- A message by its populated fields, each with its context info; several may be populated.
mutual
  pub data Message : Type 0 where
    message : Bodies → Message

  pub data Bodies : Type 0 where
    no_bodies : Bodies
    populated : Body → Context → Bodies → Bodies

  pub data Context : Type 0 where
    no_context : Context
    context :
        (mentioned : List Bytes) (stanza_id participant : Bytes) (quoted : Quotation) → Context

  pub data Quotation : Type 0 where
    no_quotation : Quotation
    quotation : Message → Quotation

  pub data Body : Type 0 where
    conversation : Bytes → Body
    extended_text : Bytes → Body
    image : Media → Body
    video : Media → (seconds : ℕ) → Body
    audio : (mimetype : Bytes) (file_length seconds : ℕ) (ptt : Bool) → Body
    document : Media → (file_name : Bytes) → Body
    sticker : (mimetype : Bytes) (file_length : ℕ) (animated : Bool) → Body
    location : (latitude longitude name address : Bytes) → Body
    live_location : (latitude longitude caption : Bytes) (sequence accuracy : ℕ) → Body
    contact_card : (display_name vcard : Bytes) → Body
    buttons_response : (id display_text : Bytes) → Body
    template_button_reply : (id display_text : Bytes) (index : ℕ) → Body
    reaction : (emoji target_id : Bytes) → Body
    poll_creation : (name : Bytes) (options : List Bytes) → Body
    poll_update : (key : Option Bytes) (sender_ts : ℕ) → Body
    unsupported : Body

-- `setIfNotEmpty`
abbrev pub set_if_not_empty : Bytes → Bytes → Object → Object
set_if_not_empty key [] out = out
set_if_not_empty key (c ∷ s) out = set key (text (c ∷ s)) out

abbrev pub seconds_field : ℕ → Object → Object
seconds_field seconds media =
    if ltb 0 seconds then set (codes "seconds") (number seconds) media else media

-- `extractMedia`
unfoldable pub extract_media : Object → Media → ℕ → Bytes → Object
extract_media out m seconds file_name =
    set (codes "media")
      (object (
        set_if_not_empty (codes "file_name") file_name (
          seconds_field seconds (
            field (codes "mimetype") (text m.mimetype)
              (field (codes "file_size") (number m.file_length) empty)))))
      (set_if_not_empty (codes "body") m.caption out)

-- The place of the body in the switch of extractMessageContent.
abbrev pub rank : Body → ℕ
rank (conversation s) = 0
rank (extended_text s) = 1
rank (image m) = 2
rank (video m s) = 3
rank (audio m l s p) = 4
rank (document m n) = 5
rank (sticker m l a) = 6
rank (location a b c d) = 7
rank (live_location a b c s m) = 8
rank (contact_card n v) = 9
rank (buttons_response i t) = 10
rank (template_button_reply i t n) = 11
rank (reaction e t) = 12
rank (poll_creation n o) = 13
rank (poll_update k s) = 14
rank unsupported = 15

abbrev pub poll_vote : Option Bytes → ℕ → Object → Object
poll_vote none ts out = out
poll_vote (some key) ts out =
    set (codes "poll")
      (object (
        field (codes "target_poll_id") (text key) (
          field (codes "action") (text (codes "vote"))
            (field (codes "sender_ts") (number ts) empty))))
      out

-- The case of extractMessageContent for a body.
unfoldable pub extract_body : Body → Object → Object
extract_body (conversation s) out = set_if_not_empty (codes "body") s out
extract_body (extended_text s) out = set_if_not_empty (codes "body") s out
extract_body (image m) out = extract_media out m 0 []
extract_body (video m seconds) out = extract_media out m seconds []
extract_body (audio mimetype file_length seconds ptt) out =
    set (codes "media")
      (object (
        field (codes "mimetype") (text mimetype) (
          field (codes "file_size") (number file_length)
            (field (codes "seconds") (number seconds) (field (codes "ptt") (flag ptt) empty)))))
      out
extract_body (document m file_name) out = extract_media out m 0 file_name
extract_body (sticker mimetype file_length animated) out =
    set (codes "media")
      (object (
        field (codes "mimetype") (text mimetype) (
          field (codes "file_size") (number file_length)
            (field (codes "animated") (flag animated) empty))))
      out
extract_body (location latitude longitude name address) out =
    set (codes "location")
      (object (
        field (codes "latitude") (real latitude) (
          field (codes "longitude") (real longitude)
            (field (codes "name") (text name) (field (codes "address") (text address) empty)))))
      out
extract_body (live_location latitude longitude caption sequence accuracy) out =
    set (codes "location")
      (object (
        field (codes "latitude") (real latitude) (
          field (codes "longitude") (real longitude) (
            field (codes "caption") (text caption) (
              field (codes "live") (flag true) (
                field (codes "sequence_number") (number sequence)
                  (field (codes "accuracy_m") (number accuracy) empty)))))))
      out
extract_body (contact_card display_name vcard) out =
    set (codes "contact")
      (object (
        field (codes "display_name") (text display_name)
          (field (codes "vcard") (text vcard) empty)))
      out
extract_body (buttons_response id display_text) out =
    set (codes "button_reply")
      (object
        (field (codes "id") (text id) (field (codes "display_text") (text display_text) empty)))
      out
extract_body (template_button_reply id display_text index) out =
    set (codes "button_reply")
      (object (
        field (codes "id") (text id) (
          field (codes "display_text") (text display_text)
            (field (codes "index") (number index) empty))))
      out
extract_body (reaction emoji target_id) out =
    set (codes "reaction")
      (object
        (field (codes "emoji") (text emoji) (field (codes "target_id") (text target_id) empty)))
      out
extract_body (poll_creation name options) out =
    set (codes "poll")
      (object (
        field (codes "name") (text name) (
          field (codes "options") (texts options)
            (field (codes "action") (text (codes "creation")) empty))))
      out
extract_body (poll_update key sender_ts) out = poll_vote key sender_ts out
extract_body unsupported out = out

-- The case that the switch takes: the populated body of the lowest rank.
abbrev pub earlier : Body → Body → Body
earlier b c = if ltb (rank c) (rank b) then c else b

unfoldable pub switch_body : Bodies → Body
switch_body no_bodies = unsupported
switch_body (populated b ctx bs) = let c = switch_body bs in earlier b c

-- The bodies of findBodyContextInfo; it has no case for a conversation, nor for a live location.
abbrev pub has_context_case : Body → Bool
has_context_case (conversation s) = false
has_context_case (live_location a b c s m) = false
has_context_case unsupported = false
has_context_case _ = true

-- The cases of findBodyContextInfo that answer nil.
abbrev pub carries_context : Body → Bool
carries_context (reaction e t) = false
carries_context (poll_update k s) = false
carries_context b = has_context_case b

abbrev pub set_mentions : List Bytes → Object → Object
set_mentions [] out = out
set_mentions (m ∷ ms) out = set (codes "mentions") (texts (m ∷ ms)) out

-- The loop that copies the fields of the quoted message but for two.
unfoldable pub set_quoted : Object → Object → Object
set_quoted empty quoted = quoted
set_quoted (field k v o) quoted =
    set_quoted o (
      if str_eq k (codes "from_me") || str_eq k (codes "push_name") then quoted else set k v quoted)

-- `findBodyContextInfo` has found this, of the body of so low a rank.
pub record Found : Type 0 where
  pub body : Body
  pub extras : Object → Object

abbrev pub better : Body → (Object → Object) → Found → Found
better b extras f =
    if has_context_case b && not (ltb (rank f.body) (rank b))
    then record { body = b; extras = extras }
    else f

-- `extractMessageContent`, with `findBodyContextInfo` and `extractContextExtras`
unfoldable mutual
  pub extract_message_content : Message → Object
  extract_message_content (message bs) =
      (context_info bs).extras (extract_body (switch_body bs) empty)

  pub context_info : Bodies → Found
  context_info no_bodies = record { body = unsupported; extras = λ out. out }
  context_info (populated b ctx bs) =
      better b (λ out. if carries_context b then context_extras ctx out else out) (context_info bs)

  pub context_extras : Context → Object → Object
  context_extras no_context out = out
  context_extras (context mentioned stanza_id participant q) out =
      quoted_extras q stanza_id participant (set_mentions mentioned out)

  pub quoted_extras : Quotation → Bytes → Bytes → Object → Object
  quoted_extras no_quotation stanza_id participant out = out
  quoted_extras (quotation m) stanza_id participant out =
      set (codes "quoted")
        (object (
          set_quoted (extract_message_content m) (
            field (codes "id") (text stanza_id) (field (codes "sender") (text participant) empty))))
        out
