-- ===== src/Send/Text.antt =====
-- internal/send/text.go: `SendText` with its typing simulation, its context info and its three
-- attempts. What it does to the client is kept as a list of effects; the client's answers are
-- arguments. The server ID and the timestamp of the response are left out.
pub mod Sent
use slimwhats.Base.{
  ℕ, zero, suc, ◌+◌, Bool, true, false, not, ◌&&◌, ◌||◌, List, [], ◌∷◌, ◌++◌, Option, none, some,
  Bytes, codes, ltb, ◌==◌, str_eq, is_empty, contains, length, if◌then◌else◌,
}
use slimwhats.Base.Int.{ℤ, pos, negsuc}
use slimwhats.Base.Result.{Result, ok, err}
use slimwhats.Send.Recipient.{Whatsmeow, RecipInput, ResolveError, OnWhatsApp, resolve}

pub record QuotedMessage : Type 0 where
  pub message_id : Bytes
  pub participant : Bytes

pub record TextRequest : Type 0 where
  pub to : Bytes
  pub body : Bytes
  pub id : Bytes
  pub delay : ℤ
  pub mentions : List Bytes
  pub mention_all : Bool
  pub quoted : Option QuotedMessage
  pub format_jid : Option Bool
  pub disable_wa : Bool

pub record ContextInfo : Type 0 where
  pub quoted : Option QuotedMessage
  pub mentioned_jid : List Bytes

pub record TextMessage : Type 0 where
  pub text : Bytes
  pub context_info : Option ContextInfo

pub record SendResponse : Type 0 where
  pub id : Bytes
  pub chat : Bytes
  pub is_group : Bool

pub data SendError : Type 0 where
  body_required body_too_long delay_out_of_range : SendError
  not_resolved : ResolveError → SendError
  send_failed send_failed_thrice : Bytes → SendError

abbrev pub is_group_server : Bytes → Bool
is_group_server server = str_eq server (codes "g.us")

-- `participants` is the answer of GetGroupInfo, as texts.
abbrev pub with_participants : Bool → Result Bytes (List Bytes) → List Bytes → List Bytes
with_participants false participants mentions = mentions
with_participants true (err e) mentions = mentions
with_participants true (ok jids) mentions = mentions ++ jids

abbrev pub any_mention : List Bytes → Bool
any_mention [] = false
any_mention (m ∷ ms) = true

-- The end of `buildContextInfo`, with `hasAny`.
abbrev pub context_of : Option QuotedMessage → Bool → List Bytes → Option ContextInfo
context_of (some q) true mentions = some (record { quoted = some q; mentioned_jid = mentions })
context_of (some q) false mentions = some (record { quoted = some q; mentioned_jid = [] })
context_of none true mentions = some (record { quoted = none; mentioned_jid = mentions })
context_of none false mentions = none

unfoldable pub build_context_info :
    Option QuotedMessage
    → List Bytes
    → Bool
    → Bytes
    → Result Bytes (List Bytes)
    → Option ContextInfo
build_context_info q mentions mention_all server participants =
    let all = with_participants (mention_all && is_group_server server) participants mentions in
    context_of q (any_mention all && is_group_server server) all

-- The errors that are worth another attempt.
unfoldable pub is_transient : Bytes → Bool
is_transient e = contains e (codes "client disconnected") || contains e (codes "no active session")

-- The loop from the n-th attempt on, whose sleeps of one and two seconds are not kept; `answer` gives the answers of SendMessage. The fuel runs out
-- only behind the last attempt.
unfoldable pub send_attempts : (ℕ → Result Bytes Unit) → ℕ → ℕ → ℕ × Result SendError Unit
send_attempts answer zero n = (0, ok tt)
send_attempts answer (suc fuel) n =
    let (sent, rest) = send_attempts answer fuel (suc n) in
    elim (answer n) [
      | ok t ↦ (1, ok t)
      | err e ↦
          if not (is_transient e)
          then (1, err (send_failed e))
          else if n == 3
          then (1, err (send_failed_thrice e))
          else (suc sent, rest)
    ]

module _ (w : Whatsmeow) where
  open w use {Jid, server, to_string}

  -- `paused` and `composing` are SendChatPresence.
  pub data Effect : Type 0 where
    composing : Jid → Effect
    sleeps : ℕ → Effect
    paused : Jid → Effect
    sends : Jid → TextMessage → Bytes → Effect

  pub record Client : Type 0 where
    pub on_whatsapp : OnWhatsApp w
    pub group_info : Jid → Result Bytes (List Bytes)
    pub message_id : Bytes
    pub answer : ℕ → Result Bytes Unit

  -- A delay of zero, or one that SendText refuses before, types nothing.
  abbrev pub typing : Jid → ℤ → List Effect
  typing jid (pos (suc n)) = composing jid ∷ sleeps (suc n) ∷ paused jid ∷ []
  typing jid _ = []

  abbrev pub times : ℕ → Effect → List Effect
  times zero e = []
  times (suc n) e = e ∷ times n e

  abbrev pub message_id_of : Bytes → Bytes → Bytes
  message_id_of [] generated = generated
  message_id_of (c ∷ id) generated = c ∷ id

  abbrev pub text_message : Client → TextRequest → Jid → TextMessage
  text_message c req jid = record {
    text = req.body;
    context_info =
        build_context_info req.quoted req.mentions req.mention_all (server jid) (c.group_info jid);
  }

  abbrev pub response_of :
      Client → TextRequest → Jid → Result SendError Unit → Result SendError SendResponse
  response_of c req jid (err e) = err e
  response_of c req jid (ok t) = ok (record {
    id = message_id_of req.id c.message_id;
    chat = to_string jid;
    is_group = is_group_server (server jid);
  })

  -- Behind the resolution of the recipient.
  abbrev pub send_to :
      Client → TextRequest → Result ResolveError Jid → List Effect × Result SendError SendResponse
  send_to c req (err e) = ([], err (not_resolved e))
  send_to c req (ok jid) =
      let (sent, result) = send_attempts c.answer 3 1 in
      (
        typing jid req.delay
            ++ times sent (sends jid (text_message c req jid) (message_id_of req.id c.message_id)),
        response_of c req jid result,
      )

  abbrev pub delay_in_range : ℤ → Bool
  delay_in_range (pos n) = not (ltb 30000 n)
  delay_in_range (negsuc n) = false

  unfoldable pub send_text : Client → TextRequest → List Effect × Result SendError SendResponse
  send_text c req =
      if is_empty req.body
      then ([], err body_required)
      else if ltb 65536 (length req.body)
      then ([], err body_too_long)
      else if not (delay_in_range req.delay)
      then ([], err delay_out_of_range)
      else send_to c req (
          resolve w c.on_whatsapp
            (record { number = req.to; format_jid = req.format_jid; disable_wa = req.disable_wa }))
