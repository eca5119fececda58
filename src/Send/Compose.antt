-- ===== src/Send/Compose.antt =====
-- `SendButtons` of internal/send/buttons.go: the validation, the recipient, the typing, the message
-- and the three attempts. The request has the recipient's options besides; no other shared option is read.
pub mod Checked
use slimwhats.Base.{
  ℕ, zero, suc, Bool, true, false, List, [], ◌∷◌, ◌++◌, Option, none, some, Bytes, codes, str_eq,
  if◌then◌else◌,
}
use slimwhats.Base.Int.{ℤ, pos, negsuc}
use slimwhats.Base.Result.{Result, ok, err}
use slimwhats.Send.Recipient.{Whatsmeow, OnWhatsApp, RecipInput, ResolveError, resolve}
use slimwhats.Send.Buttons.{ButtonRequest, ButtonsRequest, ButtonError, validate_buttons}
use slimwhats.Send.Buttons.Build.{
  Sources, Message, Node, BuildError, build_buttons_message, first_type,
}
use slimwhats.Send.Text.{SendError, send_attempts, is_group_server}

pub data ButtonsFailure : Type 0 where
  no_buttons no_secret : ButtonsFailure
  not_valid : ButtonError → ButtonsFailure
  unresolved : ResolveError → ButtonsFailure
  not_built : BuildError → ButtonsFailure
  not_sent : SendError → ButtonsFailure

pub record ButtonsResponse : Type 0 where
  pub id : Bytes
  pub chat : Bytes
  pub is_group : Bool
  pub message_type : Bytes

-- `buttonsResponseType`
abbrev pub buttons_response_type : Bytes → Bytes
buttons_response_type first =
    if str_eq first (codes "reply") then codes "ButtonsMessage" else codes "InteractiveMessage"

abbrev pub id_or_generated : Bytes → Bytes → Bytes
id_or_generated [] generated = generated
id_or_generated (c ∷ id) generated = c ∷ id

module _ (w : Whatsmeow) where
  open w use {Jid, server, to_string}

  -- What is done to the client.
  pub data Effect : Type 0 where
    composing : Jid → Effect
    sleeps : ℕ → Effect
    paused : Jid → Effect
    sends : Jid → Message → List Node → Bytes → Effect

  pub record Client : Type 0 where
    pub on_whatsapp : OnWhatsApp w
    pub secret : Option Bytes
    pub sources : Sources
    pub message_id : Bytes
    pub answer : ℕ → Result Bytes Unit

  pub record Options : Type 0 where
    pub id : Bytes
    pub delay : ℤ
    pub format_jid : Option Bool
    pub disable_wa : Bool

  -- `if req.Delay > 0`: there is no upper bound here.
  abbrev pub typing : Jid → ℤ → List Effect
  typing jid (pos (suc n)) = composing jid ∷ sleeps (suc n) ∷ paused jid ∷ []
  typing jid _ = []

  abbrev pub repeated : ℕ → Effect → List Effect
  repeated zero e = []
  repeated (suc n) e = e ∷ repeated n e

  abbrev pub response :
      Jid → Options → Client → Bytes → Result SendError Unit → Result ButtonsFailure ButtonsResponse
  response jid o c first (err e) = err (not_sent e)
  response jid o c first (ok t) = ok (record {
    id = id_or_generated o.id c.message_id;
    chat = to_string jid;
    is_group = is_group_server (server jid);
    message_type = buttons_response_type first;
  })

  abbrev pub send_built :
      Client
      → Options
      → ButtonsRequest
      → Jid
      → Result BuildError (Message × List Node)
      → List Effect × Result ButtonsFailure ButtonsResponse
  send_built c o req jid (err e) = (typing jid o.delay, err (not_built e))
  send_built c o req jid (ok (msg, nodes)) =
      let (sent, result) = send_attempts c.answer 3 1 in
      (
        typing jid o.delay
            ++ repeated sent (sends jid msg nodes (id_or_generated o.id c.message_id)),
        response jid o c (first_type req.buttons) result,
      )

  abbrev pub with_secret :
      Client
      → Options
      → ButtonsRequest
      → Jid
      → Option Bytes
      → List Effect × Result ButtonsFailure ButtonsResponse
  with_secret c o req jid none = (typing jid o.delay, err no_secret)
  with_secret c o req jid (some secret) =
      send_built c o req jid (build_buttons_message c.sources req (server jid) secret)

  abbrev pub to_recipient :
      Client
      → Options
      → ButtonsRequest
      → Result ResolveError Jid
      → List Effect × Result ButtonsFailure ButtonsResponse
  to_recipient c o req (err e) = ([], err (unresolved e))
  to_recipient c o req (ok jid) = with_secret c o req jid c.secret

  abbrev pub validated :
      Client
      → Options
      → ButtonsRequest
      → Option ButtonError
      → List Effect × Result ButtonsFailure ButtonsResponse
  validated c o req (some e) = ([], err (not_valid e))
  validated c o req none = to_recipient c o req (
      resolve w c.on_whatsapp
        (record { number = req.to; format_jid = o.format_jid; disable_wa = o.disable_wa }))

  abbrev pub any_button : List ButtonRequest → Bool
  any_button [] = false
  any_button (b ∷ bs) = true

  unfoldable pub send_buttons :
      Client → Options → ButtonsRequest → List Effect × Result ButtonsFailure ButtonsResponse
  send_buttons c o req =
      if any_button req.buttons
      then validated c o req (validate_buttons req)
      else ([], err no_buttons)
