-- ===== src/Send/Recipient.antt =====
-- internal/send/recipient.go: from the number of a request to a JID. Go strings are lists of
-- bytes. JIDs, their parser and the query IsOnWhatsApp belong to whatsmeow and are parameters.
pub mod Country
pub mod Shape
pub mod Lookup
use slimwhats.Base.{
  ℕ, ◌+◌, ◌-◌, ◌*◌, Bool, true, false, not, ◌&&◌, ◌||◌, List, [], ◌∷◌, ◌++◌, Option, none, some,
  Bytes, codes, ltb, leb, ◌==◌, str_eq, is_empty, has_prefix, contains, remove_byte, before_byte,
  length, take, drop, filter, if◌then◌else◌,
}
use slimwhats.Base.Result.{Result, ok, err}

abbrev pub is_digit : ℕ → Bool
is_digit c = leb b'0' c && leb c b'9'

-- `digitsOnlyRe.ReplaceAllString(s, "")`
abbrev pub digits_only : Bytes → Bytes
digits_only = filter is_digit

unfoldable pub strip_non_digits_dashes : Bytes → Bytes
strip_non_digits_dashes = filter (λ c. is_digit c || c == b'-')

-- The loop of `atoiSafe`, and its test on the empty text.
unfoldable pub atoi_from : ℕ → Bytes → Option ℕ
atoi_from n [] = some n
atoi_from n (c ∷ s) =
    let rest = atoi_from (n * 10 + (c - b'0')) s in if ltb c b'0' || ltb b'9' c then none else rest

unfoldable pub atoi_safe : Bytes → Option ℕ
unfolding atoi_from
atoi_safe [] = none
atoi_safe (c ∷ s) = atoi_from 0 (c ∷ s)

-- `n, _ := atoiSafe(s)`
abbrev pub or_zero : Option ℕ → ℕ
or_zero none = 0
or_zero (some n) = n

-- `jid[2:4]` and the like: the bytes from `lo` up to `hi`
abbrev pub slice : ℕ → ℕ → Bytes → Bytes
slice lo hi s = take (hi - lo) (drop lo s)

unfoldable pub format_br_number : Bytes → Bytes
format_br_number jid =
    if not (length jid == 13) || not (has_prefix jid (codes "55"))
    then jid
    else (let ddd = or_zero (atoi_safe (slice 2 4 jid)) in
        let first = or_zero (atoi_safe (slice 4 5 jid)) in
        if leb 31 ddd && leb 7 first then take 4 jid ++ drop 5 jid else jid)

unfoldable pub format_mx_or_ar_number : Bytes → Bytes
format_mx_or_ar_number jid =
    if length jid == 13
    then (if has_prefix jid (codes "52")
        then codes "52" ++ drop 4 jid
        else if has_prefix jid (codes "54")
        then codes "54" ++ drop 3 jid
        else jid)
    else jid

-- The suffixes of the first loop of `CreateJID`.
abbrev pub has_server : Bytes → Bool
has_server s =
    contains s (codes "@g.us")
    || contains s (codes "@s.whatsapp.net")
    || contains s (codes "@lid")
    || contains s (codes "@broadcast")
    || contains s (codes "@newsletter")

unfoldable pub cleaned : Bytes → Bytes
cleaned s =
    before_byte b':' (remove_byte b')' (remove_byte b'(' (remove_byte b'+' (remove_byte b' ' s))))

abbrev pub group_jid : Bytes → Bytes
group_jid s = strip_non_digits_dashes s ++ codes "@g.us"

-- The end of `CreateJID`, on digits.
abbrev pub with_plus : Bytes → Bytes
with_plus d = if has_prefix d (codes "+") then d else codes "+" ++ d

abbrev pub country_rules : Bytes → Bytes
country_rules d = format_br_number (format_mx_or_ar_number d)

unfoldable pub phone_jid : Bytes → Bytes
phone_jid digits =
    if is_empty digits then [] else with_plus (country_rules digits) ++ codes "@s.whatsapp.net"

-- Behind the pass-through of inputs that have a server.
abbrev pub jid_of_cleaned : Bytes → Bytes
jid_of_cleaned s =
    if contains s (codes "-") && leb 24 (length s)
    then group_jid s
    else if leb 18 (length s)
    then group_jid s
    else phone_jid (digits_only s)

unfoldable pub create_jid : Bytes → Bytes
create_jid input =
    if is_empty input
    then []
    else if has_server input
    then input
    else jid_of_cleaned (cleaned input)

abbrev pub normalize_phone : Bytes → Bytes
normalize_phone = create_jid

abbrev pub is_bypass_server : Bytes → Bool
is_bypass_server s =
    contains s (codes "@g.us")
    || contains s (codes "@broadcast")
    || contains s (codes "@newsletter")
    || contains s (codes "@lid")

-- What the code takes from whatsmeow. `parse_jid` gives a JID beside an error too, as Go does. The
-- answer of IsOnWhatsApp is an error, or a list of entries, an `IsIn` and a JID each.
pub record Whatsmeow : Type 1 where
  pub Jid : Type 0
  pub user : Jid → Bytes
  pub set_user : Bytes → Jid → Jid
  pub server : Jid → Bytes
  pub to_string : Jid → Bytes
  pub parse_jid : Bytes → Jid × Bool

pub record RecipInput : Type 0 where
  pub number : Bytes
  pub format_jid : Option Bool
  pub disable_wa : Bool

pub data ResolveError : Type 0 where
  number_empty parse_wa_jid not_registered : ResolveError

module _ (w : Whatsmeow) where
  open w use {Jid, user, set_user, to_string, parse_jid}

  -- The answers to the calls of IsOnWhatsApp, by the number of the attempt and the number asked for.
  abbrev pub OnWhatsApp : Type 0
  OnWhatsApp = ℕ → Bytes → Result Bytes (List (Bool × Jid))

  -- `formatJID` decides nothing.
  unfoldable pub normalize_jid : Bytes → Option Bool → Jid
  normalize_jid s format_jid =
      let raw = if contains s (codes "@s.whatsapp.net") then before_byte b'@' s else s in
      let (jid, failed) = parse_jid (create_jid raw) in
      let parsed = if failed then (parse_jid s).0 else jid in
      set_user (remove_byte b'+' (user parsed)) parsed

  -- The text of the first entry, if it is on WhatsApp; none stands for `"", false` and for an error,
  -- which the callers treat alike.
  abbrev pub call_is_on_wa : Result Bytes (List (Bool × Jid)) → Option Bytes
  call_is_on_wa (err e) = none
  call_is_on_wa (ok []) = none
  call_is_on_wa (ok ((is_in, jid) ∷ rest)) = if is_in then some (to_string jid) else none

  abbrev pub or_empty : Option Bytes → Bytes
  or_empty none = []
  or_empty (some jid) = jid

  -- The second attempt, where the first has not found the number. No path gives an error.
  unfoldable pub lookup_on_wa : OnWhatsApp → Bytes → Bytes
  lookup_on_wa ask raw =
      let second =
        if str_eq (normalize_phone raw) raw
        then []
        else or_empty (call_is_on_wa (ask 2 (normalize_phone raw))) in
      elim (call_is_on_wa (ask 1 raw)) [ some jid ↦ jid | none ↦ second ]

  -- Behind the lookup, on the JID that it gave.
  abbrev pub trusted : Jid × Bool → Result ResolveError Jid
  trusted (jid, failed) = if failed then err parse_wa_jid else ok jid

  unfoldable pub resolve : OnWhatsApp → RecipInput → Result ResolveError Jid
  resolve ask input =
      if is_empty input.number
      then err number_empty
      else if input.disable_wa || is_bypass_server input.number
      then ok (normalize_jid input.number input.format_jid)
      else if is_empty (lookup_on_wa ask input.number)
      then err not_registered
      else trusted (parse_jid (lookup_on_wa ask input.number))
