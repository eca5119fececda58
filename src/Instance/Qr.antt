-- ===== src/Instance/Qr.antt =====
-- `QRState` and `GetLatestQR` of internal/instance/qr.go. The channel `signal` holds one token at
-- most. What a waiting reader meets, and the client, are arguments.
pub mod Latest
use slimwhats.Base.{
  Bool, true, false, not, ◌&&◌, List, [], ◌∷◌, Option, none, some, Bytes, str_eq, if◌then◌else◌,
}
use slimwhats.Base.Result.{Result, ok, err}

pub record QrState : Type 0 where
  pub codes : List Bytes
  pub signal : Bool

abbrev pub new_qr_state : QrState
new_qr_state = record { codes = []; signal = false }

-- `Set`: a signal that is pending already is not doubled.
unfoldable pub set : List Bytes → QrState → QrState
set codes q = record { codes = codes; signal = true }

unfoldable pub same_code_set : List Bytes → List Bytes → Bool
same_code_set [] [] = true
same_code_set (c ∷ cs) (d ∷ ds) = str_eq c d && same_code_set cs ds
same_code_set _ _ = false

-- What ends the select of a reader that waits without a pending signal: a batch that is set, or the
-- end of its context.
pub data Wakeup : Type 0 where
  batch : List Bytes → Wakeup
  done : Wakeup

-- The select of `WaitForNew`. A token that is there is taken; if the context has ended as well, Go
-- may take either case, and `prefers_done` says which.
abbrev pub wait : Bool → Wakeup → List Bytes → Bool → QrState × Option (List Bytes)
wait true done codes true = (record { codes = codes; signal = true }, none)
wait prefers_done w codes true = (record { codes = codes; signal = false }, some codes)
wait prefers_done (batch new) codes false = (record { codes = new; signal = false }, some new)
wait prefers_done done codes false = (record { codes = codes; signal = false }, none)

-- `WaitForNew`; none is its `nil, false`.
unfoldable pub wait_for_new : Bool → Wakeup → List Bytes → QrState → QrState × Option (List Bytes)
wait_for_new prefers_done w prev q =
    if not (same_code_set q.codes prev)
    then (q, some q.codes)
    else wait prefers_done w q.codes q.signal

pub data QrError : Type 0 where
  already_paired context_done : QrError

abbrev pub batch_or_nil : Option (List Bytes) → List Bytes
batch_or_nil none = []
batch_or_nil (some codes) = codes

-- `"", ctx.Err()`: no error where the context has not ended.
abbrev pub no_code : Wakeup → Result QrError Bytes
no_code done = err context_done
no_code (batch codes) = ok []

-- The first code, of the batch or else of the latest snapshot.
abbrev pub first_code : Wakeup → List Bytes → List Bytes → Result QrError Bytes
first_code w (code ∷ codes) latest = ok code
first_code w [] (code ∷ codes) = ok code
first_code w [] [] = no_code w

-- `GetLatestQR`: the state, whether Connect is called, and the code.
unfoldable pub get_latest_qr :
    Bool → Bool → Bool → Wakeup → QrState → QrState × Bool × Result QrError Bytes
get_latest_qr logged_in connected prefers_done w q =
    if logged_in
    then (q, false, err already_paired)
    else (let (q', new) = wait_for_new prefers_done w [] q in
        (q', not connected, first_code w (batch_or_nil new) q'.codes))
