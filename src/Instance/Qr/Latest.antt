-- ===== src/Instance/Qr/Latest.antt =====
-- Which code a reader gets.
use slimwhats.Base.{◌≡◌, Bool, true, false, not, List, [], ◌∷◌, Bytes, arith}
use slimwhats.Base.Result.{ok, err}
use slimwhats.Instance.Qr.{
  same_code_set, Wakeup, batch, done, wait_for_new, context_done, get_latest_qr,
}

-- For a client that is not paired: a code that was set before is given at once, the first of the
-- latest batch; without one, the reader gets the first code of the batch that it waits for; and where
-- the context ends first, the context's error. Only a client that is not connected is connected.
pub get_latest_qr_lem :
    (connected prefers_done : Bool) (w : Wakeup) (c : Bytes) (cs : List Bytes) (signal : Bool)
    → ((get_latest_qr false connected prefers_done w (record { codes = c ∷ cs; signal = signal })).1
        ≡ not connected)
      × ((get_latest_qr false connected prefers_done w
            (record { codes = c ∷ cs; signal = signal })).2
          ≡ ok c)
      × ((get_latest_qr false connected prefers_done
            (batch (c ∷ cs))
            (record { codes = []; signal = false })).2
          ≡ ok c)
      × ((get_latest_qr false connected prefers_done done (record { codes = []; signal = false })).2
          ≡ err context_done)
unfolding get_latest_qr wait_for_new same_code_set
get_latest_qr_lem connected true w c cs signal = ground arith
get_latest_qr_lem connected false w c cs signal = ground arith
