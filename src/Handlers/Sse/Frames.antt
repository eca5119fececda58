-- ===== src/Handlers/Sse/Frames.antt =====
-- The messages of a stream can be told apart.
use slimwhats.Base.{
  ℕ, ◌≡◌, ◌≢◌, refl, ap, ◌∙◌, Bool, false, ◌&&◌, [], ◌∷◌, ◌++◌, append_assoc, Option, none, some,
  Bytes, codes, All, arith, ◌==◌, if◌then◌else◌,
}
use slimwhats.Base.Result.{ok}
use slimwhats.Handlers.Sse.{format_sse}

abbrev pub starts_with_lf : Bytes → Bool
starts_with_lf [] = false
starts_with_lf (c ∷ s) = c == 10

abbrev pub after_first : Bytes → Bytes
after_first [] = []
after_first (c ∷ s) = s

abbrev pub put_before : ℕ → Option (Bytes × Bytes) → Option (Bytes × Bytes)
put_before c none = none
put_before c (some (frame, rest)) = some (c ∷ frame, rest)

-- What a reader of the stream takes for the first message: the text before the first empty line.
unfoldable pub next_frame : Bytes → Option (Bytes × Bytes)
next_frame [] = none
next_frame (c ∷ s) =
    let later = next_frame s in
    if c == 10 && starts_with_lf s then some ([], after_first s) else put_before c later

abbrev pub HasNoLf : Bytes → Type 0
HasNoLf = All (λ c. c ≢ 10)

not_lf : (c : ℕ) → c ≢ 10 → (c == 10) ≡ false
not_lf c n = ground (arith, n)

next_frame-cons :
    (c : ℕ) (s : Bytes)
    → (c == 10 && starts_with_lf s) ≡ false
    → next_frame (c ∷ s) ≡ put_before c (next_frame s)
unfolding next_frame
next_frame-cons c s h = ground (arith, h)

next_frame-line :
    (xs rest : Bytes) → HasNoLf xs → next_frame (xs ++ 10 ∷ 10 ∷ rest) ≡ some (xs, rest)
unfolding next_frame
next_frame-line [] rest a = refl
next_frame-line (c ∷ xs) rest (n, a) =
    next_frame-cons c (xs ++ 10 ∷ 10 ∷ rest) (rw (not_lf c n) refl)
    ∙ ap (put_before c) (next_frame-line xs rest a)

-- A line that another one follows, which does not begin with a line feed.
next_frame-lines :
    (xs : Bytes) (d : ℕ) (ys frame rest : Bytes)
    → HasNoLf xs
    → d ≢ 10
    → next_frame (d ∷ ys) ≡ some (frame, rest)
    → next_frame (xs ++ 10 ∷ d ∷ ys) ≡ some (xs ++ 10 ∷ frame, rest)
next_frame-lines [] d ys frame rest a n h =
    next_frame-cons 10 (d ∷ ys) (not_lf d n) ∙ ap (put_before 10) h
next_frame-lines (c ∷ xs) d ys frame rest (m, a) n h =
    next_frame-cons c (xs ++ 10 ∷ d ∷ ys) (rw (not_lf c m) refl)
    ∙ ap (put_before c) (next_frame-lines xs d ys frame rest a n h)

pub literal : (c : ℕ) → (c == 10) ≡ false → c ≢ 10
literal c h = ground (arith, h)

-- A message in the stream, or the comment of the heartbeat, is read as one message, whatever follows it:
-- its two lines, or the comment, with the rest of the stream behind. The event's name and the encoded
-- data have no line feed, which an encoder of JSON escapes.
pub format_sse-next_frame :
    (event payload rest : Bytes)
    → HasNoLf event
    → HasNoLf payload
    → (next_frame (format_sse event (some (ok payload)) ++ rest)
        ≡ some ((codes "event: " ++ event) ++ (10 ∷ (codes "data: " ++ payload)), rest))
      × (next_frame (format_sse event none ++ rest) ≡ some (codes ":" ++ event, rest))
unfolding format_sse
format_sse-next_frame event payload rest a b = (
  ap (λ t. next_frame (codes "event: " ++ t))
        (append_assoc event (10 ∷ (codes "data: " ++ (payload ++ (10 ∷ 10 ∷ [])))) rest
          ∙ ap (λ t. event ++ (10 ∷ (codes "data: " ++ t)))
              (append_assoc payload (10 ∷ 10 ∷ []) rest))
      ∙ next_frame-lines (codes "event: " ++ event) 100
          (codes "ata: " ++ (payload ++ (10 ∷ 10 ∷ rest))) (codes "data: " ++ payload) rest
          (name_line a) (literal 100 refl)
          (next_frame-line (codes "data: " ++ payload) rest (data_line b)),
  ap (λ t. next_frame (codes ":" ++ t)) (append_assoc event (10 ∷ 10 ∷ []) rest)
      ∙ next_frame-line (codes ":" ++ event) rest ((literal 58 refl, a)),
)
  where
    name_line : HasNoLf event → HasNoLf (codes "event: " ++ event)
    name_line h = (
      literal 101 refl,
      (
        literal 118 refl,
        (
          literal 101 refl,
          (literal 110 refl, (literal 116 refl, (literal 58 refl, (literal 32 refl, h)))),
        ),
      ),
    )

    data_line : HasNoLf payload → HasNoLf (codes "data: " ++ payload)
    data_line h = (
      literal 100 refl,
      (
        literal 97 refl,
        (literal 116 refl, (literal 97 refl, (literal 58 refl, (literal 32 refl, h)))),
      ),
    )
