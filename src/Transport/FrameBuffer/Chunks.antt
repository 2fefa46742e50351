-- ===== src/Transport/FrameBuffer/Chunks.antt =====
-- How a stream is cut into chunks makes no difference to the frames that are taken out of it.
use mathlib.Core.Path.{subst}
use mathlib.Core.List.{append-nil, append_assoc}
use pibot.Prelude.{
  ℕ, zero, suc, ◌<◌, ◌≡◌, refl, sym, ap, ◌∙◌, false, Option, none, some, List, [], ◌∷◌, ◌++◌, arith,
  ◌==◌, if◌then◌else◌, length, All, Bool-cases, inl, inr,
}
use pibot.Python.Text.{contains}
use pibot.Python.Text.Laws.{Free}
use pibot.Python.Utf8.{Bytes}
use pibot.Transport.FrameBuffer.{before, next_frame, drain_in, drain, feed_all}

-- The joined chunks.
unfoldable pub joined : List Bytes → Bytes
joined [] = []
joined (chunk ∷ chunks) = chunk ++ joined chunks

-- A stream without its last line end, cut at the line ends.
abbrev pub cons_line : ℕ → List Bytes × Bytes → List Bytes × Bytes
cons_line c ([], rest) = ([], c ∷ rest)
cons_line c (line ∷ lines, rest) = ((c ∷ line) ∷ lines, rest)

unfoldable pub lines_of : Bytes → List Bytes × Bytes
lines_of [] = ([], [])
lines_of (c ∷ s) =
    let tail = lines_of s in
    if c == b'\n' then ((b'\n' ∷ []) ∷ tail.0, tail.1) else cons_line c tail

after : List Bytes → List Bytes × Bytes → List Bytes × Bytes
after lines (lines', rest) = (lines ++ lines', rest)

cons_line-after :
    (c : ℕ) (p : List Bytes × Bytes) (b : Bytes)
    → (c == b'\n') ≡ false
    → cons_line c (after p.0 (lines_of (p.1 ++ b)))
      ≡ after (cons_line c p).0 (lines_of ((cons_line c p).1 ++ b))
unfolding lines_of after
cons_line-after c ([], rest) b h = rw (h, lines_of) refl
cons_line-after c (line ∷ lines, rest) b h = refl

lines_of-append :
    (a b : Bytes) → lines_of (a ++ b) ≡ after (lines_of a).0 (lines_of ((lines_of a).1 ++ b))
unfolding lines_of after
lines_of-append [] b = refl
lines_of-append (c ∷ a) b = elim (Bool-cases (c == b'\n')) [
  | inl e ↦ rw (e, lines_of, lines_of-append a b) refl
  | inr e ↦ rw (e, lines_of, lines_of-append a b) (cons_line-after c (lines_of a) b e)
]

-- What `next_frame` found, told of the lines.
abbrev Found : Bytes → Option Bytes × Bytes → Type 0
Found buf (none, rest) = (lines_of buf ≡ ([], buf)) × (rest ≡ buf)
Found buf (some line, rest) =
    (lines_of buf ≡ after (line ∷ []) (lines_of rest)) × (length rest < length buf)

Found-before :
    (c : ℕ) (s : Bytes) (found : Option Bytes × Bytes)
    → (c == b'\n') ≡ false
    → Found s found
    → Found (c ∷ s) (before c (c ∷ s) found)
unfolding lines_of after
Found-before c s (none, rest) h (p, q) = (rw (h, lines_of, p) refl, refl)
Found-before c s (some line, rest) h (p, q) = (rw (h, lines_of, p) refl, omega (arith, q))

Found-next_frame : (buf : Bytes) → Found buf (next_frame buf)
unfolding next_frame lines_of after
Found-next_frame [] = (refl, refl)
Found-next_frame (c ∷ s) = elim (Bool-cases (c == b'\n')) [
  | inl e ↦ rw (e, next_frame) (rw (e, lines_of) refl, omega arith)
  | inr e ↦ rw (e, next_frame) (Found-before c s (next_frame s) e (Found-next_frame s))
]

-- A round of the loop, when the rounds after it cut what is left at the line ends.
drain_round :
    (n : ℕ) (buf : Bytes) (p : Option Bytes × Bytes)
    → Found buf p
    → length buf < suc n
    → ((rest : Bytes) → length rest < n → drain_in n rest ≡ lines_of rest)
    → (elim p.0 [ none ↦ ([], p.1) | some line ↦ (line ∷ (drain_in n p.1).0, (drain_in n p.1).1) ])
      ≡ lines_of buf
unfolding after
drain_round n buf (none, rest) (p, q) h ih = sym (p ∙ ap (λ b. ([], b)) (sym q))
drain_round n buf (some line, rest) (p, q) h ih =
    ap (λ t. (line ∷ t.0, t.1)) (ih rest (omega (arith, h, q))) ∙ sym p

drain_in-lines : (n : ℕ) (buf : Bytes) → length buf < n → drain_in n buf ≡ lines_of buf
unfolding drain_in
drain_in-lines zero buf h = absurd (omega (arith, h))
drain_in-lines (suc n) buf h =
    drain_round n buf (next_frame buf) (Found-next_frame buf) h (λ rest k. drain_in-lines n rest k)

-- The loop ends by itself, with all lines taken out.
pub drain-lines : (buf : Bytes) → drain buf ≡ lines_of buf
unfolding drain
drain-lines buf = drain_in-lines (suc (length buf)) buf (omega arith)

rest_of_line :
    (c : ℕ) (p : List Bytes × Bytes)
    → (c == b'\n') ≡ false
    → lines_of p.1 ≡ ([], p.1)
    → lines_of (cons_line c p).1 ≡ ([], (cons_line c p).1)
unfolding lines_of
rest_of_line c ([], rest) e h = rw (e, lines_of, h) refl
rest_of_line c (line ∷ lines, rest) e h = h

-- What is left in the buffer holds no line end.
rest_of_lines : (buf : Bytes) → lines_of (lines_of buf).1 ≡ ([], (lines_of buf).1)
unfolding lines_of
rest_of_lines [] = refl
rest_of_lines (c ∷ s) = elim (Bool-cases (c == b'\n')) [
  | inl e ↦ rw (e, lines_of) (rest_of_lines s)
  | inr e ↦ rw (e, lines_of) (rest_of_line c (lines_of s) e (rest_of_lines s))
]

rest_of_drain : (buf : Bytes) → drain (drain buf).1 ≡ ([], (drain buf).1)
rest_of_drain buf =
    drain-lines (drain buf).1
    ∙ subst (λ p. lines_of p.1 ≡ ([], p.1)) (sym (drain-lines buf)) (rest_of_lines buf)

drain-append : (a b : Bytes) → drain (a ++ b) ≡ after (drain a).0 (drain ((drain a).1 ++ b))
drain-append a b =
    drain-lines (a ++ b)
    ∙ lines_of-append a b
    ∙ ap (after (lines_of a).0) (sym (drain-lines ((lines_of a).1 ++ b)))
    ∙ ap (λ p. after p.0 (drain (p.1 ++ b))) (sym (drain-lines a))

-- However a stream is cut into chunks, feeding them one by one and taking out all frames after
-- each gives the frames, and leaves the bytes in the buffer, that the whole stream at once does.
pub feed_all-joined :
    (chunks : List Bytes) (buf : Bytes)
    → (drain buf ≡ ([], buf))
    → feed_all chunks buf ≡ drain (buf ++ joined chunks)
unfolding feed_all joined after
feed_all-joined [] buf h = sym (ap drain (append-nil buf) ∙ h)
feed_all-joined (chunk ∷ chunks) buf h =
    ap (after (drain (buf ++ chunk)).0)
      (feed_all-joined chunks (drain (buf ++ chunk)).1 (rest_of_drain (buf ++ chunk)))
    ∙ sym (drain-append (buf ++ chunk) (joined chunks))
    ∙ ap drain (append_assoc buf chunk (joined chunks))

-- A frame: bytes with a line end at their end and nowhere else.
abbrev pub IsLine : Bytes → Type 0
IsLine frame = (body : Bytes) × (frame ≡ body ++ b'\n' ∷ []) × Free b'\n' body

lines_of-line :
    (body s : Bytes)
    → Free b'\n' body
    → lines_of (body ++ b'\n' ∷ s) ≡ after ((body ++ b'\n' ∷ []) ∷ []) (lines_of s)
unfolding lines_of after contains
lines_of-line [] s h = refl
lines_of-line (c ∷ body) s h =
    let e : (c == b'\n') ≡ false = ground (arith, h) in
    rw (e, lines_of, lines_of-line body s (ground (arith, h))) refl

lines_of-joined :
    (frames : List Bytes) → All IsLine frames → lines_of (joined frames) ≡ (frames, [])
unfolding joined lines_of after
lines_of-joined [] h = refl
lines_of-joined (frame ∷ frames) ((body, e, free), h) =
    rw
      (
        e,
        append_assoc body (b'\n' ∷ []) (joined frames),
        lines_of-line body (joined frames) free,
        lines_of-joined frames h,
      )
      refl

-- Frames that were sent one after the other come out whole and in order, with nothing left over,
-- whatever the chunks that their bytes arrive in.
pub frames_recovered :
    (frames chunks : List Bytes)
    → All IsLine frames
    → joined chunks ≡ joined frames
    → feed_all chunks [] ≡ (frames, [])
unfolding lines_of
frames_recovered frames chunks h e =
    feed_all-joined chunks [] (drain-lines [])
    ∙ ap drain e
    ∙ drain-lines (joined frames)
    ∙ lines_of-joined frames h
