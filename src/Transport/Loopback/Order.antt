-- ===== src/Transport/Loopback/Order.antt =====
-- The loopback transport is a queue of frames.
use mathlib.Core.Path.{subst}
use mathlib.Core.List.{append-nil, append_assoc}
use pibot.Prelude.{
  ◌≡◌, refl, sym, ap, ◌∙◌, Bool, true, false, none, some, List, [], ◌∷◌, ◌++◌, arith, ◌==◌,
}
use pibot.Python.Text.{contains}
use pibot.Python.Text.Laws.{Free}
use pibot.Python.Utf8.{Bytes}
use pibot.Python.Result.{ok}
use pibot.Transport.FrameBuffer.{next_frame}
use pibot.Transport.FrameBuffer.Chunks.{joined, IsLine}
use pibot.Transport.Loopback.{LoopbackTransport, send_loopback, look_again, recv_loopback}

joined-append : (xs ys : List Bytes) → joined (xs ++ ys) ≡ joined xs ++ joined ys
unfolding joined
joined-append [] ys = refl
joined-append (x ∷ xs) ys =
    ap (λ t. x ++ t) (joined-append xs ys) ∙ sym (append_assoc x (joined xs) (joined ys))

next_frame-line :
    (body s : Bytes)
    → Free b'\n' body
    → next_frame (body ++ b'\n' ∷ s) ≡ (some (body ++ b'\n' ∷ []), s)
unfolding next_frame contains
next_frame-line [] s h = refl
next_frame-line (c ∷ body) s h =
    let e : (c == b'\n') ≡ false = ground (arith, h) in
    rw (e, next_frame, next_frame-line body s (ground (arith, h))) refl

-- The open transport that holds these frames, and nothing else.
abbrev pub queue : List Bytes → LoopbackTransport
queue frames = record { is_open = true; buf = joined frames }

-- On an open transport that holds whole frames, `send` puts a frame at the end, and `recv` takes
-- the first one out, or returns None and changes nothing if there is none, whatever the timeout.
pub loopback_queue :
    (frames : List Bytes) (frame : Bytes) (timed : Bool)
    → IsLine frame
    → (send_loopback frame (queue frames) ≡ ok (queue (frames ++ frame ∷ [])))
      × (recv_loopback timed (queue (frame ∷ frames)) ≡ ok (some frame, queue frames))
      × (recv_loopback timed (queue []) ≡ ok (none, queue []))
unfolding joined send_loopback recv_loopback look_again next_frame
loopback_queue frames frame timed (body, e, free) =
    let sent : joined (frames ++ frame ∷ []) ≡ joined frames ++ frame =
      joined-append frames (frame ∷ []) ∙ ap (λ t. joined frames ++ t) (append-nil frame) in
    let taken : next_frame (frame ++ joined frames) ≡ (some frame, joined frames) =
      subst (λ f. next_frame (f ++ joined frames) ≡ (some f, joined frames)) (sym e)
        (ap next_frame (append_assoc body (b'\n' ∷ []) (joined frames))
          ∙ next_frame-line body (joined frames) free) in
    (
      ap (λ b. ok (record { is_open = true; buf = b })) (sym sent),
      ap
          (λ p.
            let (found, rest) = look_again timed p in
            ok (found, record { is_open = true; buf = rest }))
          taken,
      elim timed as (λ t. recv_loopback t (queue []) ≡ ok (none, queue [])) [
        | true ↦ refl
        | false ↦ refl
      ],
    )
