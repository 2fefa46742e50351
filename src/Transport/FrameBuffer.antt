-- ===== src/Transport/FrameBuffer.antt =====
-- `class FrameBuffer` of pibot/transport/base.py, as the bytes it holds, and the loop that takes
-- all frames out of it.
pub mod Chunks
use pibot.Prelude.{
  ℕ, zero, suc, Option, none, some, List, [], ◌∷◌, ◌++◌, ◌==◌, if◌then◌else◌, length,
}
use pibot.Python.Utf8.{Bytes}

-- `feed`
abbrev pub feed : Bytes → Bytes → Bytes
feed data' buf = buf ++ data'

-- A byte before what `next_frame` does with the rest.
abbrev pub before : ℕ → Bytes → Option Bytes × Bytes → Option Bytes × Bytes
before c buf (none, rest) = (none, buf)
before c buf (some line, rest) = (some (c ∷ line), rest)

-- `next_frame`, and the buffer after it
unfoldable pub next_frame : Bytes → Option Bytes × Bytes
next_frame [] = (none, [])
next_frame (c ∷ s) =
    let tail = next_frame s in if c == b'\n' then (some (b'\n' ∷ []), s) else before c (c ∷ s) tail

-- The frames that come out up to the first None, in n rounds at most, and the buffer after them.
unfoldable pub drain_in : ℕ → Bytes → List Bytes × Bytes
unfolding next_frame
drain_in zero buf = ([], buf)
drain_in (suc n) buf =
    let (found, rest) = next_frame buf in
    let (lines, rest') = drain_in n rest in
    elim found [ none ↦ ([], rest) | some line ↦ (line ∷ lines, rest') ]

-- while (frame := self._buf.next_frame()) is not None: …
unfoldable pub drain : Bytes → List Bytes × Bytes
unfolding drain_in
drain buf = drain_in (suc (length buf)) buf

-- Each chunk is fed, and the buffer is drained after it.
unfoldable pub feed_all : List Bytes → Bytes → List Bytes × Bytes
unfolding drain
feed_all [] buf = ([], buf)
feed_all (chunk ∷ chunks) buf =
    let (lines, rest) = drain (feed chunk buf) in
    let (lines', rest') = feed_all chunks rest in (lines ++ lines', rest')
