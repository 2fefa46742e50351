-- ===== src/Protocol/Sequence/Loss.antt =====
-- What a receiver sees of the numbers that a sender hands out, when frames are lost between.
use pibot.Prelude.{ℕ, zero, suc, ◌+◌, ◌%◌, ◌<◌, ◌≡◌, arith, some, ◌==◌, if◌then◌else◌}
use pibot.Prelude.Int.{ℤ, pos}
use pibot.Protocol.Sequence.{SeqTracker, in_order, duplicate, out_of_order, next, observe, classify}

-- The sender after k more numbers have been handed out.
unfoldable pub skip : ℕ → SeqTracker → SeqTracker
unfolding next
skip zero s = s
skip (suc k) s = skip k (next s).0

next_seq-skip :
    (k : ℕ) (s : SeqTracker) → s.next_seq < 256 → (skip k s).next_seq ≡ (s.next_seq + k) % 256
unfolding skip next
next_seq-skip zero s h = omega arith
next_seq-skip (suc k) s h =
    omega (arith, next_seq-skip k (record s { next_seq = (s.next_seq + 1) % 256 }))

last-observe : (r : SeqTracker) (n : ℤ) → (observe r n).0.last ≡ some n
unfolding observe
last-observe r n = ground arith

observe_after :
    (t : SeqTracker) (a b : ℕ)
    → a < 256
    → b < 256
    → t.last ≡ some (pos a)
    → (observe t (pos b)).1
      ≡ (if b == a then duplicate else if b == (a + 1) % 256 then in_order else out_of_order)
unfolding observe classify
observe_after t a b h k e = ground arith

-- The number of the next frame that arrives after a frame, when k frames in between are lost, is
-- in order exactly if k is a multiple of 256. It passes for a duplicate exactly if 255 more
-- than a multiple of 256 are lost; any other loss shows as out of order.
pub loss_seen :
    (s r : SeqTracker) (k : ℕ)
    → s.next_seq < 256
    → (observe (observe r (pos (next s).1)).0 (pos (next (skip k (next s).0)).1)).1
      ≡ (if k % 256 == 0 then in_order else if k % 256 == 255 then duplicate else out_of_order)
unfolding next
loss_seen s r k h =
    let a = s.next_seq in
    let t : SeqTracker = record s { next_seq = (a + 1) % 256 } in
    let e : (skip k t).next_seq ≡ ((a + 1) % 256 + k) % 256 = next_seq-skip k t (omega arith) in
    rw
      (observe_after (observe r (pos a)).0 a (skip k t).next_seq h (omega arith)
        (last-observe r (pos a)))
      (ground (arith, e))
