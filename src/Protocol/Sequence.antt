-- ===== src/Protocol/Sequence.antt =====
-- `class SeqTracker` of pibot/protocol/codec.py.
pub mod Loss
use pibot.Prelude.{ℕ, ◌+◌, ◌-◌, ◌%◌, Option, none, some, ◌==◌, if◌then◌else◌}
use pibot.Prelude.Int.{ℤ, pos, negsuc, eqb_ℤ}

pub record SeqTracker : Type 0 where
  pub next_seq : ℕ
  pub last : Option ℤ

unfoldable pub fresh : SeqTracker
fresh = record { next_seq = 0; last = none }

pub data Order : Type 0 where
  in_order duplicate out_of_order : Order

-- n & 0xFF
unfoldable pub low_byte : ℤ → ℕ
low_byte (pos n) = n % 256
low_byte (negsuc n) = 255 - n % 256

-- The new state and the number handed out.
unfoldable pub next : SeqTracker → SeqTracker × ℕ
next s = (record s { next_seq = (s.next_seq + 1) % 256 }, s.next_seq)

succ : ℤ → ℤ
succ (pos n) = pos (n + 1)
succ (negsuc n) = if n == 0 then pos 0 else negsuc (n - 1)

unfoldable pub classify : ℤ → ℤ → Order
unfolding succ low_byte
classify last seq =
    if eqb_ℤ seq last
    then duplicate
    else if eqb_ℤ seq (pos (low_byte (succ last)))
    then in_order
    else out_of_order

unfoldable pub observe : SeqTracker → ℤ → SeqTracker × Order
unfolding classify
observe s seq = elim s.last [
  | none ↦ (record s { last = some seq }, in_order)
  | some last ↦
      if eqb_ℤ seq last then (s, duplicate) else (record s { last = some seq }, classify last seq)
]
