-- ===== src/Protocol/Crc.antt =====
-- `crc8` of pibot/protocol/codec.py.
pub mod Detection
use Prim.Native.Nat.{bit_and}
use pibot.Prelude.{ℕ, zero, suc, ◌*◌, ◌%◌, [], ◌∷◌, ◌==◌, if◌then◌else◌, bit_xor}
use pibot.Python.Utf8.{Bytes}

-- One pass of the inner loop: shift, and subtract the polynomial if a bit falls out.
unfoldable pub shift : ℕ → ℕ
shift crc = if bit_and crc 0x80 == 0 then crc * 2 % 256 else bit_xor (crc * 2) 0x07 % 256

unfoldable pub shifts : ℕ → ℕ → ℕ
unfolding shift
shifts zero crc = crc
shifts (suc n) crc = shifts n (shift crc)

unfoldable pub crc8_from : ℕ → Bytes → ℕ
unfolding shifts
crc8_from crc [] = crc
crc8_from crc (byte ∷ data') = crc8_from (shifts 8 (bit_xor crc byte)) data'

unfoldable pub crc8 : Bytes → ℕ
unfolding crc8_from
crc8 data' = crc8_from 0 data'
