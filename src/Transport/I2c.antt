-- ===== src/Transport/I2c.antt =====
-- `class I2CTransport` of pibot/transport/i2c.py, over the bus that smbus2 gives. An opened bus is a
-- number; its address and register are fixed. When the last frame came is left out, and the loop of
-- `recv` is followed for so many rounds, since the bus may answer without end.
pub mod Blocks
use pibot.Prelude.{
  ℕ, zero, suc, Bool, true, false, Option, none, some, List, [], ◌∷◌, ◌++◌, ◌==◌, length,
  if◌then◌else◌,
}
use pibot.Python.Text.{rstrip_char}
use pibot.Python.Utf8.{Bytes}
use pibot.Python.Result.{Result, ok, err, Error, os_error, transport_error}
use pibot.Python.Action.{Action, ◌>>=◌, ◌>>◌, pure, raise, for_each}
use pibot.Python.Sequence.{take, drop}
use pibot.Transport.FrameBuffer.{feed, next_frame}

pub record Bus (W : Type 0) : Type 0 where
  pub open_bus : Action W ℕ
  pub close_bus : ℕ → Action W (Unit {0})
  pub write_block : ℕ → Bytes → Action W (Unit {0})
  pub read_block : ℕ → Action W Bytes
  pub is_late : W → Bool  -- time.monotonic() >= deadline

pub record I2cTransport (W : Type 0) : Type 0 where
  pub bus : Option ℕ
  pub buf : Bytes
  pub world : W

-- `_BLOCK`
abbrev pub block : ℕ
block = 32

-- The slices of a frame, in n of them at most.
unfoldable pub blocks_in : ℕ → Bytes → List Bytes
unfolding take drop
blocks_in zero frame = []
blocks_in (suc n) [] = []
blocks_in (suc n) (c ∷ s) = take block (c ∷ s) ∷ blocks_in n (drop block (c ∷ s))

-- frame[start : start + _BLOCK] for start in range(0, len(frame), _BLOCK)
unfoldable pub blocks : Bytes → List Bytes
unfolding blocks_in
blocks frame = blocks_in (length frame) frame

module _ {W : Type 0} (smbus : Bus W) where
  -- What the bus does within the transport.
  abbrev pub on_bus : {A : Type 0} → Action W A → Action (I2cTransport W) A
  on_bus call t = let (r, w) = call t.world in (r, record t { world = w })

  abbrev pub clear : Action (I2cTransport W) (Unit {0})
  clear t = (ok tt, record t { buf = [] })

  abbrev pub keep_bus : ℕ → Action (I2cTransport W) (Unit {0})
  keep_bus n t = (ok tt, record t { bus = some n })

  abbrev pub open_of : Option ℕ → Action (I2cTransport W) (Unit {0})
  open_of (some n) = clear
  open_of none = on_bus smbus.open_bus >>= λ n. keep_bus n >> clear

  -- `open`
  unfoldable pub open_i2c : Action (I2cTransport W) (Unit {0})
  open_i2c t = open_of t.bus t

  -- The bus is forgotten even if closing it raises.
  abbrev pub close_of : Option ℕ → Action (I2cTransport W) (Unit {0})
  close_of none t = (ok tt, t)
  close_of (some n) t =
      let (r, w) = smbus.close_bus n t.world in (r, record t { bus = none; world = w })

  -- `close`, and `_drop`
  unfoldable pub close_i2c : Action (I2cTransport W) (Unit {0})
  close_i2c t = close_of t.bus t

  -- What an OSError is turned into, and what any other exception.
  unfoldable pub fail_safe :
      {A : Type 0}
      → Action (I2cTransport W) A
      → Result A × I2cTransport W
      → Result A × I2cTransport W
  unfolding close_i2c
  fail_safe then' (ok a, t) = (ok a, t)
  fail_safe then' (err os_error, t) = (close_i2c >> then') t
  fail_safe then' (err why, t) = (err why, t)

  unfoldable pub send_of : Bytes → Option ℕ → Action (I2cTransport W) (Unit {0})
  unfolding blocks for_each fail_safe
  send_of frame none t = (err transport_error, t)
  send_of frame (some n) t =
      fail_safe (raise transport_error)
        (for_each (λ b. on_bus (smbus.write_block n b)) (blocks frame) t)

  -- `send`
  unfoldable pub send_i2c : Bytes → Action (I2cTransport W) (Unit {0})
  unfolding send_of
  send_i2c frame t = send_of frame t.bus t

  -- What `recv` does with a block: again from the start, or None when it is late.
  abbrev pub take_block :
      Bytes → Action (I2cTransport W) (Option Bytes) → Action (I2cTransport W) (Option Bytes)
  take_block [] again t = if smbus.is_late t.world then (ok none, t) else again t
  take_block (c ∷ data') again t = again (record t { buf = feed (c ∷ data') t.buf })

  -- A block, or None with the link dropped.
  unfoldable pub read_or_drop : ℕ → Action (I2cTransport W) (Option Bytes)
  unfolding rstrip_char fail_safe
  read_or_drop n t =
      fail_safe (pure none) ((on_bus (smbus.read_block n) >>= λ b. pure (some (rstrip_char 0 b))) t)

  -- The loop of `recv`.
  unfoldable pub recv_rounds : ℕ → ℕ → Action (I2cTransport W) (Option Bytes)
  unfolding next_frame read_or_drop
  recv_rounds zero n t = (ok none, t)
  recv_rounds (suc rounds) n t =
      let (found, rest) = next_frame t.buf in
      elim found [
        | some frame ↦ (ok (some frame), record t { buf = rest })
        | none ↦
            (read_or_drop n >>= λ got. elim got [
              | none ↦ pure none
              | some data' ↦ take_block data' (recv_rounds rounds n)
            ])
              t
      ]

  unfoldable pub recv_of : ℕ → Option ℕ → Action (I2cTransport W) (Option Bytes)
  unfolding recv_rounds
  recv_of rounds none t = (err transport_error, t)
  recv_of rounds (some n) t = recv_rounds rounds n t

  -- `recv`
  unfoldable pub recv_i2c : ℕ → Action (I2cTransport W) (Option Bytes)
  unfolding recv_of
  recv_i2c rounds t = recv_of rounds t.bus t
