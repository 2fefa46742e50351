-- ===== src/Transport/I2c/Blocks.antt =====
-- pibot/transport/i2c.py: the blocks that a frame is sent in.
use mathlib.Core.List.{append_assoc, append-nil}
use pibot.Prelude.{
  ◌≡◌, refl, sym, ap, ◌∙◌, ℕ, zero, suc, ◌≤◌, List, [], ◌∷◌, ◌++◌, length, All, Option, none, some,
  arith,
}
use pibot.Python.Utf8.{Bytes}
use pibot.Python.Result.{Result, ok, err, os_error, transport_error}
use pibot.Python.Action.{Action, continue-ok, raise, for_each}
use pibot.Python.Sequence.{take, drop}
use pibot.Transport.FrameBuffer.Chunks.{joined}
use pibot.Transport.I2c.{
  Bus, I2cTransport, blocks_in, blocks, on_bus, fail_safe, send_of, send_i2c, close_i2c,
}

module _ {A : Type 0} where
  take-drop : (n : ℕ) (xs : List A) → take n xs ++ drop n xs ≡ xs
  unfolding take drop
  take-drop zero xs = refl
  take-drop (suc n) [] = refl
  take-drop (suc n) (x ∷ xs) = ap (λ l. x ∷ l) (take-drop n xs)

  length-take : (n : ℕ) (xs : List A) → length (take n xs) ≤ n
  unfolding take
  length-take zero xs = omega arith
  length-take (suc n) [] = omega arith
  length-take (suc n) (x ∷ xs) = omega (arith, length-take n xs)

  length-drop : (n : ℕ) (x : A) (xs : List A) → length (drop (suc n) (x ∷ xs)) ≤ length xs
  unfolding drop
  length-drop zero x xs = omega arith
  length-drop (suc n) x [] = omega arith
  length-drop (suc n) x (y ∷ xs) = omega (arith, length-drop n y xs)

blocks_in-joined : (n : ℕ) (frame : Bytes) → length frame ≤ n → joined (blocks_in n frame) ≡ frame
unfolding blocks_in joined
blocks_in-joined zero [] h = refl
blocks_in-joined zero (c ∷ s) h = absurd (omega arith)
blocks_in-joined (suc n) [] h = refl
blocks_in-joined (suc n) (c ∷ s) h =
    ap (λ l. take 32 (c ∷ s) ++ l)
      (blocks_in-joined n (drop 32 (c ∷ s)) (omega (arith, length-drop 31 c s)))
    ∙ take-drop 32 (c ∷ s)

blocks_in-short : (n : ℕ) (frame : Bytes) → All (λ b. length b ≤ 32) (blocks_in n frame)
unfolding blocks_in
blocks_in-short zero frame = tt
blocks_in-short (suc n) [] = tt
blocks_in-short (suc n) (c ∷ s) = (length-take 32 (c ∷ s), blocks_in-short n (drop 32 (c ∷ s)))

module _ {W : Type 0} where
  abbrev noted : Bytes → Result (Unit {0}) × W → List Bytes → Result (Unit {0}) × (W × List Bytes)
  noted b (ok u, w) log = (ok u, (w, log ++ b ∷ []))
  noted b (err why, w) log = (err why, (w, log))

  -- The same bus, with the blocks that it took written down.
  unfoldable pub logged : Bus W → Bus (W × List Bytes)
  logged smbus = record {
    open_bus = λ s. let (r, w) = smbus.open_bus s.0 in (r, (w, s.1));
    close_bus = λ n s. let (r, w) = smbus.close_bus n s.0 in (r, (w, s.1));
    write_block = λ n b s. noted b (smbus.write_block n b s.0) s.1;
    read_block = λ n s. let (r, w) = smbus.read_block n s.0 in (r, (w, s.1));
    is_late = λ s. smbus.is_late s.0;
  }

  abbrev pub written : I2cTransport (W × List Bytes) → List Bytes
  written t = t.world.1

module _ {W : Type 0} (smbus : Bus W) where
  abbrev write_one : ℕ → Bytes → Action (I2cTransport (W × List Bytes)) (Unit {0})
  write_one n b = on_bus (logged smbus) ((logged smbus).write_block n b)

  took :
      (b : Bytes) (t : I2cTransport (W × List Bytes)) (p : Result (Unit {0}) × W)
      → (on_bus (logged smbus) (λ s. noted b p s.1) t).0 ≡ ok tt
      → written (on_bus (logged smbus) (λ s. noted b p s.1) t).1 ≡ written t ++ b ∷ []
  took b t (ok u, w) h = refl
  took b t (err why, w) h = cc

  writes :
      (n : ℕ) (bs : List Bytes) (t t' : I2cTransport (W × List Bytes))
      → for_each (write_one n) bs t ≡ (ok tt, t')
      → written t' ≡ written t ++ bs
  unfolding for_each logged
  writes n [] t t' h = rw append-nil (ap (λ q. written q.1) (sym h))
  writes n (b ∷ bs) t t' h =
      let (u, answered, goes) =
        continue-ok (λ _. for_each (write_one n) bs) (write_one n b t).0 (write_one n b t).1 h in
      writes n bs (write_one n b t).1 t' goes
      ∙ (ap (λ l. l ++ bs) (took b t (smbus.write_block n b t.world.0) answered)
          ∙ append_assoc (written t) (b ∷ []) bs)

  returned :
      (p : Result (Unit {0}) × I2cTransport (W × List Bytes)) (t' : I2cTransport (W × List Bytes))
      → fail_safe (logged smbus) (raise transport_error) p ≡ (ok tt, t')
      → p ≡ (ok tt, t')
  unfolding fail_safe
  returned (ok u, t) t' h = h
  returned (err os_error, t) t' h =
      let (u, closed, raised) =
        continue-ok (λ _. raise transport_error) (close_i2c (logged smbus) t).0
          (close_i2c (logged smbus) t).1 h in
      cc
  returned (err why, t) t' h = cc

  sent_whole :
      (frame : Bytes) (o : Option ℕ) (t t' : I2cTransport (W × List Bytes))
      → send_of (logged smbus) frame o t ≡ (ok tt, t')
      → written t' ≡ written t ++ blocks frame
  unfolding send_of fail_safe
  sent_whole frame none t t' h = cc
  sent_whole frame (some n) t t' h =
      writes n (blocks frame) t t' (returned (for_each (write_one n) (blocks frame) t) t' h)

  -- A frame that was sent has gone over the bus in blocks of 32 bytes at most, which make up the
  -- frame, and nothing else has been written.
  pub send_i2c_blocks :
      (frame : Bytes) (t t' : I2cTransport (W × List Bytes))
      → send_i2c (logged smbus) frame t ≡ (ok tt, t')
      → (bs : List Bytes) × (written t' ≡ written t ++ bs)
        × All (λ b. length b ≤ 32) bs
        × (joined bs ≡ frame)
  unfolding send_i2c blocks
  send_i2c_blocks frame t t' h = (
    blocks frame,
    sent_whole frame t.bus t t' h,
    blocks_in-short (length frame) frame,
    blocks_in-joined (length frame) frame (omega arith),
  )
