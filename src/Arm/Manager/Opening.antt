-- ===== src/Arm/Manager/Opening.antt =====
-- pibot/arm/manager.py: what `open` leaves behind when a board does not open.
use mathlib.Core.List.{append-nil, append_assoc}
use pibot.Prelude.{◌≡◌, refl, ap, ◌∙◌, sym, ℕ, zero, suc, ◌+◌, ◌<◌, List, [], ◌∷◌, ◌++◌, map, arith}
use pibot.Python.Result.{Result, ok, err, Error}
use pibot.Python.Action.{for_each}
use pibot.Python.Sequence.{range}
use pibot.Python.Value.{Runtime}
use pibot.Arm.Boards.{Boards, noted, Event, opened, closed, recorded}
use pibot.Arm.Manager.{ArmManager, Setup, on_boards, close_each, after_open, open_from, open_all}
use pibot.Arm.Manager.Routing.{events}

module _ {F O W : Type 0} (py : Runtime F O) (b : Boards F W) (s : Setup) where
  -- Closing goes on whatever a board raises.
  close_each-events :
      (ks : List ℕ) (m : ArmManager F (W × List Event))
      → events (close_each py (recorded b) s ks m).1 ≡ events m ++ map closed ks
  unfolding close_each for_each recorded
  close_each-events [] m = sym (append-nil (events m))
  close_each-events (k ∷ ks) m =
      close_each-events ks (on_boards py (recorded b) s ((recorded b).close_board k) m).1
      ∙ append_assoc (events m) (closed k ∷ []) (map closed ks)

  -- What `open` did, after the boards before k are open, and with so many left.
  Outcome :
      ℕ
      → ℕ
      → ArmManager F (W × List Event)
      → Result (Unit {0}) × ArmManager F (W × List Event)
      → Type 0
  Outcome left k m (ok u, m') = events m' ≡ events m ++ map opened (range k left)
  Outcome left k m (err why, m') =
      (i : ℕ) × (i < left)
      × (events m' ≡ (events m ++ map opened (range k i)) ++ map closed (range 0 (k + i)))

  earlier :
      (left k : ℕ) (m m1 : ArmManager F (W × List Event))
      (p : Result (Unit {0}) × ArmManager F (W × List Event))
      → events m1 ≡ events m ++ opened k ∷ []
      → Outcome left (suc k) m1 p
      → Outcome (suc left) k m p
  unfolding Outcome range
  earlier left k m m1 (ok u, m') e h = h ∙ rw (e, append_assoc) (refl)
  earlier left k m m1 (err why, m') e (i, small, h) =
      let shifted : k + suc i ≡ suc k + i = omega arith in
      (
        suc i,
        ground arith,
        h
            ∙ rw (e, shifted)
                (ap (λ l. l ++ map closed (range 0 (suc k + i)))
                  (append_assoc (events m) (opened k ∷ []) (map opened (range (suc k) i)))),
      )

  after_open-Outcome :
      (left k : ℕ) (m : ArmManager F (W × List Event)) (p : Result (Unit {0}) × W)
      → ((m1 : ArmManager F (W × List Event))
          → Outcome left (suc k) m1 (open_from py (recorded b) s left (suc k) m1))
      → Outcome (suc left) k m (
          after_open py
            (recorded b)
            s
            k
            (open_from py (recorded b) s left (suc k))
            (on_boards py (recorded b) s (λ w. noted (opened k) p w.1) m))
  unfolding after_open Outcome range
  after_open-Outcome left k m (ok u, w) later =
      let m1 = (on_boards py (recorded b) s (λ v. noted (opened k) (ok tt, w) v.1) m).1 in
      earlier left k m m1 (open_from py (recorded b) s left (suc k) m1) refl (later m1)
  after_open-Outcome left k m (err why, w) later =
      let none_left : k + 0 ≡ k = omega arith in
      (
        0,
        ground arith,
        rw (append-nil, none_left)
            (close_each-events (range 0 k) (record m { world = (w, m.world.1) })),
      )

  none-Outcome : (k : ℕ) (m : ArmManager F (W × List Event)) → Outcome 0 k m (ok tt, m)
  unfolding Outcome range
  none-Outcome k m = sym (append-nil (events m))

  open_from-Outcome :
      (left k : ℕ) (m : ArmManager F (W × List Event))
      → Outcome left k m (open_from py (recorded b) s left k m)
  unfolding open_from recorded
  open_from-Outcome zero k m = none-Outcome k m
  open_from-Outcome (suc left) k m =
      after_open-Outcome left k m (b.open_board k m.world.0) (open_from-Outcome left (suc k))

  failed :
      (left k : ℕ) (m m' : ArmManager F (W × List Event)) {why : Error}
      {p : Result (Unit {0}) × ArmManager F (W × List Event)}
      → Outcome left k m p
      → p ≡ (err why, m')
      → Outcome left k m (err why, m')
  failed left k m m' h e = rw e at h

  -- When a board does not open, each of the boards before it has been opened and then told to
  -- close, in their order; no other board has been touched.
  pub open_all_undone :
      (m m' : ArmManager F (W × List Event)) (why : Error)
      → open_all py (recorded b) s m ≡ (err why, m')
      → (i : ℕ) × (i < s.count)
        × (events m' ≡ (events m ++ map opened (range 0 i)) ++ map closed (range 0 i))
  unfolding open_all Outcome
  open_all_undone m m' why h =
      let (i, small, e) = failed s.count 0 m m' (open_from-Outcome s.count 0 m) h in
      let same : 0 + i ≡ i = omega arith in (i, small, rw same at e)
