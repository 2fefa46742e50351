-- ===== src/Arm/Manager/Routing.antt =====
-- pibot/arm/manager.py: which board a command goes to, and what a failed `open` leaves behind.
use pibot.Prelude.{
  ◌≡◌, refl, ap, ◌∙◌, sym, ℕ, some, List, [], ◌∷◌, ◌++◌, get_elem?, Option-cases, inl, inr, arith,
}
use mathlib.Core.Path.{subst}
use mathlib.Core.List.{append-nil, append_assoc}
use pibot.Prelude.Int.{ℤ, pos}
use pibot.Python.Text.{Text, codes}
use pibot.Python.Utf8.{Bytes}
use pibot.Python.Result.{Result, ok, err}
use pibot.Python.Action.{continue-ok, ◌>>=◌, lift, for_each}
use pibot.Python.Dict.{Dict, merge}
use pibot.Python.Sequence.{index, get_at, set_at, range}
use pibot.Python.Value.{Value, int, Runtime}
use pibot.Protocol.Message.{message, command}
use pibot.Protocol.Sequence.{next}
use pibot.Protocol.Codec.{encode}
use pibot.Arm.Boards.{Boards, noted, Event, sent, recorded}
use pibot.Arm.Manager.{ArmManager, Setup, JointRef, on_boards, send, joint_send, broadcast, estop}

abbrev pub events : {F W : Type 0} → ArmManager F (W × List Event) → List Event
events m = m.world.1

module _ {F O W : Type 0} (py : Runtime F O) (b : Boards F W) (s : Setup) where
  -- A frame of the command, for some sequence number, was sent to the board.
  abbrev pub Sent : Text → Dict (Value F O) → ℕ → Event → Type 0
  Sent name args k e =
      (n : ℕ) × (frame : Bytes) × (encode py (message command (pos n) name args) s.encoding
        ≡ ok frame)
      × (e ≡ sent k frame)

  taken :
      (m m' : ArmManager F (W × List Event)) (e : Event) (p : Result (Unit {0}) × W)
      → on_boards py (recorded b) s (λ w. noted e p w.1) m ≡ (ok tt, m')
      → events m' ≡ events m ++ e ∷ []
  taken m m' e (ok u, w) h = sym (ap (λ q. events q.1) h)
  taken m m' e (err why, w) h = cc

  encoded :
      (m m' : ArmManager F (W × List Event)) (k n : ℕ) (name : Text) (args : Dict (Value F O))
      → (lift (encode py (message command (pos n) name args) s.encoding) >>= λ frame.
            on_boards py (recorded b) s ((recorded b).send_to k frame))
          m
        ≡ (ok tt, m')
      → (e : Event) × (events m' ≡ events m ++ e ∷ []) × Sent name args k e
  unfolding recorded
  encoded m m' k n name args h =
      let (frame, encodes, goes) =
        continue-ok (λ frame. on_boards py (recorded b) s ((recorded b).send_to k frame))
          (encode py (message command (pos n) name args) s.encoding) m h in
      (
        sent k frame,
        taken m m' (sent k frame) (b.send_to k frame m.world.0) goes,
        (n, frame, encodes, refl),
      )

  -- A command that was sent has gone to one board, the one that the index names.
  pub send-Sent :
      (board : ℤ) (name : Text) (args : Dict (Value F O)) (m m' : ArmManager F (W × List Event))
      → send py (recorded b) s board name args m ≡ (ok tt, m')
      → (k : ℕ) × (index s.count board ≡ some k)
        × (e : Event) × (events m' ≡ events m ++ e ∷ [])
        × Sent name args k e
  unfolding send
  send-Sent board name args m m' h = elim (Option-cases (index s.count board)) [
    | inl e ↦ let c = rw e at h in cc
    | inr (k, e) ↦ elim (Option-cases (get_elem? m.seqs k)) [
      | inl f ↦ let c = rw (e, f) at h in cc
      | inr (t, f) ↦
          let (event, written, is_sent) =
            encoded (record m { seqs = set_at k (next t).0 m.seqs }) m' k (next t).1 name args
              (rw (e, f) at h) in
          (k, e, event, written, is_sent)
    ]
  ]

  -- A joint's command that was sent has gone to the board of that joint, and to no other, with the
  -- joint's channel in front of its arguments.
  pub joint_send-routes :
      (joint : ℤ) (name : Text) (args : Dict (Value F O)) (m m' : ArmManager F (W × List Event))
      → joint_send py (recorded b) s joint name args m ≡ (ok tt, m')
      → (ref : JointRef) × (get_at s.joints joint ≡ ok ref)
        × (k : ℕ) × (index s.count ref.board ≡ some k)
        × (e : Event) × (events m' ≡ events m ++ e ∷ [])
        × Sent name (merge ((codes "id", int ref.channel) ∷ []) args) k e
  unfolding joint_send
  joint_send-routes joint name args m m' h =
      let (ref, found, goes) =
        continue-ok
          (λ ref.
            send py (recorded b) s ref.board name (merge ((codes "id", int ref.channel) ∷ []) args))
          (get_at s.joints joint) m h in
      let (k, at, e, written, is_sent) =
        send-Sent ref.board name (merge ((codes "id", int ref.channel) ∷ []) args) m m' goes in
      (ref, found, k, at, e, written, is_sent)

  -- The events are a frame of the command to each of the boards, in their order.
  abbrev pub SentEach : Text → Dict (Value F O) → List ℕ → List Event → Type 0
  SentEach name args [] [] = Unit
  SentEach name args (k ∷ ks) (e ∷ es) = Sent name args k e × SentEach name args ks es
  SentEach name args _ _ = ⊥

  index-pos : (n i k : ℕ) → index n (pos i) ≡ some k → k ≡ i
  unfolding index
  index-pos n i k h = ground arith

  broadcast_loop :
      (name : Text) (args : Dict (Value F O)) (ks : List ℕ) (m m' : ArmManager F (W × List Event))
      → for_each (λ k. send py (recorded b) s (pos k) name args) ks m ≡ (ok tt, m')
      → (es : List Event) × (events m' ≡ events m ++ es) × SentEach name args ks es
  unfolding for_each
  broadcast_loop name args [] m m' h = ([], rw append-nil (ap (λ q. events q.1) (sym h)), tt)
  broadcast_loop name args (k ∷ ks) m m' h =
      let (u, answered, goes) =
        continue-ok (λ _. for_each (λ k. send py (recorded b) s (pos k) name args) ks)
          (send py (recorded b) s (pos k) name args m).0
          (send py (recorded b) s (pos k) name args m).1 h in
      let m1 = (send py (recorded b) s (pos k) name args m).1 in
      let (k', at, e, written, is_sent) =
        send-Sent (pos k) name args m m1 (ap (λ r. (r, m1)) answered) in
      let (es, rest, each_sent) = broadcast_loop name args ks m1 m' goes in
      (
        e ∷ es,
        rest ∙ (rw (written, append_assoc) (refl)),
        (subst (λ j. Sent name args j e) (index-pos s.count k k' at) is_sent, each_sent),
      )

  -- When `estop` returns, each board has been sent one estop frame, in the order of the boards,
  -- and nothing else.
  pub estop_reaches :
      (m m' : ArmManager F (W × List Event))
      → estop py (recorded b) s m ≡ (ok tt, m')
      → (es : List Event) × (events m' ≡ events m ++ es)
        × SentEach (codes "estop") [] (range 0 s.count) es
  unfolding estop broadcast
  estop_reaches m m' h = broadcast_loop (codes "estop") [] (range 0 s.count) m m' h
