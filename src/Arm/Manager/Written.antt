-- ===== src/Arm/Manager/Written.antt =====
-- pibot/arm/manager.py: which frames a call can send, whether or not it succeeds.
use mathlib.Core.List.{append-nil, append_assoc}
use pibot.Prelude.{
  ◌≡◌, refl, ◌∙◌, ℕ, Bool, List, [], ◌∷◌, ◌++◌, get_elem?, inl, inr, All, All-append, All-imp,
  Option-cases, if◌then◌else◌,
}
use pibot.Prelude.Int.{ℤ, pos}
use pibot.Python.Text.{Text, codes}
use pibot.Python.Utf8.{Bytes}
use pibot.Python.Result.{Result, ok, err}
use pibot.Python.Action.{Action, for_each, continue}
use pibot.Python.Dict.{Dict, merge}
use pibot.Python.Sequence.{index, get_at, set_at, range}
use pibot.Python.Value.{Value, int, Runtime}
use pibot.Protocol.Message.{message, command}
use pibot.Protocol.Sequence.{next}
use pibot.Protocol.Codec.{encode}
use pibot.Arm.Boards.{Boards, noted, Event, sent, recorded}
use pibot.Arm.Manager.{
  ArmManager, Setup, on_boards, send, joint_send, broadcast, estop, enable, jstop,
}
use pibot.Arm.Manager.Routing.{events, Sent}

-- What one state of the boards has more than another, all of it of a kind.
pub record Adds {F W : Type 0} (P : Event → Type 0) (m m' : ArmManager F (W × List Event))
    : Type 0 where
  pub added : List Event
  pub written : events m' ≡ events m ++ added
  pub kind : All P added

module _ {F W : Type 0} (P : Event → Type 0) where
  pub Adds-refl : (m m' : ArmManager F (W × List Event)) → events m' ≡ events m → Adds P m m'
  Adds-refl m m' e = record { added = []; written = rw append-nil e; kind = tt }

  pub Adds-trans :
      {m m' m'' : ArmManager F (W × List Event)} → Adds P m m' → Adds P m' m'' → Adds P m m''
  Adds-trans {m} a b = record {
    added = a.added ++ b.added;
    written = b.written ∙ (rw (a.written, append_assoc) (refl));
    kind = All-append P a.added b.added a.kind b.kind;
  }

  pub Adds-imp :
      (Q : Event → Type 0) {m m' : ArmManager F (W × List Event)}
      → ((e : Event) → P e → Q e)
      → Adds P m m'
      → Adds Q m m'
  Adds-imp Q f a = record { added = a.added; written = a.written; kind = All-imp a.added f a.kind }

  continue-Adds :
      {A B : Type 0} (r : Result A) (next : A → Action (ArmManager F (W × List Event)) B)
      {m m' : ArmManager F (W × List Event)}
      → Adds P m m'
      → ((a : A) → Adds P m' (next a m').1)
      → Adds P m (continue r next m').1
  continue-Adds (ok a) next sofar rest = Adds-trans sofar (rest a)
  continue-Adds (err why) next sofar rest = sofar

  for_each-Adds :
      {A : Type 0} (body : A → Action (ArmManager F (W × List Event)) (Unit {0})) (xs : List A)
      → ((a : A) (m : ArmManager F (W × List Event)) → Adds P m (body a m).1)
      → (m : ArmManager F (W × List Event)) → Adds P m (for_each body xs m).1
  unfolding for_each
  for_each-Adds body [] each m = Adds-refl m m refl
  for_each-Adds body (x ∷ xs) each m =
      continue-Adds (body x m).0 (λ _. for_each body xs) (each x m)
        (λ u. for_each-Adds body xs each (body x m).1)

module _ {F O W : Type 0} (py : Runtime F O) (b : Boards F W) (s : Setup) where
  -- A frame of the command was sent to some board.
  abbrev pub SentNamed : Text → Event → Type 0
  SentNamed name e = (k : ℕ) × (args : Dict (Value F O)) × Sent py b s name args k e

  noted-Adds :
      (m : ArmManager F (W × List Event)) (k : ℕ) (frame : Bytes) (r : Result (Unit {0}) × W)
      (P : Event → Type 0)
      → P (sent k frame)
      → Adds P m (record m { world = (noted (sent k frame) r (m.world.1)).1 })
  noted-Adds m k frame (ok u, w) P p = record {
    added = sent k frame ∷ [];
    written = refl;
    kind = (p, tt);
  }
  noted-Adds m k frame (err why, w) P p = Adds-refl P m _ refl

  encoded-Adds :
      (m : ArmManager F (W × List Event)) (k n : ℕ) (name : Text) (args : Dict (Value F O))
      (r : Result Bytes)
      → encode py (message command (pos n) name args) s.encoding ≡ r
      → Adds
          (SentNamed name)
          m
          (continue r (λ frame. on_boards py (recorded b) s ((recorded b).send_to k frame)) m).1
  unfolding recorded
  encoded-Adds m k n name args (err why) e = Adds-refl _ m _ refl
  encoded-Adds m k n name args (ok frame) e =
      noted-Adds m k frame (b.send_to k frame m.world.0) _ (k, args, (n, frame, e, refl))

  -- Whether or not it succeeds, a call of `_send` adds frames of its command only.
  send-Adds :
      (board : ℤ) (name : Text) (args : Dict (Value F O)) (m : ArmManager F (W × List Event))
      → Adds (SentNamed name) m (send py (recorded b) s board name args m).1
  unfolding send
  send-Adds board name args m = elim (Option-cases (index s.count board)) [
    | inl e ↦ rw e (Adds-refl _ m m refl)
    | inr (k, e) ↦ elim (Option-cases (get_elem? m.seqs k)) [
      | inl f ↦ rw (e, f) (Adds-refl _ m m refl)
      | inr (t, f) ↦
          rw (e, f)
            (Adds-trans _ (Adds-refl _ m (record m { seqs = set_at k (next t).0 m.seqs }) refl) (
              encoded-Adds (record m { seqs = set_at k (next t).0 m.seqs }) k (next t).1 name args
                (encode py (message command (pos (next t).1) name args) s.encoding) refl))
    ]
  ]

  joint_send-Adds :
      (joint : ℤ) (name : Text) (args : Dict (Value F O)) (m : ArmManager F (W × List Event))
      → Adds (SentNamed name) m (joint_send py (recorded b) s joint name args m).1
  unfolding joint_send
  joint_send-Adds joint name args m =
      continue-Adds (SentNamed name) (get_at s.joints joint)
        (λ ref.
          send py (recorded b) s ref.board name (merge ((codes "id", int ref.channel) ∷ []) args))
        (Adds-refl _ m m refl)
        (λ ref. send-Adds ref.board name (merge ((codes "id", int ref.channel) ∷ []) args) m)

  broadcast-Adds :
      (name : Text) (args : Dict (Value F O)) (m : ArmManager F (W × List Event))
      → Adds (SentNamed name) m (broadcast py (recorded b) s name args m).1
  unfolding broadcast
  broadcast-Adds name args m =
      for_each-Adds (SentNamed name) (λ k. send py (recorded b) s (pos k) name args)
        (range 0 s.count) (λ k. send-Adds (pos k) name args) m

  pub estop-Adds :
      (m : ArmManager F (W × List Event))
      → Adds (SentNamed (codes "estop")) m (estop py (recorded b) s m).1
  unfolding estop
  estop-Adds m = broadcast-Adds (codes "estop") [] m

  pub enable-Adds :
      (on : Bool) (m : ArmManager F (W × List Event))
      → Adds (SentNamed (codes "enable")) m (enable py (recorded b) s on m).1
  unfolding enable
  enable-Adds on m =
      broadcast-Adds (codes "enable") ((codes "on", int (pos (if on then 1 else 0))) ∷ []) m

  pub jstop-Adds :
      (joint : ℤ) (m : ArmManager F (W × List Event))
      → Adds (SentNamed (codes "jstop")) m (jstop py (recorded b) s joint m).1
  unfolding jstop
  jstop-Adds joint m = joint_send-Adds joint (codes "jstop") [] m
