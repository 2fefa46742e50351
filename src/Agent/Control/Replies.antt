-- ===== src/Agent/Control/Replies.antt =====
-- agent/control.py: which reply a call of `submit` can return, whatever happens in between.
use pibot.Prelude.{
  ◌≡◌, refl, sym, ap, ℕ, ◌+◌, ◌%◌, ◌<◌, ◌==◌, Bool, true, false, Option, none, some, List, [], ◌∷◌,
  ◌⊎◌, inl, inr, Bool-cases, arith, ==_iff, if◌then◌else◌,
}
use mathlib.Core.Path.{subst}
use pibot.Prelude.Int.{ℤ, pos}
use pibot.Python.Result.{Result, ok, err, decode_error}
use pibot.Python.Value.{Runtime}
use pibot.Protocol.Message.{Message}
use pibot.Protocol.Sequence.{next, fresh}
use pibot.Protocol.Codec.{decode}
use pibot.Agent.Safety.{Config, Reason, submit}
use pibot.Agent.Control.{
  Outcome, pending, replied, Call, Controller, Event, begun, ended, received, link_lost, ticked,
  tripped, resumed, set_call, outgoing, is_reply, is_telemetry, admitted, answered, resolved,
  resolve_call, resolve, end_call, routed, read_message, new_controller, begin_call, receive_frame,
  tick_once, step, run,
}
use pibot.Agent.Control.Table.{Unanswered, Table-forget, Table-begun, set_call-Table}

module _ {F O : Type 0} where
  abbrev pub Matches : Call F O → Message F O → Type 0
  Matches c m = (m.seq ≡ c.seq) × (is_reply m.type ≡ true)

  -- What a call has been given, and what it has returned, is a reply to it.
  pub record Answers (c : Call F O) : Type 0 where
    pub given : (m : Message F O) → c.future ≡ some m → Matches c m
    pub returned : (m : Message F O) → c.outcome ≡ replied m → Matches c m

  Answers-set :
      (calls : ℕ → Call F O) (j : ℕ) (c : Call F O)
      → ((i : ℕ) → Answers (calls i))
      → Answers c
      → (i : ℕ) → Answers (set_call j c calls i)
  unfolding set_call
  Answers-set calls j c all new i = elim (Bool-cases (j == i)) [
    | inl e ↦ rw e new
    | inr e ↦ rw e (all i)
  ]

  admitted-ne-replied : (answer : Result Reason) (m : Message F O) → admitted answer ≡ replied m → ⊥
  unfolding admitted
  admitted-ne-replied (ok Reason.sent) m h = cc
  admitted-ne-replied (ok Reason.estop) m h = cc
  admitted-ne-replied (ok Reason.rate) m h = cc
  admitted-ne-replied (err why) m h = cc

  -- Every state of the controller that can be reached is such.
  pub record IsSound (s : Controller F O) : Type 0 where
    pub entries :
        (k : ℤ) (i : ℕ)
        → s.acks k ≡ some i
        → (i < s.count) × ((s.calls i).seq ≡ k) × Unanswered (s.calls i).outcome
    pub answers : (i : ℕ) → Answers (s.calls i)
    pub numbered : s.tracker.next_seq < 256

  answered-replied :
      (future : Option (Message F O)) (m : Message F O)
      → answered future ≡ replied m
      → future ≡ some m
  unfolding answered
  answered-replied none m e = cc
  answered-replied (some m') m e = cc

  ended_elsewhere :
      (j : ℕ) (c' : Call F O) (calls : ℕ → Call F O) (i : ℕ)
      → ((calls i).seq ≡ (calls j).seq)
        ⊎ (((set_call j c' calls i).seq ≡ (calls i).seq)
            × (Unanswered (calls i).outcome → Unanswered (set_call j c' calls i).outcome))
  unfolding set_call
  ended_elsewhere j c' calls i = elim (Bool-cases (j == i)) [
    | inl e ↦ inl (ap (λ n. (calls n).seq) (sym ((==_iff j i).0 e)))
    | inr e ↦ inr (rw e refl, rw e (λ h. h))
  ]

  resolved-Answers :
      (m : Message F O) (c : Call F O) (future : Option (Message F O))
      → c.future ≡ future
      → Matches c m
      → Answers c
      → Answers (resolved m c future)
  unfolding resolved
  resolved-Answers m c none e h a = record {
    given = λ m' e'. let same : m ≡ m' = cc e' in subst (Matches c) same h;
    returned = a.returned;
  }
  resolved-Answers m c (some first) e h a = a

  ended-Answers : (c : Call F O) → Answers c → Answers (record c { outcome = answered c.future })
  ended-Answers c a = record {
    given = a.given;
    returned = λ m e. a.given m (answered-replied c.future m e);
  }

  end_call-IsSound :
      (i : ℕ) (o : Outcome F O) (s : Controller F O) → IsSound s → IsSound (end_call i o s)
  unfolding end_call
  end_call-IsSound i pending s k =
      let c = s.calls i in
      let c' = record c { outcome = answered c.future } in
      record {
        entries =
            Table-forget s.acks s.calls (set_call i c' s.calls) s.count c.seq k.entries
              (ended_elsewhere i c' s.calls);
        answers = Answers-set s.calls i c' k.answers (ended-Answers c (k.answers i));
        numbered = k.numbered;
      }
  end_call-IsSound i _ s k = k

  pub resolved-keeps :
      (m : Message F O) (c : Call F O) (future : Option (Message F O))
      → ((resolved m c future).seq ≡ c.seq) × ((resolved m c future).outcome ≡ c.outcome)
  unfolding resolved
  resolved-keeps m c none = (refl, refl)
  resolved-keeps m c (some first) = (refl, refl)

  resolve-IsSound :
      (m : Message F O) (s : Controller F O) (target : Option ℕ)
      → s.acks m.seq ≡ target
      → is_reply m.type ≡ true
      → IsSound s
      → IsSound (record s { calls = resolve m target s.calls })
  unfolding resolve resolve_call
  resolve-IsSound m s none e r k = record {
    entries = k.entries;
    answers = k.answers;
    numbered = k.numbered;
  }
  resolve-IsSound m s (some j) e r k =
      let (before, at, waits) = k.entries m.seq j e in
      let c = s.calls j in
      let (same, same') = resolved-keeps m c c.future in
      record {
        entries = set_call-Table s.acks s.calls s.count j _ same same' k.entries;
        answers =
            Answers-set s.calls j _ k.answers
              (resolved-Answers m c c.future refl (sym at, r) (k.answers j));
        numbered = k.numbered;
      }

  pub if_holds :
      (P : Controller F O → Type 0) (b : Bool) (s t : Controller F O)
      → (b ≡ true → P s)
      → P t
      → P (if b then s else t)
  if_holds P true s t h k = h refl
  if_holds P false s t h k = k

  routed-IsSound : (m : Message F O) (s : Controller F O) → IsSound s → IsSound (routed m s)
  unfolding routed
  routed-IsSound m s k =
      if_holds IsSound (is_reply m.type) _ _ (λ e. resolve-IsSound m s (s.acks m.seq) refl e k)
        (if_holds IsSound (is_telemetry m.type) _ s
          (λ e. record { entries = k.entries; answers = k.answers; numbered = k.numbered }) k)

  read_message-IsSound :
      (r : Result (Message F O)) (s : Controller F O) → IsSound s → IsSound (read_message r s)
  unfolding read_message
  read_message-IsSound (ok m) s k = routed-IsSound m s k
  read_message-IsSound (err (decode_error why)) s k = k
  read_message-IsSound (err _) s k = record {
    entries = k.entries;
    answers = k.answers;
    numbered = k.numbered;
  }

wraps : (n : ℕ) → (n + 1) % 256 < 256
wraps n = omega arith

module _ {F O : Type 0} (py : Runtime F O) (config : Config F) where
  begin_call-IsSound :
      (m : Message F O) (s : Controller F O) → IsSound s → IsSound (begin_call py config m s)
  unfolding begin_call next
  begin_call-IsSound m s k =
      let q = (next s.tracker).1 in
      let answer = (submit py config (outgoing q m) s.safety).0 in
      record {
        entries = Table-begun s.acks s.calls s.count (pos q) answer k.entries;
        answers = Answers-set s.calls s.count _ k.answers (record {
          given = λ m' e. cc;
          returned = λ m' e. absurd (admitted-ne-replied answer m' e);
        });
        numbered = wraps s.tracker.next_seq;
      }

  pub step-IsSound : (e : Event F O) (s : Controller F O) → IsSound s → IsSound (step py config e s)
  unfolding step receive_frame tick_once
  step-IsSound (begun m) s k = begin_call-IsSound m s k
  step-IsSound (ended i) s k = end_call-IsSound i (s.calls i).outcome s k
  step-IsSound (received frame) s k =
      if_holds IsSound s.reading _ s
        (λ e. read_message-IsSound (decode py frame config.encoding) s k) k
  step-IsSound link_lost s k = record {
    entries = k.entries;
    answers = k.answers;
    numbered = k.numbered;
  }
  step-IsSound ticked s k =
      if_holds IsSound s.ticking _ s
        (λ e. record { entries = k.entries; answers = k.answers; numbered = k.numbered }) k
  step-IsSound tripped s k = record {
    entries = k.entries;
    answers = k.answers;
    numbered = k.numbered;
  }
  step-IsSound resumed s k = record {
    entries = k.entries;
    answers = k.answers;
    numbered = k.numbered;
  }

  pub run_on :
      (es : List (Event F O)) (s : Controller F O) → IsSound s → IsSound (run py config es s)
  unfolding run
  run_on [] s k = k
  run_on (e ∷ es) s k = run_on es (step py config e s) (step-IsSound e s k)

  -- Whatever happens to the controller, in any order: what a call of submit has returned is an ack
  -- or a nak with the very sequence number that the call sent, and so is what its future holds; and
  -- each entry of the dict of acks is that of a call with the entry's sequence number, which still
  -- waits or in which the safety layer raised an exception, of whatever kind. The next number is below 256. So no entry outlives a call that returned, timed out or was
  -- rejected.
  pub run-IsSound : (es : List (Event F O)) → IsSound (run py config es (new_controller py config))
  unfolding new_controller fresh
  run-IsSound es = run_on es (new_controller py config) (record {
    entries = λ k i e. cc;
    answers = λ i. record { given = λ m e. cc; returned = λ m e. cc };
    numbered = omega arith;
  })
