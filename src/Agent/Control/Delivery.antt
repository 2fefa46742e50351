-- ===== src/Agent/Control/Delivery.antt =====
-- agent/control.py: a reply that comes in while its call waits is what the call returns.
use pibot.Prelude.{
  ◌≡◌, ◌≢◌, refl, sym, ◌∙◌, ap, ℕ, ◌+◌, ◌<◌, Bool, true, Option, none, some, List, [], ◌∷◌, arith,
  if◌then◌else◌, All,
}
use pibot.Prelude.Int.{ℤ, pos}
use mathlib.Core.Path.{subst}
use pibot.Python.Utf8.{Bytes}
use pibot.Python.Result.{Result, ok, err, decode_error}
use pibot.Python.Value.{Runtime}
use pibot.Protocol.Message.{Message}
use pibot.Protocol.Sequence.{next}
use pibot.Protocol.Codec.{decode}
use pibot.Agent.Safety.{Config, Reason, submit}
use pibot.Agent.Control.{
  Outcome, pending, replied, Controller, Event, begun, ended, received, link_lost, ticked, tripped,
  resumed, register, outgoing, is_reply, admitted, kept_acks, answered, resolved, resolve_call,
  resolve, end_call, routed, read_message, new_controller, begin_call, receive_frame, tick_once,
  step, run,
}
use pibot.Agent.Control.Replies.{IsSound, step-IsSound, run-IsSound, if_holds}
use pibot.Agent.Control.Table.{eqb_refl, set_call-same}
use pibot.Agent.Control.Waits.{Waits, set_call-ne, ended-Waits, routed-Waits, begin_call-Waits}

module _ {F O : Type 0} (py : Runtime F O) (config : Config F) where
  -- What call i, with number q, does not notice: anything but its own end and replies to q.
  abbrev pub PassesBy : ℕ → ℕ → Event F O → Type 0
  PassesBy i q (ended j) = j ≢ i
  PassesBy i q (received frame) =
      (r : Message F O)
      → decode py frame config.encoding ≡ ok r
      → is_reply r.type ≡ true
      → r.seq ≢ pos q
  PassesBy i q _ = Unit

  abbrev pub begun_in : List (Event F O) → ℕ
  begun_in [] = 0
  begun_in (begun m ∷ es) = begun_in es + 1
  begun_in (e ∷ es) = begun_in es

  read_message-Waits :
      (r : Result (Message F O)) (i q k : ℕ) (s : Controller F O)
      → ((m : Message F O) → r ≡ ok m → is_reply m.type ≡ true → m.seq ≢ pos q)
      → IsSound s
      → Waits i q k s
      → Waits i q k (read_message r s)
  unfolding read_message
  read_message-Waits (ok m) i q k s h sound w = routed-Waits m i q k s (h m refl) sound w
  read_message-Waits (err (decode_error why)) i q k s h sound w = w
  read_message-Waits (err _) i q k s h sound w = record {
    mine = w.mine;
    entry = w.entry;
    older = w.older;
    ahead = w.ahead;
    alone = w.alone;
  }

  run-Waits :
      (es : List (Event F O)) (i q k : ℕ) (s : Controller F O)
      → q < 256
      → k + begun_in es < 256
      → All (PassesBy i q) es
      → IsSound s
      → Waits i q k s
      → (k' : ℕ) × Waits i q k' (run py config es s)
  unfolding run step receive_frame tick_once
  run-Waits [] i q k s small few h sound w = (k, w)
  run-Waits (begun m ∷ es) i q k s small few (h, hs) sound w =
      run-Waits es i q (k + 1) (begin_call py config m s) small (omega arith) hs
        (step-IsSound py config (begun m) s sound)
        (begin_call-Waits py config m i q k s small (omega arith) w)
  run-Waits (ended j ∷ es) i q k s small few (h, hs) sound w =
      run-Waits es i q k _ small few hs (step-IsSound py config (ended j) s sound)
        (ended-Waits i q k j (s.calls j).outcome s h refl w)
  run-Waits (received frame ∷ es) i q k s small few (h, hs) sound w =
      run-Waits es i q k _ small few hs (step-IsSound py config (received frame) s sound) (
        if_holds (Waits i q k) s.reading _ s
          (λ e. read_message-Waits (decode py frame config.encoding) i q k s h sound w) w)
  run-Waits (link_lost ∷ es) i q k s small few (h, hs) sound w =
      run-Waits es i q k _ small few hs (step-IsSound py config link_lost s sound) (record {
        mine = w.mine;
        entry = w.entry;
        older = w.older;
        ahead = w.ahead;
        alone = w.alone;
      })
  run-Waits (ticked ∷ es) i q k s small few (h, hs) sound w =
      run-Waits es i q k _ small few hs (step-IsSound py config ticked s sound) (
        if_holds (Waits i q k) s.ticking _ s
          (λ e. record {
            mine = w.mine;
            entry = w.entry;
            older = w.older;
            ahead = w.ahead;
            alone = w.alone;
          })
          w)
  run-Waits (tripped ∷ es) i q k s small few (h, hs) sound w =
      run-Waits es i q k _ small few hs (step-IsSound py config tripped s sound) (record {
        mine = w.mine;
        entry = w.entry;
        older = w.older;
        ahead = w.ahead;
        alone = w.alone;
      })
  run-Waits (resumed ∷ es) i q k s small few (h, hs) sound w =
      run-Waits es i q k _ small few hs (step-IsSound py config resumed s sound) (record {
        mine = w.mine;
        entry = w.entry;
        older = w.older;
        ahead = w.ahead;
        alone = w.alone;
      })

  begun_waits :
      (o : Outcome F O) (q n : ℕ) (acks : ℤ → Option ℕ)
      → o ≡ pending
      → kept_acks o (pos q) (register (pos q) n acks) (pos q) ≡ some n
  unfolding kept_acks register
  begun_waits o q n acks e = rw (e, eqb_refl (pos q)) refl

  beginning :
      (m : Message F O) (s : Controller F O)
      → (submit py config (outgoing s.tracker.next_seq m) s.safety).0 ≡ ok Reason.sent
      → ((j : ℕ) → (s.calls j).outcome ≡ pending → (s.calls j).seq ≢ pos s.tracker.next_seq)
      → Waits s.count s.tracker.next_seq 0 (begin_call py config m s)
  unfolding begin_call next admitted
  beginning m s goes apart =
      let e = ap (admitted {F = F} {O = O}) goes in
      record {
        mine =
            set_call-same s.count _ s.calls
            ∙ ap (λ o. record { seq = pos s.tracker.next_seq; future = none; outcome = o }) e;
        entry = begun_waits _ s.tracker.next_seq s.count s.acks e;
        older = omega arith;
        ahead = omega arith;
        alone = λ j ne.
            subst (λ c. c.outcome ≡ pending → c.seq ≢ pos s.tracker.next_seq)
              (sym (set_call-ne s.count j _ s.calls (λ e'. ne (sym e')))) (apart j);
      }

  if_true : (b : Bool) (s t : Controller F O) → b ≡ true → (if b then s else t) ≡ s
  if_true b s t e = rw e refl

  -- The reply gets into the future of its call.
  given_reply :
      (frame : Bytes) (r : Message F O) (i q k : ℕ) (s : Controller F O)
      → Waits i q k s
      → decode py frame config.encoding ≡ ok r
      → is_reply r.type ≡ true
      → r.seq ≡ pos q
      → s.reading ≡ true
      → (receive_frame py config frame s).calls i
        ≡ record { seq = pos q; future = some r; outcome = pending }
  unfolding receive_frame read_message routed resolve resolve_call resolved
  given_reply frame r i q k s w decoded replies same reads =
      let read : receive_frame py config frame s ≡ read_message (ok r) s =
        if_true s.reading _ s reads ∙ ap (λ d. read_message d s) decoded in
      let done : read_message (ok r) s ≡ record s { calls = resolve r (s.acks r.seq) s.calls } =
        if_true (is_reply r.type) _ _ replies in
      ap (λ t. t.calls i) (read ∙ done)
      ∙ ap (λ target. resolve r target s.calls i) (ap s.acks same ∙ w.entry)
      ∙ set_call-same i _ s.calls
      ∙ ap (resolve_call r) w.mine

  returned_reply :
      (i : ℕ) (r : Message F O) (s : Controller F O)
      → (s.calls i).outcome ≡ pending
      → (s.calls i).future ≡ some r
      → ((step py config (ended i) s).calls i).outcome ≡ replied r
  unfolding step end_call answered
  returned_reply i r s e given =
      subst (λ o. ((end_call i o s).calls i).outcome ≡ replied r) (sym e)
        (ap (λ c. c.outcome) (set_call-same i _ s.calls) ∙ ap answered given)

  -- The controller after any events.
  abbrev pub after : List (Event F O) → Controller F O
  after es = run py config es (new_controller py config)

  -- In any state that the controller can reach, let a call of submit begin whose frame goes through,
  -- while no call that waits has its sequence number. If a reply with that number comes in before the
  -- wait ends, while the reader runs, with at most 255 other calls begun in between and no earlier
  -- reply to that number, then the call returns this reply. Commands, ticks, trips and resumes, other
  -- replies, telemetry, damaged frames and the ends of other calls may come in between.
  pub reply_returned :
      (before : List (Event F O)) (m : Message F O) (es : List (Event F O)) (frame : Bytes)
      (r : Message F O)
      → (submit py config (outgoing (after before).tracker.next_seq m) (after before).safety).0
        ≡ ok Reason.sent
      → ((j : ℕ)
          → ((after before).calls j).outcome ≡ pending
          → ((after before).calls j).seq ≢ pos (after before).tracker.next_seq)
      → begun_in es < 256
      → All (PassesBy (after before).count (after before).tracker.next_seq) es
      → decode py frame config.encoding ≡ ok r
      → is_reply r.type ≡ true
      → r.seq ≡ pos (after before).tracker.next_seq
      → (run py config (begun m ∷ es) (after before)).reading ≡ true
      → ((run py config
            (received frame ∷ ended (after before).count ∷ [])
            (run py config (begun m ∷ es) (after before))).calls
          (after before).count).outcome
        ≡ replied r
  unfolding run
  reply_returned before m es frame r goes apart few h decoded replies same reads =
      let s = after before in
      let sound = run-IsSound py config before in
      let (k, w) =
        run-Waits es s.count s.tracker.next_seq 0 (begin_call py config m s) sound.numbered
          (omega arith) h (step-IsSound py config (begun m) s sound) (beginning m s goes apart) in
      let s2 = run py config es (begin_call py config m s) in
      let c = given_reply frame r s.count s.tracker.next_seq k s2 w decoded replies same reads in
      returned_reply s.count r (receive_frame py config frame s2) (ap (λ c. c.outcome) c)
        (ap (λ c. c.future) c)
