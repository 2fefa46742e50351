-- ===== src/Agent/Control/Waits.antt =====
-- agent/control.py: how a call of `submit` waits while other things happen.
use pibot.Prelude.{
  ◌≡◌, ◌≢◌, refl, sym, ◌∙◌, ap, ℕ, ◌+◌, ◌%◌, ◌<◌, ◌==◌, true, false, Option, none, some, inl, inr,
  Bool-cases, arith,
}
use pibot.Prelude.Int.{ℤ, pos, pos_part, eqb_ℤ}
use pibot.Python.Value.{Runtime}
use pibot.Protocol.Message.{Message}
use pibot.Protocol.Sequence.{next}
use pibot.Agent.Safety.{Config}
use pibot.Agent.Control.{
  Outcome, pending, rejected, Call, Controller, register, forget, set_call, is_reply, is_telemetry,
  kept_acks, answered, resolve_call, resolve, end_call, routed, begin_call,
}
use pibot.Agent.Control.Replies.{IsSound, resolved-keeps, if_holds}
use pibot.Agent.Control.Table.{eqb-eq}

eqb-ne : (a b : ℤ) → a ≢ b → eqb_ℤ a b ≡ false
eqb-ne a b h = elim (Bool-cases (eqb_ℤ a b)) [ inl e ↦ absurd (h (eqb-eq a b e)) | inr e ↦ e ]

forget-other : (a q : ℤ) (acks : ℤ → Option ℕ) → a ≢ q → forget a acks q ≡ acks q
unfolding forget
forget-other a q acks h = rw (eqb-ne a q h) refl

register-other : (a q : ℤ) (n : ℕ) (acks : ℤ → Option ℕ) → a ≢ q → register a n acks q ≡ acks q
unfolding register
register-other a q n acks h = rw (eqb-ne a q h) refl

module _ {F O : Type 0} where
  abbrev pub waiting : ℕ → Call F O
  waiting q = record { seq = pos q; future = none; outcome = pending }

  -- Call i waits for a reply to number q, k calls after its beginning, and no other call does.
  pub record Waits (i q k : ℕ) (s : Controller F O) : Type 0 where
    pub mine : s.calls i ≡ waiting q
    pub entry : s.acks (pos q) ≡ some i
    pub older : i < s.count
    pub ahead : s.tracker.next_seq ≡ (q + 1 + k) % 256
    pub alone : (j : ℕ) → j ≢ i → (s.calls j).outcome ≡ pending → (s.calls j).seq ≢ pos q

  pub set_call-ne :
      (j i : ℕ) (c : Call F O) (calls : ℕ → Call F O) → j ≢ i → set_call j c calls i ≡ calls i
  unfolding set_call
  set_call-ne j i c calls h = ground arith

  -- The other calls stay apart when one of them changes.
  alone-set :
      (i q : ℕ) (calls : ℕ → Call F O) (j : ℕ) (c : Call F O)
      → (c.outcome ≡ pending → c.seq ≢ pos q)
      → ((n : ℕ) → n ≢ i → (calls n).outcome ≡ pending → (calls n).seq ≢ pos q)
      → (n : ℕ) → n ≢ i
      → (set_call j c calls n).outcome ≡ pending
      → (set_call j c calls n).seq ≢ pos q
  unfolding set_call
  alone-set i q calls j c h all n = elim (Bool-cases (j == n)) [
    | inl e ↦ rw e (λ ne. h)
    | inr e ↦ rw e (all n)
  ]

  answered-ne : (future : Option (Message F O)) → answered future ≢ pending
  unfolding answered
  answered-ne none h = cc
  answered-ne (some m) h = cc

  pub ended-Waits :
      (i q k j : ℕ) (o : Outcome F O) (s : Controller F O)
      → j ≢ i
      → (s.calls j).outcome ≡ o
      → Waits i q k s
      → Waits i q k (end_call j o s)
  unfolding end_call
  ended-Waits i q k j pending s ne is_pending w = record {
    mine = set_call-ne j i _ s.calls ne ∙ w.mine;
    entry = forget-other (s.calls j).seq (pos q) s.acks (w.alone j ne is_pending) ∙ w.entry;
    older = w.older;
    ahead = w.ahead;
    alone = alone-set i q s.calls j _ (λ h. absurd (answered-ne (s.calls j).future h)) w.alone;
  }
  ended-Waits i q k j _ s ne o w = w

  kept_acks-other :
      (o : Outcome F O) (a q : ℤ) (acks : ℤ → Option ℕ) → a ≢ q → kept_acks o a acks q ≡ acks q
  unfolding kept_acks
  kept_acks-other (rejected why) a q acks h = forget-other a q acks h
  kept_acks-other _ a q acks h = refl

  admitted_mine :
      (calls : ℕ → Call F O) (n i : ℕ) (c : Call F O) → i < n → set_call n c calls i ≡ calls i
  admitted_mine calls n i c h = set_call-ne n i c calls (λ e. omega (arith, e))

  -- Another call leaves the entry alone, whatever becomes of it.
  begun_entry :
      (o : Outcome F O) (a q : ℤ) (n : ℕ) (acks : ℤ → Option ℕ)
      → a ≢ q
      → kept_acks o a (register a n acks) q ≡ acks q
  begun_entry o a q n acks h =
      kept_acks-other o a q (register a n acks) h ∙ register-other a q n acks h

  resolve-Waits :
      (m : Message F O) (i q k : ℕ) (s : Controller F O) (target : Option ℕ)
      → s.acks m.seq ≡ target
      → m.seq ≢ pos q
      → IsSound s
      → Waits i q k s
      → Waits i q k (record s { calls = resolve m target s.calls })
  unfolding resolve resolve_call
  resolve-Waits m i q k s none e h sound w = record {
    mine = w.mine;
    entry = w.entry;
    older = w.older;
    ahead = w.ahead;
    alone = w.alone;
  }
  resolve-Waits m i q k s (some j) e h sound w =
      let at = (sound.entries m.seq j e).1 in
      let c = s.calls j in
      let (same, same') = resolved-keeps m c c.future in
      let not_mine : j ≢ i =
        λ ji. h (sym at ∙ ap (λ n. (s.calls n).seq) ji ∙ ap (λ c. c.seq) w.mine) in
      record {
        mine = set_call-ne j i _ s.calls not_mine ∙ w.mine;
        entry = w.entry;
        older = w.older;
        ahead = w.ahead;
        alone =
            alone-set i q s.calls j _ (λ p e'. w.alone j not_mine (sym same' ∙ p) (sym same ∙ e'))
              w.alone;
      }

  pub routed-Waits :
      (m : Message F O) (i q k : ℕ) (s : Controller F O)
      → (is_reply m.type ≡ true → m.seq ≢ pos q)
      → IsSound s
      → Waits i q k s
      → Waits i q k (routed m s)
  unfolding routed
  routed-Waits m i q k s h sound w =
      if_holds (Waits i q k) (is_reply m.type) _ _
        (λ e. resolve-Waits m i q k s (s.acks m.seq) refl (h e) sound w)
        (if_holds (Waits i q k) (is_telemetry m.type) _ s
          (λ e. record {
            mine = w.mine;
            entry = w.entry;
            older = w.older;
            ahead = w.ahead;
            alone = w.alone;
          })
          w)

-- The next 255 numbers of the tracker are others.
pos_ne : (q k : ℕ) → q < 256 → k < 255 → (q + 1 + k) % 256 ≡ q → ⊥
pos_ne q k small few e = omega arith

next_ahead : (q k n : ℕ) → n ≡ (q + 1 + k) % 256 → (n + 1) % 256 ≡ (q + 1 + (k + 1)) % 256
next_ahead q k n e = omega arith

module _ {F O : Type 0} (py : Runtime F O) (config : Config F) where
  pub begin_call-Waits :
      (m : Message F O) (i q k : ℕ) (s : Controller F O)
      → q < 256
      → k < 255
      → Waits i q k s
      → Waits i q (k + 1) (begin_call py config m s)
  unfolding begin_call next
  begin_call-Waits m i q k s small few w =
      let other : pos s.tracker.next_seq ≢ pos q =
        λ e. pos_ne q k small few (sym w.ahead ∙ ap pos_part e) in
      record {
        mine = admitted_mine s.calls s.count i _ w.older ∙ w.mine;
        entry = begun_entry _ (pos s.tracker.next_seq) (pos q) s.count s.acks other ∙ w.entry;
        older = omega (arith, w.older);
        ahead = next_ahead q k s.tracker.next_seq w.ahead;
        alone = alone-set i q s.calls s.count _ (λ p. other) w.alone;
      }
