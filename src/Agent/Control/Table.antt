-- ===== src/Agent/Control/Table.antt =====
-- agent/control.py: the entries of the dict of acks, and the calls that they stand for.
use pibot.Prelude.{
  ◌≡◌, refl, sym, ◌∙◌, ap, ℕ, ◌+◌, ◌<◌, ◌==◌, true, Option, none, some, ◌⊎◌, inl, inr, Bool-cases,
  arith, ==_iff,
}
use mathlib.Core.Path.{subst}
use pibot.Prelude.Int.{ℤ, pos, negsuc, eqb_ℤ}
use pibot.Python.Result.{Result, ok, err}
use pibot.Agent.Safety.{Reason}
use pibot.Agent.Control.{
  Outcome, pending, raised, Call, register, forget, set_call, admitted, kept_acks,
}

pub eqb-eq : (a b : ℤ) → eqb_ℤ a b ≡ true → a ≡ b
eqb-eq (pos a) (pos b) h = ground arith
eqb-eq (pos a) (negsuc b) h = ground arith
eqb-eq (negsuc a) (pos b) h = ground arith
eqb-eq (negsuc a) (negsuc b) h = ground arith

pub eqb_refl : (a : ℤ) → eqb_ℤ a a ≡ true
eqb_refl (pos a) = ground arith
eqb_refl (negsuc a) = ground arith

module _ {F O : Type 0} where
  -- The call waits, or the sending of its frame raised.
  abbrev pub Unanswered : Outcome F O → Type 0
  Unanswered pending = Unit
  Unanswered (raised why) = Unit
  Unanswered _ = ⊥

  -- Each entry is that of an earlier call with this sequence number that is not answered.
  abbrev pub Table : (ℤ → Option ℕ) → (ℕ → Call F O) → ℕ → Type 0
  Table acks calls n =
      (k : ℤ) (i : ℕ)
      → acks k ≡ some i
      → (i < n) × ((calls i).seq ≡ k) × Unanswered (calls i).outcome

  pub set_call-same : (i : ℕ) (c : Call F O) (calls : ℕ → Call F O) → set_call i c calls i ≡ c
  unfolding set_call
  set_call-same i c calls = ground arith

  set_call-other :
      (i j : ℕ) (c : Call F O) (calls : ℕ → Call F O) → j < i → set_call i c calls j ≡ calls j
  unfolding set_call
  set_call-other i j c calls h = ground arith

  Table-new :
      (acks : ℤ → Option ℕ) (calls : ℕ → Call F O) (n : ℕ) (c : Call F O)
      → Table acks calls n
      → Table acks (set_call n c calls) (n + 1)
  Table-new acks calls n c t k i e =
      let (before, same, open_still) = t k i e in
      rw (set_call-other n i c calls before) (omega arith, same, open_still)

  Table-register :
      (acks : ℤ → Option ℕ) (calls : ℕ → Call F O) (n : ℕ) (q : ℤ) (c : Call F O)
      → c.seq ≡ q
      → Unanswered c.outcome
      → Table acks calls n
      → Table (register q n acks) (set_call n c calls) (n + 1)
  unfolding register
  Table-register acks calls n q c is_q waits t k i e = elim (Bool-cases (eqb_ℤ q k)) [
    | inr other ↦ Table-new acks calls n c t k i (rw other at e)
    | inl same ↦
        let here : n ≡ i = cc (rw same at e) in
        let g : set_call n c calls i ≡ c = rw (← here) (set_call-same n c calls) in
        rw g (omega arith, is_q ∙ eqb-eq q k same, waits)
  ]

  -- Without the entry of a sequence number, any calls of that number may have ended.
  pub Table-forget :
      (acks : ℤ → Option ℕ) (calls calls' : ℕ → Call F O) (n : ℕ) (q : ℤ)
      → Table acks calls n
      → ((i : ℕ)
          → ((calls i).seq ≡ q)
            ⊎ (((calls' i).seq ≡ (calls i).seq)
                × (Unanswered (calls i).outcome → Unanswered (calls' i).outcome)))
      → Table (forget q acks) calls' n
  unfolding forget
  Table-forget acks calls calls' n q t rest k i e = elim (Bool-cases (eqb_ℤ q k)) [
    | inl same ↦ let c = rw same at e in cc
    | inr other ↦
        let (before, same, waits) = t k i (rw other at e) in
        elim (rest i) [
          | inl gone ↦ let c = rw (sym gone ∙ same, eqb_refl k) at other in cc
          | inr (kept, still) ↦ (before, kept ∙ same, still waits)
        ]
  ]

  Table-refused :
      (acks : ℤ → Option ℕ) (calls : ℕ → Call F O) (n : ℕ) (q : ℤ) (c : Call F O)
      → Table acks calls n
      → Table (forget q (register q n acks)) (set_call n c calls) (n + 1)
  unfolding forget register
  Table-refused acks calls n q c t k i e = elim (Bool-cases (eqb_ℤ q k)) [
    | inl same ↦ let c = rw same at e in cc
    | inr other ↦ Table-new acks calls n c t k i (rw other at e)
  ]

  -- The table of a call that began, by what became of it.
  pub Table-begun :
      (acks : ℤ → Option ℕ) (calls : ℕ → Call F O) (n : ℕ) (q : ℤ) (answer : Result Reason)
      → Table acks calls n
      → Table
          (kept_acks {F = F} {O = O} (admitted answer) q (register q n acks))
          (set_call n (record { seq = q; future = none; outcome = admitted answer }) calls)
          (n + 1)
  unfolding admitted kept_acks
  Table-begun acks calls n q (ok Reason.sent) t = Table-register acks calls n q _ refl tt t
  Table-begun acks calls n q (ok Reason.estop) t = Table-refused acks calls n q _ t
  Table-begun acks calls n q (ok Reason.rate) t = Table-refused acks calls n q _ t
  Table-begun acks calls n q (err why) t = Table-register acks calls n q _ refl tt t

  -- A call whose future is given a reply stays where it stands in the table.
  pub set_call-Table :
      (acks : ℤ → Option ℕ) (calls : ℕ → Call F O) (n j : ℕ) (c : Call F O)
      → c.seq ≡ (calls j).seq
      → c.outcome ≡ (calls j).outcome
      → Table acks calls n
      → Table acks (set_call j c calls) n
  unfolding set_call
  set_call-Table acks calls n j c same same' t k i e =
      let (before, at, waits) = t k i e in
      elim (Bool-cases (j == i)) [
        | inr other ↦ rw other (before, at, waits)
        | inl here ↦
            let is_i : calls j ≡ calls i = ap calls ((==_iff j i).0 here) in
            rw here (
              before,
              same ∙ ap (λ q. q.seq) is_i ∙ at,
              subst Unanswered (sym (same' ∙ ap (λ q. q.outcome) is_i)) waits,
            )
      ]
