-- ===== src/Arm/Programs/Playable.antt =====
-- pibot/arm/programs.py: the steps that come out of a program that was accepted.
use mathlib.Core.Path.{subst}
use pibot.Prelude.{
  ◌≡◌, refl, sym, ap, ◌||◌, ℕ, zero, suc, ◌<◌, ◌≤◌, true, false, Bool-cases, Option-cases, inl, inr,
  List, [], ◌∷◌, ◌++◌, All, All-append, length, length-append, arith,
}
use pibot.Prelude.Int.{ℤ, pos, negsuc, ltb_ℤ}
use pibot.Python.Text.{Text, codes, text_eq, is_empty}
use pibot.Python.Text.Laws.{text_eq_iff}
use pibot.Python.Result.{Result, ok, or_raise, value_error, ok-injective, >>=-ok}
use pibot.Python.Value.{Runtime}
use pibot.Python.Tree.{
  field_at, float_of, truth_of, Tree, leaf, list, dict, Items, no_items, item, Fields, no_fields,
  field,
}
use pibot.Arm.Programs.{
  positive, float_at, stripped, pose_of, count_of, nested_loop, grip_of, tool_of, wait_of,
  grip_step, tool_step, wait_step, ProgramStep, step, Steps, no_steps, then_step, Program, Nested,
  unusable, usable, kind_of, step_from, nested_in, nested_from, steps_from, loop_step,
  program_named, step_of, move_of, loop_of, program_from,
}
use pibot.Arm.Programs.Expand.{expand_step, expand_steps, expanded_steps, loop_steps, repeated}

module _ {F : Type 0} where
  abbrev pub IsAction : ProgramStep F → Type 0
  IsAction s = text_eq (kind_of s) (codes "loop") ≡ false

  -- The steps are played as one action or more, none of them a loop.
  abbrev pub Played : Result (List (ProgramStep F)) → Type 0
  Played played = (xs : List (ProgramStep F)) × (played ≡ ok xs) × All IsAction xs × (0 < length xs)

  number : Steps F → ℕ
  number no_steps = 0
  number (then_step s ss) = suc (number ss)

  -- Nested steps are played, as one action each at least.
  abbrev PlayedAll : Steps F → Type 0
  PlayedAll ss =
      (xs : List (ProgramStep F)) × (expand_steps ss ≡ ok xs)
      × All IsAction xs
      × (number ss ≤ length xs)

  abbrev Playable : ProgramStep F → Type 0
  Playable s = Played (expand_step s)

  repeated-Played :
      (n : ℕ) (xs : List (ProgramStep F)) → All IsAction xs → All IsAction (repeated n xs)
  unfolding repeated
  repeated-Played zero xs h = tt
  repeated-Played (suc n) xs h = All-append IsAction xs (repeated n xs) h (repeated-Played n xs h)

  action-Playable : (s : ProgramStep F) → IsAction s → Playable s
  unfolding expand_step
  action-Playable (step kind pose seconds deg on count steps) h =
      rw h ((step kind pose seconds deg on count steps ∷ [], refl, (h, tt), omega arith))

  loop-Playable :
      (count : ℤ) (ss : Steps F)
      → ltb_ℤ (pos 0) count ≡ true
      → 0 < number ss
      → PlayedAll ss
      → Playable (loop_step count ss)
  unfolding expand_step loop_steps repeated
  loop-Playable (pos zero) ss h some_steps (xs, e, p, q) = absurd (ground arith)
  loop-Playable (pos (suc n)) ss h some_steps (xs, e, p, q) = (
    xs ++ repeated n xs,
    rw e refl,
    repeated-Played (suc n) xs p,
    omega (arith, length-append xs (repeated n xs)),
  )
  loop-Playable (negsuc n) ss h some_steps (xs, e, p, q) = absurd (ground arith)

  then-Played :
      (s : ProgramStep F) (ss : Steps F) → Playable s → PlayedAll ss → PlayedAll (then_step s ss)
  unfolding expand_step number
  then-Played s ss (xs, e, p, q) (ys, f, r, t) =
      (xs ++ ys, rw (e, f) refl, All-append IsAction xs ys p r, omega (arith, length-append xs ys))

  -- What is usable under "steps" makes steps that can be played, one at least.
  abbrev NestedPlayable : Nested F → Type 0
  NestedPlayable unusable = Unit
  NestedPlayable (usable made) = (ss : Steps F) → made ≡ ok ss → PlayedAll ss × (0 < number ss)

module _ {F O : Type 0} (py : Runtime F O) (show : Tree F O → Text) where
  move-kind :
      (kind : Text) (d : Fields F O) (s : ProgramStep F)
      → move_of py show kind d ≡ ok s
      → kind_of s ≡ kind
  unfolding move_of
  move-kind kind d s h =
      let (pose, named, h1) =
        >>=-ok (or_raise (pose_of py show (field_at (codes "pose") d)) value_error) h in
      let (seconds, timed, h2) =
        >>=-ok (float_at py show (codes "seconds") (py.literal 20 1) d) h1 in
      elim (Bool-cases (positive py show seconds)) [
        | inl e ↦ ap kind_of (sym (ok-injective (rw e at h2)))
        | inr e ↦ let c = rw e at h2 in cc
      ]

  nested_loop-Playable :
      (count : ℤ) (nested : Nested F) (s : ProgramStep F)
      → ltb_ℤ (pos 0) count ≡ true
      → NestedPlayable nested
      → nested_loop py show count nested ≡ ok s
      → Playable s
  nested_loop-Playable count unusable s e inner h = cc
  nested_loop-Playable count (usable made) s e inner h =
      let (ss, h1, h2) = >>=-ok made h in
      let (played, some_steps) = inner ss h1 in
      subst Playable (ok-injective h2) (loop-Playable count ss e some_steps played)

  loop_of-Playable :
      (d : Fields F O) (nested : Nested F) (s : ProgramStep F)
      → NestedPlayable nested
      → loop_of py show d nested ≡ ok s
      → Playable s
  unfolding loop_of
  loop_of-Playable d nested s inner h =
      let (count, counted, h1) = >>=-ok (count_of py show (field_at (codes "count") d)) h in
      elim (Bool-cases (ltb_ℤ (pos 0) count)) [
        | inl e ↦ nested_loop-Playable count nested s e inner (rw e at h1)
        | inr e ↦ let c = rw e at h1 in cc
      ]

  move_kinds :
      (kind : Text)
      → (text_eq kind (codes "moveJ") || text_eq kind (codes "moveL")) ≡ true
      → text_eq kind (codes "loop") ≡ false
  unfolding text_eq
  move_kinds kind h = elim (Bool-cases (text_eq kind (codes "moveJ"))) [
    | inl e ↦ rw ((text_eq_iff kind (codes "moveJ")).0 e) refl
    | inr e ↦ rw ((text_eq_iff kind (codes "moveL")).0 (rw e at h)) refl
  ]

  grip_of-Playable : (d : Fields F O) (s : ProgramStep F) → grip_of py show d ≡ ok s → Playable s
  unfolding grip_of text_eq
  grip_of-Playable d s h = elim (Option-cases (field_at (codes "deg") d)) [
    | inl e ↦ let c = rw (grip_of, e) at h in cc
    | inr (t, e) ↦
        let (deg, h1, h2) = >>=-ok (float_of py t) (rw (grip_of, e) at h) in
        subst Playable (ok-injective h2) (action-Playable (grip_step deg) refl)
  ]

  tool_of-Playable : (d : Fields F O) (s : ProgramStep F) → tool_of py show d ≡ ok s → Playable s
  unfolding tool_of text_eq
  tool_of-Playable d s h = elim (Option-cases (field_at (codes "on") d)) [
    | inl e ↦ let c = rw (tool_of, e) at h in cc
    | inr (t, e) ↦
        subst Playable (ok-injective (rw (tool_of, e) at h))
          (action-Playable (tool_step (truth_of py t)) refl)
  ]

  wait_of-Playable : (d : Fields F O) (s : ProgramStep F) → wait_of py show d ≡ ok s → Playable s
  unfolding wait_of text_eq
  wait_of-Playable d s h =
      let (seconds, timed, h1) = >>=-ok (float_at py show (codes "seconds") (py.literal 0 0) d) h in
      elim (Bool-cases (positive py show seconds)) [
        | inl e ↦
            subst Playable (ok-injective (rw e at h1)) (action-Playable (wait_step seconds) refl)
        | inr e ↦ let c = rw e at h1 in cc
      ]

  step_of-Playable :
      (d : Fields F O) (nested : Nested F) (s : ProgramStep F)
      → NestedPlayable nested
      → step_of py show d nested ≡ ok s
      → Playable s
  unfolding step_of
  step_of-Playable d nested s inner h =
      let kind = stripped py show (codes "kind") d in
      elim (Bool-cases (text_eq kind (codes "moveJ") || text_eq kind (codes "moveL"))) [
        | inl e ↦
            let same = move-kind kind d s (rw e at h) in
            action-Playable s (rw same (move_kinds kind e))
        | inr e ↦ elim (Bool-cases (text_eq kind (codes "grip"))) [
          | inl f ↦ grip_of-Playable d s (rw (e, f) at h)
          | inr f ↦ elim (Bool-cases (text_eq kind (codes "tool"))) [
            | inl g ↦ tool_of-Playable d s (rw (e, f, g) at h)
            | inr g ↦ elim (Bool-cases (text_eq kind (codes "wait"))) [
              | inl k ↦ wait_of-Playable d s (rw (e, f, g, k) at h)
              | inr k ↦ elim (Bool-cases (text_eq kind (codes "loop"))) [
                | inl l ↦ loop_of-Playable d nested s inner (rw (e, f, g, k, l) at h)
                | inr l ↦ let c = rw (e, f, g, k, l) at h in cc
              ]
            ]
          ]
        ]
      ]

  mutual
    unfolding step_from number expand_step

    step_from-Playable :
        (t : Tree F O) (s : ProgramStep F) → step_from py show t ≡ ok s → Playable s
    step_from-Playable (dict d) s h =
        step_of-Playable d (nested_in py show d) s (nested_in-Playable d) h
    step_from-Playable (list ts) s h = cc
    step_from-Playable (leaf v) s h = cc

    nested_in-Playable : (d : Fields F O) → NestedPlayable (nested_in py show d)
    nested_in-Playable no_fields = tt
    nested_in-Playable (field k t d) = elim (Bool-cases (text_eq k (codes "steps"))) [
      | inl e ↦ rw e (nested_from-Playable t)
      | inr e ↦ rw e (nested_in-Playable d)
    ]

    nested_from-Playable : (t : Tree F O) → NestedPlayable (nested_from py show t)
    nested_from-Playable (list (item t ts)) = λ ss h.
        let (s, h1, h2) = >>=-ok (step_from py show t) h in
        let (rest, h3, h4) = >>=-ok (steps_from py show ts) h2 in
        (
          subst PlayedAll (ok-injective h4)
              (then-Played s rest (step_from-Playable t s h1) (steps_from-Playable ts rest h3)),
          subst (λ x. 0 < number x) (ok-injective h4) (omega arith),
        )
    nested_from-Playable (list no_items) = tt
    nested_from-Playable (leaf v) = tt
    nested_from-Playable (dict d) = tt

    steps_from-Playable :
        (ts : Items F O) (ss : Steps F) → steps_from py show ts ≡ ok ss → PlayedAll ss
    steps_from-Playable no_items ss h =
        subst PlayedAll (ok-injective h) (([], refl, tt, omega arith))
    steps_from-Playable (item t ts) ss h =
        let (s, h1, h2) = >>=-ok (step_from py show t) h in
        let (rest, h3, h4) = >>=-ok (steps_from py show ts) h2 in
        subst PlayedAll (ok-injective h4)
          (then-Played s rest (step_from-Playable t s h1) (steps_from-Playable ts rest h3))

module _ {F O : Type 0} (py : Runtime F O) (show : Tree F O → Text) (now : F) where
  made_Played :
      (name : Text) (nested : Nested F) (d : Fields F O) (p : Program F)
      → NestedPlayable nested
      → program_named py show now name nested d ≡ ok p
      → Played (expanded_steps p)
  unfolding program_named expanded_steps
  made_Played name unusable d p inner h = cc
  made_Played name (usable made) d p inner h =
      let (ss, h1, h2) = >>=-ok made h in
      let (created, h3, h4) = >>=-ok (float_at py show (codes "created") now d) h2 in
      let ((xs, e, all, more), some_steps) = inner ss h1 in
      subst (λ q. Played (expanded_steps q)) (ok-injective h4) ((xs, e, all, omega arith))

  -- A program that `from_dict` takes can be played: its expansion ends, it is not empty, and none
  -- of the steps that come out of it is a loop.
  pub program_from-Played :
      (d : Fields F O) (p : Program F)
      → program_from py show now d ≡ ok p
      → Played (expanded_steps p)
  unfolding program_from
  program_from-Played d p h = elim (Bool-cases (is_empty (stripped py show (codes "name") d))) [
    | inl e ↦ let c = rw (program_from, e) at h in cc
    | inr e ↦
        made_Played (stripped py show (codes "name") d) (nested_in py show d) d p
          (nested_in-Playable py show d) (rw (program_from, e) at h)
  ]
