-- ===== src/Control/Safety/Bounds.antt =====
-- What leaves the limits: nothing, whatever the command carries.
use pibot.Prelude.{
  ◌≡◌, refl, sym, true, false, ◌⊎◌, inl, inr, arith, [], ◌∷◌, Bool-cases, zero, suc,
}
use pibot.Prelude.Int.{ℤ, pos, negsuc, neg, ◌≤ℤ◌}
use pibot.Python.Text.{Text, codes, text_eq}
use pibot.Python.Text.Laws.{text_eq_iff}
use pibot.Python.Result.{Result, ok, >>=-ok, ok-injective, ◌>>=◌, or_raise, key_error}
use pibot.Python.Dict.{Dict, get}
use mathlib.Core.Path.{subst}
use pibot.Python.Value.{Value, int, Num, whole, real, Runtime, num_lt, num_neg, num_trunc, of_num}
use pibot.Python.Value.Laws.{IsTruncating}
use pibot.Protocol.Message.{MessageType, Message, message, is_command}
use pibot.Control.Safety.{
  Limits, bound, number_at, clamp_drive, clamp_servo, clamp_motor, clamp_args, clamp_command,
  is_motion,
}

module _ {F O : Type 0} (py : Runtime F O) where
  -- a <= b, as the program's comparison tells it: NaN is below nothing but itself.
  abbrev pub AtMost : Num F → Num F → Type 0
  AtMost a b = (num_lt py a b ≡ true) ⊎ (a ≡ b)

  abbrev pub Within : Num F → Num F → Num F → Type 0
  Within low high x = AtMost low x × AtMost x high

  -- The bound holds of every value, also of NaN and the infinities, from low <= high alone.
  pub bound-Within : (x low high : Num F) → AtMost low high → Within low high (bound py x low high)
  unfolding bound
  bound-Within x low high h = ground arith

  -- A value strictly between the bounds is left as it is.
  pub bound_inside :
      (x low high : Num F)
      → num_lt py low x ≡ true
      → num_lt py x high ≡ true
      → bound py x low high ≡ x
  unfolding bound
  bound_inside x low high h k = rw (k, h)

-- Limits that are no empty range.
pub record IsSane {F O : Type 0} (py : Runtime F O) (limits : Limits F) : Type 0 where
  pub sane_v : AtMost py (num_neg py limits.max_v) limits.max_v
  pub sane_w : AtMost py (num_neg py limits.max_w) limits.max_w
  pub sane_servo : AtMost py limits.servo_min limits.servo_max
  pub sane_pwm : pos 0 ≤ℤ limits.max_pwm

-- A message that no actuator is driven out of its limits by.
pub data IsBounded {F O : Type 0} (py : Runtime F O) (limits : Limits F)
    : Message F O → Type 0 where
  drive :
      (t : MessageType) (n : ℤ) (v w : Num F)
      → Within py (num_neg py limits.max_v) limits.max_v v
      → Within py (num_neg py limits.max_w) limits.max_w w
      → IsBounded py limits
          (message t n (codes "drive") ((codes "v", of_num v) ∷ (codes "w", of_num w) ∷ []))
  servo :
      (t : MessageType) (n : ℤ) (joint : Value F O) (deg : Num F)
      → Within py limits.servo_min limits.servo_max deg
      → IsBounded py limits
          (message t n (codes "servo") ((codes "id", joint) ∷ (codes "deg", of_num deg) ∷ []))
  motor :
      (t : MessageType) (n : ℤ) (id : Value F O) (pwm : ℤ)
      → neg limits.max_pwm ≤ℤ pwm
      → pwm ≤ℤ limits.max_pwm
      → IsBounded py limits
          (message t n (codes "motor") ((codes "id", id) ∷ (codes "pwm", int pwm) ∷ []))
  still : (m : Message F O) → is_motion m ≡ false → IsBounded py limits m

-- int() of a number between two integers is between them.
trunc_within :
    {F O : Type 0} (py : Runtime F O) (laws : IsTruncating py) (low high : ℤ) (b : Num F) (n : ℤ)
    → Within py (whole low) (whole high) b
    → num_trunc py b ≡ ok n
    → (low ≤ℤ n) × (n ≤ℤ high)
unfolding num_trunc num_lt
trunc_within py laws low high (whole a) n h e = ground arith
trunc_within py laws low high (real y) n (inl p, inl q) e =
    let (k, t, lo, hi) = laws.trunc_between low high y p q in ground (arith, t)
trunc_within py laws low high (real y) n (inl p, inr q) e = cc
trunc_within py laws low high (real y) n (inr p, q) e = cc

module _ {F O : Type 0} (py : Runtime F O) (laws : IsTruncating py) (limits : Limits F)
    (sane : IsSane py limits) where
  drive-IsBounded :
      (m : Message F O) (args : Dict (Value F O))
      → clamp_drive py m.args limits ≡ ok args
      → IsBounded py limits (message m.type m.seq (codes "drive") args)
  unfolding clamp_drive
  drive-IsBounded m args h =
      let (v, _, rest) = >>=-ok (number_at py (codes "v") m.args) h in
      let (w, _, done) = >>=-ok (number_at py (codes "w") m.args) rest in
      subst (λ a. IsBounded py limits (message m.type m.seq (codes "drive") a)) (ok-injective done)
        (drive m.type m.seq _ _ (bound-Within py (real v) _ _ sane.sane_v)
          (bound-Within py (real w) _ _ sane.sane_w))

  servo-IsBounded :
      (m : Message F O) (args : Dict (Value F O))
      → clamp_servo py m.args limits ≡ ok args
      → IsBounded py limits (message m.type m.seq (codes "servo") args)
  unfolding clamp_servo
  servo-IsBounded m args h =
      let (joint, _, rest) = >>=-ok (or_raise (get (codes "id") m.args) key_error) h in
      let (deg, _, done) = >>=-ok (number_at py (codes "deg") m.args) rest in
      subst (λ a. IsBounded py limits (message m.type m.seq (codes "servo") a)) (ok-injective done)
        (servo m.type m.seq joint _ (bound-Within py (real deg) _ _ sane.sane_servo))

  pwm_range : AtMost py (whole (neg limits.max_pwm)) (whole limits.max_pwm)
  unfolding num_lt
  pwm_range = let h = sane.sane_pwm in range limits.max_pwm h
    where
      range : (p : ℤ) → pos 0 ≤ℤ p → AtMost py (whole (neg p)) (whole p)
      range (pos zero) h = inr refl
      range (pos (suc n)) h = inl (ground arith)
      range (negsuc n) h = absurd (omega arith)

  motor-IsBounded :
      (m : Message F O) (args : Dict (Value F O))
      → clamp_motor py m.args limits ≡ ok args
      → IsBounded py limits (message m.type m.seq (codes "motor") args)
  unfolding clamp_motor
  motor-IsBounded m args h =
      let (x, _, rest) = >>=-ok (number_at py (codes "pwm") m.args) h in
      let b = bound py (real x) (whole (neg limits.max_pwm)) (whole limits.max_pwm) in
      let (pwm, e, rest') = >>=-ok (num_trunc py b) rest in
      let (id, _, done) = >>=-ok (or_raise (get (codes "id") m.args) key_error) rest' in
      let (low, high) =
        trunc_within py laws (neg limits.max_pwm) limits.max_pwm b pwm
          (bound-Within py (real x) _ _ pwm_range) e in
      subst (λ a. IsBounded py limits (message m.type m.seq (codes "motor") a)) (ok-injective done)
        (motor m.type m.seq id pwm low high)

  branch-IsBounded :
      (m c : Message F O) (name : Text) (r : Result (Dict (Value F O)))
      → ((args : Dict (Value F O))
          → r ≡ ok args
          → IsBounded py limits (message m.type m.seq name args))
      → text_eq m.name name ≡ true
      → (r >>= λ args. ok (message m.type m.seq m.name args)) ≡ ok c
      → IsBounded py limits c
  branch-IsBounded m c name r k e h =
      let (args, p, done) = >>=-ok r h in
      subst (IsBounded py limits) (ok-injective done) (
        subst (λ n. IsBounded py limits (message m.type m.seq n args))
          (sym ((text_eq_iff m.name name).0 e)) (k args p))

  still-IsBounded : (m c : Message F O) → is_motion m ≡ false → ok m ≡ ok c → IsBounded py limits c
  still-IsBounded m c h e = subst (IsBounded py limits) (ok-injective e) (still m h)

  clamp_args-IsBounded : (m c : Message F O) → clamp_args py m limits ≡ ok c → IsBounded py limits c
  unfolding clamp_args
  clamp_args-IsBounded m c h = elim (Bool-cases (text_eq m.name (codes "drive"))) [
    | inl e ↦
        branch-IsBounded m c _ (clamp_drive py m.args limits) (drive-IsBounded m) e
          (rw (e, clamp_args) at h)
    | inr not_drive ↦ elim (Bool-cases (text_eq m.name (codes "servo"))) [
      | inl e ↦
          branch-IsBounded m c _ (clamp_servo py m.args limits) (servo-IsBounded m) e
            (rw (not_drive, e, clamp_args) at h)
      | inr not_servo ↦ elim (Bool-cases (text_eq m.name (codes "motor"))) [
        | inl e ↦
            branch-IsBounded m c _ (clamp_motor py m.args limits) (motor-IsBounded m) e
              (rw (not_drive, not_servo, e, clamp_args) at h)
        | inr not_motor ↦
            still-IsBounded m c
              (unfold is_motion in ground (arith, not_drive, not_servo, not_motor))
              (rw (not_drive, not_servo, not_motor, clamp_args) at h)
      ]
    ]
  ]

  -- Whatever message comes in, a NaN or an infinity among its numbers included, what
  -- `clamp_command` lets through drives no actuator out of its limits.
  pub clamp_command-IsBounded :
      (m c : Message F O) → clamp_command py m limits ≡ ok c → IsBounded py limits c
  unfolding clamp_command
  clamp_command-IsBounded m c h = elim (Bool-cases (is_command m)) [
    | inl e ↦ clamp_args-IsBounded m c (rw (e, clamp_command) at h)
    | inr e ↦
        still-IsBounded m c (unfold is_motion in ground (arith, e)) (rw (e, clamp_command) at h)
  ]
