-- ===== src/Agent/Safety/Sends.antt =====
-- What the actions of the agent put on the link: rules for each way to build an action.
use mathlib.Core.List.{append-nil, append_assoc}
use pibot.Prelude.{
  ◌≡◌, refl, sym, ap, ◌∙◌, Bool, true, false, List, [], ◌++◌, All, All-append, if◌then◌else◌,
}
use pibot.Python.Utf8.{Bytes}
use pibot.Python.Result.{Result, ok, err}
use pibot.Agent.Safety.{AgentSafety, Action, continue, ◌>>=◌, pure, lift, modify}

-- From s to t the frames that went through all have the property, and a latched stop stays latched.
pub record Extends {F : Type 0} (Q : Bytes → Type 0) (s t : AgentSafety F) : Type 0 where
  pub frames : List Bytes
  pub appended : t.sent ≡ s.sent ++ frames
  pub all : All Q frames
  pub latch : s.estop.latched ≡ true → t.estop.latched ≡ true

module _ {F : Type 0} (Q : Bytes → Type 0) where
  pub Extends-same :
      (s t : AgentSafety F)
      → t.sent ≡ s.sent
      → (s.estop.latched ≡ true → t.estop.latched ≡ true)
      → Extends Q s t
  Extends-same s t p q = record {
    frames = [];
    appended = p ∙ sym (append-nil s.sent);
    all = tt;
    latch = q;
  }

  pub Extends-trans : {s t u : AgentSafety F} → Extends Q s t → Extends Q t u → Extends Q s u
  Extends-trans {s} {t} {u} a b = record {
    frames = a.frames ++ b.frames;
    appended =
        b.appended ∙ ap (λ l. l ++ b.frames) a.appended ∙ append_assoc s.sent a.frames b.frames;
    all = All-append Q a.frames b.frames a.all b.all;
    latch = λ h. b.latch (a.latch h);
  }

-- An action sends such frames only, whether it returns or raises.
pub record Sends {F A : Type 0} (Q : Bytes → Type 0) (m : Action F A) : Type 0 where
  pub at : (s : AgentSafety F) → Extends Q s (m s).1

module _ {F : Type 0} {Q : Bytes → Type 0} where
  pub Sends-pure : {A : Type 0} (a : A) → Sends {F = F} Q (pure a)
  Sends-pure a = record { at = λ s. Extends-same Q s s refl (λ h. h) }

  pub Sends-modify :
      (f : AgentSafety F → AgentSafety F)
      → ((s : AgentSafety F) → (f s).sent ≡ s.sent)
      → ((s : AgentSafety F) → s.estop.latched ≡ true → (f s).estop.latched ≡ true)
      → Sends Q (modify f)
  Sends-modify f p q = record { at = λ s. Extends-same Q s (f s) (p s) (q s) }

  Sends-continue :
      {A B : Type 0} (r : Result A) (f : A → Action F B)
      → ((a : A) → Sends Q (f a))
      → Sends Q (continue r f)
  Sends-continue (ok a) f k = record { at = (k a).at }
  Sends-continue (err e) f k = record { at = λ s. Extends-same Q s s refl (λ h. h) }

  pub Sends-bind :
      {A B : Type 0} (m : Action F A) (f : A → Action F B)
      → Sends Q m
      → ((a : A) → Sends Q (f a))
      → Sends Q (m >>= f)
  Sends-bind m f h k = record {
    at = λ s. let (r, t) = m s in Extends-trans Q (h.at s) ((Sends-continue r f k).at t);
  }

  pub Sends-bind-lift :
      {A B : Type 0} (r : Result A) (f : A → Action F B)
      → ((a : A) → r ≡ ok a → Sends Q (f a))
      → Sends Q (lift r >>= f)
  Sends-bind-lift (ok a) f k = record { at = (k a refl).at }
  Sends-bind-lift (err e) f k = record { at = λ s. Extends-same Q s s refl (λ h. h) }

  pub Sends-if :
      {A : Type 0} (b : Bool) (m n : Action F A)
      → Sends Q m
      → Sends Q n
      → Sends Q (if b then m else n)
  Sends-if true m n h k = h
  Sends-if false m n h k = k
