-- ===== src/World/Ends.antt =====
-- Runs that end within their fuel.
use node_ffi.Base.{ℕ, ◌≡◌, refl, ◌≢◌, ◌∙◌, Bool, true, false, if◌then◌else◌}
use node_ffi.Value.{Message, Failure, Result, ok, thrown, overflow}
use node_ffi.World.{World, TypeObject, Js, pure, raise, gets, assert, continue, ◌>>=◌}

-- The run returns or throws.
abbrev pub Ends : {N A : Type 0} → Js N A → World N → Type 0
Ends m w = (m w).0 ≢ overflow

module _ {N A B : Type 0} where
  continue-Ends :
      (r : Result A) (f : A → Js N B) (w : World N)
      → r ≢ overflow
      → ((a : A) → r ≡ ok a → Ends (f a) w)
      → (continue r f w).0 ≢ overflow
  continue-Ends (ok a) f w h k = k a refl
  continue-Ends (thrown e) f w h k = λ x. cc x
  continue-Ends overflow f w h k = absurd (h refl)

  pub bind-Ends :
      (m : Js N A) (f : A → Js N B) (w : World N)
      → Ends m w
      → ((a : A) → (m w).0 ≡ ok a → Ends (f a) (m w).1)
      → Ends (m >>= f) w
  bind-Ends m f w h k = continue-Ends (m w).0 f (m w).1 h k

-- It does so wherever the types have these properties, and assigns none of them.
pub record EndsAt {N A : Type 0} (ts : ℕ → TypeObject) (m : Js N A) : Type 0 where
  pub ends : (w : World N) → w.types ≡ ts → Ends m w
  pub keeps : (w : World N) → (m w).1.types ≡ w.types

module _ {N A : Type 0} (ts : ℕ → TypeObject) where
  pub EndsAt-pure : (a : A) → EndsAt {N = N} ts (pure a)
  EndsAt-pure a = record { ends = λ w e x. cc x; keeps = λ w. refl }

  pub EndsAt-raise : (e : Failure) → EndsAt {N = N} {A = A} ts (raise e)
  EndsAt-raise e = record { ends = λ w h x. cc x; keeps = λ w. refl }

  pub EndsAt-gets : (f : World N → A) → EndsAt ts (gets f)
  EndsAt-gets f = record { ends = λ w e x. cc x; keeps = λ w. refl }

  pub EndsAt-if :
      (b : Bool) (m k : Js N A) → EndsAt ts m → EndsAt ts k → EndsAt ts (if b then m else k)
  EndsAt-if true m k hm hk = hm
  EndsAt-if false m k hm hk = hk

pub EndsAt-assert :
    {N : Type 0} (ts : ℕ → TypeObject) (b : Bool) (m : Message) → EndsAt {N = N} ts (assert b m)
EndsAt-assert ts true m = record { ends = λ w e x. cc x; keeps = λ w. refl }
EndsAt-assert ts false m = record { ends = λ w e x. cc x; keeps = λ w. refl }

module _ {N A B : Type 0} (ts : ℕ → TypeObject) where
  types-continue :
      (r : Result A) (f : A → Js N B)
      → ((a : A) → EndsAt ts (f a))
      → (w : World N) → (continue r f w).1.types ≡ w.types
  types-continue (ok a) f hf w = (hf a).keeps w
  types-continue (thrown e) f hf w = refl
  types-continue overflow f hf w = refl

  pub EndsAt-bind :
      (m : Js N A) (f : A → Js N B)
      → EndsAt ts m
      → ((a : A) → EndsAt ts (f a))
      → EndsAt ts (m >>= f)
  EndsAt-bind m f hm hf = record {
    ends = λ w e. bind-Ends m f w (hm.ends w e) (λ a x. (hf a).ends (m w).1 (hm.keeps w ∙ e));
    keeps = λ w. types-continue (m w).0 f hf (m w).1 ∙ hm.keeps w;
  }

pub ruleset ends_rules =
    (EndsAt-pure, EndsAt-raise, EndsAt-gets, EndsAt-if, EndsAt-assert, EndsAt-bind)
