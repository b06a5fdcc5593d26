-- ===== src/World/Keeps.antt =====
-- Programs that assign no property of a type but `ffi_type`, and draw no random number: one rule for
-- each way to build a program.
use node_ffi.Base.{◌≡◌, refl, Bool, true, false, if◌then◌else◌, Option, none, some, ◌∙◌}
use node_ffi.Value.{Failure, Message, Result, ok, thrown, overflow}
use node_ffi.World.{World, Js, pure, raise, gets, exhausted, assert, continue, ◌>>=◌}

pub record KeepsTypes {N A : Type 0} (m : Js N A) : Type 0 where
  pub at : (w : World N) → (m w).1.types ≡ w.types
  pub ids : (w : World N) → (m w).1.ffi_id ≡ w.ffi_id
  pub draws : (w : World N) → (m w).1.random ≡ w.random

module _ {N A : Type 0} where
  pub KeepsTypes-pure : (a : A) → KeepsTypes {N = N} (pure a)
  KeepsTypes-pure a = record { at = λ w. refl; ids = λ w. refl; draws = λ w. refl }

  pub KeepsTypes-raise : (e : Failure) → KeepsTypes {N = N} (raise {A = A} e)
  KeepsTypes-raise e = record { at = λ w. refl; ids = λ w. refl; draws = λ w. refl }

  pub KeepsTypes-gets : (f : World N → A) → KeepsTypes (gets f)
  KeepsTypes-gets f = record { at = λ w. refl; ids = λ w. refl; draws = λ w. refl }

  pub KeepsTypes-exhausted : KeepsTypes {N = N} {A = A} exhausted
  KeepsTypes-exhausted = record { at = λ w. refl; ids = λ w. refl; draws = λ w. refl }

  pub KeepsTypes-if :
      (b : Bool) (m k : Js N A) → KeepsTypes m → KeepsTypes k → KeepsTypes (if b then m else k)
  KeepsTypes-if true m k hm hk = hm
  KeepsTypes-if false m k hm hk = hk

  pub KeepsTypes-option :
      {B : Type 0} (o : Option B) (m : Js N A) (f : B → Js N A)
      → KeepsTypes m
      → ((b : B) → KeepsTypes (f b))
      → KeepsTypes {N = N} (elim o [ none ↦ m | some b ↦ f b ])
  KeepsTypes-option none m f hm hf = hm
  KeepsTypes-option (some b) m f hm hf = hf b

pub KeepsTypes-assert : {N : Type 0} (b : Bool) (m : Message) → KeepsTypes {N = N} (assert b m)
KeepsTypes-assert true m = record { at = λ w. refl; ids = λ w. refl; draws = λ w. refl }
KeepsTypes-assert false m = record { at = λ w. refl; ids = λ w. refl; draws = λ w. refl }

module _ {N A B : Type 0} where
  continue-KeepsTypes :
      (r : Result A) (f : A → Js N B)
      → ((a : A) → KeepsTypes (f a))
      → KeepsTypes (λ w. continue r f w)
  continue-KeepsTypes (ok a) f hf = hf a
  continue-KeepsTypes (thrown e) f hf = record {
    at = λ w. refl;
    ids = λ w. refl;
    draws = λ w. refl;
  }
  continue-KeepsTypes overflow f hf = record { at = λ w. refl; ids = λ w. refl; draws = λ w. refl }

  pub KeepsTypes-bind :
      (m : Js N A) (f : A → Js N B)
      → KeepsTypes m
      → ((a : A) → KeepsTypes (f a))
      → KeepsTypes (m >>= f)
  KeepsTypes-bind m f hm hf = record {
    at = λ w. (continue-KeepsTypes (m w).0 f hf).at (m w).1 ∙ hm.at w;
    ids = λ w. (continue-KeepsTypes (m w).0 f hf).ids (m w).1 ∙ hm.ids w;
    draws = λ w. (continue-KeepsTypes (m w).0 f hf).draws (m w).1 ∙ hm.draws w;
  }

pub ruleset keeps_rules = (
  KeepsTypes-pure, KeepsTypes-raise, KeepsTypes-gets, KeepsTypes-exhausted, KeepsTypes-if,
  KeepsTypes-option, KeepsTypes-assert, KeepsTypes-bind,
)
