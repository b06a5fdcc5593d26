-- ===== src/World/Bind.antt =====
-- A run that ended well, taken apart.
use node_ffi.Base.{◌≡◌, refl, ap, Bool, true, false}
use node_ffi.Value.{Message, Failure, Result, ok, thrown, overflow}
use node_ffi.World.{World, Js, assert, continue, ◌>>=◌}

module _ {N A B : Type 0} where
  -- Where the first part went, and that the second took over from there.
  pub record Steps (m : Js N A) (f : A → Js N B) (w : World N) (b : B) (w' : World N) : Type 0 where
    pub value : A
    pub world : World N
    pub first : m w ≡ (ok value, world)
    pub second : f value world ≡ (ok b, w')

  continue-eq-ok :
      (r : Result A) (w : World N) (f : A → Js N B) {b : B} {w' : World N}
      → continue r f w ≡ (ok b, w')
      → (a : A) × (r ≡ ok a) × (f a w ≡ (ok b, w'))
  continue-eq-ok (ok a) w f h = (a, refl, h)
  continue-eq-ok (thrown e) w f h = cc
  continue-eq-ok overflow w f h = cc

  pub bind-eq-ok :
      (m : Js N A) (f : A → Js N B) (w : World N) {b : B} {w' : World N}
      → (m >>= f) w ≡ (ok b, w')
      → Steps m f w b w'
  bind-eq-ok m f w h =
      let (a, e, k) = continue-eq-ok (m w).0 (m w).1 f h in
      record { value = a; world = (m w).1; first = λ i. (e i, (m w).1); second = k }

  -- After a first part that ended well, the second decides.
  pub bind-ok :
      (m : Js N A) (f : A → Js N B) (w w' : World N) {a : A}
      → m w ≡ (ok a, w')
      → (m >>= f) w ≡ f a w'
  bind-ok m f w w' h = λ i. continue (h i).0 f (h i).1

module _ {N A B : Type 0} where
  -- A first part that throws ends the whole.
  pub bind-thrown :
      (m : Js N A) (f : A → Js N B) (w w' : World N) {e : Failure}
      → m w ≡ (thrown e, w')
      → (m >>= f) w ≡ (thrown e, w')
  bind-thrown m f w w' h = λ i. continue (h i).0 f (h i).1

module _ {N A B C : Type 0} where
  continue_assoc :
      (r : Result A) (f : A → Js N B) (g : B → Js N C) (w : World N)
      → ((λ (v : World N). continue r f v) >>= g) w ≡ continue r (λ a. f a >>= g) w
  continue_assoc (ok a) f g w = refl
  continue_assoc (thrown e) f g w = refl
  continue_assoc overflow f g w = refl

  -- Three parts, one after the other.
  pub bind_assoc :
      (m : Js N A) (f : A → Js N B) (g : B → Js N C) (w : World N)
      → ((m >>= f) >>= g) w ≡ (m >>= λ a. f a >>= g) w
  bind_assoc m f g w = continue_assoc (m w).0 f g (m w).1

module _ {N A B : Type 0} where
  continue_cong :
      (r : Result A) (f g : A → Js N B) (w : World N)
      → ((a : A) → r ≡ ok a → f a w ≡ g a w)
      → continue r f w ≡ continue r g w
  continue_cong (ok a) f g w h = h a refl
  continue_cong (thrown e) f g w h = refl
  continue_cong overflow f g w h = refl

  -- What follows matters only for the values that the first part gives.
  pub bind_cong :
      (m : Js N A) (f g : A → Js N B) (w : World N)
      → ((a : A) (w' : World N) → m w ≡ (ok a, w') → f a w' ≡ g a w')
      → (m >>= f) w ≡ (m >>= g) w
  bind_cong m f g w h = continue_cong (m w).0 f g (m w).1 λ a e. h a (m w).1 (λ i. (e i, (m w).1))

pub ok-injective : {A : Type 0} {a b : A} → ok a ≡ ok b → a ≡ b
ok-injective h = cc

pub assert-eq-ok :
    {N : Type 0} (b : Bool) (m : Message) (w : World N) {x : Unit {0}} {w' : World N}
    → assert b m w ≡ (ok x, w')
    → (b ≡ true) × (w ≡ w')
assert-eq-ok {N} true m w h = (refl, ap (λ (x : Result (Unit {0}) × World N). x.1) h)
assert-eq-ok false m w h = cc
