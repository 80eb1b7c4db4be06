-- ===== src/Machine/Ends.antt =====
-- Rules for `Ends` and `Runs`: one for each way in which a routine's result is put together.
use cfp2dreamcast.Base.{ℕ, Bool, true, false, Option, some, none, ◌≡◌, refl, if◌then◌else◌}
use cfp2dreamcast.Machine.{Machine, Outcome, returns, died, rebooted, hung, M, Ends, Runs}

module _ {D : Type 0} {A : Type 0} (P : A → Machine D → Type 0)
    (E : ℕ → ℕ → ℕ → Machine D → Type 0) where
  pub Ends-if :
      (b : Bool) (x y : Outcome D A)
      → (b ≡ true → Ends P E x)
      → (b ≡ false → Ends P E y)
      → Ends P E (if b then x else y)
  Ends-if true x y hx hy = hx refl
  Ends-if false x y hx hy = hy refl

  pub Ends-bind :
      {B : Type 0} (Q : B → Machine D → Type 0) (o : Outcome D B) (f : B → M D A)
      → Ends Q E o
      → ((b : B) (t : Machine D) → Q b t → Ends P E (f b t))
      → Ends P E (elim o [
        | returns b t ↦ f b t
        | died c a b t ↦ died c a b t
        | rebooted t ↦ rebooted t
        | hung ↦ hung
      ])
  Ends-bind Q (returns b t) f h k = k b t h
  Ends-bind Q (died c a b t) f h k = h
  Ends-bind Q (rebooted t) f h k = h
  Ends-bind Q hung f h k = h

  pub Ends-mono :
      (Q : A → Machine D → Type 0) (o : Outcome D A)
      → Ends Q E o
      → ((a : A) (t : Machine D) → Q a t → P a t)
      → Ends P E o
  Ends-mono Q (returns a t) h k = k a t h
  Ends-mono Q (died c a b t) h k = h
  Ends-mono Q (rebooted t) h k = h
  Ends-mono Q hung h k = h

  pub Ends-weaken :
      (Q : A → Machine D → Type 0) (F : ℕ → ℕ → ℕ → Machine D → Type 0) (o : Outcome D A)
      → Ends Q F o
      → ((a : A) (t : Machine D) → Q a t → P a t)
      → ((c a b : ℕ) (t : Machine D) → F c a b t → E c a b t)
      → Ends P E o
  Ends-weaken Q F (returns a t) h k l = k a t h
  Ends-weaken Q F (died c a b t) h k l = l c a b t h
  Ends-weaken Q F (rebooted t) h k l = h
  Ends-weaken Q F hung h k l = h

pub Ends-both :
    {D A : Type 0} (P Q : A → Machine D → Type 0) (E F : ℕ → ℕ → ℕ → Machine D → Type 0)
    (o : Outcome D A)
    → Ends P E o
    → Ends Q F o
    → Ends (λ a t. P a t × Q a t) (λ c a b t. E c a b t × F c a b t) o
Ends-both P Q E F (returns a t) h k = (h, k)
Ends-both P Q E F (died c a b t) h k = (h, k)
Ends-both P Q E F (rebooted t) h k = h
Ends-both P Q E F hung h k = h

module _ {D A : Type 0} (P : A → Machine D → Type 0) (E : ℕ → ℕ → ℕ → Machine D → Type 0)
    (R : Machine D → Type 0) where
  pub Runs-if :
      (b : Bool) (x y : Outcome D A)
      → (b ≡ true → Runs P E R x)
      → (b ≡ false → Runs P E R y)
      → Runs P E R (if b then x else y)
  Runs-if true x y hx hy = hx refl
  Runs-if false x y hx hy = hy refl

  pub Runs-bind :
      {B : Type 0} (Q : B → Machine D → Type 0) (o : Outcome D B) (f : B → M D A)
      → Runs Q E R o
      → ((b : B) (t : Machine D) → Q b t → Runs P E R (f b t))
      → Runs P E R (elim o [
        | returns b t ↦ f b t
        | died c a b t ↦ died c a b t
        | rebooted t ↦ rebooted t
        | hung ↦ hung
      ])
  Runs-bind Q (returns b t) f h k = k b t h
  Runs-bind Q (died c a b t) f h k = h
  Runs-bind Q (rebooted t) f h k = h
  Runs-bind Q hung f h k = h

  pub Runs-weaken :
      (Q : A → Machine D → Type 0) (F : ℕ → ℕ → ℕ → Machine D → Type 0) (G : Machine D → Type 0)
      (o : Outcome D A)
      → Runs Q F G o
      → ((a : A) (t : Machine D) → Q a t → P a t)
      → ((c a b : ℕ) (t : Machine D) → F c a b t → E c a b t)
      → ((t : Machine D) → G t → R t)
      → Runs P E R o
  Runs-weaken Q F G (returns a t) h k l r = k a t h
  Runs-weaken Q F G (died c a b t) h k l r = l c a b t h
  Runs-weaken Q F G (rebooted t) h k l r = r t h
  Runs-weaken Q F G hung h k l r = h

  pub Runs-option :
      {X : Type 0} (o : Option X) (f : X → Outcome D A) (g : Outcome D A)
      → ((x : X) → o ≡ some x → Runs P E R (f x))
      → (o ≡ none → Runs P E R g)
      → Runs P E R (elim o [ some x ↦ f x | none ↦ g ])
  Runs-option (some x) f g h k = h x refl
  Runs-option none f g h k = k refl
