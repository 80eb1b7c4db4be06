-- ===== src/Cart/Bar.antt =====
-- The progress bar of the boot preload.
use cfp2dreamcast.Base.{
  ℕ, ◌+◌, ◌-◌, ◌/◌, ◌^◌, ◌≡◌, refl, ap, ◌∙◌, ==_iff, List, [], ◌∷◌, arith, ◌==◌, Bool-cases, inl,
  inr,
}
use cfp2dreamcast.Machine.{Platform, Machine, Statics}
use cfp2dreamcast.Cart.{bar_left, bar_step, pb_total}
use cfp2dreamcast.Util.Paint.{InMain, loadbar_paint-main, loadbar_paint-statics}

-- The bytes of a list of streams.
abbrev pub total : List ℕ → ℕ
total [] = 0
total (x ∷ xs) = x + total xs

module _ (p : Platform) where
  open p use {Dev}

  -- The bar after each of a list of streams.
  abbrev pub bar_steps : List ℕ → Machine Dev → Machine Dev
  bar_steps [] s = s
  bar_steps (len ∷ lens) s = bar_steps lens (bar_step p len s)

  abbrev pub counted : ℕ → Machine Dev → Machine Dev
  counted left s = record s { statics = record s.statics { pb_left = left } }

  pub bar_step-left : (len : ℕ) (s : Machine Dev) → (bar_step p len s).pb_left ≡ s.pb_left - len
  unfolding bar_step bar_left
  bar_step-left len s = elim (Bool-cases (s.pb_left == 0)) [
    | inl done ↦ rw done (omega (arith, (==_iff s.pb_left 0).0 done))
    | inr more ↦ rw more (
        ap (λ (z : Statics). z.pb_left)
          (loadbar_paint-statics p ((pb_total - bar_left s.pb_left len) / 2 ^ 15)
            (counted (bar_left s.pb_left len) s))
        ∙ ground arith)
  ]

  pub bar_step-main : (len q : ℕ) (s : Machine Dev) → InMain q → (bar_step p len s).ram q ≡ s.ram q
  unfolding bar_step
  bar_step-main len q s main = elim (Bool-cases (s.pb_left == 0)) [
    | inl done ↦ rw done refl
    | inr more ↦ rw more (
        loadbar_paint-main p ((pb_total - bar_left s.pb_left len) / 2 ^ 15) q
          (counted (bar_left s.pb_left len) s) main)
  ]

  -- A full bar is never painted again: a stream leaves the machine as it is.
  pub bar_full : (len : ℕ) (s : Machine Dev) → s.pb_left ≡ 0 → bar_step p len s ≡ s
  unfolding bar_step
  bar_full len s h = ground arith

  pub bar_steps_full : (lens : List ℕ) (s : Machine Dev) → s.pb_left ≡ 0 → bar_steps lens s ≡ s
  bar_steps_full [] s h = refl
  bar_steps_full (len ∷ lens) s h = ap (bar_steps lens) (bar_full len s h) ∙ bar_steps_full lens s h

  pub bar_steps-left :
      (lens : List ℕ) (s : Machine Dev) → (bar_steps lens s).pb_left ≡ s.pb_left - total lens
  bar_steps-left [] s = omega arith
  bar_steps-left (len ∷ lens) s =
      omega (arith, bar_step-left len s, bar_steps-left lens (bar_step p len s))
