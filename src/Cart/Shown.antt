-- ===== src/Cart/Shown.antt =====
-- The progress bar of the boot preload on the screen.
use cfp2dreamcast.Base.{
  ℕ, ◌+◌, ◌-◌, ◌*◌, ◌/◌, ◌^◌, ◌<◌, ◌≤◌, ◌≡◌, refl, sym, ap, subst, ◌∙◌, ==_iff, List, [], ◌∷◌,
  arith, Bool, true, false, ltb, field, ◌==◌, ◌||◌, if◌then◌else◌, Bool-cases, inl, inr,
}
use cfp2dreamcast.Iface.{phys}
use cfp2dreamcast.Machine.{Platform, Machine}
use cfp2dreamcast.Machine.Memory.{Ram}
use cfp2dreamcast.Util.{framebuffer, vo_control, fb_r_sof1}
use cfp2dreamcast.Util.Paint.{loadbar_paint-dev}
use cfp2dreamcast.Util.Bar.{picture, in_track, on_side, on_end, loadbar_paint-eq-picture}
use cfp2dreamcast.Util.Hud.Marks.{colour_byte}
use cfp2dreamcast.Cart.{bar_left, bar_step, pb_total}
use cfp2dreamcast.Cart.Bar.{
  total, counted, bar_steps, bar_step-left, bar_steps-left, bar_steps_full,
}

-- The lit pixels after `n` bytes: one for each 32 KiB, at most 320.
abbrev pub lit : ℕ → ℕ
lit n = if ltb 320 (n / 32768) then 320 else n / 32768

-- The screen at `fb` in memory `k` is the picture of a bar with `fill` lit pixels over what memory
-- `m` has there.
abbrev pub Pictured : ℕ → ℕ → Ram → Ram → Type 0
Pictured fb fill m k =
    (x y b q : ℕ)
    → x < 640
    → y < 480
    → b < 2
    → q ≡ phys (fb + 2 * (y * 640 + x) + b)
    → k q ≡ picture fill x y b (m q)

painted_over :
    (i e : Bool) (c d old : ℕ)
    → (if i then d else if e then 0 else (if i then c else if e then 0 else old))
      ≡ (if i then d else if e then 0 else old)
painted_over true e c d old = refl
painted_over false true c d old = refl
painted_over false false c d old = refl

picture_again : (f g x y b old : ℕ) → picture g x y b (picture f x y b old) ≡ picture g x y b old
picture_again f g x y b old =
    painted_over (in_track x y) (on_side x y || on_end x y)
      (colour_byte b (if ltb (x - 160) f then 0x7984 else 0))
      (colour_byte b (if ltb (x - 160) g then 0x7984 else 0)) old

Pictured-again :
    (fb f g : ℕ) (m k l : Ram) → Pictured fb f m k → Pictured fb g k l → Pictured fb g m l
Pictured-again fb f g m k l one two x y b q wide high byte at =
    two x y b q wide high byte at
    ∙ ap (picture g x y b) (one x y b q wide high byte at)
    ∙ picture_again f g x y b (m q)

module _ (p : Platform)
    (stays : (v : ℕ) (d : p.Dev)
      → p.load_reg fb_r_sof1 (p.store_reg vo_control v d) ≡ p.load_reg fb_r_sof1 d) where
  open p use {Dev}

  bar_step-Pictured :
      (len : ℕ) (s : Machine Dev)
      → 0 < s.pb_left
      → s.pb_left ≤ pb_total
      → Pictured
          (framebuffer p s.dev)
          (lit (pb_total - s.pb_left + len))
          s.ram
          (bar_step p len s).ram
  unfolding bar_step bar_left
  bar_step-Pictured len s pos small x y b q wide high byte at =
      let left = bar_left s.pb_left len in
      let more : (s.pb_left == 0) ≡ false = ground arith in
      let fill : (pb_total - left) / 2 ^ 15 ≡ lit (pb_total - s.pb_left + len) = ground arith in
      rw more (
        (loadbar_paint-eq-picture p ((pb_total - left) / 2 ^ 15) (counted p left s)).0 x y b q wide
          high byte at
        ∙ ap (λ f. picture f x y b (s.ram q)) fill)

  bar_step-framebuffer :
      (len : ℕ) (s : Machine Dev) → framebuffer p (bar_step p len s).dev ≡ framebuffer p s.dev
  unfolding bar_step
  bar_step-framebuffer len s = elim (Bool-cases (s.pb_left == 0)) [
    | inl done ↦ rw done refl
    | inr more ↦ rw more (
        ap (framebuffer p) (
          loadbar_paint-dev p ((pb_total - bar_left s.pb_left len) / 2 ^ 15)
            (counted p (bar_left s.pb_left len) s))
        ∙ ap (λ w. 0xa5000000 + field w 2 22) (stays _ s.dev))
  ]

  -- While the bar is not full at the start, one or more streams leave the count at the bytes that
  -- remain, stopping at 0, and the screen with the picture of a bar that has one lit pixel for each
  -- 32 KiB of all the bytes of the preload so far, at most 320, over what was there before. Writing
  -- VO_CONTROL does not move the framebuffer.
  pub bar_steps-Pictured :
      (len : ℕ) (lens : List ℕ) (s : Machine Dev)
      → 0 < s.pb_left
      → s.pb_left ≤ pb_total
      → ((bar_steps p (len ∷ lens) s).pb_left ≡ s.pb_left - total (len ∷ lens))
        × Pictured
            (framebuffer p s.dev)
            (lit (pb_total - s.pb_left + total (len ∷ lens)))
            s.ram
            (bar_steps p (len ∷ lens) s).ram
  bar_steps-Pictured len lens s pos small =
      (bar_steps-left p (len ∷ lens) s, shown len lens s pos small)
    where
      shown :
          (len : ℕ) (lens : List ℕ) (s : Machine Dev)
          → 0 < s.pb_left
          → s.pb_left ≤ pb_total
          → Pictured
              (framebuffer p s.dev)
              (lit (pb_total - s.pb_left + total (len ∷ lens)))
              s.ram
              (bar_steps p (len ∷ lens) s).ram
      shown len [] s pos small =
          let e : len ≡ total (len ∷ []) = omega arith in
          subst
            (λ n.
              Pictured (framebuffer p s.dev) (lit (pb_total - s.pb_left + n)) s.ram
                (bar_step p len s).ram)
            e (bar_step-Pictured len s pos small)
      shown len (next ∷ lens) s pos small =
          let t = bar_step p len s in
          let one = bar_step-left p len s in
          let f = lit (pb_total - s.pb_left + len) in
          let g = lit (pb_total - s.pb_left + total (len ∷ next ∷ lens)) in
          elim (Bool-cases (t.pb_left == 0)) [
            | inl done ↦
                (let full : t.pb_left ≡ 0 = (==_iff _ 0).0 done in
                  let same : f ≡ g = ground (arith, one, full) in
                  subst (λ u. Pictured (framebuffer p s.dev) g s.ram u.ram)
                    (sym (bar_steps_full p (next ∷ lens) t full))
                    (subst (λ n. Pictured (framebuffer p s.dev) n s.ram t.ram) same
                      (bar_step-Pictured len s pos small)))
            | inr more ↦
                (let fill : lit (pb_total - t.pb_left + total (next ∷ lens)) ≡ g =
                    ground (arith, one, more) in
                  let rest = shown next lens t (ground (arith, more)) (omega (arith, one)) in
                  Pictured-again (framebuffer p s.dev) f g s.ram t.ram
                    (bar_steps p (next ∷ lens) t).ram (bar_step-Pictured len s pos small)
                    (subst
                      (λ n.
                        Pictured (framebuffer p s.dev) n t.ram (bar_steps p (next ∷ lens) t).ram)
                      fill
                      (subst
                        (λ a.
                          Pictured a (lit (pb_total - t.pb_left + total (next ∷ lens))) t.ram
                            (bar_steps p (next ∷ lens) t).ram)
                        (bar_step-framebuffer len s) rest)))
          ]
