-- ===== src/Shim/Input/Polls.antt =====
-- A live poll by the clock and the pads: when the pads are asked, what is answered, and when the
-- console restarts.
use cfp2dreamcast.Base.{
  ℕ, zero, suc, ◌+◌, ◌-◌, ◌*◌, ◌/◌, ◌%◌, ◌^◌, ◌<◌, ◌≤◌, ◌≡◌, ◌≢◌, refl, sym, ap, ◌∙◌, ◌⊎◌, inl, inr,
  arith, true, false, Bool-cases, ◌||◌, ◌==◌, ltb, Option, some, none, get_or, u8, u16, u32,
}
use cfp2dreamcast.Machine.{Platform, Machine, Runs, Never}
use cfp2dreamcast.Machine.Ends.{Runs-if}
use cfp2dreamcast.Machine.Memory.{Ram, load8}
use cfp2dreamcast.Jvs.{dc_to_jvs, dc_reset_combo, digital_frame}
use cfp2dreamcast.Jvs.Buttons.{held, dc_reset_combo_iff}
use cfp2dreamcast.Maple.Held.{PadBus, word, maple_getcond-held}
use cfp2dreamcast.Shim.Input.{tcnt0, tcr0, shifts, window, asks_reset, refresh, timed, jvs_digital}
use cfp2dreamcast.Shim.Input.Window.{expired, written-Live}

-- The divisor of the peripheral clock that the low three bits of the timer's control word select.
abbrev pub divisor : ℕ → ℕ
divisor zero = 4
divisor (suc zero) = 16
divisor (suc (suc zero)) = 64
divisor (suc (suc (suc zero))) = 256
divisor (suc (suc (suc (suc n)))) = 1024

-- `ticks` is the window of the cache: the one that is kept or, while that is 1, the whole ticks in
-- 8 ms, the 125th part of a second, of a clock of 50 MHz under the divisor.
abbrev pub IsWindow : ℕ → ℕ → ℕ → Type 0
IsWindow thresh tcr ticks =
    ((thresh ≢ 1) × (ticks ≡ thresh))
    ⊎ ((thresh ≡ 1)
        × (ticks * 125 * divisor (tcr % 8) ≤ 50000000)
        × (50000000 < (ticks + 1) * 125 * divisor (tcr % 8)))

shifted :
    (k ticks : ℕ)
    → k < 8
    → ticks * 125 * divisor k ≤ 50000000
    → 50000000 < (ticks + 1) * 125 * divisor k
    → 50000000 / 2 ^ get_or shifts k 0 / 125 ≡ ticks
shifted zero ticks h lo hi = omega arith
shifted (suc zero) ticks h lo hi = omega arith
shifted (suc (suc zero)) ticks h lo hi = omega arith
shifted (suc (suc (suc zero))) ticks h lo hi = omega arith
shifted (suc (suc (suc (suc zero)))) ticks h lo hi = omega arith
shifted (suc (suc (suc (suc (suc zero))))) ticks h lo hi = omega arith
shifted (suc (suc (suc (suc (suc (suc zero)))))) ticks h lo hi = omega arith
shifted (suc (suc (suc (suc (suc (suc (suc zero))))))) ticks h lo hi = omega arith
shifted (suc (suc (suc (suc (suc (suc (suc (suc n)))))))) ticks h lo hi = absurd (omega arith)

window-IsWindow : (thresh tcr ticks : ℕ) → IsWindow thresh tcr ticks → window thresh tcr ≡ ticks
unfolding window
window-IsWindow thresh tcr ticks (inl (other, e)) =
    let no_one : (thresh == 1) ≡ false = ground arith in rw no_one (sym e)
window-IsWindow thresh tcr ticks (inr (one, lo, hi)) =
    let is_one : (thresh == 1) ≡ true = ground arith in
    rw is_one (shifted (tcr % 8) ticks (omega arith) lo hi)

-- A, B, X, Y and Start are held.
abbrev pub HoldsReset : ℕ → Type 0
HoldsReset w = (held w 2 ≡ 1) × (held w 1 ≡ 1) × (held w 10 ≡ 1) × (held w 9 ≡ 1) × (held w 3 ≡ 1)

-- The frame for two words of buttons lies at `rx`.
abbrev pub Shows : {D : Type 0} → ℕ → ℕ → ℕ → Machine D → Type 0
Shows rx a b t =
    (i : ℕ)
    → i < 64
    → load8 t.ram (rx + i) ≡ u8 (get_or (digital_frame (dc_to_jvs a) (dc_to_jvs b)) i 0)

module _ (p : Platform) (dma : p.Dev → Ram → p.Dev × Ram) where
  open p use {Dev, load_reg}

  -- The timer, which counts down in 32 bits, has made `elapsed` ticks since the pads were asked, and
  -- the window of the cache is `ticks`.
  pub record Clock (elapsed ticks : ℕ) (s : Machine Dev) : Type 0 where
    pub now_word : load_reg tcnt0 s.dev < 2 ^ 32
    pub since : s.pads.in_tcnt ≡ (load_reg tcnt0 s.dev + elapsed) % 2 ^ 32
    pub short : elapsed < 2 ^ 32
    pub eight_ms : IsWindow s.pads.pad_thresh (load_reg tcr0 s.dev) ticks

  module _ (elapsed ticks : ℕ) (s : Machine Dev) (clock : Clock elapsed ticks s) where
    expired-eq : expired p dma s ≡ ltb ticks elapsed
    unfolding timed
    expired-eq =
        let w = window-IsWindow s.pads.pad_thresh (load_reg tcr0 s.dev) ticks clock.eight_ms in
        let e : u32 (s.pads.in_tcnt + 2 ^ 32 - load_reg tcnt0 s.dev) ≡ elapsed =
          omega (arith, clock.now_word, clock.since, clock.short) in
        λ i. ltb (w i) (e i)

    -- How a live poll returns within the window of the cache.
    abbrev pub Cached : ℕ → Unit {0} → Machine Dev → Type 0
    Cached rx _ t =
        Shows rx (u16 s.pads.raw_cache_a) (u16 s.pads.raw_cache_b) t
        × (t.dev ≡ s.dev)
        × (t.bus ≡ s.bus)
        × (t.pads.in_tcnt ≡ s.pads.in_tcnt)
        × (t.pads.raw_cache_a ≡ s.pads.raw_cache_a)
        × (t.pads.raw_cache_b ≡ s.pads.raw_cache_b)

    -- No more ticks after the pads were asked than there are in the window, 8 ms while none is kept,
    -- a live poll asks no pad: it returns with the frame of the cached words in place, and the
    -- devices, the state of the bus, the cached words and the time they are from stay as they are.
    -- The timer counts down and may wrap.
    pub jvs_digital-Cached :
        (rx : ℕ) → elapsed ≤ ticks → Runs (Cached rx) Never (λ t. ⊥) (jvs_digital p dma rx s)
    unfolding jvs_digital timed
    jvs_digital-Cached rx within =
        let young : expired p dma s ≡ false = expired-eq ∙ ground arith in
        rw young (written-Live p dma rx (timed p dma s), refl, refl, refl, refl, refl)

    module _ (pads : ℕ → Option ℕ) (bus : PadBus p dma pads) where
      -- How a live poll returns, and how it restarts, when the pads were asked.
      abbrev pub Asked : ℕ → Unit {0} → Machine Dev → Type 0
      Asked rx _ t =
          ¬ (HoldsReset (word (pads 0)))
          × ¬ (HoldsReset (word (pads 1)))
          × Shows rx (word (pads 0)) (word (pads 1)) t
          × (t.pads.in_tcnt ≡ load_reg tcnt0 s.dev)

      abbrev pub Restarts : Machine Dev → Type 0
      Restarts t = HoldsReset (word (pads 0)) ⊎ HoldsReset (word (pads 1))

      word_lt : (port : ℕ) (o : Option ℕ) → pads port ≡ o → word o < 2 ^ 16
      word_lt port (some w) e = bus.word_size port w e
      word_lt port none e = omega arith

      refresh-words :
          (now : ℕ) (t : Machine Dev)
          → let u = refresh p dma now t in
            (u16 u.pads.raw_cache_a ≡ word (pads 0)) × (u16 u.pads.raw_cache_b ≡ word (pads 1))
      unfolding refresh
      refresh-words now t =
          let one = maple_getcond-held p dma pads bus 0 (omega arith) t.bus t in
          let two = maple_getcond-held p dma pads bus 1 (omega arith) _ _ in
          let a = word_lt 0 (pads 0) refl in
          let b = word_lt 1 (pads 1) refl in
          (ap (λ w. u16 w) one ∙ omega (arith, a), ap (λ w. u16 w) two ∙ omega (arith, b))

      resets :
          (a b : ℕ)
          → a < 2 ^ 16
          → b < 2 ^ 16
          → (dc_reset_combo a || dc_reset_combo b) ≡ true
          → HoldsReset a ⊎ HoldsReset b
      resets a b ha hb h = elim (Bool-cases (dc_reset_combo a)) [
        | inl e ↦ inl ((dc_reset_combo_iff a ha).0 e)
        | inr e ↦ inr ((dc_reset_combo_iff b hb).0 (ground (arith, h, e)))
      ]

      stays_up :
          (a b : ℕ)
          → a < 2 ^ 16
          → b < 2 ^ 16
          → (dc_reset_combo a || dc_reset_combo b) ≡ false
          → ¬ (HoldsReset a) × ¬ (HoldsReset b)
      stays_up a b ha hb h = (
        λ r. let e = (dc_reset_combo_iff a ha).1 r in absurd (ground (arith, h, e)),
        λ r. let e = (dc_reset_combo_iff b hb).1 r in absurd (ground (arith, h, e)),
      )

      -- More ticks after the pads were asked than there are in the window, a live poll asks both
      -- pads, and restarts the console exactly when one of them holds A, B, X, Y and Start together;
      -- else it returns with the frame of the two pads' words in place, 0xffff for a port with no pad,
      -- and the time of the cache is now. The pads answer the protocol of the bus.
      pub jvs_digital-Asked :
          (rx : ℕ) → ticks < elapsed → Runs (Asked rx) Never Restarts (jvs_digital p dma rx s)
      unfolding jvs_digital refresh
      jvs_digital-Asked rx past =
          let old : expired p dma s ≡ true = expired-eq ∙ ground arith in
          let t = timed p dma s in
          let u = refresh p dma (load_reg tcnt0 t.dev) t in
          let (a, b) = refresh-words (load_reg tcnt0 t.dev) t in
          let both : asks_reset u.pads
              ≡ (dc_reset_combo (word (pads 0)) || dc_reset_combo (word (pads 1))) =
            λ i. dc_reset_combo (a i) || dc_reset_combo (b i) in
          let ha = word_lt 0 (pads 0) refl in
          let hb = word_lt 1 (pads 1) refl in
          rw old (
            Runs-if (Asked rx) Never Restarts (asks_reset u.pads) _ _
              (λ e. resets (word (pads 0)) (word (pads 1)) ha hb (sym both ∙ e))
              (λ e.
                let up = stays_up (word (pads 0)) (word (pads 1)) ha hb (sym both ∙ e) in
                (
                  up.0,
                  up.1,
                  (λ i h.
                      written-Live p dma rx u i h
                      ∙ (λ j. u8 (get_or (digital_frame (dc_to_jvs (a j)) (dc_to_jvs (b j))) i 0))),
                  timed_now,
                )))
        where
          timed_now : load_reg tcnt0 (timed p dma s).dev ≡ load_reg tcnt0 s.dev
          timed_now = unfold timed in refl
