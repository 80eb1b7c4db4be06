-- ===== src/Shim/Input/Window.antt =====
-- The two branches of a live poll, by the test of the pad cache.
use cfp2dreamcast.Base.{ℕ, ◌+◌, ◌<◌, ◌≡◌, refl, arith, Bool, true, false, length, get_or, u8}
use cfp2dreamcast.Machine.{Platform, Machine, Runs, Never, Pads}
use cfp2dreamcast.Machine.Memory.{Ram, load8, copy_in}
use cfp2dreamcast.Machine.Ends.{Runs-if}
use cfp2dreamcast.Machine.Store.{copy_in-inside}
use cfp2dreamcast.Jvs.{digital_frame}
use cfp2dreamcast.Shim.Input.{tcnt0, stale, cached_frame, asks_reset, refresh, timed, jvs_digital}

-- The frame of the cached words lies at `rx`.
abbrev pub Live : {D : Type 0} → ℕ → Machine D → Type 0
Live rx t = (i : ℕ) → i < 64 → load8 t.ram (rx + i) ≡ u8 (get_or (cached_frame t.pads) i 0)

length-digital_frame : (j k : ℕ) → length (digital_frame j k) ≡ 64
unfolding digital_frame
length-digital_frame j k = refl

pub length-cached_frame : (c : Pads) → length (cached_frame c) ≡ 64
length-cached_frame c = length-digital_frame _ _

module _ (p : Platform) (dma : p.Dev → Ram → p.Dev × Ram) where
  open p use {Dev, load_reg}

  -- The cache is older than its window.
  abbrev pub expired : Machine Dev → Bool
  expired s = let t = timed p dma s in stale t.pads.in_tcnt (load_reg tcnt0 t.dev) t.pads.pad_thresh

  pub written-Live :
      (rx : ℕ) (s : Machine Dev)
      → Live rx (record s { ram = copy_in rx (cached_frame s.pads) s.ram })
  written-Live rx s i h =
      copy_in-inside (cached_frame s.pads) rx i s.ram (omega (arith, length-cached_frame s.pads))
        (omega (arith, length-cached_frame s.pads))

  -- How a live poll from `s` returns: the frame of the cache is at `rx`, and a pad that was asked
  -- does not hold the reset combination.
  abbrev pub Polled : ℕ → Machine Dev → Unit {0} → Machine Dev → Type 0
  Polled rx s _ t = Live rx t × (expired s ≡ true → asks_reset t.pads ≡ false)

  abbrev pub Restarts : Machine Dev → Machine Dev → Type 0
  Restarts s t = (expired s ≡ true) × (asks_reset t.pads ≡ true)

  -- A live poll returns with the frame of the pad cache in place, or restarts the console; it does
  -- the latter exactly when it has asked the pads, since the cache is older than its window, and one
  -- of them holds the reset combination.
  pub jvs_digital-Runs :
      (rx : ℕ) (s : Machine Dev) → Runs (Polled rx s) Never (Restarts s) (jvs_digital p dma rx s)
  unfolding jvs_digital
  jvs_digital-Runs rx s =
      let t = timed p dma s in
      let now = load_reg tcnt0 t.dev in
      let u = refresh p dma now t in
      Runs-if (Polled rx s) Never (Restarts s) (expired s) _ _
        (λ old.
          Runs-if (Polled rx s) Never (Restarts s) (asks_reset u.pads) _ _ (λ e. (old, e))
            (λ e. (written-Live rx u, λ _. e)))
        (λ young. (written-Live rx t, λ old. absurd (ground (arith, old, young))))
