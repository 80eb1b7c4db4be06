-- ===== src/Shim/Input.antt =====
-- The live input poll of main.c: `jvs_digital`, its pad cache and the reset of the console. The
-- serial trace is compiled out.
pub mod Window
pub mod Polls
use cfp2dreamcast.Base.{
  ℕ, ◌+◌, ◌-◌, ◌*◌, ◌/◌, ◌%◌, ◌^◌, Bool, ◌||◌, List, [], ◌∷◌, ltb, ◌==◌, if◌then◌else◌, get_or, u16,
  u32,
}
use cfp2dreamcast.Machine.{Platform, Machine, M, Pads, returns, rebooted}
use cfp2dreamcast.Machine.Memory.{Ram, copy_in}
use cfp2dreamcast.Jvs.{dc_to_jvs, dc_reset_combo, digital_frame}
use cfp2dreamcast.Maple.{maple_getcond}
use cfp2dreamcast.Shim.{hud_once}

abbrev pub tcnt0 : ℕ
tcnt0 = 0xffd8000c

abbrev pub tcr0 : ℕ
tcr0 = 0xffd80010

-- TPSC: /4 /16 /64 /256 /1024
abbrev pub shifts : List ℕ
shifts = 2 ∷ 4 ∷ 6 ∷ 8 ∷ 10 ∷ 10 ∷ 10 ∷ 10 ∷ []

-- The ticks of the pad window, from the timer's prescaler while they are not yet computed.
unfoldable pub window : ℕ → ℕ → ℕ
window thresh tcr =
    if thresh == 1 then 50000000 / 2 ^ get_or shifts (tcr % 2 ^ 3) 0 / 125 else thresh

-- `in_tcnt - now > pad_thresh`, in 32 bits: the timer counts down.
abbrev pub stale : ℕ → ℕ → ℕ → Bool
stale last now thresh = ltb thresh (u32 (last + 2 ^ 32 - now))

-- The JVS frame for the two cached words.
abbrev pub cached_frame : Pads → List ℕ
cached_frame c = digital_frame (dc_to_jvs (u16 c.raw_cache_a)) (dc_to_jvs (u16 c.raw_cache_b))

abbrev pub asks_reset : Pads → Bool
asks_reset c = dc_reset_combo (u16 c.raw_cache_a) || dc_reset_combo (u16 c.raw_cache_b)

module _ (p : Platform) (dma : p.Dev → Ram → p.Dev × Ram) where
  open p use {Dev, load_reg}

  -- The jump to the reset vector, with interrupts masked, does not return.
  abbrev pub pad_reboot : {A : Type 0} → M Dev A
  pad_reboot s = rebooted s

  -- Both ports are polled, and the timer's value is kept.
  unfoldable pub refresh : ℕ → Machine Dev → Machine Dev
  refresh now s =
      let (a, bus1, s1) = maple_getcond p dma 0 s.bus s in
      let (b, bus2, s2) = maple_getcond p dma 1 bus1 s1 in
      record s2 {
        statics = record s.statics {
          bus = bus2;
          pads = record s.pads { in_tcnt = now; raw_cache_a = a; raw_cache_b = b };
          counts = record s.counts { getcond_total = u32 (s.counts.getcond_total + 2) };
        };
      }

  -- The slot is marked, and the window computed once.
  unfoldable pub timed : Machine Dev → Machine Dev
  unfolding window
  timed s =
      let t = hud_once 0x08 s in
      let w = window s.pads.pad_thresh (load_reg tcr0 s.dev) in
      record t { statics = record t.statics { pads = record s.pads { pad_thresh = w } } }

  -- `xmemcpy(rx, f, 64)`
  abbrev pub answer_live : ℕ → M Dev (Unit {0})
  answer_live rx s = returns tt (record s { ram = copy_in rx (cached_frame s.pads) s.ram })

  unfoldable pub jvs_digital : ℕ → M Dev (Unit {0})
  unfolding timed refresh
  jvs_digital rx s =
      let t = timed s in
      let now = load_reg tcnt0 t.dev in
      if stale t.pads.in_tcnt now t.pads.pad_thresh
      then (let u = refresh now t in if asks_reset u.pads then pad_reboot u else answer_live rx u)
      else answer_live rx t
