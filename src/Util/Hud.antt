-- ===== src/Util/Hud.antt =====
-- `shim_mark` and `shim_hex` of shims/src/util.c: the on-screen marks of a diagnostic build. `hud` is
-- the build switch SHIM_HUD; with it off, as in the release, neither does anything.
pub mod Marks
use cfp2dreamcast.Base.{ℕ, ◌+◌, ◌-◌, ◌*◌, Bool, leb, if◌then◌else◌, u32}
use cfp2dreamcast.Machine.{Platform, Machine}
use cfp2dreamcast.Machine.Memory.{Ram, for_loop}
use cfp2dreamcast.Util.{pixel, framebuffer, unblank, hex_paint}

-- The first pixel of a slot; slots from 16 on are in a second row.
abbrev pub slot_pixel : ℕ → ℕ
slot_pixel slot = if leb 16 slot then 12 * 640 + (slot - 16) * 24 else slot * 24

pub mark_pixels : ℕ → ℕ → Ram → Ram
mark_pixels fb colour = for_loop 8 0 λ y. for_loop 16 0 λ x. pixel fb (y * 640 + x) colour

module _ (p : Platform) (hud : Bool) where
  open p use {Dev}

  pub shim_mark : ℕ → ℕ → Machine Dev → Machine Dev
  unfolding mark_pixels
  shim_mark slot colour s =
      let d = unblank p s.dev in
      let fb = framebuffer p d + 2 * u32 (slot_pixel slot) in
      if hud then record s { dev = d; ram = mark_pixels fb colour s.ram } else s

  pub shim_hex : ℕ → ℕ → ℕ → Machine Dev → Machine Dev
  shim_hex x y val s = if hud then hex_paint p x y val s else s
