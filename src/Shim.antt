-- ===== src/Shim.antt =====
-- shims/src/main.c: what the game's patched call sites reach. Words that the game reads and writes
-- are in memory; the reply blobs, made from captures when the shim is built, are a parameter.
pub mod Captures
pub mod Config
pub mod Input
pub mod Reply
pub mod Steady
pub mod Ladder
pub mod Timeline
pub mod Probes
use cfp2dreamcast.Base.{ℕ, List, bit_or}
use cfp2dreamcast.Machine.{Machine}

-- The blobs that the build embeds: the settings memory and the replies of the arcade board.
pub record Blobs : Type 0 where
  pub eeprom_img : List ℕ
  pub mie_sub01 : List ℕ
  pub mie_sub13 : List ℕ
  pub mie_sub17 : List ℕ
  pub mie_sub27 : List ℕ
  pub mie_sub31 : List ℕ
  pub mie_subff : List ℕ
  pub mie_jvsf1 : List ℕ
  pub mie_jvs10 : List ℕ
  pub mie_jvs11 : List ℕ
  pub mie_jvs12 : List ℕ
  pub mie_jvs13 : List ℕ
  pub mie_jvs14 : List ℕ

-- `HUD_ONCE(bit, …)`: what is left of it with the display compiled out.
abbrev pub hud_once : {D : Type 0} → ℕ → Machine D → Machine D
hud_once bit s = record s { statics = record s.statics { hud_marks = bit_or s.hud_marks bit } }
