-- ===== src/Shim/Config.antt =====
-- The hooks of the configuration phase: the enumeration of the input board, the settings memory and
-- the monitor choice.
pub mod Settings
pub mod Replies
pub mod Delivered
use cfp2dreamcast.Base.{
  ℕ, ◌+◌, ◌*◌, ◌/◌, ◌%◌, ◌^◌, ◌<◌, ◌≡◌, Bool, true, false, List, ◌==◌, if◌then◌else◌, bit_or,
  has_bit,
}
use cfp2dreamcast.Machine.{ℤ, pos, Platform, Machine, M, returns, ◌>>=◌}
use cfp2dreamcast.Machine.Memory.{Ram, load8, store32, copy_in}
use cfp2dreamcast.Util.{shim_cable_is_vga}
use cfp2dreamcast.Shim.{Blobs, hud_once}
use Settings.{take, drop}

-- The reply that a command selects, and its bit in the log of served commands.
pub cfg_reply : Blobs → ℕ → List ℕ × ℕ
cfg_reply b cmd =
    if cmd == 0x10
    then (b.mie_jvs10, 0)
    else if cmd == 0x11
    then (b.mie_jvs11, 1)
    else if cmd == 0x12
    then (b.mie_jvs12, 2)
    else if cmd == 0x13
    then (b.mie_jvs13, 3)
    else if cmd == 0x14
    then (b.mie_jvs14, 4)
    else if cmd == 0xf1
    then (b.mie_jvsf1, 5)
    else (b.mie_jvsf1, 6)

module _ (p : Platform) where
  open p use {Dev}

  -- `pending_cfg = payload[0]`; the other arguments are not used.
  unfoldable pub shim_cfg_tx : ℕ → ℕ → ℕ → ℕ → M Dev ℤ
  shim_cfg_tx node arg1 len payload s =
      let t = hud_once 0x10 s in
      returns (pos 0)
        (record t { statics = record t.statics { pending_cfg = load8 t.ram payload } })

  -- The bytes from the 0x15th on of the selected reply.
  unfoldable pub shim_cfg_rx : Blobs → M Dev (List ℕ)
  unfolding cfg_reply
  shim_cfg_rx b s =
      let (blob, bit) = cfg_reply b s.pending_cfg in
      let seen = if has_bit s.cfg_seen bit then s.cfg_seen else bit_or s.cfg_seen (2 ^ bit) in
      let t = hud_once 0x04 s in
      returns (drop 0x15 blob) (record t { statics = record t.statics { cfg_seen = seen } })

  -- The settings memory, whole and as its two system copies, at the game's buffers.
  unfoldable pub shim_ee_read : Blobs → Machine Dev → Machine Dev
  shim_ee_read b s =
      let whole = copy_in 0x8c1c954c (take 128 b.eeprom_img) s.ram in
      let one = copy_in 0x8c1c9528 (take 18 b.eeprom_img) whole in
      let two = copy_in 0x8c1c953a (take 18 (drop 18 b.eeprom_img)) one in
      let t = hud_once 0x01 s in
      record t { ram = two; statics = record t.statics { eeread_logged = 0 } }

  -- The stubs of the settings library change nothing.
  unfoldable pub shim_ee_write_skip : M Dev ℤ
  shim_ee_write_skip s = returns (pos 0) s

  unfoldable pub shim_ee_lib_decode : M Dev ℤ
  shim_ee_lib_decode s = returns (pos 0) s

  unfoldable pub shim_ee_lib_post : M Dev ℤ
  shim_ee_lib_post s = returns (pos 0) s

  unfoldable pub shim_settings_skip : M Dev ℤ
  shim_settings_skip s = returns (pos 0) s

  -- The index of the settings record, always 0.
  unfoldable pub shim_ee_idx_read : ℕ → M Dev ℤ
  shim_ee_idx_read out s = returns (pos 0) (record s { ram = store32 out 0 s.ram })

  monitor_words : Bool → Ram → Ram
  monitor_words vga m = store32 0x8c0c4518 1 (
      store32 0x8c0c4520 0
        (store32 0x8c0c4524 (if vga then 0 else 1) (store32 0x8c0c451c (if vga then 0 else 2) m)))

  unfoldable pub shim_monitor_set : M Dev ℤ
  unfolding monitor_words
  shim_monitor_set =
      shim_cable_is_vga p >>= λ vga s. returns (pos 0) (record s { ram = monitor_words vga s.ram })
