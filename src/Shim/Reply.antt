-- ===== src/Shim/Reply.antt =====
-- `maple_reply` of main.c: the reply to each command to the arcade input board, and the two hooks
-- that call it directly, `shim_maple_boot` and `shim_maple_entry`.
pub mod Table
pub mod Frame
pub mod Known
pub mod Enumerate
pub mod Entry
use cfp2dreamcast.Base.{
  ℕ, ◌+◌, ◌-◌, ◌*◌, ◌/◌, ◌%◌, ◌^◌, Bool, ◌||◌, Option, some, none, List, [], ◌∷◌, ◌==◌,
  if◌then◌else◌, u32, clear_bit, field,
}
use cfp2dreamcast.Iface.{p2addr}
use cfp2dreamcast.Machine.{ℤ, pos, negsuc, Platform, Machine, M, returns, ◌>>=◌}
use cfp2dreamcast.Machine.Memory.{Ram, load8, load32, store8, store32, copy_in}
use cfp2dreamcast.Maple.{sb_mdst}
use cfp2dreamcast.Util.{shim_die, shim_cable_is_vga}
use cfp2dreamcast.Shim.{Blobs, hud_once}
use cfp2dreamcast.Shim.Input.{jvs_digital}
use cfp2dreamcast.Shim.Config.Settings.{take}
use Table.{enum_reply, ack}

-- The JVS command that a command leaves for the next receive: a transmit latches the frame's byte.
abbrev pub latched : ℕ → ℕ → ℕ → ℕ
latched sub byte old =
    if sub == 0x17 || sub == 0x19 || sub == 0x21 then byte else if sub == 0x27 then 0xff else old

module _ (p : Platform) (dma : p.Dev → Ram → p.Dev × Ram) (b : Blobs) where
  open p use {Dev, store_reg}

  -- `xmemcpy(rx, blob, blob_len)`
  abbrev pub put_blob : ℕ → List ℕ → Machine Dev → Machine Dev
  put_blob rx xs s = record s { ram = copy_in rx xs s.ram }

  abbrev pub set_jvs : ℕ → Machine Dev → Machine Dev
  set_jvs v s = record s { statics = record s.statics { pending_jvs = v } }

  abbrev pub count_reply : Machine Dev → Machine Dev
  count_reply s =
      let t = hud_once 0x02 s in
      let n = u32 (t.counts.reply_ticks + 1) in
      record t { statics = record t.statics { counts = record t.counts { reply_ticks = n } } }

  -- A receive: the enumeration reply that the last transmit selected, or the live frame.
  unfoldable pub reply_receive : ℕ → M Dev (Unit {0})
  reply_receive rx s = elim (enum_reply b s.pending_jvs) [
    | some xs ↦ returns tt (put_blob rx xs s)
    | none ↦ jvs_digital p dma rx s
  ]

  unfoldable pub reply_eeprom : ℕ → M Dev (Unit {0})
  reply_eeprom rx s =
      let hdr = copy_in rx (0x87 ∷ 0x00 ∷ 0x20 ∷ 0x20 ∷ []) s.ram in
      let whole = copy_in (rx + 4) (take 128 b.eeprom_img) hdr in
      returns tt (record s { ram = whole; statics = record s.statics { ee_logged = 0 } })

  -- Bit 0 of byte 10 is the monitor switch.
  unfoldable pub reply_switches : ℕ → M Dev (Unit {0})
  reply_switches rx s =
      (shim_cable_is_vga p >>= λ vga t.
      let off = clear_bit (load8 t.ram (rx + 10)) 0 in
      returns tt (if vga then t else record t { ram = store8 (rx + 10) off t.ram }))
        (put_blob rx b.mie_sub31 s)

  unfoldable pub reply_write : ℕ → M Dev (Unit {0})
  reply_write rx s =
      let n = u32 (s.counts.ee_wr_count + 1) in
      let t = record s {
        statics = record s.statics { counts = record s.counts { ee_wr_count = n } };
      } in
      returns tt (put_blob rx (0x87 ∷ 0x00 ∷ 0x20 ∷ 0x01 ∷ 0x0c ∷ 0x00 ∷ 0x8e ∷ 0x00 ∷ []) t)

  -- The commands whose reply is fixed, or the fatal stop.
  unfoldable pub reply_ack : ℕ → ℕ → M Dev (Unit {0})
  reply_ack sub recv s = elim (ack b sub) [
    | some xs ↦ returns tt (put_blob (p2addr recv) xs s)
    | none ↦ shim_die p 3 sub recv s
  ]

  -- `frame` is read for the trace alone, which is compiled out.
  unfoldable pub maple_reply : ℕ → ℕ → ℕ → M Dev (Unit {0})
  unfolding reply_receive reply_eeprom reply_switches reply_write reply_ack
  maple_reply sub recv frame s =
      let rx = p2addr recv in
      let t = count_reply s in
      if sub == 0x33
      then jvs_digital p dma rx t
      else if sub == 0x15
      then reply_receive rx t
      else if sub == 0x03
      then reply_eeprom rx t
      else if sub == 0x31
      then reply_switches rx t
      else if sub == 0x0b
      then reply_write rx t
      else reply_ack sub recv t

  unfoldable pub shim_maple_boot : ℕ → M Dev (Unit {0})
  unfolding maple_reply
  shim_maple_boot arg0 s =
      let cmdblk = load32 s.ram 0x8c0e6400 in
      let sub = load8 s.ram (cmdblk + 0x0c) in
      let recv = load32 s.ram (cmdblk + 0x04) in
      let t = set_jvs (latched sub (load8 s.ram (arg0 + 4)) s.pending_jvs) s in
      (maple_reply sub recv cmdblk >>= λ _ u.
      returns tt (record u { dev = store_reg sb_mdst 0 u.dev }))
        t

  -- The buffer index is toggled, and the pending bit of the descriptor cleared.
  unfoldable pub shim_maple_entry : M Dev ℤ
  unfolding maple_reply
  shim_maple_entry s =
      let base = load32 s.ram 0x8c0e8410 in
      let raw = load32 s.ram (base + 0x10b8) in
      let recv = field (load32 s.ram (base + 0x10a8 + raw % 2 * 4)) 0 28 in
      let desc = load32 s.ram (base + 0x10f4) in
      let toggled = if raw % 2 == 0 then raw + 1 else raw - 1 in
      let t = record s {
        ram = store32 (base + 0x10b8) toggled (store32 (desc + 0x04) recv s.ram);
      } in
      let served = maple_reply 0x33 recv 0 >>= λ _ u.
      let done = clear_bit (load32 u.ram (desc + 0x18)) 0 in
      returns (pos 0) (record u { ram = store32 (desc + 0x18) done u.ram }) in
      if load32 s.ram (base + 0x0fc0) == 1 then served t else returns (negsuc 2) s
