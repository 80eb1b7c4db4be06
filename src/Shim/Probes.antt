-- ===== src/Shim/Probes.antt =====
-- The probes of `shim_maple_steady` in shims/src/main.c, which SHIM_PROBES compiles in: each paints a
-- number that it reads from the processor, a device or the game. The processor's SPC and VBR are
-- arguments. With the probes off, as in the release, nothing is painted.
use cfp2dreamcast.Base.{
  ℕ, ◌+◌, ◌*◌, ◌/◌, ◌%◌, ◌^◌, ◌<◌, ◌≡◌, refl, ◌∙◌, arith, Bool, true, false, not, ◌&&◌, ltb, ◌==◌,
  if◌then◌else◌, bit_or, field, u32,
}
use cfp2dreamcast.Machine.{Platform, Machine}
use cfp2dreamcast.Machine.Memory.{Ram, load8, load32}
use cfp2dreamcast.Util.{hex_paint}
use cfp2dreamcast.Util.Paint.{InMain, hex_paint-main}

abbrev load16 : Ram → ℕ → ℕ
load16 m a = load8 m a + load8 m (a + 1) * 2 ^ 8

-- `(w & 0x1f000000u) == 0x0c000000u`: a pointer into main memory.
abbrev points_to_main : ℕ → Bool
points_to_main w = field w 24 5 == 0x0c000000

-- The first of the three DMA-request rings that has a slot in flight.
ring_slot : Ram → ℕ
ring_slot m =
    let h : ℕ = 0x8c0fb8e0 in
    let first = load32 m (h + 0x20) in
    let second = load32 m (h + 0x24) in
    if first == 0 then if second == 0 then load32 m (h + 0x28) else second else first

-- The masks of the slot, or the counts of the rings if there is none.
ring_state : ℕ → Ram → ℕ
ring_state slot m =
    let h : ℕ = 0x8c0fb8e0 in
    let masks = bit_or (load16 m (slot + 0x1c) * 2 ^ 16) (load16 m (slot + 0x1e)) in
    let c0 = load16 m (h + 0x30) % 2 ^ 6 * 2 ^ 16 in
    let c1 = load16 m (h + 0x36) % 2 ^ 6 * 2 ^ 8 in
    let c2 = load16 m (h + 0x3c) % 2 ^ 6 in
    let counts = bit_or (bit_or (bit_or 0xc0000000 c0) c1) c2 in
    if not (slot == 0) && points_to_main slot then masks else counts

module _ (p : Platform) where
  open p use {Dev, load_reg}

  -- A number that is read as it is painted.
  abbrev paint_read : ℕ → ℕ → (Machine Dev → ℕ) → Machine Dev → Machine Dev
  paint_read x y value s = hex_paint p x y (value s) s

  abbrev register : ℕ → Machine Dev → ℕ
  register a s = load_reg a s.dev

  pub cpu_probe : ℕ → ℕ → Machine Dev → Machine Dev
  cpu_probe spc vbr s =
      let exception = paint_read 120 68 (register 0xff000024) (hex_paint p 20 68 spc s) in
      hex_paint p 120 82 vbr (paint_read 20 82 (register 0xff00000c) exception)

  -- The heartbeat of the sound driver: an offset into its memory, checked before it is followed.
  heartbeat : ℕ → ℕ → Machine Dev → ℕ
  heartbeat sfl sct s =
      let sb = load32 s.ram (bit_or 0xa0000000 (sct % 2 ^ 29 + 0x98)) in
      let beat = load_reg (0xa0800000 + sb + 0x18) s.dev in
      if sfl == 1 && points_to_main sct
      then (if ltb sb 0x00200000 && sb % 2 ^ 2 == 0 then beat else bit_or 0xbad10000 (sb / 2 ^ 16))
      else bit_or 0xbad00000 (sfl % 2 ^ 16)

  pub sound_probe : Machine Dev → Machine Dev
  unfolding heartbeat
  sound_probe s =
      let sfl = load32 s.ram 0xac0e6894 in
      let sct = load32 s.ram 0xac0e6898 in
      paint_read 120 96 (heartbeat sfl sct) (hex_paint p 20 96 sct s)

  pub queue_probe : Machine Dev → Machine Dev
  unfolding ring_slot ring_state
  queue_probe s =
      let low = λ (a : ℕ). load_reg a s.dev % 2 ^ 4 in
      let dmaor = u32 (load_reg 0xffa00040 s.dev * 2 ^ 16) in
      let engines =
        bit_or (bit_or (bit_or dmaor (low 0xa05f6808 * 2 ^ 8)) (low 0xa05f7c18 * 2 ^ 4))
          (low 0xa05f7818) in
      let row162 = hex_paint p 120 162 engines (hex_paint p 20 162 (load_reg 0xa05f6900 s.dev) s) in
      let row176 =
        paint_read 120 176 (register 0xffa0002c) (paint_read 20 176 (register 0xffa00028) row162) in
      let slot = ring_slot row176.ram in
      let row190 =
        paint_read 120 190 (λ t. ring_state slot t.ram) (hex_paint p 20 190 slot row176) in
      let row204 =
        paint_read 120 204 (register 0xa05f6800) (paint_read 20 204 (register 0xffa00020) row190) in
      paint_read 120 218 (register 0xa05f6804) (paint_read 20 218 (register 0xa05f8138) row204)

  -- `ist_seen` collects the interrupts that were ever pending.
  pub render_probe : ℕ → Machine Dev → ℕ × Machine Dev
  render_probe ist_seen s =
      let seen = bit_or ist_seen (load_reg 0xa05f6900 s.dev) in
      let rctx = load32 s.ram 0x8c0eb72c in
      let row232 = paint_read 120 232 (λ t. load32 t.ram 0x8c0eb728) (hex_paint p 20 232 rctx s) in
      let state = if points_to_main rctx then load32 row232.ram (rctx + 0x14) else 0xffffffff in
      (seen, hex_paint p 120 246 seen (hex_paint p 20 246 state row232))

  -- All of them, in the order of the frame.
  pub probes : Bool → ℕ → ℕ → ℕ → Machine Dev → ℕ × Machine Dev
  unfolding cpu_probe sound_probe queue_probe render_probe
  probes on spc vbr ist_seen s =
      let painted = render_probe ist_seen (queue_probe (sound_probe (cpu_probe spc vbr s))) in
      if on then painted else (ist_seen, s)

  module _ (q : ℕ) (main : InMain q) where
    keep :
        (x y val : ℕ) (s : Machine Dev)
        → x < 500
        → y < 400
        → (hex_paint p x y val s).ram q ≡ s.ram q
    keep x y val s hx hy = hex_paint-main p x y val q s hx hy main

    cpu_probe-main : (spc vbr : ℕ) (s : Machine Dev) → (cpu_probe spc vbr s).ram q ≡ s.ram q
    unfolding cpu_probe
    cpu_probe-main spc vbr s =
        keep 120 82 _ _ (omega arith) (omega arith)
        ∙ keep 20 82 _ _ (omega arith) (omega arith)
        ∙ keep 120 68 _ _ (omega arith) (omega arith)
        ∙ keep 20 68 _ _ (omega arith) (omega arith)

    sound_probe-main : (s : Machine Dev) → (sound_probe s).ram q ≡ s.ram q
    unfolding sound_probe
    sound_probe-main s =
        keep 120 96 _ _ (omega arith) (omega arith) ∙ keep 20 96 _ _ (omega arith) (omega arith)

    queue_probe-main : (s : Machine Dev) → (queue_probe s).ram q ≡ s.ram q
    unfolding queue_probe
    queue_probe-main s =
        keep 120 218 _ _ (omega arith) (omega arith)
        ∙ keep 20 218 _ _ (omega arith) (omega arith)
        ∙ keep 120 204 _ _ (omega arith) (omega arith)
        ∙ keep 20 204 _ _ (omega arith) (omega arith)
        ∙ keep 120 190 _ _ (omega arith) (omega arith)
        ∙ keep 20 190 _ _ (omega arith) (omega arith)
        ∙ keep 120 176 _ _ (omega arith) (omega arith)
        ∙ keep 20 176 _ _ (omega arith) (omega arith)
        ∙ keep 120 162 _ _ (omega arith) (omega arith)
        ∙ keep 20 162 _ _ (omega arith) (omega arith)

    render_probe-main :
        (ist_seen : ℕ) (s : Machine Dev) → (render_probe ist_seen s).1.ram q ≡ s.ram q
    unfolding render_probe
    render_probe-main ist_seen s =
        keep 120 246 _ _ (omega arith) (omega arith)
        ∙ keep 20 246 _ _ (omega arith) (omega arith)
        ∙ keep 120 232 _ _ (omega arith) (omega arith)
        ∙ keep 20 232 _ _ (omega arith) (omega arith)

    -- The probes, on or off, change no byte of main memory.
    probes-main :
        (on : Bool) (spc vbr ist_seen : ℕ) (s : Machine Dev)
        → (probes on spc vbr ist_seen s).1.ram q ≡ s.ram q
    unfolding probes
    probes-main true spc vbr ist_seen s =
        render_probe-main ist_seen _
        ∙ queue_probe-main _
        ∙ sound_probe-main _
        ∙ cpu_probe-main spc vbr s
    probes-main false spc vbr ist_seen s = refl
