-- ===== src/Loader/Boot.antt =====
-- `main` of loader/main.c, from the drawn splash to the jump into the handoff stub. KOS's calls are
-- parameters; the log, the stage text and the cache purges are left out.
pub mod Placed
pub mod Main
pub mod Jumps
use cfp2dreamcast.Base.{
  ℕ, ◌+◌, ◌-◌, ◌*◌, ◌/◌, ◌^◌, Bool, true, false, List, [], ◌∷◌, length, get_or, ◌==◌, if◌then◌else◌,
}
use cfp2dreamcast.Iface.{
  p2addr, shim_base, shim_code_max, g1_mirror, bios_data_60000, bios_data_60000_len,
  bios_data_1ffd00, bios_data_1ffd00_len, maple_mirror, maple_mirror_len, staging_addr, game_len,
  cart_fad, rgb565_to_0555,
}
use cfp2dreamcast.Machine.{ℤ, pos, negsuc, Platform, Machine, returns, died, rebooted, hung}
use cfp2dreamcast.Machine.Memory.{Ram, store16, store32, memset, copy_in, for_loop}
use cfp2dreamcast.Loader.{Patch, holds, apply_patches, sysrd_test}
use cfp2dreamcast.Shim.Config.Settings.{take, drop}

-- Why `halt` was called.
pub data Stage : Type 0 where
  kos_read bad_image poll_hang syscall_read bad_reread patch_abort : Stage

-- The loader stops on a red screen, or jumps to the stub.
pub data Load (D : Type 0) : Type 0 where
  halted : Stage → Machine D → Load D
  handed_over : Machine D → Load D

-- What the build embeds, and the addresses that the linker and KOS choose.
pub record Parts : Type 0 where
  pub shim_bin : List ℕ
  pub bios_data : List ℕ
  pub splash_bin : List ℕ
  pub handoff : List ℕ
  pub cleo_patches : List Patch
  pub sysbuf : ℕ
  pub vram_s : ℕ

-- "NAOMI"
abbrev pub naomi : List ℕ
naomi = b'N' ∷ b'A' ∷ b'O' ∷ b'M' ∷ b'I' ∷ []

abbrev pub handoff_scratch : ℕ
handoff_scratch = 0x8ce00000

-- A little-endian halfword of the splash.
abbrev splash_at : List ℕ → ℕ → ℕ
splash_at xs i = get_or xs (2 * i) 0 + get_or xs (2 * i + 1) 0 * 2 ^ 8

unfoldable pub draw_splash : Parts → Ram → Ram
draw_splash c =
    for_loop (640 * 480) 0
      (λ i. store16 (c.vram_s + 2 * i) (rgb565_to_0555 (splash_at c.splash_bin i)))

-- The red screen of `halt`.
unfoldable pub halt_screen : Parts → Ram → Ram
halt_screen c = for_loop (640 * 480) 0 (λ i. store16 (c.vram_s + 2 * i) 0xf800)

-- The shim with the rest of its code area cleared, and the two slices of the arcade BIOS.
unfoldable pub place_shim : Parts → Ram → Ram
place_shim c m =
    let n = length c.shim_bin in
    let code = memset (shim_base + n) 0 (shim_code_max - n) (copy_in shim_base c.shim_bin m) in
    let lib = copy_in bios_data_60000 (take bios_data_60000_len c.bios_data) code in
    copy_in bios_data_1ffd00 (take bios_data_1ffd00_len (drop bios_data_60000_len c.bios_data)) lib

-- The two register mirrors are cleared word by word.
unfoldable pub clear_mirrors : Ram → Ram
clear_mirrors m =
    for_loop (maple_mirror_len / 4) 0 (λ i. store32 (p2addr maple_mirror + 4 * i) 0)
      (for_loop (0x800 / 4) 0 (λ i. store32 (p2addr g1_mirror + 4 * i) 0) m)

unfoldable pub place_parts : Parts → Ram → Ram
unfolding place_shim clear_mirrors
place_parts c m = copy_in handoff_scratch c.handoff (clear_mirrors (place_shim c m))

-- KOS's video mode, drive set-up and drive read, and the copy into the game's place_parts.
-- `ERR_OK`, and 0 of the rehearsal.
abbrev pub is_ok : ℤ → Bool
is_ok (pos n) = n == 0
is_ok (negsuc n) = false

-- -3, of the rehearsal.
abbrev pub is_hang : ℤ → Bool
is_hang (pos n) = false
is_hang (negsuc n) = n == 2

module _ (p : Platform) (vid_set_mode cdrom_reinit : Machine p.Dev → Machine p.Dev)
    (cdrom_read_sectors : ℕ → ℕ → ℕ → Machine p.Dev → ℤ × Machine p.Dev) where
  open p use {Dev, store_reg, load_reg}

  abbrev halt : Parts → Stage → Machine Dev → Load Dev
  halt c w s = halted w (record s { ram = halt_screen c s.ram })

  -- The MMU is switched off, and the tile accelerator and its latched events are reset.
  unfoldable pub quiesce : Dev → Dev
  quiesce d =
      let mmu = store_reg 0xff000010 0 d in
      let reset = store_reg 0xa05f8008 0 (store_reg 0xa05f8008 3 mmu) in
      store_reg 0xa05f690c 0xffffffff (store_reg 0xa05f6900 0xffffffff reset)

  -- From the patches on.
  unfoldable pub patch_and_place : Parts → Machine Dev → Load Dev
  unfolding place_parts quiesce
  patch_and_place c s =
      let (r, m) = apply_patches c.cleo_patches staging_addr s.ram in
      let t = record s { ram = m } in
      if is_ok r
      then handed_over (record t { ram = place_parts c t.ram; dev = quiesce t.dev })
      else halt c patch_abort t

  -- From the rehearsal of the BIOS read on.
  unfoldable pub rehearse : Parts → Machine Dev → Load Dev
  unfolding patch_and_place
  rehearse c s = elim (sysrd_test p c.sysbuf cart_fad 1 s) [
    | returns r t ↦
        if is_ok r
        then (if holds naomi c.sysbuf t.ram then patch_and_place c t else halt c bad_reread t)
        else if is_hang r
        then halt c poll_hang t
        else halt c syscall_read t
    | died x y z t ↦ halt c syscall_read t
    | rebooted t ↦ halt c syscall_read t
    | hung ↦ halt c syscall_read s
  ]

  unfoldable pub main : Parts → Machine Dev → Load Dev
  unfolding rehearse draw_splash halt_screen
  main c s0 =
      let v = vid_set_mode s0 in
      let s = cdrom_reinit (record v { ram = draw_splash c v.ram }) in
      let (r, t) = cdrom_read_sectors staging_addr cart_fad (game_len / 2048) s in
      if is_ok r
      then (if holds naomi staging_addr t.ram then rehearse c t else halt c bad_image t)
      else halt c kos_read t
