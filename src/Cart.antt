-- ===== src/Cart.antt =====
-- shims/src/cart.c: reads of the cartridge image by byte range, and the service behind the game's
-- DMA registers. Default build: no trace, no load statistics, DMA bodies, load bar. `shim_mark` is
-- compiled out.
pub mod Split
pub mod Fill
pub mod Read
pub mod Service
pub mod Live
pub mod Bar
pub mod Shown
pub mod Diagnose
use cfp2dreamcast.Base.{
  ℕ, ◌+◌, ◌-◌, ◌*◌, ◌/◌, ◌%◌, ◌^◌, Bool, true, false, ◌||◌, not, ltb, leb, ◌==◌, if◌then◌else◌,
  bit_or, field, u32,
}
use cfp2dreamcast.Iface.{p2addr, phys, shim_base, shim_bounce, g1_mirror, cart_fad, cart_size}
use cfp2dreamcast.Machine.{
  ℤ, pos, negsuc, Platform, Machine, M, Outcome, returns, died, hung, ◌>>=◌, ◌>>◌, modify,
}
use cfp2dreamcast.Machine.Memory.{Ram, memcpy, load32, store32}
use cfp2dreamcast.Util.{shim_die, loadbar_paint}
use cfp2dreamcast.Gd.{gd_read_sectors, gd_read_sectors_dma}
use Split.{cart_split}

abbrev pub pb_total : ℕ
pb_total = 320 * 2 ^ 15

-- `if (r < 0)`
abbrev pub is_negative : ℤ → Bool
is_negative (pos n) = false
is_negative (negsuc n) = true

-- The test that stops a request before any of it is read.
pub rejects : ℕ → ℕ → ℕ → Bool
rejects off len dest =
    len == 0
    || ltb 0x01000000 len
    || ltb cart_size (u32 (off + len))
    || not (field dest 24 5 == 0x0c000000)
    || ltb (phys shim_base) (u32 (dest + len))

-- The request in the mirrored registers: offset, length and destination.
unfoldable pub request_off : Ram → ℕ
request_off m =
    let g = p2addr g1_mirror in
    bit_or (load32 m (g + 0x0c) % 2 ^ 16 * 2 ^ 16) (load32 m (g + 0x10) % 2 ^ 16) % 2 ^ 28

unfoldable pub request_len : Ram → ℕ
request_len m = load32 m (p2addr g1_mirror + 0x408)

unfoldable pub request_dest : Ram → ℕ
request_dest m = load32 m (p2addr g1_mirror + 0x404) % 2 ^ 29

-- `pb_left` after a stream of `len` bytes.
pub bar_left : ℕ → ℕ → ℕ
bar_left left len = if leb left len then 0 else left - len

module _ (p : Platform) where
  open p use {Dev}

  pub or_die : ℕ → M Dev ℤ → M Dev (Unit {0})
  or_die rel_fad read =
      read >>= λ r s. if is_negative r then shim_die p 4 rel_fad s.gd_last_err s else returns tt s

  pub gd_or_die : ℕ → ℕ → ℕ → M Dev (Unit {0})
  unfolding or_die
  gd_or_die dst rel_fad n = or_die rel_fad (gd_read_sectors p dst (u32 (cart_fad + rel_fad)) n)

  pub gd_or_die_dma : ℕ → ℕ → ℕ → M Dev (Unit {0})
  unfolding or_die
  gd_or_die_dma address rel_fad n =
      or_die rel_fad (gd_read_sectors_dma p address (u32 (cart_fad + rel_fad)) n)

  -- The flag of the first read and the count of reads.
  pub count_read : Machine Dev → Machine Dev
  count_read s = record s {
    statics = record s.statics { cart_first = 0; cart_count = u32 (s.cart_count + 1) };
  }

  -- One sector into the bounce buffer, and `take` of its bytes on to `dst`.
  pub part : ℕ → ℕ → ℕ → ℕ → M Dev (Unit {0})
  part dst fad skip take s =
      if take == 0
      then returns tt s
      else (gd_or_die shim_bounce fad 1
            >> modify (λ t. record t { ram = memcpy dst (shim_bounce + skip) take t.ram }))
          s

  -- Whole sectors straight to their place, by DMA if that is aligned.
  pub body : ℕ → ℕ → ℕ → ℕ → M Dev (Unit {0})
  body dst body_phys fad sect s =
      if sect == 0
      then returns tt s
      else if body_phys % 32 == 0
      then gd_or_die_dma body_phys fad sect s
      else gd_or_die dst fad sect s

  pub cart_read : ℕ → ℕ → ℕ → M Dev (Unit {0})
  cart_read off len dest_phys = do
    modify count_read
    let s = cart_split off len
    let dst = p2addr dest_phys
    part dst s.head_fad s.head_skip s.head_take
    body (dst + s.head_take) (u32 (dest_phys + s.head_take)) s.body_fad s.body_sect
    part (dst + s.head_take + s.body_sect * 2048) s.tail_fad 0 s.tail_take

  -- The load bar after a stream, until it is full.
  pub bar_step : ℕ → Machine Dev → Machine Dev
  bar_step len s =
      if s.pb_left == 0
      then s
      else (let left = bar_left s.pb_left len in
          loadbar_paint p ((pb_total - left) / 2 ^ 15)
            (record s { statics = record s.statics { pb_left = left } }))

  -- The transfer is marked as done, and the bar moves on.
  pub finish : ℕ → Machine Dev → Machine Dev
  finish len t = bar_step len (record t { ram = store32 (p2addr g1_mirror + 0x418) 0 t.ram })

  unfoldable pub shim_cart_service : M Dev (Unit {0})
  shim_cart_service s =
      let off = request_off s.ram in
      let len = request_len s.ram in
      let dest = request_dest s.ram in
      if rejects off len dest
      then shim_die p 2 off dest s
      else (do cart_read off len dest; modify (finish len)) s
