-- ===== src/Cart/Diagnose.antt =====
-- What shims/src/cart.c adds to the service of a stream in a diagnostic build: the checksum of the
-- delivered bytes, which SHIM_GD_DIAG compiles in, and the load statistics, which SHIM_LOADSTAT does.
-- The statistics are a state of their own, since the default build has none of them.
pub mod Detects
pub mod Tally
use Prim.Native.Nat.{bit_xor}
use cfp2dreamcast.Base.{
  ℕ, zero, suc, ◌+◌, ◌-◌, ◌*◌, ◌/◌, ◌%◌, ◌^◌, List, [], ◌∷◌, ltb, ◌==◌, if◌then◌else◌, get_or,
  bit_or, u32,
}
use cfp2dreamcast.Iface.{p2addr}
use cfp2dreamcast.Machine.{Platform, Machine, M, ◌>>=◌, returns}
use cfp2dreamcast.Machine.Memory.{Ram, load8}
use cfp2dreamcast.Util.{shim_die, hex_paint_c}
use cfp2dreamcast.Cart.{
  rejects, request_off, request_len, request_dest, cart_read, finish, shim_cart_service,
}
use cfp2dreamcast.Shim.Timeline.{Timeline, ls_stamp_a}

-- One round: the sum is rotated by a bit, and the byte is added in without carry.
pub mix : ℕ → ℕ → ℕ
mix ck byte = bit_xor (bit_or (u32 (ck * 2)) (ck / 2 ^ 31)) byte

-- The loop over the delivered bytes at `addr`, with `left` rounds to go.
pub checksum : ℕ → ℕ → Ram → ℕ → ℕ
checksum zero addr m ck = ck
checksum (suc left) addr m ck = checksum left (addr + 1) m (mix ck (load8 m addr))

-- The sum that is painted.
pub stream_checksum : ℕ → ℕ → Ram → ℕ
unfolding checksum
stream_checksum dest len m = checksum len (p2addr dest) m 0

abbrev pub ls_tcnt0 : ℕ
ls_tcnt0 = 0xffd8000c

abbrev pub ls_tcr0 : ℕ
ls_tcr0 = 0xffd80010

-- `ls_sh` is 0xff until the first stream.
pub record LoadStat : Type 0 where
  pub ls_bytes : ℕ
  pub ls_reads : ℕ
  pub ls_ticks : ℕ
  pub ls_sh : ℕ

abbrev pub ls_start : LoadStat
ls_start = record { ls_bytes = 0; ls_reads = 0; ls_ticks = 0; ls_sh = 0xff }

abbrev pub scales : List ℕ
scales = 2 ∷ 4 ∷ 6 ∷ 8 ∷ 10 ∷ 10 ∷ 10 ∷ 10 ∷ []

-- Before the first stream the prescaler is taken from the control of the timer.
pub ls_scale : ℕ → LoadStat → LoadStat
ls_scale control l =
    if l.ls_sh == 0xff then record l { ls_sh = get_or scales (control % 2 ^ 3) 0 } else l

-- After a stream of `len` bytes, from the counts of the timer before and behind it.
pub ls_add : ℕ → ℕ → ℕ → LoadStat → LoadStat
ls_add len t0 now l =
    let dt = u32 (t0 + 2 ^ 32 - now) in
    let ticks = if ltb dt (50000000 / 2 ^ l.ls_sh) then u32 (l.ls_ticks + dt) else l.ls_ticks in
    record l {
      ls_ticks = ticks;
      ls_bytes = u32 (l.ls_bytes + len);
      ls_reads = u32 (l.ls_reads + 1);
    }

module _ (p : Platform) where
  open p use {Dev, load_reg}

  -- The three numbers on the screen.
  pub ls_paint : LoadStat → Machine Dev → Machine Dev
  ls_paint l s =
      let bytes = hex_paint_c p 20 152 l.ls_bytes 0x0000 0xffff s in
      let reads = hex_paint_c p 20 166 l.ls_reads 0x0000 0xffff bytes in
      hex_paint_c p 20 180 (u32 (l.ls_ticks * 2 ^ l.ls_sh) / 50000) 0x0000 0xffff reads

  -- The statistics behind a stream that was read, and their numbers on the screen.
  streamed : ℕ → ℕ → LoadStat → Timeline → Unit {0} → M Dev (LoadStat × Timeline)
  unfolding ls_add ls_paint
  streamed len t0 scaled clock _ t =
      let done = finish p len t in
      let added = ls_add len t0 (load_reg ls_tcnt0 done.dev) scaled in
      returns (added, ls_stamp_a 4 clock) (ls_paint added done)

  -- `shim_cart_service` with the statistics compiled in.
  pub measured_service : LoadStat → Timeline → M Dev (LoadStat × Timeline)
  unfolding ls_scale streamed
  measured_service l clock s =
      let off = request_off s.ram in
      let len = request_len s.ram in
      let dest = request_dest s.ram in
      let scaled = ls_scale (load_reg ls_tcr0 s.dev) l in
      let t0 = load_reg ls_tcnt0 s.dev in
      if rejects off len dest
      then shim_die p 2 off dest s
      else (cart_read p off len dest >>= streamed len t0 scaled clock) s
