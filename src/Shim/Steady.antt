-- ===== src/Shim/Steady.antt =====
-- `shim_maple_steady` of main.c: the per-frame hook. The game's engine at 0x8c03c2c6 is an argument.
-- The variables of the on-screen diagnostics are left out, and the probes compiled out.
pub mod Walk
pub mod Hook
pub mod Latch
pub mod Decode
use cfp2dreamcast.Base.{
  ℕ, zero, suc, ◌+◌, ◌-◌, ◌*◌, ◌/◌, ◌%◌, ◌^◌, Bool, ◌&&◌, ltb, ◌==◌, if◌then◌else◌, u32, field,
  has_bit,
}
use cfp2dreamcast.Iface.{p2addr, maple_mirror}
use cfp2dreamcast.Machine.{ℤ, pos, negsuc, Platform, Machine, M, Counts, returns, ◌>>=◌}
use cfp2dreamcast.Machine.Memory.{Ram, load8, load32, store32}
use cfp2dreamcast.Shim.{Blobs}
use cfp2dreamcast.Shim.Ladder.{mie_probe_reply}
use cfp2dreamcast.Shim.Reply.{maple_reply, set_jvs, latched}

-- The free-play flag of the game's settings.
abbrev pub free_play : ℕ
free_play = 0x8c1c9790

abbrev pub mmir : ℕ → ℕ
mmir off = p2addr (maple_mirror + off)

-- `a - 0x0c000000u < 0x02000000u`: the guard of the list and of each receive address.
abbrev pub in_main : ℕ → Bool
in_main a = ltb (u32 (a + 2 ^ 32 - 0x0c000000)) 0x02000000

-- `& 0x1fffffe0`
abbrev pub aligned : ℕ → ℕ
aligned a = field a 5 24

abbrev is_zero : ℤ → Bool
is_zero (pos n) = n == 0
is_zero (negsuc n) = Bool.false

module _ (p : Platform) (dma : p.Dev → Ram → p.Dev × Ram) (b : Blobs) where
  open p use {Dev}

  -- What one descriptor asks for, in the walk at `addr`.
  unfoldable pub serve : ℕ → M Dev (Unit {0})
  serve addr s =
      let h1 = load32 s.ram addr in
      let rcv = aligned (load32 s.ram (addr + 0x04)) in
      let fh = load32 s.ram (addr + 0x08) in
      let sub = load8 s.ram (addr + 0x0c) in
      let t = set_jvs p dma b (latched sub (load8 s.ram (addr + 0x14)) s.pending_jvs) s in
      if h1 / 2 ^ 8 % 2 ^ 3 == 0
      then (if fh % 2 ^ 8 == 0x86 && fh / 2 ^ 8 % 2 ^ 8 == 0x20
          then (if in_main rcv then maple_reply p dma b sub rcv addr t else returns tt t)
          else if in_main rcv
          then returns tt (record s { ram = mie_probe_reply (fh % 2 ^ 8) fh rcv addr s.ram })
          else returns tt s)
      else returns tt s

  -- `addr += (2u + plen) * 4u`, with `plen` from the descriptor's first word.
  abbrev pub next_frame : ℕ → ℕ → ℕ
  next_frame h1 addr = u32 (addr + (2 + (h1 % 2 ^ 8 + 1)) * 4)

  -- The walk over the descriptor list, with `left` rounds to go.
  unfoldable pub walk : ℕ → ℕ → M Dev (Unit {0})
  unfolding serve
  walk zero addr s = returns tt s
  walk (suc left) addr s =
      let h1 = load32 s.ram addr in
      let rest = walk left (next_frame h1 addr) in
      (serve addr >>= λ _ t. if has_bit h1 31 then returns tt t else rest t) s

  -- The counters of a frame, and their window of 64 frames.
  unfoldable pub beat : ℤ → Machine Dev → Machine Dev
  beat rc s =
      let c = s.counts in
      let ok = if is_zero rc then u32 (c.rc_ok_seen + 1) else c.rc_ok_seen in
      let n = u32 (c.steady_beat + 1) in
      let counted = record c { steady_beat = n; rc_ok_seen = ok } in
      let rates = record counted {
        gc_rate = u32 (c.getcond_total + 2 ^ 32 - c.last_gc);
        cc_rate = u32 (s.cart_count + 2 ^ 32 - c.last_cc);
        last_gc = c.getcond_total;
        last_cc = s.cart_count;
        trig_seen = 0x10000;
        rc_ok_seen = 0x10000;
      } in
      record s { statics = record s.statics { counts = if n % 2 ^ 6 == 0 then rates else counted } }

  abbrev pub count_trigger : Machine Dev → Machine Dev
  count_trigger s = record s {
    statics = record s.statics {
      counts = record s.counts { trig_seen = u32 (s.counts.trig_seen + 1) };
    };
  }

  -- A triggered list is walked if it is in main memory, and the transaction completed.
  unfoldable pub service : M Dev (Unit {0})
  unfolding walk
  service s =
      let addr = aligned (load32 s.ram (mmir 0x04)) in
      ((λ u. if in_main addr then walk 32 addr u else returns tt u) >>= λ _ t.
      returns tt (record t { ram = store32 (mmir 0x18) 0 t.ram }))
        (count_trigger s)

  unfoldable pub shim_maple_steady : M Dev ℤ → M Dev ℤ
  unfolding service beat
  shim_maple_steady engine s =
      (engine >>= λ rc t.
      let u = beat rc t in
      let served = service >>= λ _. returns rc in
      if has_bit (load32 u.ram (mmir 0x18)) 0 then served u else returns rc u)
        (record s { ram = store32 free_play 1 s.ram })
