-- ===== src/Maple.antt =====
-- shims/src/maple.c: the polled transactions on the controller bus. What a transaction does is the
-- parameter `dma`: it is run to its end at the write that starts it, since the bus ends every
-- transaction in bounded time and the shim spins until it has. The diagnostic copies of the reply
-- headers are kept; the read-backs that drain the write buffer have no effect on this memory.
pub mod Poll
pub mod Held
use cfp2dreamcast.Base.{
  ℕ, zero, suc, ◌+◌, ◌*◌, ◌/◌, ◌%◌, ◌^◌, Bool, ◌==◌, if◌then◌else◌, bit_or, has_bit,
}
use cfp2dreamcast.Iface.{maple_tx, maple_rx, p2addr, phys}
use cfp2dreamcast.Machine.{Platform, Machine, Bus}
use cfp2dreamcast.Machine.Memory.{Ram, load32, store32}

abbrev pub sb_mdstar : ℕ
sb_mdstar = 0xa05f6c04

abbrev pub sb_mdtsel : ℕ
sb_mdtsel = 0xa05f6c10

abbrev pub sb_mden : ℕ
sb_mden = 0xa05f6c14

abbrev pub sb_mdst : ℕ
sb_mdst = 0xa05f6c18

abbrev pub sb_mspeed : ℕ
sb_mspeed = 0xa05f6c80

abbrev pub sb_mdapro : ℕ
sb_mdapro = 0xa05f6c8c

abbrev pub tx : ℕ
tx = p2addr maple_tx

abbrev pub rx : ℕ
rx = p2addr maple_rx

abbrev pub put : ℕ → ℕ → (ℕ → ℕ) → ℕ → ℕ
put i v f j = if j == i then v else f j

-- `maple_addr(port, main)`
abbrev pub main_unit : ℕ → ℕ
main_unit port = bit_or (port * 2 ^ 6) 0x20

unfoldable pub devinfo_frame : ℕ → Ram → Ram
devinfo_frame port m =
    let clear = store32 rx 0 m in
    let one = store32 tx (bit_or 0x80000000 (port * 2 ^ 16)) clear in
    let two = store32 (tx + 4) (phys maple_rx) one in
    store32 (tx + 8) (bit_or (bit_or (port * 2 ^ 6 * 2 ^ 16) (main_unit port * 2 ^ 8)) 1) two

unfoldable pub getcond_frame : ℕ → Ram → Ram
getcond_frame port m =
    let clear = store32 rx 0 m in
    let one = store32 tx (bit_or (bit_or 0x80000000 (port * 2 ^ 16)) 1) clear in
    let two = store32 (tx + 4) (phys maple_rx) one in
    let three =
      store32 (tx + 8)
        (bit_or (bit_or (bit_or (2 ^ 24) (port * 2 ^ 6 * 2 ^ 16)) (main_unit port * 2 ^ 8)) 9)
        two in
    store32 (tx + 12) 0x01000000 three

module _ (p : Platform) (dma : p.Dev → Ram → p.Dev × Ram) where
  open p use {Dev, store_reg}

  -- The trigger, and the transaction it starts.
  unfoldable pub transact : Machine Dev → Machine Dev
  transact s =
      let sel = store_reg sb_mdtsel 0 s.dev in
      let star = store_reg sb_mdstar (phys maple_tx) sel in
      let started = store_reg sb_mdst 1 (store_reg sb_mden 1 star) in
      let (d, m) = dma started s.ram in record s { dev = d; ram = m }

  unfoldable pub probe_devinfo : ℕ → Bus → Machine Dev → Bus × Machine Dev
  unfolding transact devinfo_frame
  probe_devinfo port b s =
      let t = transact (record s { ram = devinfo_frame port s.ram }) in
      (record b { devinfo_hdr = put port (load32 t.ram rx) b.devinfo_hdr }, t)

  -- The set-up that the first poll does.
  unfoldable pub bus_init : Bus → Machine Dev → Bus × Machine Dev
  unfolding probe_devinfo
  bus_init b s =
      let prot = store_reg sb_mdapro 0x6155404f s.dev in
      let speed = store_reg sb_mspeed 0xc3500000 prot in
      let on = store_reg sb_mden 1 (store_reg sb_mdtsel 0 speed) in
      let (b1, s1) = probe_devinfo 0 (record b { bus_init_done = 1 }) (record s { dev = on }) in
      probe_devinfo 1 b1 s1

  -- The rounds of the poll, `left` before it gives up.
  unfoldable pub getcond_rounds : ℕ → ℕ → Bus → Machine Dev → ℕ × Bus × Machine Dev
  unfolding transact getcond_frame
  getcond_rounds zero port b s = (0xffff, b, s)
  getcond_rounds (suc left) port b s =
      let t = transact (record s { ram = getcond_frame port s.ram }) in
      let c = record b { maple_hdr = put port (load32 t.ram rx) b.maple_hdr } in
      let again = getcond_rounds left port c t in
      if load32 t.ram rx % 2 ^ 8 == 8 then (load32 t.ram (rx + 8) % 2 ^ 16, c, t) else again

  unfoldable pub maple_getcond : ℕ → Bus → Machine Dev → ℕ × Bus × Machine Dev
  unfolding getcond_rounds bus_init
  maple_getcond port b s =
      let (c, t) = if has_bit b.bus_init_done 16 then bus_init b s else (b, s) in
      getcond_rounds 2 port c t
