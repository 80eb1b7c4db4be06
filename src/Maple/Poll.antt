-- ===== src/Maple/Poll.antt =====
-- What a poll of a pad answers, and the memory it keeps to.
use cfp2dreamcast.Base.{
  ℕ, zero, suc, ◌+◌, ◌%◌, ◌^◌, ◌≤◌, ◌≡◌, refl, ◌∙◌, ◌⊎◌, inl, inr, arith, Bool-cases, bit_or, ◌*◌,
  if◌then◌else◌, ◌==◌, has_bit,
}
use cfp2dreamcast.Iface.{maple_rx, phys, p2addr}
use cfp2dreamcast.Machine.{Platform, Machine, Bus}
use cfp2dreamcast.Machine.Memory.{Ram, load32, store32}
use cfp2dreamcast.Machine.Store.{Misses, store32-Misses}
use cfp2dreamcast.Maple.{
  tx, rx, transact, devinfo_frame, getcond_frame, probe_devinfo, bus_init, getcond_rounds,
  maple_getcond, main_unit, sb_mdtsel, sb_mden, sb_mspeed, sb_mdapro,
}

-- A byte of memory outside the transmit buffer and the `size` bytes of the receive buffer.
abbrev pub Beside : ℕ → ℕ → Type 0
Beside size q = Misses q tx 16 × Misses q rx size

module _ (size q : ℕ) (room : 4 ≤ size) (out : Beside size q) where
  at_tx : (k v : ℕ) (m : Ram) → k ≤ 12 → store32 (tx + k) v m q ≡ m q
  at_tx k v m h =
      store32-Misses (tx + k) v q m (λ i lt e. out.0 (k + i) (omega arith) (omega arith))

  at_rx : (v : ℕ) (m : Ram) → store32 rx v m q ≡ m q
  at_rx v m = store32-Misses rx v q m (λ i lt e. out.1 i (omega arith) e)

  devinfo_frame-Beside : (port : ℕ) (m : Ram) → devinfo_frame port m q ≡ m q
  unfolding devinfo_frame p2addr
  devinfo_frame-Beside port m =
      let clear = store32 rx 0 m in
      let one = store32 tx (bit_or 0x80000000 (port * 2 ^ 16)) clear in
      let two = store32 (tx + 4) (phys maple_rx) one in
      at_tx 8 (bit_or (bit_or (port * 2 ^ 6 * 2 ^ 16) (main_unit port * 2 ^ 8)) 1) two (omega arith)
      ∙ at_tx 4 (phys maple_rx) one (omega arith)
      ∙ at_tx 0 (bit_or 0x80000000 (port * 2 ^ 16)) clear (omega arith)
      ∙ at_rx 0 m

  getcond_frame-Beside : (port : ℕ) (m : Ram) → getcond_frame port m q ≡ m q
  unfolding getcond_frame p2addr
  getcond_frame-Beside port m =
      let clear = store32 rx 0 m in
      let head = bit_or (bit_or 0x80000000 (port * 2 ^ 16)) 1 in
      let one = store32 tx head clear in
      let two = store32 (tx + 4) (phys maple_rx) one in
      let word =
        bit_or (bit_or (bit_or (2 ^ 24) (port * 2 ^ 6 * 2 ^ 16)) (main_unit port * 2 ^ 8)) 9 in
      at_tx 12 0x01000000 (store32 (tx + 8) word two) (omega arith)
      ∙ at_tx 8 word two (omega arith)
      ∙ at_tx 4 (phys maple_rx) one (omega arith)
      ∙ at_tx 0 head clear (omega arith)
      ∙ at_rx 0 m

module _ (p : Platform) (dma : p.Dev → Ram → p.Dev × Ram) where
  open p use {Dev}

  -- The final receive buffer holds a good reply, with this word of buttons.
  abbrev pub Answered : ℕ → Machine Dev → Type 0
  Answered w t = (load32 t.ram rx % 2 ^ 8 ≡ 8) × (w ≡ load32 t.ram (rx + 8) % 2 ^ 16)

  rounds-Answers :
      (left port : ℕ) (b : Bus) (s : Machine Dev)
      → let r = getcond_rounds p dma left port b s in (r.0 ≡ 0xffff) ⊎ Answered r.0 r.2
  unfolding getcond_rounds
  rounds-Answers zero port b s = inl refl
  rounds-Answers (suc left) port b s =
      let t = transact p dma (record s { ram = getcond_frame port s.ram }) in
      elim (Bool-cases (load32 t.ram rx % 2 ^ 8 == 8)) [
        | inl e ↦ rw e (inr (ground arith, refl))
        | inr e ↦ rw e (rounds-Answers left port _ t)
      ]

  -- A poll gives the idle word, or the buttons of a good reply that is in the receive buffer.
  pub maple_getcond-Answers :
      (port : ℕ) (b : Bus) (s : Machine Dev)
      → let r = maple_getcond p dma port b s in (r.0 ≡ 0xffff) ⊎ Answered r.0 r.2
  unfolding maple_getcond
  maple_getcond-Answers port b s =
      let first = if has_bit b.bus_init_done 16 then bus_init p dma b s else (b, s) in
      rounds-Answers 2 port first.0 first.1

  module _ (size q : ℕ) (room : 4 ≤ size) (out : Beside size q)
      (keeps : (d : Dev) (m : Ram) → (dma d m).1 q ≡ m q) where
    probe-Beside :
        (port : ℕ) (b : Bus) (s : Machine Dev) → (probe_devinfo p dma port b s).1.ram q ≡ s.ram q
    unfolding probe_devinfo transact
    probe-Beside port b s = keeps _ _ ∙ devinfo_frame-Beside size q room out port s.ram

    bus_init-Beside : (b : Bus) (s : Machine Dev) → (bus_init p dma b s).1.ram q ≡ s.ram q
    unfolding bus_init
    bus_init-Beside b s =
        let speed = p.store_reg sb_mspeed 0xc3500000 (p.store_reg sb_mdapro 0x6155404f s.dev) in
        let on = p.store_reg sb_mden 1 (p.store_reg sb_mdtsel 0 speed) in
        let b0 = record b { bus_init_done = 1 } in
        let s0 = record s { dev = on } in
        let r = probe_devinfo p dma 0 b0 s0 in probe-Beside 1 r.0 r.1 ∙ probe-Beside 0 b0 s0

    rounds-Beside :
        (left port : ℕ) (b : Bus) (s : Machine Dev)
        → (getcond_rounds p dma left port b s).2.ram q ≡ s.ram q
    unfolding getcond_rounds transact
    rounds-Beside zero port b s = refl
    rounds-Beside (suc left) port b s =
        let t = transact p dma (record s { ram = getcond_frame port s.ram }) in
        let one : t.ram q ≡ s.ram q = keeps _ _ ∙ getcond_frame-Beside size q room out port s.ram in
        elim (Bool-cases (load32 t.ram rx % 2 ^ 8 == 8)) [
          | inl e ↦ rw e one
          | inr e ↦ rw e (rounds-Beside left port _ t ∙ one)
        ]

    -- A poll changes no byte of memory outside its two buffers, if the bus itself does not.
    pub maple_getcond-Beside :
        (port : ℕ) (b : Bus) (s : Machine Dev) → (maple_getcond p dma port b s).2.ram q ≡ s.ram q
    unfolding maple_getcond
    maple_getcond-Beside port b s = elim (Bool-cases (has_bit b.bus_init_done 16)) [
      | inl e ↦
          rw e (let r = bus_init p dma b s in rounds-Beside 2 port r.0 r.1 ∙ bus_init-Beside b s)
      | inr e ↦ rw e (rounds-Beside 2 port b s)
    ]
