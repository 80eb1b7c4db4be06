-- ===== src/Maple/Held.antt =====
-- What a poll gives for pads that answer the protocol of the bus.
use cfp2dreamcast.Base.{
  ℕ, zero, suc, ◌+◌, ◌*◌, ◌%◌, ◌^◌, ◌<◌, ◌≡◌, ◌≢◌, refl, ◌⊎◌, inl, inr, arith, Bool-cases, ==_iff,
  ◌==◌, if◌then◌else◌, has_bit, Option, some, none,
}
use cfp2dreamcast.Iface.{maple_rx, phys, p2addr}
use cfp2dreamcast.Machine.{Platform, Machine, Bus}
use cfp2dreamcast.Machine.Memory.{Ram, load32}
use cfp2dreamcast.Maple.{tx, rx, transact, getcond_frame, bus_init, getcond_rounds, maple_getcond}

-- The transmit buffer holds one frame: the controller at `port` is asked for its condition, from
-- the port's host and with the reply wanted in the receive buffer.
abbrev pub Requests : ℕ → Ram → Type 0
Requests port m =
    (load32 m tx ≡ 0x80000001 + port * 0x10000)
    × (load32 m (tx + 4) ≡ phys maple_rx)
    × (load32 m (tx + 8) ≡ 0x01000009 + port * 0x40 * 0x10000 + (port * 0x40 + 0x20) * 0x100)
    × (load32 m (tx + 12) ≡ 0x01000000)

getcond_frame-Requests : (port : ℕ) (m : Ram) → port < 2 → Requests port (getcond_frame port m)
unfolding getcond_frame p2addr
getcond_frame-Requests zero m h = (refl, refl, refl, refl)
getcond_frame-Requests (suc zero) m h = (refl, refl, refl, refl)
getcond_frame-Requests (suc (suc n)) m h = absurd (omega arith)

-- The word of a port: that of its pad, or the idle word of a pad with nothing pressed.
abbrev pub word : Option ℕ → ℕ
word (some w) = w
word none = 0xffff

Option-cases : (o : Option ℕ) → ((w : ℕ) × (o ≡ some w)) ⊎ (o ≡ none)
Option-cases (some w) = inl (w, refl)
Option-cases none = inr refl

module _ (p : Platform) (dma : p.Dev → Ram → p.Dev × Ram) where
  open p use {Dev}

  -- A bus whose ports hold these words, of 16 bits: a port with a pad answers a request with code 8 and the
  -- pad's word of buttons, a port without one leaves no good reply to a request for it.
  pub record PadBus (held : ℕ → Option ℕ) : Type 0 where
    pub word_size : (port w : ℕ) → held port ≡ some w → w < 2 ^ 16
    pub answers :
        (port w : ℕ) (d : Dev) (m : Ram)
        → held port ≡ some w
        → Requests port m
        → (load32 (dma d m).1 rx % 2 ^ 8 ≡ 8) × (load32 (dma d m).1 (rx + 8) % 2 ^ 16 ≡ w)
    pub silent :
        (port : ℕ) (d : Dev) (m : Ram)
        → held port ≡ none
        → Requests port m
        → load32 (dma d m).1 rx % 2 ^ 8 ≢ 8

  module _ (held : ℕ → Option ℕ) (pads : PadBus held) (port : ℕ) (two : port < 2) where
    asked : (s : Machine Dev) → Requests port (record s { ram = getcond_frame port s.ram }).ram
    asked s = getcond_frame-Requests port s.ram two

    transact_answers :
        (w : ℕ) (s : Machine Dev)
        → held port ≡ some w
        → Requests port s.ram
        → (load32 (transact p dma s).ram rx % 2 ^ 8 ≡ 8)
          × (load32 (transact p dma s).ram (rx + 8) % 2 ^ 16 ≡ w)
    unfolding transact
    transact_answers w s is frame = pads.answers port w _ s.ram is frame

    transact_silent :
        (s : Machine Dev)
        → held port ≡ none
        → Requests port s.ram
        → load32 (transact p dma s).ram rx % 2 ^ 8 ≢ 8
    unfolding transact
    transact_silent s is frame = pads.silent port _ s.ram is frame

    rounds_silent :
        (left : ℕ) (b : Bus) (s : Machine Dev)
        → held port ≡ none
        → (getcond_rounds p dma left port b s).0 ≡ 0xffff
    unfolding getcond_rounds
    rounds_silent zero b s is = refl
    rounds_silent (suc left) b s is =
        let s1 = record s { ram = getcond_frame port s.ram } in
        let ne = transact_silent s1 is (asked s) in
        elim (Bool-cases (load32 (transact p dma s1).ram rx % 2 ^ 8 == 8)) [
          | inl e ↦ absurd (ne ((==_iff _ 8).0 e))
          | inr e ↦ rw e (rounds_silent left _ _ is)
        ]

    rounds_held :
        (left : ℕ) (b : Bus) (s : Machine Dev)
        → (getcond_rounds p dma (suc left) port b s).0 ≡ word (held port)
    unfolding getcond_rounds
    rounds_held left b s = elim (Option-cases (held port)) [
      | inl (w, is) ↦
          (let s1 = record s { ram = getcond_frame port s.ram } in
            let (good, buttons) = transact_answers w s1 is (asked s) in
            rw ((==_iff _ 8).1 good, is) buttons)
      | inr is ↦ rw is (rounds_silent (suc left) b s is)
    ]

    -- A poll of port 0 or 1 gives what that port holds, whatever the other port does: the word of
    -- its pad, or the idle word 0xffff if no pad of that port answers.
    pub maple_getcond-held :
        (b : Bus) (s : Machine Dev) → (maple_getcond p dma port b s).0 ≡ word (held port)
    unfolding maple_getcond
    maple_getcond-held b s =
        let first = if has_bit b.bus_init_done 16 then bus_init p dma b s else (b, s) in
        rounds_held 1 first.0 first.1
