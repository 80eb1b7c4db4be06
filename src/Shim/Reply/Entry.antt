-- ===== src/Shim/Reply/Entry.antt =====
-- The two hooks that reply directly: the steady entry and the boot entry.
use cfp2dreamcast.Base.{
  ℕ, ◌+◌, ◌*◌, ◌%◌, ◌<◌, ◌≡◌, refl, ◌∙◌, ◌⊎◌, inl, inr, arith, Bool, true, false, ◌==◌, get_or, u8,
  field, has_bit, clear_bit,
}
use cfp2dreamcast.Iface.{p2addr, phys}
use cfp2dreamcast.Machine.{ℤ, pos, negsuc, Platform, Machine, Never, Runs}
use cfp2dreamcast.Machine.Ends.{Runs-if, Runs-bind, Runs-weaken}
use cfp2dreamcast.Machine.Memory.{Ram, load8, load32, store32}
use cfp2dreamcast.Machine.Store.{Misses, store32-Misses}
use cfp2dreamcast.Shim.{Blobs}
use cfp2dreamcast.Shim.Input.{cached_frame, jvs_digital}
use cfp2dreamcast.Shim.Input.Window.{Live, Polled, Restarts, jvs_digital-Runs}
use cfp2dreamcast.Shim.Reply.{count_reply, maple_reply, shim_maple_entry}
use cfp2dreamcast.Shim.Reply.Frame.{Resets}

-- The engine's block, and what the entry reads of it.
abbrev pub block : Ram → ℕ
block m = load32 m 0x8c0e8410

abbrev pub ready : Ram → Bool
ready m = load32 m (block m + 0x0fc0) == 1

abbrev pub recv_addr : Ram → ℕ
recv_addr m = field (load32 m (block m + 0x10a8 + load32 m (block m + 0x10b8) % 2 * 4)) 0 28

abbrev pub desc_addr : Ram → ℕ
desc_addr m = load32 m (block m + 0x10f4)

-- The entry has returned -3 and done nothing, or 0 with the descriptor no longer pending and the
-- live frame at the receive address, but for the bytes of the descriptor's own word.
abbrev pub Entered : {D : Type 0} → Machine D → ℤ → Machine D → Type 0
Entered s r t =
    ((ready s.ram ≡ false) × (r ≡ negsuc 2) × (t ≡ s))
    ⊎ ((ready s.ram ≡ true)
        × (r ≡ pos 0)
        × (has_bit (load32 t.ram (desc_addr s.ram + 0x18)) 0 ≡ false)
        × ((i : ℕ)
            → i < 64
            → Misses (phys (p2addr (recv_addr s.ram) + i)) (desc_addr s.ram + 0x18) 4
            → load8 t.ram (p2addr (recv_addr s.ram) + i) ≡ u8 (get_or (cached_frame t.pads) i 0)))

low_bit : (a v : ℕ) (m : Ram) → load32 (store32 a v m) a % 2 ≡ v % 2
low_bit a v m = ground arith

even : (w : ℕ) → clear_bit w 0 % 2 ≡ 0
even w = omega arith

cleared : (a w : ℕ) (m : Ram) → has_bit (load32 (store32 a (clear_bit w 0) m) a) 0 ≡ false
cleared a w m =
    let e : load32 (store32 a (clear_bit w 0) m) a % 2 ≡ 0 = low_bit a (clear_bit w 0) m ∙ even w in
    has_bit_even (load32 (store32 a (clear_bit w 0) m) a) e
  where
    has_bit_even : (x : ℕ) → x % 2 ≡ 0 → has_bit x 0 ≡ false
    has_bit_even x h = ground arith

module _ (p : Platform) (dma : p.Dev → Ram → p.Dev × Ram) (b : Blobs) where
  open p use {Dev}

  polled :
      (recv frame : ℕ) (s : Machine Dev)
      → Runs
          (λ (_ : Unit {0}) t. Live (p2addr recv) t)
          Never
          Resets
          (maple_reply p dma b 0x33 recv frame s)
  unfolding maple_reply
  polled recv frame s =
      let t = count_reply p dma b s in
      Runs-weaken (λ _ u. Live (p2addr recv) u) Never Resets (Polled p dma (p2addr recv) t) Never
        (Restarts p dma t) (jvs_digital p dma (p2addr recv) t)
        (jvs_digital-Runs p dma (p2addr recv) t) (λ _ u h. h.0) (λ c x y u h. h) (λ u h. h.1)

  -- The steady entry returns as `Entered` says, or restarts the console with the reset combination
  -- held; it never stops the shim.
  pub shim_maple_entry-Runs :
      (s : Machine Dev) → Runs (Entered s) Never Resets (shim_maple_entry p dma b s)
  unfolding shim_maple_entry
  shim_maple_entry-Runs s =
      let rx = p2addr (recv_addr s.ram) in
      let word = desc_addr s.ram + 0x18 in
      Runs-if (Entered s) Never Resets (ready s.ram) _ _
        (λ e.
          Runs-bind (Entered s) Never Resets (λ (_ : Unit {0}) t. Live rx t) _ _
            (polled (recv_addr s.ram) 0 _)
            (λ _ u live. inr (
              e,
              refl,
              cleared word (load32 u.ram word) u.ram,
              λ i h far. store32-Misses word _ _ u.ram far ∙ live i h,
            )))
        (λ e. inl (e, refl, refl))
