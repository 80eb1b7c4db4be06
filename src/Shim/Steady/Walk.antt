-- ===== src/Shim/Steady/Walk.antt =====
-- The walk over the descriptor list, and what a frame's hook leaves of memory.
use cfp2dreamcast.Base.{
  ℕ, zero, suc, ◌+◌, ◌%◌, ◌^◌, ◌≤◌, ◌≡◌, refl, ◌∙◌, arith, true, false, ◌&&◌, ◌==◌, has_bit, ◌/◌,
}
use cfp2dreamcast.Iface.{p2addr}
use cfp2dreamcast.Machine.{Platform, Machine, Runs}
use cfp2dreamcast.Machine.Ends.{Runs-if, Runs-bind, Runs-weaken}
use cfp2dreamcast.Machine.Memory.{Ram, load8, load32}
use cfp2dreamcast.Machine.Store.{Misses}
use cfp2dreamcast.Maple.Poll.{Beside}
use cfp2dreamcast.Shim.{Blobs}
use cfp2dreamcast.Shim.Ladder.Frame.{mie_probe_reply-outside}
use cfp2dreamcast.Shim.Reply.{set_jvs, latched, maple_reply}
use cfp2dreamcast.Shim.Reply.Frame.{Fits, Kept, Resets}
use cfp2dreamcast.Shim.Reply.Known.{is_known, Replied, Unknown, Restarted, maple_reply-Runs}
use cfp2dreamcast.Shim.Steady.{in_main, aligned, serve, next_frame, walk}

-- Where the descriptor at `addr` wants its reply.
abbrev pub recv_of : Ram → ℕ → ℕ
recv_of m addr = aligned (load32 m (addr + 0x04))

-- A command that is not known has stopped the shim.
abbrev pub Stopped : {D : Type 0} → ℕ → ℕ → ℕ → Machine D → Type 0
Stopped code x y t = (is_known x ≡ false) × (code ≡ 3)

module _ (p : Platform) (dma : p.Dev → Ram → p.Dev × Ram) (size q : ℕ) (room : 4 ≤ size)
    (out : Beside size q) (keeps : (d : p.Dev) (m : Ram) → (dma d m).1 q ≡ m q) (b : Blobs)
    (fits : Fits b size) (wide : 132 ≤ size) where
  open p use {Dev}

  pub serve-Runs :
      (addr : ℕ) (s : Machine Dev)
      → (in_main (recv_of s.ram addr) ≡ true → Misses q (p2addr (recv_of s.ram addr)) size)
      → Runs (Kept q s) Stopped Resets (serve p dma b addr s)
  unfolding serve
  serve-Runs addr s safe =
      let h1 = load32 s.ram addr in
      let rcv = recv_of s.ram addr in
      let fh = load32 s.ram (addr + 0x08) in
      let sub = load8 s.ram (addr + 0x0c) in
      let t = set_jvs p dma b (latched sub (load8 s.ram (addr + 0x14)) s.pending_jvs) s in
      let split = Runs-if (Kept q s) Stopped Resets in
      split (h1 / 2 ^ 8 % 2 ^ 3 == 0) _ _
        (λ e.
          split (fh % 2 ^ 8 == 0x86 && fh / 2 ^ 8 % 2 ^ 8 == 0x20) _ _
            (λ f.
              split (in_main rcv) _ _
                (λ g.
                  Runs-weaken (Kept q s) Stopped Resets (Replied q sub t) (Unknown sub rcv)
                    (Restarted sub) (maple_reply p dma b sub rcv addr t)
                    (maple_reply-Runs p dma size q room out keeps b fits wide sub rcv addr t
                      (safe g))
                    (λ _ u h. h.1) (λ c x y u (k, hc, hx, hy). (rw hx k, hc)) (λ u h. h.1))
                (λ g. refl))
            (λ f.
              split (in_main rcv) _ _
                (λ g.
                  mie_probe_reply-outside (fh % 2 ^ 8) fh rcv addr q s.ram
                    (λ i h. safe g i (omega arith)))
                (λ g. refl)))
        (λ e. refl)

  pub walk-Runs :
      ((r : ℕ) → in_main r ≡ true → Misses q (p2addr r) size)
      → (left addr : ℕ) (s : Machine Dev)
      → Runs (Kept q s) Stopped Resets (walk p dma b left addr s)
  unfolding walk
  walk-Runs safe zero addr s = refl
  walk-Runs safe (suc left) addr s =
      let h1 = load32 s.ram addr in
      Runs-bind (Kept q s) Stopped Resets (Kept q s) (serve p dma b addr s) _
        (serve-Runs addr s (safe (recv_of s.ram addr)))
        (λ _ t kept.
          Runs-if (Kept q s) Stopped Resets (has_bit h1 31) _ _ (λ e. kept)
            (λ e.
              Runs-weaken (Kept q s) Stopped Resets (Kept q t) Stopped Resets
                (walk p dma b left (next_frame p dma b h1 addr) t)
                (walk-Runs safe left (next_frame p dma b h1 addr) t) (λ _ u h. h ∙ kept)
                (λ c x y u h. h) (λ u h. h)))
