-- ===== src/Shim/Reply/Enumerate.antt =====
-- The enumeration of the input board: a transmit keeps its command, a receive answers for it.
use cfp2dreamcast.Base.{
  ℕ, ◌+◌, ◌^◌, ◌<◌, ◌≤◌, ◌≡◌, refl, ◌⊎◌, inl, inr, arith, List, length, get_or, u8, some,
}
use cfp2dreamcast.Iface.{p2addr}
use cfp2dreamcast.Machine.{Platform, Machine, Never, Runs}
use cfp2dreamcast.Machine.Ends.{Runs-option}
use cfp2dreamcast.Machine.Memory.{Ram, load8}
use cfp2dreamcast.Machine.Store.{copy_in-inside}
use cfp2dreamcast.Shim.{Blobs}
use cfp2dreamcast.Shim.Reply.{maple_reply, reply_receive, reply_ack}
use cfp2dreamcast.Shim.Reply.Table.{enum_reply}

-- The bytes lie at the receive address.
abbrev pub Holds : {D : Type 0} → ℕ → List ℕ → Unit {0} → Machine D → Type 0
Holds recv xs _ t = (i : ℕ) → i < length xs → load8 t.ram (p2addr recv + i) ≡ u8 (get_or xs i 0)

abbrev pub NoReset : {D : Type 0} → Machine D → Type 0
NoReset t = ⊥

-- The three commands that transmit to the input board.
abbrev pub Transmits : ℕ → Type 0
Transmits sub = (sub ≡ 0x17) ⊎ ((sub ≡ 0x19) ⊎ (sub ≡ 0x21))

module _ (p : Platform) (dma : p.Dev → Ram → p.Dev × Ram) (b : Blobs) where
  open p use {Dev}

  pub maple_reply-latch :
      (sub recv frame : ℕ) (s : Machine Dev)
      → Transmits sub
      → Runs
          (λ (_ : Unit {0}) t. t.pending_jvs ≡ s.pending_jvs)
          Never
          NoReset
          (maple_reply p dma b sub recv frame s)
  unfolding maple_reply reply_ack
  maple_reply-latch sub recv frame s (inl e) = rw e refl
  maple_reply-latch sub recv frame s (inr (inl e)) = rw e refl
  maple_reply-latch sub recv frame s (inr (inr e)) = rw e refl

  pub maple_reply-enum :
      (recv frame : ℕ) (xs : List ℕ) (s : Machine Dev)
      → length xs ≤ 2 ^ 29
      → enum_reply b s.pending_jvs ≡ some xs
      → Runs (Holds recv xs) Never NoReset (maple_reply p dma b 0x15 recv frame s)
  unfolding maple_reply reply_receive
  maple_reply-enum recv frame xs s short is =
      Runs-option (Holds recv xs) Never NoReset (enum_reply b s.pending_jvs) _ _
        (λ ys e.
          let same : ys ≡ xs = ground (arith, e, is) in
          rw (← same) (λ i h. copy_in-inside ys (p2addr recv) i s.ram (rw same short) h))
        (λ e. absurd (ground (arith, e, is)))
