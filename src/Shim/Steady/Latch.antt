-- ===== src/Shim/Steady/Latch.antt =====
-- The enumeration of the input board through the descriptor list.
use cfp2dreamcast.Base.{
  ℕ, ◌+◌, ◌/◌, ◌%◌, ◌^◌, ◌≤◌, ◌≡◌, refl, ◌∙◌, subst, inl, inr, arith, true, ◌&&◌, ◌==◌, List,
  length, some,
}
use cfp2dreamcast.Machine.{Platform, Machine, Never, Runs, returns}
use cfp2dreamcast.Machine.Ends.{Runs-if, Runs-weaken}
use cfp2dreamcast.Machine.Memory.{Ram, load8, load32}
use cfp2dreamcast.Shim.{Blobs}
use cfp2dreamcast.Shim.Captures.{
  Captured, set_address, identify, command_revision, jvs_revision, bus_version, features,
}
use cfp2dreamcast.Shim.Reply.{set_jvs, latched, maple_reply}
use cfp2dreamcast.Shim.Reply.Enumerate.{
  Holds, NoReset, Transmits, maple_reply-latch, maple_reply-enum,
}
use cfp2dreamcast.Shim.Reply.Table.{enum_reply}
use cfp2dreamcast.Shim.Steady.{in_main, serve}
use cfp2dreamcast.Shim.Steady.Walk.{recv_of}

-- The descriptor at `addr` is a command `sub` to the arcade input board.
abbrev pub Asks : Ram → ℕ → ℕ → Type 0
Asks m addr sub =
    (load32 m addr / 2 ^ 8 % 2 ^ 3 ≡ 0)
    × (load32 m (addr + 0x08) % 2 ^ 8 ≡ 0x86)
    × (load32 m (addr + 0x08) / 2 ^ 8 % 2 ^ 8 ≡ 0x20)
    × (load8 m (addr + 0x0c) ≡ sub)

enum_reply-Captured :
    (b : Blobs) (cmd : ℕ) (xs : List ℕ) → Captured b cmd xs → enum_reply b cmd ≡ some xs
enum_reply-Captured b _ _ set_address = refl
enum_reply-Captured b _ _ identify = refl
enum_reply-Captured b _ _ command_revision = refl
enum_reply-Captured b _ _ jvs_revision = refl
enum_reply-Captured b _ _ bus_version = refl
enum_reply-Captured b _ _ features = refl

module _ (p : Platform) (dma : p.Dev → Ram → p.Dev × Ram) (b : Blobs) where
  open p use {Dev}

  latched_byte : (sub byte old : ℕ) → Transmits sub → latched sub byte old ≡ byte
  latched_byte sub byte old (inl e) = rw e refl
  latched_byte sub byte old (inr (inl e)) = rw e refl
  latched_byte sub byte old (inr (inr e)) = rw e refl

  serve-latch :
      (addr sub : ℕ) (s : Machine Dev)
      → Asks s.ram addr sub
      → Transmits sub
      → Runs
          (λ (_ : Unit {0}) t. t.pending_jvs ≡ load8 s.ram (addr + 0x14))
          Never
          NoReset
          (serve p dma b addr s)
  unfolding serve
  serve-latch addr sub s (op, cmd, reci, is) sends =
      let byte = load8 s.ram (addr + 0x14) in
      let P = λ (_ : Unit {0}) (t : Machine Dev). t.pending_jvs ≡ byte in
      let was : Transmits (load8 s.ram (addr + 0x0c)) = rw is sends in
      let l = latched_byte (load8 s.ram (addr + 0x0c)) byte s.pending_jvs was in
      let t = set_jvs p dma b (latched (load8 s.ram (addr + 0x0c)) byte s.pending_jvs) s in
      let rcv = recv_of s.ram addr in
      Runs-if P Never NoReset (load32 s.ram addr / 2 ^ 8 % 2 ^ 3 == 0) _ _
        (λ _.
          Runs-if P Never NoReset
            (load32 s.ram (addr + 0x08) % 2 ^ 8 == 0x86
              && load32 s.ram (addr + 0x08) / 2 ^ 8 % 2 ^ 8 == 0x20)
            _ _
            (λ _.
              Runs-if P Never NoReset (in_main rcv) _ _
                (λ _.
                  Runs-weaken P Never NoReset (λ _ u. u.pending_jvs ≡ t.pending_jvs) Never NoReset
                    (maple_reply p dma b (load8 s.ram (addr + 0x0c)) rcv addr t)
                    (maple_reply-latch p dma b (load8 s.ram (addr + 0x0c)) rcv addr t was)
                    (λ _ u e. e ∙ l) (λ c x y u h. h) (λ u h. h))
                (λ _. l))
            (λ e. absurd (ground (arith, e))))
        (λ e. absurd (ground (arith, e)))

  serve-enum :
      (addr : ℕ) (xs : List ℕ) (s : Machine Dev)
      → Asks s.ram addr 0x15
      → in_main (recv_of s.ram addr) ≡ true
      → length xs ≤ 2 ^ 29
      → enum_reply b s.pending_jvs ≡ some xs
      → Runs (Holds (recv_of s.ram addr) xs) Never NoReset (serve p dma b addr s)
  unfolding serve
  serve-enum addr xs s (op, cmd, reci, is) main short known =
      let rcv = recv_of s.ram addr in
      let P = Holds rcv xs in
      Runs-if P Never NoReset (load32 s.ram addr / 2 ^ 8 % 2 ^ 3 == 0) _ _
        (λ _.
          Runs-if P Never NoReset
            (load32 s.ram (addr + 0x08) % 2 ^ 8 == 0x86
              && load32 s.ram (addr + 0x08) / 2 ^ 8 % 2 ^ 8 == 0x20)
            _ _ (λ _. rw (main, is) (maple_reply-enum p dma b rcv addr xs _ short known))
            (λ e. absurd (ground (arith, e))))
        (λ e. absurd (ground (arith, e)))

  -- A receive is answered for the command that the last transmit sent: after the walk has served a
  -- transmit, in any later state in which the latch stands, a receive at a sane address puts the
  -- reply that was captured for that command there, and neither stops nor restarts.
  pub serve_transmit-receive :
      (a1 a2 sub : ℕ) (xs : List ℕ) (s t u : Machine Dev)
      → Asks s.ram a1 sub
      → Transmits sub
      → serve p dma b a1 s ≡ returns tt t
      → u.pending_jvs ≡ t.pending_jvs
      → Captured b (load8 s.ram (a1 + 0x14)) xs
      → length xs ≤ 2 ^ 29
      → Asks u.ram a2 0x15
      → in_main (recv_of u.ram a2) ≡ true
      → Runs (Holds (recv_of u.ram a2) xs) Never NoReset (serve p dma b a2 u)
  serve_transmit-receive a1 a2 sub xs s t u asks sends ran kept known short reads main =
      let Latched = λ (_ : Unit {0}) (v : Machine Dev). v.pending_jvs ≡ load8 s.ram (a1 + 0x14) in
      let l = subst (λ o. Runs Latched Never NoReset o) ran (serve-latch a1 sub s asks sends) in
      serve-enum a2 xs u reads main short (rw (kept ∙ l) (enum_reply-Captured b _ xs known))
