-- ===== src/Shim/Steady/Hook.antt =====
-- The per-frame hook as a whole: it completes the transaction, and what it writes is main memory.
use cfp2dreamcast.Base.{
  ℕ, ◌+◌, ◌^◌, ◌<◌, ◌≤◌, ◌≡◌, refl, ap, ◌∙◌, ◌⊎◌, inl, inr, arith, Bool, true, false, has_bit,
}
use cfp2dreamcast.Iface.{p2addr, maple_mirror}
use cfp2dreamcast.Iface.Address.{phys-p2addr}
use cfp2dreamcast.Machine.{ℤ, Platform, Machine, M, returns, Runs}
use cfp2dreamcast.Machine.Ends.{Runs-if, Runs-bind}
use cfp2dreamcast.Machine.Memory.{Ram, load32, store32}
use cfp2dreamcast.Machine.Store.{Misses, store32-Misses, load32-store32}
use cfp2dreamcast.Maple.Poll.{Beside}
use cfp2dreamcast.Shim.{Blobs}
use cfp2dreamcast.Shim.Reply.Frame.{Fits, Resets}
use cfp2dreamcast.Shim.Steady.{
  mmir, free_play, in_main, aligned, walk, beat, count_trigger, service, shim_maple_steady,
}
use cfp2dreamcast.Shim.Steady.Walk.{Stopped, walk-Runs}

-- Physical address `q` is outside the 32 MB window of main memory, widened by a reply's length.
abbrev pub OutOfMain : ℕ → ℕ → Type 0
OutOfMain size q = (q < 0x0c000000) ⊎ (0x0e000000 + size ≤ q)

OutOfMain-Beside : (size q : ℕ) → size < 2 ^ 20 → OutOfMain size q → Beside size q
unfolding p2addr
OutOfMain-Beside size q small (inl h) = (λ i lt e. omega arith, λ i lt e. omega arith)
OutOfMain-Beside size q small (inr h) = (λ i lt e. omega arith, λ i lt e. omega arith)

in_main-Misses :
    (size q r : ℕ) → size < 2 ^ 20 → OutOfMain size q → in_main r ≡ true → Misses q (p2addr r) size
in_main-Misses size q r small far main i lt e = ground (arith, phys-p2addr r)

mmir-Misses : (size q off : ℕ) → off ≤ 0x18 → OutOfMain size q → Misses q (mmir off) 4
mmir-Misses size q off h far i lt e = ground (arith, phys-p2addr (maple_mirror + off))

-- The engine's transaction is still pending.
abbrev pub busy : Ram → Bool
busy m = has_bit (load32 m (mmir 0x18)) 0

idle : (m : Ram) → busy (store32 (mmir 0x18) 0 m) ≡ false
idle m = ground (arith, load32-store32 (mmir 0x18) 0 m)

module _ (p : Platform) (dma : p.Dev → Ram → p.Dev × Ram) (b : Blobs) (engine : M p.Dev ℤ)
    (size q : ℕ) (wide : 132 ≤ size) (small : size < 2 ^ 20) (fits : Fits b size)
    (far : OutOfMain size q) (keeps : (d : p.Dev) (m : Ram) → (dma d m).1 q ≡ m q) where
  open p use {Dev}

  abbrev Done : Machine Dev → Unit {0} → Machine Dev → Type 0
  Done s _ t = (busy t.ram ≡ false) × (t.ram q ≡ s.ram q)

  finish :
      (s t : Machine Dev)
      → t.ram q ≡ s.ram q
      → (busy (store32 (mmir 0x18) 0 t.ram) ≡ false) × (store32 (mmir 0x18) 0 t.ram q ≡ s.ram q)
  finish s t kept = (
    idle t.ram,
    store32-Misses (mmir 0x18) 0 q t.ram (mmir-Misses size q 0x18 (omega arith) far) ∙ kept,
  )

  service-Runs : (s : Machine Dev) → Runs (Done s) Stopped Resets (service p dma b s)
  unfolding service
  service-Runs s =
      let t = count_trigger p dma b s in
      let addr = aligned (load32 s.ram (mmir 0x04)) in
      Runs-bind (Done s) Stopped Resets (λ (_ : Unit {0}) u. u.ram q ≡ s.ram q) _ _
        (Runs-if (λ _ u. u.ram q ≡ s.ram q) Stopped Resets (in_main addr) (walk p dma b 32 addr t)
          (returns tt t)
          (λ e.
            walk-Runs p dma size q (omega arith) (OutOfMain-Beside size q small far) keeps b fits
              wide (λ r h. in_main-Misses size q r small far h) 32 addr t)
          (λ e. refl))
        (λ _ u kept. finish s u kept)

  abbrev pub free_playing : Machine Dev → Machine Dev
  free_playing s = record s { ram = store32 free_play 1 s.ram }

  -- A frame's hook runs the game's engine with free play set. It then returns the engine's result
  -- with no transaction pending, and with every byte outside main memory as the engine left it; or
  -- it has restarted the console, with the reset combination held, or stopped with code 3 at a
  -- command that is not known. The blobs are at most `size` bytes, and the bus itself does not write
  -- the byte.
  pub shim_maple_steady-Runs :
      (s t : Machine Dev) (rc : ℤ)
      → engine (free_playing s) ≡ returns rc t
      → Runs
          (λ r u. (r ≡ rc) × (busy u.ram ≡ false) × (u.ram q ≡ t.ram q))
          Stopped
          Resets
          (shim_maple_steady p dma b engine s)
  unfolding shim_maple_steady beat
  shim_maple_steady-Runs s t rc ran =
      let Ended =
        λ (r : ℤ) (u : Machine Dev). (r ≡ rc) × (busy u.ram ≡ false) × (u.ram q ≡ t.ram q) in
      Runs-bind Ended Stopped Resets (λ (r : ℤ) u. (r ≡ rc) × (u ≡ t)) (engine (free_playing s)) _
        (rw ran (refl, refl))
        (λ r u (same, left).
          let v = beat p dma b r u in
          let byte : u.ram q ≡ t.ram q = ap (λ (w : Machine Dev). w.ram q) left in
          Runs-if Ended Stopped Resets (busy v.ram) _ _
            (λ e.
              Runs-bind Ended Stopped Resets (Done v) (service p dma b v) _ (service-Runs v)
                (λ _ w (done, kept). (same, done, kept ∙ byte)))
            (λ e. (same, e, byte)))
