-- ===== src/Examples/Walk.antt =====
-- A descriptor list of two commands, walked and decoded.
use cfp2dreamcast.Base.{ℕ, ◌+◌, ◌<◌, ◌≤◌, ◌≡◌, arith}
use cfp2dreamcast.Iface.{p2addr}
use cfp2dreamcast.Iface.Address.{phys-p2addr}
use cfp2dreamcast.Machine.{Machine}
use cfp2dreamcast.Machine.Memory.{Ram, store8, store32}
use cfp2dreamcast.Machine.Store.{Misses}
use cfp2dreamcast.Shim.Steady.{walk}
use cfp2dreamcast.Shim.Steady.Decode.{requests, serve_all, Apart, walk-eq-serve_all}
use cfp2dreamcast.Examples.Drive.{Job, drive}
use cfp2dreamcast.Examples.Cart.{start}
use cfp2dreamcast.Examples.Bus.{empty, blobs}

-- A descriptor with first word `h1` and command `sub`, to be answered at `rcv`.
abbrev asking : ℕ → ℕ → ℕ → ℕ → Ram → Ram
asking a h1 rcv sub m =
    store32 a h1 (store32 (a + 4) rcv (store32 (a + 8) 0x2086 (store8 (a + 12) sub m)))

-- A transmit, and then a receive.
abbrev two : Ram
two q =
    asking 0x0c200000 0x3 0x0c300000 0x17 (asking 0x0c200018 0x80000003 0x0c300100 0x15 (λ a. 0)) q

abbrev listed : Machine Job
listed = record start { ram = two }

-- The page of the list.
abbrev Page : ℕ → Type 0
Page q = (0x0c200000 ≤ q) × (q < 0x0c201000)

Page-Misses : (r q : ℕ) → 0x0c300000 ≤ r → r < 0x0c400000 → Page q → Misses q (p2addr r) 132
Page-Misses r q lo hi h i lt e = omega (arith, phys-p2addr r)

apart : Apart drive empty blobs 132 Page (requests 32 0x0c200000 two)
unfolding requests
apart = (
  (λ i lt. omega arith),
  (λ g q h. Page-Misses 0x0c300000 q (omega arith) (omega arith) h),
  ((λ i lt. omega arith), (λ g q h. Page-Misses 0x0c300100 q (omega arith) (omega arith) h), tt),
)

walk-eq-serve_all_example :
    walk drive empty blobs 32 0x0c200000 listed
    ≡ serve_all drive empty blobs (requests 32 0x0c200000 two) listed
unfolding p2addr
walk-eq-serve_all_example =
    walk-eq-serve_all drive empty blobs 132 Page (omega arith) (omega arith) (omega arith)
      (λ q h. (λ i lt e. omega (arith, h), λ i lt e. omega (arith, h))) (λ q h d m. ground arith) 32
      0x0c200000 listed apart
