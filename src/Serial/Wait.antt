-- ===== src/Serial/Wait.antt =====
-- The wait for the transmitter: it always ends.
use cfp2dreamcast.Base.{
  ℕ, zero, suc, ◌+◌, ◌<◌, ◌≤◌, ◌≡◌, refl, ap, arith, true, false, some, ◌⊎◌, inl, inr, Bool-cases,
  ltb,
}
use cfp2dreamcast.Machine.{Platform}
use cfp2dreamcast.Serial.{
  spin_limit, Waited, ready, dropped, is_ready, await, transmit, after_wait, scif_putc,
}

module _ (p : Platform) (settle : p.Dev → p.Dev) where
  open p use {Dev}

  -- The port after `k` reads.
  abbrev pub settled : ℕ → Dev → Dev
  settled zero d = d
  settled (suc k) d = settled k (settle d)

  -- None of the first `k` reads finds the transmitter ready.
  abbrev pub BusyFor : ℕ → Dev → Type 0
  BusyFor k d = (j : ℕ) → j < k → is_ready p settle (settled j d) ≡ false

  abbrev pub ReadyAt : ℕ → Dev → Type 0
  ReadyAt k d = BusyFor k d × (is_ready p settle (settled k d) ≡ true)

  BusyFor-suc :
      (k : ℕ) (d : Dev) → is_ready p settle d ≡ false → BusyFor k (settle d) → BusyFor (suc k) d
  BusyFor-suc k d first more zero h = first
  BusyFor-suc k d first more (suc j) h = more j (omega arith)

  abbrev AwaitEnd : ℕ → Dev → Waited Dev → Type 0
  AwaitEnd left d w =
      ((k : ℕ) × (k ≤ left) × ReadyAt k d × (w ≡ ready (settled k d)))
      ⊎ (BusyFor (suc left) d × (w ≡ dropped (settled left d)))

  await-Ends :
      (left g : ℕ) (d : Dev)
      → left + g ≡ spin_limit + 1
      → AwaitEnd left d (await p settle (suc left) g d)
  unfolding await
  await-Ends zero g d fuel = elim (Bool-cases (is_ready p settle d)) [
    | inl now ↦ inl (0, omega arith, (λ j h. absurd (omega arith), now), rw now refl)
    | inr later ↦ inr (BusyFor-suc 0 d later (λ j h. absurd (omega arith)), rw (later, past) refl)
  ]
    where
      past : ltb spin_limit g ≡ true
      past = ground arith
  await-Ends (suc left) g d fuel = elim (Bool-cases (is_ready p settle d)) [
    | inl now ↦ inl (0, omega arith, (λ j h. absurd (omega arith), now), rw now refl)
    | inr later ↦ elim (await-Ends left (g + 1) (settle d) (omega arith)) [
      | inl (k, le, (busy, now), end) ↦
          inl (suc k, omega arith, (BusyFor-suc k d later busy, now), rw (later, within) end)
      | inr (busy, end) ↦ inr (BusyFor-suc (suc left) d later busy, rw (later, within) end)
    ]
  ]
    where
      within : ltb spin_limit g ≡ false
      within = ground arith

  -- Whatever the transmitter does, the character goes out at the first of the reads 0 to
  -- `spin_limit` + 1 that finds it ready, or it is dropped when none of them does.
  pub scif_putc-Ends :
      (c : ℕ) (d : Dev)
      → ((k : ℕ) × (k ≤ spin_limit + 1)
          × ReadyAt k d
          × (scif_putc p settle true c d ≡ some (transmit p settle c (settled k d))))
        ⊎ (BusyFor (spin_limit + 2) d
            × (scif_putc p settle true c d ≡ some (settled (spin_limit + 1) d)))
  unfolding scif_putc after_wait
  scif_putc-Ends c d = elim (await-Ends (spin_limit + 1) 0 d (omega arith)) [
    | inl (k, le, now, end) ↦ inl (k, le, now, ap (after_wait p settle c) end)
    | inr (busy, end) ↦ inr ((λ j h. busy j (omega arith)), ap (after_wait p settle c) end)
  ]
