-- ===== src/Cart/Fill.antt =====
-- Filling an area of memory piece by piece, and the two kinds of piece of a cartridge read.
use cfp2dreamcast.Base.{
  ℕ, ◌+◌, ◌-◌, ◌*◌, ◌/◌, ◌%◌, ◌^◌, ◌<◌, ◌≤◌, ◌≡◌, ◌≢◌, refl, ap, ◌∙◌, ◌⊎◌, inl, inr, arith, ltb,
  ltb→lt, ◌==◌, ==_iff, u32, false, Bool-cases,
}
use cfp2dreamcast.Iface.{phys, shim_bounce, cart_fad}
use cfp2dreamcast.Machine.{ℤ, pos, negsuc, Platform, Statics, Machine, M, Ends}
use cfp2dreamcast.Machine.Memory.{Ram}
use cfp2dreamcast.Machine.Store.{Misses, memcpy-inside, memcpy-outside}
use cfp2dreamcast.Machine.Ends.{Ends-if, Ends-bind, Ends-weaken}
use cfp2dreamcast.Gd.{gd_read_sectors, gd_read_sectors_dma}
use cfp2dreamcast.Gd.Laws.{GdLaws, Untouched, Loaded}
use cfp2dreamcast.Gd.Poll.{Keeps}
use cfp2dreamcast.Gd.Read.{ReadEnd, ReadDies, gd_read_sectors-Ends, gd_read_sectors_dma-Ends}
use cfp2dreamcast.Cart.{or_die, gd_or_die, gd_or_die_dma, part, body, is_negative}
use cfp2dreamcast.Util.{shim_die}

-- The drive refused a read for good, or hung.
abbrev pub CartDies : {D : Type 0} → ℕ → ℕ → ℕ → Machine D → Type 0
CartDies c a b t = (c ≡ 4) ⊎ (c ≡ 5)

-- The area of `n` bytes at `d` has no byte in the bounce buffer.
abbrev pub ClearOfBounce : ℕ → ℕ → Type 0
ClearOfBounce d n = (i j : ℕ) → i < n → j < 2048 → phys (d + i) ≢ phys (shim_bounce + j)

module _ (p : Platform) {disc : ℕ → ℕ → ℕ} (laws : GdLaws p disc) where
  open p use {Dev}
  open laws use {Work}

  -- From `s` to `t` the `n` bytes at `d` became those of `want`; else only the bounce buffer and
  -- the BIOS's work area may differ.
  abbrev pub Fills : ℕ → ℕ → (ℕ → ℕ) → Machine Dev → Machine Dev → Type 0
  Fills d n want s t =
      ((i : ℕ) → i < n → t.ram (phys (d + i)) ≡ want i)
      × ((q : ℕ) → ¬ (Work q) → Misses q shim_bounce 2048 → Misses q d n → t.ram q ≡ s.ram q)
      × Keeps s t

  pub Keeps-trans : (s t u : Machine Dev) → Keeps s t → Keeps t u → Keeps s u
  Keeps-trans s t u f g = g ∙ ap (λ (z : Statics). record z { gd_last_err = u.gd_last_err }) f

  -- Two areas end to end, filled one after the other.
  pub Fills-append :
      (d a b : ℕ) (want : ℕ → ℕ) (s t u : Machine Dev)
      → a + b ≤ 2 ^ 29
      → ((i : ℕ) → i < a → ¬ (Work (phys (d + i))))
      → ClearOfBounce d a
      → Fills d a want s t
      → Fills (d + a) b (λ i. want (a + i)) t u
      → Fills d (a + b) want s u
  Fills-append d a b want s t u small idle clear (first, keep1, st1) (second, keep2, st2) = (
    λ i h. elim (Bool-cases (ltb i a)) [
      | inl lt ↦
          (let low : i < a = ltb→lt i a lt in
            keep2 (phys (d + i)) (idle i low) (λ j hj. clear i j low hj) (λ j hj e. omega arith)
            ∙ first i low)
      | inr ge ↦
          (let high : a ≤ i = ground arith in
            let whole : a + (i - a) ≡ i = omega arith in
            let there : d + a + (i - a) ≡ d + i = omega arith in
            rw (whole, there) at (second (i - a) (omega arith)))
    ],
    λ q w o1 o2.
        keep2 q w o1 (λ j h e. o2 (a + j) (omega arith) (omega arith))
        ∙ keep1 q w o1 (λ j h. o2 j (omega arith)),
    Keeps-trans s t u st1 st2,
  )

  -- A read that is checked: it returns with the sectors in the buffer, or the shim dies.
  abbrev GotSectors : ℕ → ℕ → ℕ → Machine Dev → Unit {0} → Machine Dev → Type 0
  GotSectors buf fad n s _ t =
      Untouched Work buf (n * 2048) s.ram t.ram × Keeps s t × Loaded disc buf fad n t.ram

  or_die-Ends :
      (rel buf fad n : ℕ) (read : M Dev ℤ) (s : Machine Dev)
      → Ends (ReadEnd p laws buf fad n s) (ReadDies fad n) (read s)
      → Ends (GotSectors buf fad n s) CartDies (or_die p rel read s)
  unfolding or_die shim_die
  or_die-Ends rel buf fad n read s h =
      Ends-bind (GotSectors buf fad n s) CartDies (ReadEnd p laws buf fad n s) (read s) _
        (Ends-weaken (ReadEnd p laws buf fad n s) CartDies (ReadEnd p laws buf fad n s)
          (ReadDies fad n) (read s) h (λ r t e. e) (λ c a b t e. inr e.0))
        (λ r t (frame, keeps, result).
          Ends-if (GotSectors buf fad n s) CartDies (is_negative r) _ _ (λ _. inl refl)
            (λ e. (frame, keeps, loaded r t result e)))
    where
      loaded :
          (r : ℤ) (t : Machine Dev)
          → (((r ≡ pos 0) × Loaded disc buf fad n t.ram) ⊎ (r ≡ negsuc 1))
          → is_negative r ≡ false
          → Loaded disc buf fad n t.ram
      loaded r t (inl (e, l)) h = l
      loaded r t (inr e) h = absurd (ground arith)

  -- A sector number of the cartridge on the disc.
  abbrev pub on_disc : ℕ → ℕ
  on_disc fad = u32 (cart_fad + fad)

  gd_or_die-Ends :
      (dst fad n : ℕ) (s : Machine Dev)
      → Ends (GotSectors dst (on_disc fad) n s) CartDies (gd_or_die p dst fad n s)
  unfolding gd_or_die
  gd_or_die-Ends dst fad n s =
      or_die-Ends fad dst (on_disc fad) n (gd_read_sectors p dst (on_disc fad) n) s
        (gd_read_sectors-Ends p laws dst (on_disc fad) n s)

  gd_or_die_dma-Ends :
      (address fad n : ℕ) (s : Machine Dev)
      → Ends
          (GotSectors (phys address) (on_disc fad) n s)
          CartDies
          (gd_or_die_dma p address fad n s)
  unfolding gd_or_die_dma
  gd_or_die_dma-Ends address fad n s =
      or_die-Ends fad (phys address) (on_disc fad) n (gd_read_sectors_dma p address (on_disc fad) n)
        s (gd_read_sectors_dma-Ends p laws address (on_disc fad) n s)

  -- The bytes of `n` sectors from cartridge sector `fad` on.
  abbrev pub sectors : ℕ → ℕ → ℕ
  sectors fad i = disc (on_disc fad + i / 2048) (i % 2048)

  GotSectors-Fills :
      (buf dst fad n : ℕ) (s t : Machine Dev)
      → phys dst ≡ phys buf
      → GotSectors buf (on_disc fad) n s tt t
      → Fills dst (n * 2048) (sectors fad) s t
  GotSectors-Fills buf dst fad n s t same (frame, keeps, loaded) = (
    λ i h. let e : phys (dst + i) ≡ phys (buf + i) = omega arith in rw e (loaded i h),
    λ q w _ o. frame q w (λ i h e. o i h (omega arith)),
    keeps,
  )

  -- Whole sectors fill their place.
  pub body-Ends :
      (dst body_phys fad sect : ℕ) (s : Machine Dev)
      → phys dst ≡ phys body_phys
      → Ends
          (λ _ t. Fills dst (sect * 2048) (sectors fad) s t)
          CartDies
          (body p dst body_phys fad sect s)
  unfolding body
  body-Ends dst body_phys fad sect s same =
      let post : Unit {0} → Machine Dev → Type 0 =
        λ _ t. Fills dst (sect * 2048) (sectors fad) s t in
      Ends-if post CartDies (sect == 0) _ _
        (λ e.
          let none_left = (==_iff sect 0).0 e in
          (λ i h. absurd (omega arith), λ q w o1 o2. refl, refl))
        (λ _.
          Ends-if post CartDies (body_phys % 32 == 0) _ _
            (λ _.
              Ends-weaken post CartDies (GotSectors (phys body_phys) (on_disc fad) sect s) CartDies
                (gd_or_die_dma p body_phys fad sect s) (gd_or_die_dma-Ends body_phys fad sect s)
                (λ _ t got. GotSectors-Fills (phys body_phys) dst fad sect s t (omega arith) got)
                (λ c a b t e. e))
            (λ _.
              Ends-weaken post CartDies (GotSectors dst (on_disc fad) sect s) CartDies
                (gd_or_die p dst fad sect s) (gd_or_die-Ends dst fad sect s)
                (λ _ t got. GotSectors-Fills dst dst fad sect s t refl got) (λ c a b t e. e)))

  -- A part of one sector, by way of the bounce buffer.
  pub part-Ends :
      (dst fad skip take : ℕ) (s : Machine Dev)
      → skip + take ≤ 2048
      → ClearOfBounce dst take
      → ((f i : ℕ) → disc f i < 2 ^ 8)
      → Ends
          (λ _ t. Fills dst take (λ i. disc (on_disc fad) (skip + i)) s t)
          CartDies
          (part p dst fad skip take s)
  unfolding part
  part-Ends dst fad skip take s fits clear bytes =
      let post : Unit {0} → Machine Dev → Type 0 =
        λ _ t. Fills dst take (λ i. disc (on_disc fad) (skip + i)) s t in
      Ends-if post CartDies (take == 0) _ _
        (λ e.
          let none_left = (==_iff take 0).0 e in
          (λ i h. absurd (omega arith), λ q w o1 o2. refl, refl))
        (λ _.
          Ends-bind post CartDies (GotSectors shim_bounce (on_disc fad) 1 s)
            (gd_or_die p shim_bounce fad 1 s) _ (gd_or_die-Ends shim_bounce fad 1 s)
            (λ _ t (frame, keeps, loaded). (
              λ i h.
                  memcpy-inside take dst (shim_bounce + skip) i t.ram (omega arith)
                    (λ j k hj hk e. clear k (skip + j) hk (omega arith) (omega arith)) h
                  ∙ bounced t.ram i h loaded,
              λ q w o1 o2. memcpy-outside q take dst (shim_bounce + skip) t.ram o2 ∙ frame q w o1,
              keeps,
            )))
    where
      bounced :
          (m : Ram) (i : ℕ)
          → i < take
          → Loaded disc shim_bounce (on_disc fad) 1 m
          → m (phys (shim_bounce + skip + i)) % 2 ^ 8 ≡ disc (on_disc fad) (skip + i)
      bounced m i h loaded =
          let there : shim_bounce + (skip + i) ≡ shim_bounce + skip + i = omega arith in
          let sector : on_disc fad + (skip + i) / 2048 ≡ on_disc fad = omega arith in
          let inside : (skip + i) % 2048 ≡ skip + i = omega arith in
          let byte : m (phys (shim_bounce + skip + i)) ≡ disc (on_disc fad) (skip + i) =
            rw (there, sector, inside) at (loaded (skip + i) (omega arith)) in
          omega (arith, byte, bytes (on_disc fad) (skip + i))
