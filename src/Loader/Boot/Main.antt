-- ===== src/Loader/Boot/Main.antt =====
-- The loader as a whole: what it has done when it jumps to the game.
use cfp2dreamcast.Base.{
  ℕ, zero, suc, ◌+◌, ◌<◌, ◌≡◌, refl, ap, ◌∙◌, arith, Bool, true, false, List, [], ◌∷◌, length,
  get_or, if◌then◌else◌,
}
use cfp2dreamcast.Iface.{phys, staging_addr, cart_fad}
use cfp2dreamcast.Machine.{ℤ, pos, Platform, Machine, Outcome, returns, died, rebooted, hung}
use cfp2dreamcast.Machine.Memory.{Ram, load8}
use cfp2dreamcast.Loader.{Patch, patch_at, apply_patches, holds, sysrd_test}
use cfp2dreamcast.Loader.Apply.{
  Clear, Disjoint, Patched, apply_patches-Patched, apply_patches-outside,
}
use cfp2dreamcast.Loader.Boot.{
  Load, halted, handed_over, Parts, is_ok, is_hang, naomi, place_parts, patch_and_place, rehearse,
  main, draw_splash,
}
use cfp2dreamcast.Loader.Boot.Placed.{FitsPlaces, Placed, place_parts-Placed}

-- If the loader jumps, `P` holds.
abbrev pub Loads : {D : Type 0} → (Machine D → Type 0) → Load D → Type 0
Loads P (halted w s) = Unit
Loads P (handed_over t) = P t

-- Every patch lies in the staged image or below.
abbrev pub Inside : List Patch → Type 0
Inside [] = Unit {0}
Inside (p ∷ ps) =
    ((i : ℕ) → i < length p.neu → phys (patch_at staging_addr p + i) < 0x0ce00000) × Inside ps

Patched-agree :
    (ps : List Patch) (m k : Ram)
    → Inside ps
    → ((q : ℕ) → q < 0x0ce00000 → k q ≡ m q)
    → Patched ps staging_addr m
    → Patched ps staging_addr k
Patched-agree [] m k h same patched = tt
Patched-agree (p ∷ ps) m k (here, more) same (at, rest) =
    (λ i h. same _ (here i h) ∙ at i h, Patched-agree ps m k more same rest)

module _ {D : Type 0} (P : Machine D → Type 0) where
  Loads-if :
      (b : Bool) (x y : Load D)
      → (b ≡ true → Loads P x)
      → (b ≡ false → Loads P y)
      → Loads P (if b then x else y)
  Loads-if true x y hx hy = hx refl
  Loads-if false x y hx hy = hy refl

  Loads-mono :
      (Q : Machine D → Type 0) (l : Load D) → Loads Q l → ((t : Machine D) → Q t → P t) → Loads P l
  Loads-mono Q (halted w s) h k = tt
  Loads-mono Q (handed_over t) h k = k t h

  Loads-outcome :
      (o : Outcome D ℤ) (f : ℤ → Machine D → Load D) (g h : Machine D → Load D) (l : Load D)
      → ((r : ℤ) (t : Machine D) → o ≡ returns r t → Loads P (f r t))
      → ((t : Machine D) → Loads P (g t))
      → ((t : Machine D) → Loads P (h t))
      → Loads P l
      → Loads P (elim o [ returns r t ↦ f r t | died x y z t ↦ g t | rebooted t ↦ h t | hung ↦ l ])
  Loads-outcome (returns r t) f g h l hf hg hh hl = hf r t refl
  Loads-outcome (died x y z t) f g h l hf hg hh hl = hg t
  Loads-outcome (rebooted t) f g h l hf hg hh hl = hh t
  Loads-outcome hung f g h l hf hg hh hl = hl

zero_result : (r : ℤ) → is_ok r ≡ true → r ≡ pos 0
zero_result r h = ground arith

-- The letters "NAOMI" at `a`.
abbrev pub HasMark : ℕ → Ram → Type 0
HasMark a m = (i : ℕ) → i < 5 → load8 m (a + i) ≡ get_or naomi i 0

holds-all :
    (xs : List ℕ) (a : ℕ) (m : Ram)
    → holds xs a m ≡ true
    → (i : ℕ) → i < length xs
    → load8 m (a + i) ≡ get_or xs i 0
unfolding holds
holds-all [] a m h i lt = absurd (omega arith)
holds-all (x ∷ xs) a m h zero lt = ground arith
holds-all (x ∷ xs) a m h (suc i) lt =
    let e : a + suc i ≡ a + 1 + i = omega arith in
    rw e (holds-all xs (a + 1) m (ground arith) i (omega arith))

holds-HasMark : (a : ℕ) (m : Ram) → holds naomi a m ≡ true → HasMark a m
holds-HasMark a m h i lt = holds-all naomi a m h i lt

module _ (p : Platform) (vid_set_mode cdrom_reinit : Machine p.Dev → Machine p.Dev)
    (cdrom_read_sectors : ℕ → ℕ → ℕ → Machine p.Dev → ℤ × Machine p.Dev) (c : Parts) where
  open p use {Dev}

  -- The machine that KOS's read finds.
  abbrev pub after_splash : Machine Dev → Machine Dev
  after_splash s0 = let v = vid_set_mode s0 in cdrom_reinit (record v { ram = draw_splash c v.ram })

  -- From memory `m`: every patch is in place, what no patch covers in the staged image and below is
  -- as in `m`, and every part lies where `Placed` says.
  abbrev pub Installed : Ram → Machine Dev → Type 0
  Installed m t =
      Patched c.cleo_patches staging_addr t.ram
      × ((q : ℕ) → q < 0x0ce00000 → Clear c.cleo_patches staging_addr q → t.ram q ≡ m q)
      × Placed c (apply_patches c.cleo_patches staging_addr m).1 t.ram

  -- The rehearsal on machine `a` gave result 0 and the letters, and its memory is installed.
  abbrev pub Rehearsed : Machine Dev → Machine Dev → Type 0
  Rehearsed a t =
      (u : Machine Dev) × (sysrd_test p c.sysbuf cart_fad 1 a ≡ returns (pos 0) u)
      × HasMark c.sysbuf u.ram
      × Installed u.ram t

  -- What the loader has done when it jumps with machine `t`.
  abbrev pub Ready : Machine Dev → Machine Dev → Type 0
  Ready s t =
      (a : Machine Dev) × (cdrom_read_sectors staging_addr cart_fad 512 (after_splash s)
        ≡ (pos 0, a))
      × HasMark staging_addr a.ram
      × Rehearsed a t

module _ (p : Platform) (vid_set_mode cdrom_reinit : Machine p.Dev → Machine p.Dev)
    (cdrom_read_sectors : ℕ → ℕ → ℕ → Machine p.Dev → ℤ × Machine p.Dev) (c : Parts)
    (fits : FitsPlaces c) (apart : Disjoint c.cleo_patches staging_addr)
    (inside : Inside c.cleo_patches) where
  open p use {Dev}

  patch_and_place-Ready :
      (s : Machine Dev)
      → Loads
          (Installed p vid_set_mode cdrom_reinit cdrom_read_sectors c s.ram)
          (patch_and_place p vid_set_mode cdrom_reinit cdrom_read_sectors c s)
  unfolding patch_and_place
  patch_and_place-Ready s =
      let r = apply_patches c.cleo_patches staging_addr s.ram in
      let placed = place_parts-Placed c r.1 fits in
      Loads-if (Installed p vid_set_mode cdrom_reinit cdrom_read_sectors c s.ram) (is_ok r.0) _ _
        (λ e. (
          Patched-agree c.cleo_patches r.1 (place_parts c r.1) inside placed.6
              (apply_patches-Patched c.cleo_patches staging_addr s.ram apart (zero_result r.0 e)),
          (λ q low out.
              placed.6 q low ∙ apply_patches-outside c.cleo_patches staging_addr q s.ram out),
          placed,
        ))
        (λ e. tt)

  rehearse-Ready :
      (s : Machine Dev)
      → Loads
          (Rehearsed p vid_set_mode cdrom_reinit cdrom_read_sectors c s)
          (rehearse p vid_set_mode cdrom_reinit cdrom_read_sectors c s)
  unfolding rehearse
  rehearse-Ready s =
      Loads-outcome (Rehearsed p vid_set_mode cdrom_reinit cdrom_read_sectors c s)
        (sysrd_test p c.sysbuf cart_fad 1 s) _ _ _ _
        (λ r t ran.
          Loads-if (Rehearsed p vid_set_mode cdrom_reinit cdrom_read_sectors c s) (is_ok r) _ _
            (λ e.
              Loads-if (Rehearsed p vid_set_mode cdrom_reinit cdrom_read_sectors c s)
                (holds naomi c.sysbuf t.ram) _ _
                (λ f.
                  Loads-mono (Rehearsed p vid_set_mode cdrom_reinit cdrom_read_sectors c s)
                    (Installed p vid_set_mode cdrom_reinit cdrom_read_sectors c t.ram) _
                    (patch_and_place-Ready t)
                    (λ u h. (
                      t,
                      ran ∙ ap (λ z. returns z t) (zero_result r e),
                      holds-HasMark c.sysbuf t.ram f,
                      h,
                    )))
                (λ f. tt))
            (λ e.
              Loads-if (Rehearsed p vid_set_mode cdrom_reinit cdrom_read_sectors c s) (is_hang r) _
                _ (λ f. tt) (λ f. tt)))
        (λ t. tt) (λ t. tt) tt

  -- If the loader jumps to the game, whatever KOS, the drive and memory held before, then KOS's read
  -- of the image gave 0 and the letters "NAOMI", and so did the rehearsal of the BIOS read. Of the
  -- memory that the rehearsal left, every patch is in place in the staged image and no other byte
  -- there or below has changed, and the shim, the slices of the arcade BIOS, the cleared mirrors and
  -- the stub that is jumped to are in their places. The parts have the sizes that their places allow,
  -- no two patches cover a byte, and each lies in the staged image or below.
  pub main-Ready :
      (s : Machine Dev)
      → Loads
          (Ready p vid_set_mode cdrom_reinit cdrom_read_sectors c s)
          (main p vid_set_mode cdrom_reinit cdrom_read_sectors c s)
  unfolding main
  main-Ready s0 =
      let r =
        cdrom_read_sectors staging_addr cart_fad 512
          (after_splash p vid_set_mode cdrom_reinit cdrom_read_sectors c s0) in
      Loads-if (Ready p vid_set_mode cdrom_reinit cdrom_read_sectors c s0) (is_ok r.0) _ _
        (λ e.
          Loads-if (Ready p vid_set_mode cdrom_reinit cdrom_read_sectors c s0)
            (holds naomi staging_addr r.1.ram) _ _
            (λ f.
              Loads-mono (Ready p vid_set_mode cdrom_reinit cdrom_read_sectors c s0)
                (Rehearsed p vid_set_mode cdrom_reinit cdrom_read_sectors c r.1) _
                (rehearse-Ready r.1)
                (λ u h. (
                  r.1,
                  (λ i. (zero_result r.0 e i, r.1)),
                  holds-HasMark staging_addr r.1.ram f,
                  h,
                )))
            (λ f. tt))
        (λ e. tt)
