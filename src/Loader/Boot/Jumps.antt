-- ===== src/Loader/Boot/Jumps.antt =====
-- The loader does reach the game: what a disc must hold for the whole of the loader to go through.
use cfp2dreamcast.Base.{
  ℕ, suc, ◌+◌, ◌-◌, ◌/◌, ◌%◌, ◌^◌, ◌<◌, ◌≤◌, ◌≡◌, refl, sym, ap, subst, ◌∙◌, arith, true, List, [],
  ◌∷◌, length, get_or,
}
use cfp2dreamcast.Iface.{phys, staging_addr, game_load_addr, cart_fad}
use cfp2dreamcast.Machine.{
  ℤ, pos, Platform, Machine, Outcome, returns, died, rebooted, hung, Ends, Never,
}
use cfp2dreamcast.Machine.Memory.{Ram, load8, copy_in}
use cfp2dreamcast.Machine.Store.{Misses, copy_in-outside}
use cfp2dreamcast.Gd.Laws.{GdLaws, Loaded}
use cfp2dreamcast.Loader.{Patch, patch_at, apply_patches, holds, sysrd_test}
use cfp2dreamcast.Loader.Apply.{Clear, Disjoint}
use cfp2dreamcast.Loader.Rehearse.{Rehearsed, sysrd_test-Ends}
use cfp2dreamcast.Loader.Boot.{
  Load, halted, handed_over, Parts, naomi, patch_and_place, rehearse, main,
}
use cfp2dreamcast.Loader.Boot.Main.{after_splash}

-- The loader jumps to the game.
abbrev pub Jumps : {D : Type 0} → Load D → Type 0
Jumps (halted w s) = ⊥
Jumps (handed_over t) = Unit

Jumps-outcome :
    {D : Type 0} (o : Outcome D ℤ) (f : ℤ → Machine D → Load D) (g h : Machine D → Load D)
    (l : Load D) (r : ℤ) (t : Machine D)
    → o ≡ returns r t
    → Jumps (f r t)
    → Jumps (elim o [ returns r t ↦ f r t | died x y z t ↦ g t | rebooted t ↦ h t | hung ↦ l ])
Jumps-outcome o f g h l r t e j =
    subst
      (λ o.
        Jumps (elim o [ returns r t ↦ f r t | died x y z t ↦ g t | rebooted t ↦ h t | hung ↦ l ]))
      (sym e) j

all-holds :
    (xs : List ℕ) (a : ℕ) (m : Ram)
    → ((i : ℕ) → i < length xs → load8 m (a + i) ≡ get_or xs i 0)
    → holds xs a m ≡ true
unfolding holds
all-holds [] a m h = refl
all-holds (x ∷ xs) a m h =
    let here : load8 m a ≡ x = ground (arith, h 0 (omega arith)) in
    let rest : holds xs (a + 1) m ≡ true =
      all-holds xs (a + 1) m
        (λ i lt. let e : a + 1 + i ≡ a + suc i = omega arith in rw e (h (suc i) (omega arith))) in
    ground (arith, here, rest)

-- Memory holds the old bytes of every patch, which are as many as its new ones.
abbrev pub OldBytes : List Patch → ℕ → Ram → Type 0
OldBytes [] img m = Unit {0}
OldBytes (p ∷ ps) img m =
    (length p.old ≡ length p.neu)
    × ((i : ℕ) → i < length p.old → load8 m (patch_at img p + i) ≡ get_or p.old i 0)
    × OldBytes ps img m

OldBytes-copy_in :
    (ps : List Patch) (img at : ℕ) (xs : List ℕ) (m : Ram)
    → ((i : ℕ) → i < length xs → Clear ps img (phys (at + i)))
    → OldBytes ps img m
    → OldBytes ps img (copy_in at xs m)
OldBytes-copy_in [] img at xs m out h = tt
OldBytes-copy_in (p ∷ ps) img at xs m out (size, old, rest) = (
  size,
  (λ i lt.
      copy_in-outside (phys (patch_at img p + i)) xs at m
        (λ j hj e. (out j hj).0 i (rw (← size) lt) (sym e))
      ∙ old i lt),
  OldBytes-copy_in ps img at xs m (λ j hj. (out j hj).1) rest,
)

OldBytes-apply :
    (ps : List Patch) (img : ℕ) (m : Ram)
    → Disjoint ps img
    → OldBytes ps img m
    → (apply_patches ps img m).0 ≡ pos 0
unfolding apply_patches
OldBytes-apply [] img m d h = refl
OldBytes-apply (p ∷ ps) img m (small, apart, d) (size, old, rest) =
    rw (all-holds p.old (patch_at img p) m old) (
      OldBytes-apply ps img (copy_in (patch_at img p) p.neu m) d
        (OldBytes-copy_in ps img (patch_at img p) p.neu m apart rest))

module _ (p : Platform) {disc : ℕ → ℕ → ℕ} (laws : GdLaws p disc)
    (vid_set_mode cdrom_reinit : Machine p.Dev → Machine p.Dev)
    (cdrom_read_sectors : ℕ → ℕ → ℕ → Machine p.Dev → ℤ × Machine p.Dev) (c : Parts) where
  open p use {Dev}
  open laws use {Work}

  -- Byte `n` of the cartridge image on the disc.
  abbrev pub image_byte : ℕ → ℕ
  image_byte n = disc (cart_fad + n / 2048) (n % 2048)

  -- The image has each patch's old bytes at its offset, inside the first MiB.
  abbrev pub Patchable : List Patch → Type 0
  Patchable [] = Unit {0}
  Patchable (q ∷ qs) =
      (length q.old ≡ length q.neu)
      × (game_load_addr ≤ q.addr)
      × (q.addr + length q.old ≤ game_load_addr + 2 ^ 20)
      × ((i : ℕ) → i < length q.old → image_byte (q.addr - game_load_addr + i) ≡ get_or q.old i 0)
      × Patchable qs

  Patchable-OldBytes :
      (qs : List Patch) (m : Ram)
      → ((n : ℕ) → n < 2 ^ 20 → m (phys (staging_addr + n)) ≡ image_byte n)
      → Patchable qs
      → OldBytes qs staging_addr m
  Patchable-OldBytes [] m staged h = tt
  Patchable-OldBytes (q ∷ qs) m staged (size, low, high, old, rest) = (
    size,
    (λ i lt.
        let n = q.addr - game_load_addr + i in
        let there : phys (patch_at staging_addr q + i) ≡ phys (staging_addr + n) = omega arith in
        ap m there ∙ staged n (omega arith) ∙ old i lt),
    Patchable-OldBytes qs m staged rest,
  )

  module _ (mark : (i : ℕ) → i < 5 → image_byte i ≡ get_or naomi i 0)
      (apart : Disjoint c.cleo_patches staging_addr) (patchable : Patchable c.cleo_patches)
      (idle : (n : ℕ) → n < 2 ^ 20 → ¬ (Work (phys (staging_addr + n))))
      (beside : (n : ℕ) → n < 2 ^ 20 → Misses (phys (staging_addr + n)) c.sysbuf 2048) where
    patch_and_place-Jumps :
        (u : Machine Dev)
        → ((n : ℕ) → n < 2 ^ 20 → u.ram (phys (staging_addr + n)) ≡ image_byte n)
        → Jumps (patch_and_place p vid_set_mode cdrom_reinit cdrom_read_sectors c u)
    unfolding patch_and_place
    patch_and_place-Jumps u staged =
        rw
          (OldBytes-apply c.cleo_patches staging_addr u.ram apart
            (Patchable-OldBytes c.cleo_patches u.ram staged patchable))
          tt

    rehearse-Jumps :
        (a u : Machine Dev)
        → Loaded disc staging_addr cart_fad 512 a.ram
        → sysrd_test p c.sysbuf cart_fad 1 a ≡ returns (pos 0) u
        → Jumps (rehearse p vid_set_mode cdrom_reinit cdrom_read_sectors c a)
    unfolding rehearse
    rehearse-Jumps a u staged ran =
        let end =
          subst (λ o. Ends (Rehearsed p laws c.sysbuf cart_fad 1 a) Never o) ran
            (sysrd_test-Ends p laws c.sysbuf cart_fad 1 a) in
        let seen : holds naomi c.sysbuf u.ram ≡ true =
          all-holds naomi c.sysbuf u.ram (λ i h. end.1 refl i (omega arith) ∙ mark i h) in
        let kept = λ (n : ℕ) (h : n < 2 ^ 20).
          end.2 (phys (staging_addr + n)) (idle n h) (beside n h) ∙ staged n (omega arith) in
        Jumps-outcome (sysrd_test p c.sysbuf cart_fad 1 a) _ _ _ _ (pos 0) u ran
          (rw seen (patch_and_place-Jumps u kept))

    -- The loader jumps to the game from a disc whose image begins with "NAOMI" and has the old bytes
    -- of every patch at its offset, if KOS's read gives 0 and the image in the staging area, and the
    -- BIOS read of the rehearsal gives 0. No two patches cover a byte, and neither the BIOS's work
    -- area nor the rehearsal's buffer meets the staging area.
    pub main-Jumps :
        (s a u : Machine Dev)
        → cdrom_read_sectors staging_addr cart_fad 512
            (after_splash p vid_set_mode cdrom_reinit cdrom_read_sectors c s)
          ≡ (pos 0, a)
        → Loaded disc staging_addr cart_fad 512 a.ram
        → sysrd_test p c.sysbuf cart_fad 1 a ≡ returns (pos 0) u
        → Jumps (main p vid_set_mode cdrom_reinit cdrom_read_sectors c s)
    unfolding main
    main-Jumps s a u read staged ran =
        let seen : holds naomi staging_addr a.ram ≡ true =
          all-holds naomi staging_addr a.ram (λ i h. staged i (omega arith) ∙ mark i h) in
        rw (read, seen) (rehearse-Jumps a u staged ran)
