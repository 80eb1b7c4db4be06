-- ===== src/Examples/Loader.antt =====
-- The loader at concrete values.
use cfp2dreamcast.Base.{
  ℕ, ◌+◌, ◌/◌, ◌%◌, ◌<◌, ◌≡◌, refl, true, ltb, get_or, arith, List, [], ◌∷◌, length, zero, suc,
  ◌==◌, if◌then◌else◌,
}
use cfp2dreamcast.Iface.{game_load_addr, staging_addr, cart_fad}
use cfp2dreamcast.Machine.{ℤ, pos, Platform, Machine, returns}
use cfp2dreamcast.Loader.{Patch, sysrd_test}
use cfp2dreamcast.Loader.Apply.{Disjoint}
use cfp2dreamcast.Machine.Memory.{copy_in}
use cfp2dreamcast.Loader.Boot.{Parts, naomi, main, place_parts}
use cfp2dreamcast.Loader.Boot.Placed.{Placed, place_parts-Placed}
use cfp2dreamcast.Loader.Boot.Main.{Inside, Loads, Ready, main-Ready, after_splash}
use cfp2dreamcast.Loader.Boot.Jumps.{Jumps, main-Jumps}
use cfp2dreamcast.Examples.Drive.{
  Job, rest, reading, disc, drive, drive_laws, call, check_fills, Work-first_page,
}
use cfp2dreamcast.Examples.Cart.{start, statics_at_boot}

zeros : ℕ → List ℕ
zeros zero = []
zeros (suc n) = 0 ∷ zeros n

length-zeros : (n : ℕ) → length (zeros n) ≡ n
unfolding zeros
length-zeros zero = refl
length-zeros (suc n) = omega (arith, length-zeros n)

-- Two patches of two bytes each.
abbrev patches : List Patch
patches =
    record { addr = game_load_addr + 8; old = 0 ∷ 0 ∷ []; neu = 9 ∷ 0 ∷ [] }
    ∷ record { addr = game_load_addr + 16; old = 0 ∷ 0 ∷ []; neu = 0x0b ∷ 0 ∷ [] }
    ∷ []

apart : Disjoint patches staging_addr
apart = (omega arith, λ i h. (λ j l e. omega arith, tt), (omega arith, λ i h. tt, tt))

inside : Inside patches
inside = (λ i h. omega arith, (λ i h. omega arith, tt))

-- A shim of three bytes, the two patches, and cleared slices of the arcade BIOS.
abbrev parts : Parts
parts = record {
  shim_bin = 9 ∷ 0 ∷ 11 ∷ [];
  bios_data = zeros 0x7070;
  splash_bin = [];
  handoff = 6 ∷ [];
  cleo_patches = patches;
  sysbuf = 0x8c010000;
  vram_s = 0xa5000000;
}

place_parts-Placed_example : Placed parts start.ram (place_parts parts start.ram)
place_parts-Placed_example =
    place_parts-Placed parts start.ram (omega arith, length-zeros 0x7070, omega arith)

-- A drive whose reads deliver the mark of the image, and KOS's read of it.
abbrev marked : Platform
marked = record {
  Dev = Unit {0};
  gdc = λ cmd ps func d m.
      if func == 0
      then record { ret = pos 1; stat0 = 0; dev = d; ram = copy_in 0x8c010000 naomi m }
      else record { ret = pos 2; stat0 = 0; dev = d; ram = m };
  load_reg = λ a d. 0;
  store_reg = λ a v d. d;
}

abbrev kos_read : ℕ → ℕ → ℕ → Machine (Unit {0}) → ℤ × Machine (Unit {0})
kos_read dst fad n s = (pos 0, record s { ram = copy_in dst naomi s.ram })

abbrev power_on : Machine (Unit {0})
power_on = record { ram = λ q. 0; dev = tt; statics = statics_at_boot }

main-Ready_example :
    Loads
      (Ready marked (λ s. s) (λ s. s) kos_read parts power_on)
      (main marked (λ s. s) (λ s. s) kos_read parts power_on)
main-Ready_example =
    main-Ready marked (λ s. s) (λ s. s) kos_read parts
      (omega arith, length-zeros 0x7070, omega arith) apart inside power_on

-- KOS's read from the disc of the example drive.
abbrev kos_load : ℕ → ℕ → ℕ → Machine Job → ℤ × Machine Job
kos_load dst fad n s =
    (pos 0, record s { ram = (call 0 [] 1 (reading dst fad n) s.ram).ram; dev = rest })

-- Two patches with the bytes of that disc.
abbrev on_disc : List Patch
on_disc =
    record { addr = game_load_addr + 8; old = 46 ∷ 47 ∷ []; neu = 9 ∷ 0 ∷ [] }
    ∷ record { addr = game_load_addr + 16; old = 54 ∷ 55 ∷ []; neu = 0x0b ∷ 0 ∷ [] }
    ∷ []

abbrev made : Parts
made = record parts { cleo_patches = on_disc }

abbrev loaded : Machine Job
loaded =
    (kos_load staging_addr cart_fad 512
      (after_splash drive (λ s. s) (λ s. s) kos_load made start)).1

abbrev rehearsed : Machine Job
rehearsed = record loaded {
  ram = (call 1 [] 1 (reading 0x8c010000 cart_fad 1) loaded.ram).ram;
  dev = rest;
}

read_again : sysrd_test drive 0x8c010000 cart_fad 1 loaded ≡ returns (pos 0) rehearsed
unfolding sysrd_test call
read_again = refl

letters : (i : ℕ) → i < 5 → disc (cart_fad + i / 2048) (i % 2048) ≡ get_or naomi i 0
unfolding disc
letters i h =
    let e : i % 2048 ≡ i = omega arith in
    let f : cart_fad + i / 2048 ≡ cart_fad = omega arith in
    let small : ltb i 5 ≡ true = ground arith in rw (e, f, small) refl

old_bytes :
    (i : ℕ) → i < 2 → disc (cart_fad + (8 + i) / 2048) ((8 + i) % 2048) ≡ get_or (46 ∷ 47 ∷ []) i 0
unfolding disc
old_bytes zero h = refl
old_bytes (suc zero) h = refl
old_bytes (suc (suc i)) h = absurd (omega arith)

more_old_bytes :
    (i : ℕ)
    → i < 2
    → disc (cart_fad + (16 + i) / 2048) ((16 + i) % 2048) ≡ get_or (54 ∷ 55 ∷ []) i 0
unfolding disc
more_old_bytes zero h = refl
more_old_bytes (suc zero) h = refl
more_old_bytes (suc (suc i)) h = absurd (omega arith)

main-Jumps_example : Jumps (main drive (λ s. s) (λ s. s) kos_load made start)
main-Jumps_example =
    main-Jumps drive drive_laws (λ s. s) (λ s. s) kos_load made letters
      (omega arith, λ i h. (λ j l e. omega arith, tt), (omega arith, λ i h. tt, tt))
      (
        refl,
        omega arith,
        omega arith,
        old_bytes,
        (refl, omega arith, omega arith, more_old_bytes, tt),
      )
      (λ n h w. omega (arith, Work-first_page _ w)) (λ n h i lt e. omega arith) start loaded
      rehearsed refl
      (check_fills 0 staging_addr cart_fad 512 (reading staging_addr cart_fad 512) _
        (refl, refl, refl, omega arith))
      read_again
