-- ===== src/Loader/Boot/Placed.antt =====
-- What lies in memory when the loader jumps: every part in its place, none over another.
use cfp2dreamcast.Base.{
  ℕ, zero, suc, ◌+◌, ◌-◌, ◌*◌, ◌^◌, ◌<◌, ◌≤◌, ◌≡◌, ap, ◌∙◌, ltb, Bool-cases, ◌⊎◌, inl, inr, arith,
  List, length, get_or, u8,
}
use cfp2dreamcast.Iface.{
  p2addr, phys, shim_base, shim_code_max, g1_mirror, bios_data_60000, bios_data_1ffd00,
  maple_mirror,
}
use cfp2dreamcast.Machine.Memory.{Ram, load8, store32, memset, for_loop}
use cfp2dreamcast.Machine.Store.{
  Misses, copy_in-inside, copy_in-outside, memset-outside, for_loop-outside, store32-Misses,
}
use cfp2dreamcast.Shim.Config.Settings.{take, drop}
use cfp2dreamcast.Shim.Config.Delivered.{length-take, get_or-take, get_or-drop, length-drop}
use cfp2dreamcast.Loader.Boot.{Parts, handoff_scratch, place_shim, clear_mirrors, place_parts}

memset_clears : (n d i : ℕ) (m : Ram) → n ≤ 2 ^ 29 → i < n → memset d 0 n m (phys (d + i)) ≡ 0
unfolding memset
memset_clears zero d i m small h = absurd (omega arith)
memset_clears (suc n) d zero m small h =
    memset-outside _ n (d + 1) 0 _ (λ j lt e. omega arith) ∙ ground arith
memset_clears (suc n) d (suc i) m small h =
    rw (shift d i) (memset_clears n (d + 1) i _ (omega arith) (omega arith))
  where
    shift : (d i : ℕ) → phys (d + suc i) ≡ phys (d + 1 + i)
    shift d i = omega arith

-- Byte `q` is clear already, or one that the loop has yet to clear.
abbrev Clearing : ℕ → ℕ → ℕ → ℕ → Ram → Type 0
Clearing left i d q m =
    (m q ≡ 0) ⊎ ((k : ℕ) × (4 * i ≤ k) × (k < 4 * (i + left)) × (q ≡ phys (d + k)))

clear_next :
    (left i d q : ℕ) (m : Ram)
    → Clearing (suc left) i d q m
    → Clearing left (i + 1) d q (store32 (d + 4 * i) 0 m)
clear_next left i d q m (inl h) = inl (ground arith)
clear_next left i d q m (inr (k, lo, hi, e)) = elim (Bool-cases (ltb k (4 * i + 4))) [
  | inl near ↦ inl (ground arith)
  | inr far ↦ inr (k, ground arith, omega arith, e)
]

words_clear :
    (left i d q : ℕ) (m : Ram)
    → Clearing left i d q m
    → for_loop left i (λ j. store32 (d + 4 * j) 0) m q ≡ 0
unfolding for_loop
words_clear zero i d q m (inl h) = h
words_clear zero i d q m (inr (k, lo, hi, e)) = absurd (omega arith)
words_clear (suc left) i d q m c = words_clear left (i + 1) d q _ (clear_next left i d q m c)

words_outside :
    (left d q : ℕ) (m : Ram)
    → Misses q d (4 * left)
    → for_loop left 0 (λ j. store32 (d + 4 * j) 0) m q ≡ m q
words_outside left d q m far = for_loop-outside q left 0 _ m (λ j k lo hi.
    store32-Misses (d + 4 * j) 0 q k (λ i h e. far (4 * j + i) (omega arith) (omega (arith, e))))

-- The parts have the sizes that their places allow.
abbrev pub FitsPlaces : Parts → Type 0
FitsPlaces c =
    (length c.shim_bin ≤ shim_code_max)
    × (length c.bios_data ≡ 0x7070)
    × (length c.handoff ≤ 0x1000)

-- The two slices of the arcade BIOS.
abbrev slice1 : Parts → List ℕ
slice1 c = take 0x7000 c.bios_data

abbrev slice2 : Parts → List ℕ
slice2 c = take 0x70 (drop 0x7000 c.bios_data)

module _ (c : Parts) (fits : FitsPlaces c) where
  slice1-length : length (slice1 c) ≡ 0x7000
  slice1-length = length-take 0x7000 c.bios_data (omega (arith, fits))

  slice2-length : length (slice2 c) ≡ 0x70
  slice2-length =
      length-take 0x70 (drop 0x7000 c.bios_data)
        (omega (arith, fits, length-drop 0x7000 c.bios_data (omega (arith, fits))))

  -- Past the mirrors and the stub, a byte is as the shim's placement left it.
  after_stub :
      (q : ℕ) (m : Ram)
      → Misses q handoff_scratch 0x1000
      → place_parts c m q ≡ clear_mirrors (place_shim c m) q
  unfolding place_parts
  after_stub q m far =
      copy_in-outside q c.handoff handoff_scratch _ (λ i h e. far i (omega (arith, fits)) e)

  after_mirrors :
      (q : ℕ) (m : Ram)
      → Misses q (p2addr g1_mirror) 0x800
      → Misses q (p2addr maple_mirror) 0x100
      → clear_mirrors m q ≡ m q
  unfolding clear_mirrors
  after_mirrors q m g1 maple =
      words_outside 64 (p2addr maple_mirror) q _ maple ∙ words_outside 512 (p2addr g1_mirror) q m g1

  -- Byte `q` is in none of the places that are written after the shim's.
  abbrev Apart : ℕ → Type 0
  Apart q =
      (q < 0x0ce00000)
      ⊎ (((0x0ce01000 ≤ q) × (q < 0x0cfc8800)) ⊎ ((0x0cfc9000 ≤ q) × (q < 0x0cfd3000)))

  kept : (q : ℕ) (m : Ram) → Apart q → place_parts c m q ≡ place_shim c m q
  unfolding p2addr
  kept q m h =
      after_stub q m (λ i lt e. ground arith)
      ∙ after_mirrors q (place_shim c m) (λ i lt e. ground arith) (λ i lt e. ground arith)

  mirrored :
      (q : ℕ) (m : Ram) → 0x0cfc8800 ≤ q → place_parts c m q ≡ clear_mirrors (place_shim c m) q
  mirrored q m h = after_stub q m (λ i lt e. omega arith)

  stub_placed :
      (i : ℕ) (m : Ram)
      → i < length c.handoff
      → place_parts c m (phys (handoff_scratch + i)) ≡ u8 (get_or c.handoff i 0)
  unfolding place_parts
  stub_placed i m h = copy_in-inside c.handoff handoff_scratch i _ (omega (arith, fits)) h

  shim_placed :
      (i : ℕ) (m : Ram)
      → i < length c.shim_bin
      → place_shim c m (phys (shim_base + i)) ≡ u8 (get_or c.shim_bin i 0)
  unfolding place_shim
  shim_placed i m h =
      copy_in-outside _ (slice2 c) bios_data_1ffd00 _ (λ j k e. omega (arith, slice2-length, fits))
      ∙ copy_in-outside _ (slice1 c) bios_data_60000 _ (λ j k e. omega (arith, slice1-length, fits))
      ∙ memset-outside _ (shim_code_max - length c.shim_bin) (shim_base + length c.shim_bin) 0 _
          (λ j k e. omega (arith, fits))
      ∙ copy_in-inside c.shim_bin shim_base i m (omega (arith, fits)) h

  bss_cleared :
      (i : ℕ) (m : Ram)
      → length c.shim_bin ≤ i
      → i < shim_code_max
      → place_shim c m (phys (shim_base + i)) ≡ 0
  unfolding place_shim
  bss_cleared i m lo hi =
      let n = length c.shim_bin in
      let there : shim_base + i ≡ shim_base + n + (i - n) = omega arith in
      copy_in-outside _ (slice2 c) bios_data_1ffd00 _ (λ j k e. omega (arith, slice2-length))
      ∙ copy_in-outside _ (slice1 c) bios_data_60000 _ (λ j k e. omega (arith, slice1-length))
      ∙ rw there
          (memset_clears (shim_code_max - n) (shim_base + n) (i - n) _ (omega arith) (omega arith))

  library_placed :
      (i : ℕ) (m : Ram)
      → i < 0x7000
      → place_shim c m (phys (bios_data_60000 + i)) ≡ u8 (get_or c.bios_data i 0)
  unfolding place_shim
  library_placed i m h =
      copy_in-outside _ (slice2 c) bios_data_1ffd00 _ (λ j k e. omega (arith, slice2-length))
      ∙ copy_in-inside (slice1 c) bios_data_60000 i _ (omega (arith, slice1-length))
          (omega (arith, slice1-length))
      ∙ ap u8 (get_or-take 0x7000 i c.bios_data h)

  notice_placed :
      (i : ℕ) (m : Ram)
      → i < 0x70
      → place_shim c m (phys (bios_data_1ffd00 + i)) ≡ u8 (get_or c.bios_data (0x7000 + i) 0)
  unfolding place_shim
  notice_placed i m h =
      copy_in-inside (slice2 c) bios_data_1ffd00 i _ (omega (arith, slice2-length))
        (omega (arith, slice2-length))
      ∙ ap u8 (get_or-take 0x70 i (drop 0x7000 c.bios_data) h ∙ get_or-drop 0x7000 i c.bios_data)

  staging_kept : (q : ℕ) (m : Ram) → q < 0x0ce00000 → place_shim c m q ≡ m q
  unfolding place_shim
  staging_kept q m h =
      copy_in-outside q (slice2 c) bios_data_1ffd00 _ (λ j k e. omega (arith, slice2-length))
      ∙ copy_in-outside q (slice1 c) bios_data_60000 _ (λ j k e. omega (arith, slice1-length))
      ∙ memset-outside q (shim_code_max - length c.shim_bin) (shim_base + length c.shim_bin) 0 _
          (λ j k e. omega (arith, fits))
      ∙ copy_in-outside q c.shim_bin shim_base m (λ j k e. omega (arith, fits))

-- The shim is at its base with the rest of its code area clear, both slices of the arcade BIOS are
-- in place, both register mirrors are clear, the staged image and all below is as in `before`, and
-- the stub that the loader jumps to is at its scratch address.
abbrev pub Placed : Parts → Ram → Ram → Type 0
Placed c before m =
    ((i : ℕ) → i < length c.shim_bin → load8 m (shim_base + i) ≡ u8 (get_or c.shim_bin i 0))
    × ((i : ℕ) → length c.shim_bin ≤ i → i < shim_code_max → load8 m (shim_base + i) ≡ 0)
    × ((i : ℕ) → i < 0x7000 → load8 m (bios_data_60000 + i) ≡ u8 (get_or c.bios_data i 0))
    × ((i : ℕ) → i < 0x70 → load8 m (bios_data_1ffd00 + i) ≡ u8 (get_or c.bios_data (0x7000 + i) 0))
    × ((i : ℕ) → i < 0x800 → load8 m (g1_mirror + i) ≡ 0)
    × ((i : ℕ) → i < 0x100 → load8 m (maple_mirror + i) ≡ 0)
    × ((q : ℕ) → q < 0x0ce00000 → m q ≡ before q)
    × ((i : ℕ) → i < length c.handoff → load8 m (handoff_scratch + i) ≡ u8 (get_or c.handoff i 0))

g1_cleared : (i : ℕ) (m : Ram) → i < 0x800 → clear_mirrors m (phys (g1_mirror + i)) ≡ 0
unfolding clear_mirrors p2addr
g1_cleared i m h =
    words_outside 64 (p2addr maple_mirror) _ _ (λ j k e. omega arith)
    ∙ words_clear 512 0 (p2addr g1_mirror) _ m (inr (i, omega arith, omega arith, omega arith))

maple_cleared : (i : ℕ) (m : Ram) → i < 0x100 → clear_mirrors m (phys (maple_mirror + i)) ≡ 0
unfolding clear_mirrors p2addr
maple_cleared i m h =
    words_clear 64 0 (p2addr maple_mirror) _ _ (inr (i, omega arith, omega arith, omega arith))

-- The placement of the parts, which have the sizes that their places allow, puts every one where
-- `Placed` says, and none over another or over the staged image.
pub place_parts-Placed : (c : Parts) (m : Ram) → FitsPlaces c → Placed c m (place_parts c m)
place_parts-Placed c m fits = (
  λ i h. kept c fits _ m (inr (inl (omega arith, omega (arith, fits)))) ∙ shim_placed c fits i m h,
  λ i lo hi. kept c fits _ m (inr (inl (omega arith, omega arith))) ∙ bss_cleared c fits i m lo hi,
  λ i h. kept c fits _ m (inr (inr (omega arith, omega arith))) ∙ library_placed c fits i m h,
  λ i h. kept c fits _ m (inr (inr (omega arith, omega arith))) ∙ notice_placed c fits i m h,
  λ i h. mirrored c fits _ m (omega arith) ∙ g1_cleared i (place_shim c m) h,
  λ i h. mirrored c fits _ m (omega arith) ∙ maple_cleared i (place_shim c m) h,
  λ q h. kept c fits q m (inl h) ∙ staging_kept c fits q m h,
  λ i h. stub_placed c fits i m h,
)
