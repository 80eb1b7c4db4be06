-- ===== src/Shim/Config/Delivered.antt =====
-- What the settings hooks leave in the game's memory.
use cfp2dreamcast.Base.{
  ℕ, zero, suc, ◌+◌, ◌<◌, ◌≤◌, ◌≡◌, refl, ap, subst, ◌∙◌, arith, Bool, true, false, if◌then◌else◌,
  List, [], ◌∷◌, length, get_or, u8, ◌==◌, ltb,
}
use cfp2dreamcast.Machine.{pos, Platform, Machine, Never, Ends}
use cfp2dreamcast.Machine.Ends.{Ends-if, Ends-bind}
use cfp2dreamcast.Machine.Memory.{Ram, load8, load32, copy_in}
use cfp2dreamcast.Machine.Store.{copy_in-inside, copy_in-outside}
use cfp2dreamcast.Util.{shim_cable_is_vga}
use cfp2dreamcast.Shim.{Blobs}
use cfp2dreamcast.Shim.Config.{shim_ee_read, shim_monitor_set, monitor_words}
use cfp2dreamcast.Shim.Config.Settings.{take, drop}

pub length-take : (n : ℕ) (xs : List ℕ) → n ≤ length xs → length (take n xs) ≡ n
length-take zero xs h = refl
length-take (suc n) [] h = absurd (omega arith)
length-take (suc n) (x ∷ xs) h = omega (arith, length-take n xs (omega arith))

pub get_or-take : (n i : ℕ) (xs : List ℕ) → i < n → get_or (take n xs) i 0 ≡ get_or xs i 0
get_or-take zero i xs h = absurd (omega arith)
get_or-take (suc n) i [] h = refl
get_or-take (suc n) zero (x ∷ xs) h = refl
get_or-take (suc n) (suc i) (x ∷ xs) h = get_or-take n i xs (omega arith)

pub get_or-drop : (n i : ℕ) (xs : List ℕ) → get_or (drop n xs) i 0 ≡ get_or xs (n + i) 0
get_or-drop zero i xs = rw zero_add refl
  where
    zero_add : (k : ℕ) → 0 + k ≡ k
    zero_add k = omega arith
get_or-drop (suc n) i [] = refl
get_or-drop (suc n) i (x ∷ xs) = get_or-drop n i xs ∙ shift
  where
    shift : get_or xs (n + i) 0 ≡ get_or (x ∷ xs) (suc n + i) 0
    shift = ground arith

pub length-drop : (n : ℕ) (xs : List ℕ) → n ≤ length xs → length (drop n xs) + n ≡ length xs
length-drop zero xs h = omega arith
length-drop (suc n) [] h = absurd (omega arith)
length-drop (suc n) (x ∷ xs) h = omega (arith, length-drop n xs (omega arith))

module _ (p : Platform) where
  open p use {Dev}

  -- The settings validator finds the whole image of the settings memory at its buffer, and the two
  -- copies of the system section, bytes 0 to 17 and 18 to 35, at theirs.
  pub shim_ee_read-Delivered :
      (b : Blobs) (s : Machine Dev)
      → length b.eeprom_img ≡ 128
      → let m = (shim_ee_read p b s).ram in
        ((i : ℕ) → i < 128 → load8 m (0x8c1c954c + i) ≡ u8 (get_or b.eeprom_img i 0))
        × ((i : ℕ) → i < 18 → load8 m (0x8c1c9528 + i) ≡ u8 (get_or b.eeprom_img i 0))
        × ((i : ℕ) → i < 18 → load8 m (0x8c1c953a + i) ≡ u8 (get_or b.eeprom_img (18 + i) 0))
  unfolding shim_ee_read
  shim_ee_read-Delivered b s full =
      let img = b.eeprom_img in
      let l128 = length-take 128 img (omega arith) in
      let l18 = length-take 18 img (omega arith) in
      let rest = length-drop 18 img (omega arith) in
      let l36 = length-take 18 (drop 18 img) (omega arith) in
      let whole = copy_in 0x8c1c954c (take 128 img) s.ram in
      let one = copy_in 0x8c1c9528 (take 18 img) whole in
      (
        λ i h.
            copy_in-outside _ (take 18 (drop 18 img)) 0x8c1c953a one (λ j k e. omega (arith, l36))
            ∙ copy_in-outside _ (take 18 img) 0x8c1c9528 whole (λ j k e. omega (arith, l18))
            ∙ copy_in-inside (take 128 img) 0x8c1c954c i s.ram (omega arith) (omega arith)
            ∙ ap u8 (get_or-take 128 i img h),
        λ i h.
            copy_in-outside _ (take 18 (drop 18 img)) 0x8c1c953a one (λ j k e. omega (arith, l36))
            ∙ copy_in-inside (take 18 img) 0x8c1c9528 i whole (omega arith) (omega arith)
            ∙ ap u8 (get_or-take 18 i img h),
        λ i h.
            copy_in-inside (take 18 (drop 18 img)) 0x8c1c953a i one (omega arith) (omega arith)
            ∙ ap u8 (get_or-take 18 i (drop 18 img) h ∙ get_or-drop 18 i img),
      )

  -- The words by which the game chooses its monitor: valid, 31 kHz or 15 kHz, and its class.
  abbrev pub Monitor : Bool → Ram → Type 0
  Monitor vga m =
      (load32 m 0x8c0c4518 ≡ 1)
      × (load32 m 0x8c0c4520 ≡ 0)
      × (load32 m 0x8c0c4524 ≡ (if vga then 0 else 1))
      × (load32 m 0x8c0c451c ≡ (if vga then 0 else 2))

  monitor_words-Monitor : (vga : Bool) (m : Ram) → Monitor vga (monitor_words p vga m)
  unfolding monitor_words
  monitor_words-Monitor true m = (refl, refl, refl, refl)
  monitor_words-Monitor false m = (refl, refl, refl, refl)

  sensed :
      (s : Machine Dev) → Ends (λ vga t. vga ≡ (t.cable_latch == 0)) Never (shim_cable_is_vga p s)
  unfolding shim_cable_is_vga
  sensed s =
      Ends-if (λ vga t. vga ≡ (t.cable_latch == 0)) Never (ltb 3 s.cable_latch) _ _ (λ e. refl)
        (λ e. refl)

  -- The monitor hook returns 0 with the game's monitor words set for the cable that the latch holds.
  pub shim_monitor_set-Ends :
      (s : Machine Dev)
      → Ends (λ r t. (r ≡ pos 0) × Monitor (t.cable_latch == 0) t.ram) Never (shim_monitor_set p s)
  unfolding shim_monitor_set
  shim_monitor_set-Ends s =
      Ends-bind (λ r t. (r ≡ pos 0) × Monitor (t.cable_latch == 0) t.ram) Never
        (λ vga t. vga ≡ (t.cable_latch == 0)) (shim_cable_is_vga p s) _ (sensed s)
        (λ vga t e. (
          refl,
          subst (λ v. Monitor v (monitor_words p vga t.ram)) e (monitor_words-Monitor vga t.ram),
        ))
