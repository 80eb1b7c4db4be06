-- ===== src/Shim/Reply/Frame.antt =====
-- Where a reply writes: its own bytes, and the two buffers of the controller bus.
use cfp2dreamcast.Base.{ℕ, zero, suc, ◌+◌, ◌≤◌, ◌≡◌, ◌∙◌, arith, true, List, [], ◌∷◌, length, some}
use cfp2dreamcast.Machine.{Platform, Machine, Runs, Never}
use cfp2dreamcast.Machine.Ends.{Runs-if, Runs-option}
use cfp2dreamcast.Machine.Memory.{Ram, copy_in}
use cfp2dreamcast.Machine.Store.{Misses, copy_in-outside}
use cfp2dreamcast.Maple.{maple_getcond}
use cfp2dreamcast.Maple.Poll.{Beside, maple_getcond-Beside}
use cfp2dreamcast.Shim.{Blobs}
use cfp2dreamcast.Shim.Config.Settings.{take}
use cfp2dreamcast.Shim.Reply.{reply_receive, reply_eeprom, reply_switches, reply_write}
use cfp2dreamcast.Shim.Reply.Table.{enum_reply, ack}
use cfp2dreamcast.Util.{shim_cable_is_vga}
use cfp2dreamcast.Shim.Input.{tcnt0, stale, cached_frame, asks_reset, refresh, timed, jvs_digital}
use cfp2dreamcast.Shim.Input.Window.{length-cached_frame}

-- Every blob is at most `n` bytes.
abbrev pub Fits : Blobs → ℕ → Type 0
Fits b n =
    (length b.mie_sub01 ≤ n)
    × (length b.mie_sub13 ≤ n)
    × (length b.mie_sub17 ≤ n)
    × (length b.mie_sub27 ≤ n)
    × (length b.mie_sub31 ≤ n)
    × (length b.mie_subff ≤ n)
    × (length b.mie_jvsf1 ≤ n)
    × (length b.mie_jvs10 ≤ n)
    × (length b.mie_jvs11 ≤ n)
    × (length b.mie_jvs12 ≤ n)
    × (length b.mie_jvs13 ≤ n)
    × (length b.mie_jvs14 ≤ n)

enum_reply-Fits :
    (b : Blobs) (n jvs : ℕ) (xs : List ℕ) → Fits b n → enum_reply b jvs ≡ some xs → length xs ≤ n
enum_reply-Fits b n jvs xs h e = ground arith

pub ack-Fits :
    (b : Blobs) (n sub : ℕ) (xs : List ℕ) → Fits b n → ack b sub ≡ some xs → length xs ≤ n
ack-Fits b n sub xs h e = ground arith

length-take-le : (n : ℕ) (xs : List ℕ) → length (take n xs) ≤ n
length-take-le zero xs = omega arith
length-take-le (suc n) [] = omega arith
length-take-le (suc n) (x ∷ xs) = omega (arith, length-take-le n xs)

-- A routine has left byte `q` alone.
abbrev pub Kept : {D : Type 0} → ℕ → Machine D → Unit {0} → Machine D → Type 0
Kept q s _ t = t.ram q ≡ s.ram q

-- A pad holds the reset combination.
abbrev pub Resets : {D : Type 0} → Machine D → Type 0
Resets t = asks_reset t.pads ≡ true

module _ (p : Platform) (dma : p.Dev → Ram → p.Dev × Ram) (size q : ℕ) (room : 4 ≤ size)
    (out : Beside size q) (keeps : (d : p.Dev) (m : Ram) → (dma d m).1 q ≡ m q) where
  open p use {Dev, load_reg}

  refresh-Beside : (now : ℕ) (s : Machine Dev) → (refresh p dma now s).ram q ≡ s.ram q
  unfolding refresh
  refresh-Beside now s =
      let r = maple_getcond p dma 0 s.bus s in
      maple_getcond-Beside p dma size q room out keeps 1 r.1 r.2
      ∙ maple_getcond-Beside p dma size q room out keeps 0 s.bus s

  pub copied :
      (rx : ℕ) (xs : List ℕ) (m : Ram)
      → length xs ≤ size
      → Misses q rx size
      → copy_in rx xs m q ≡ m q
  copied rx xs m short far = copy_in-outside q xs rx m (λ i h e. far i (omega arith) e)

  live_copied :
      (rx : ℕ) (s : Machine Dev)
      → Misses q rx 64
      → copy_in rx (cached_frame s.pads) s.ram q ≡ s.ram q
  live_copied rx s far =
      copy_in-outside q (cached_frame s.pads) rx s.ram
        (λ i h e. far i (omega (arith, length-cached_frame s.pads)) e)

  pub jvs_digital-Beside :
      (rx : ℕ) (s : Machine Dev)
      → Misses q rx 64
      → Runs (Kept q s) Never Resets (jvs_digital p dma rx s)
  unfolding jvs_digital timed
  jvs_digital-Beside rx s far =
      let t = timed p dma s in
      let now = load_reg tcnt0 t.dev in
      let u = refresh p dma now t in
      Runs-if (Kept q s) Never Resets (stale t.pads.in_tcnt now t.pads.pad_thresh) _ _
        (λ old.
          Runs-if (Kept q s) Never Resets (asks_reset u.pads) _ _ (λ e. e)
            (λ e. live_copied rx u far ∙ refresh-Beside now t))
        (λ young. live_copied rx t far)

  module _ (b : Blobs) (fits : Fits b size) (wide : 132 ≤ size) where
    pub reply_receive-Beside :
        (rx : ℕ) (s : Machine Dev)
        → Misses q rx size
        → Runs (Kept q s) Never Resets (reply_receive p dma b rx s)
    unfolding reply_receive
    reply_receive-Beside rx s far =
        Runs-option (Kept q s) Never Resets (enum_reply b s.pending_jvs) _ _
          (λ xs e. copied rx xs s.ram (enum_reply-Fits b size s.pending_jvs xs fits e) far)
          (λ e. jvs_digital-Beside rx s (λ i h. far i (omega arith)))

    pub reply_eeprom-Beside :
        (rx : ℕ) (s : Machine Dev)
        → Misses q rx size
        → Runs (Kept q s) Never (λ t. ⊥) (reply_eeprom p dma b rx s)
    unfolding reply_eeprom
    reply_eeprom-Beside rx s far =
        copy_in-outside q (take 128 b.eeprom_img) (rx + 4) _
          (λ i h e. far (4 + i) (omega (arith, length-take-le 128 b.eeprom_img)) (omega arith))
        ∙ copy_in-outside q (0x87 ∷ 0x00 ∷ 0x20 ∷ 0x20 ∷ []) rx s.ram
            (λ i h e. far i (omega arith) e)

    pub reply_switches-Beside :
        (rx : ℕ) (s : Machine Dev)
        → Misses q rx size
        → Runs (Kept q s) Never (λ t. ⊥) (reply_switches p dma b rx s)
    unfolding reply_switches shim_cable_is_vga
    reply_switches-Beside rx s far =
        let whole = copied rx b.mie_sub31 s.ram fits.4 far in
        ground (arith, whole, far 10 (omega arith))

    pub reply_write-Beside :
        (rx : ℕ) (s : Machine Dev)
        → Misses q rx size
        → Runs (Kept q s) Never (λ t. ⊥) (reply_write p dma b rx s)
    unfolding reply_write
    reply_write-Beside rx s far =
        copy_in-outside q (0x87 ∷ 0x00 ∷ 0x20 ∷ 0x01 ∷ 0x0c ∷ 0x00 ∷ 0x8e ∷ 0x00 ∷ []) rx s.ram
          (λ i h e. far i (omega arith) e)
