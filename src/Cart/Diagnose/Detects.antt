-- ===== src/Cart/Diagnose/Detects.antt =====
-- The checksum of a diagnostic build tells a stream from one that was damaged in a single byte.
use Prim.Native.Nat.{bit_xor, bit_xor-bitwise}
use native.Mathlib.Nat.{pow-suc}
use cfp2dreamcast.Base.{
  ℕ, zero, suc, ◌+◌, ◌*◌, ◌/◌, ◌%◌, ◌^◌, ◌<◌, ◌≤◌, ◌≡◌, ◌≢◌, sym, ap, ◌∙◌, arith, bit_or, u32, max,
}
use cfp2dreamcast.Base.Bits.{
  bit_or_disjoint, bit_xor_digit, differ_left, differ_right, differ-below,
}
use cfp2dreamcast.Iface.{p2addr}
use cfp2dreamcast.Machine.Memory.{Ram, load8}
use cfp2dreamcast.Cart.Diagnose.{mix, checksum, stream_checksum}

-- A digit that is added in can be taken out again.
bit_xor_left : (f a c b : ℕ) → a ≤ f → c ≤ f → bit_xor a b ≡ bit_xor c b → a ≡ c
bit_xor_left zero a c b ha hc e = omega arith
bit_xor_left (suc f) a c b ha hc e =
    let da = bit_xor_digit a b in
    let dc = bit_xor_digit c b in
    let la = differ-below (a % 2) (b % 2) (omega arith) (omega arith) in
    let lc = differ-below (c % 2) (b % 2) (omega arith) (omega arith) in
    let high = bit_xor_left f (a / 2) (c / 2) (b / 2) (omega arith) (omega arith) (omega arith) in
    let low =
      differ_left (a % 2) (c % 2) (b % 2) (omega arith) (omega arith) (omega arith) (omega arith) in
    omega arith

bit_xor_right : (f a b c : ℕ) → b ≤ f → c ≤ f → bit_xor a b ≡ bit_xor a c → b ≡ c
bit_xor_right zero a b c hb hc e = omega arith
bit_xor_right (suc f) a b c hb hc e =
    let db = bit_xor_digit a b in
    let dc = bit_xor_digit a c in
    let lb = differ-below (a % 2) (b % 2) (omega arith) (omega arith) in
    let lc = differ-below (a % 2) (c % 2) (omega arith) (omega arith) in
    let high = bit_xor_right f (a / 2) (b / 2) (c / 2) (omega arith) (omega arith) (omega arith) in
    let low =
      differ_right (a % 2) (b % 2) (c % 2) (omega arith) (omega arith) (omega arith)
        (omega arith) in
    omega arith

-- The exclusive or of two words is a word.
bit_xor-below : (k a b : ℕ) → a < 2 ^ k → b < 2 ^ k → bit_xor a b < 2 ^ k
bit_xor-below zero a b ha hb =
    let no_a : a ≡ 0 = omega arith in
    let no_b : b ≡ 0 = omega arith in
    let none_left : bit_xor a b ≡ bit_xor 0 0 = rw (no_a, no_b) in
    omega (arith, none_left, bit_xor-bitwise 0 0)
bit_xor-below (suc k) a b ha hb =
    let lo = differ-below (a % 2) (b % 2) (omega arith) (omega arith) in
    let hi =
      bit_xor-below k (a / 2) (b / 2) (omega (arith, pow-suc 2 k)) (omega (arith, pow-suc 2 k)) in
    omega (arith, pow-suc 2 k, bit_xor_digit a b)

-- A word rotated by one bit.
abbrev rotated : ℕ → ℕ
rotated ck = ck % 2 ^ 31 * 2 + ck / 2 ^ 31

mix_eq : (ck byte : ℕ) → ck < 2 ^ 32 → mix ck byte ≡ bit_xor (rotated ck) byte
unfolding mix
mix_eq ck byte h =
    let cut : u32 (ck * 2) ≡ ck % 2 ^ 31 * 2 ^ 1 = omega arith in
    ap (λ w. bit_xor w byte)
      (ap (λ w. bit_or w (ck / 2 ^ 31)) cut
        ∙ bit_or_disjoint 1 (ck % 2 ^ 31) (ck / 2 ^ 31) (omega arith))

mix-below : (ck byte : ℕ) → ck < 2 ^ 32 → byte < 2 ^ 8 → mix ck byte < 2 ^ 32
mix-below ck byte h hb =
    rw (mix_eq ck byte h) (bit_xor-below 32 (rotated ck) byte (omega arith) (omega arith))

mix_left : (c d byte : ℕ) → c < 2 ^ 32 → d < 2 ^ 32 → mix c byte ≡ mix d byte → c ≡ d
mix_left c d byte hc hd e =
    let same : rotated c ≡ rotated d =
      bit_xor_left (max (rotated c) (rotated d)) (rotated c) (rotated d) byte (omega arith)
        (omega arith) (sym (mix_eq c byte hc) ∙ e ∙ mix_eq d byte hd) in
    omega arith

mix_right : (c a b : ℕ) → c < 2 ^ 32 → mix c a ≡ mix c b → a ≡ b
mix_right c a b hc e =
    bit_xor_right (max a b) (rotated c) a b (omega arith) (omega arith)
      (sym (mix_eq c a hc) ∙ e ∙ mix_eq c b hc)

-- The `n` bytes at `a`, as bytes.
abbrev pub Bytes : ℕ → ℕ → Ram → Type 0
Bytes n a m = (i : ℕ) → i < n → load8 m (a + i) < 2 ^ 8

step : (a i : ℕ) → a + 1 + i ≡ a + suc i
step a i = omega arith

Bytes-step : (n a : ℕ) (m : Ram) → Bytes (suc n) a m → Bytes n (a + 1) m
Bytes-step n a m bytes i h = rw (step a i) (bytes (suc i) (omega arith))

first_byte : (n a : ℕ) (m : Ram) → Bytes (suc n) a m → load8 m a < 2 ^ 8
first_byte n a m bytes = let here : a + 0 ≡ a = omega arith in rw here at (bytes 0 (omega arith))

-- The sum at the end is the same only if the sums before the same bytes are.
checksum_kept :
    (n a : ℕ) (m k : Ram) (c d : ℕ)
    → c < 2 ^ 32
    → d < 2 ^ 32
    → Bytes n a m
    → ((i : ℕ) → i < n → load8 k (a + i) ≡ load8 m (a + i))
    → checksum n a m c ≡ checksum n a k d
    → c ≡ d
unfolding checksum
checksum_kept zero a m k c d hc hd bytes same e = e
checksum_kept (suc n) a m k c d hc hd bytes same e =
    let byte = first_byte n a m bytes in
    let here : a + 0 ≡ a = omega arith in
    let equal : load8 k a ≡ load8 m a = rw here at (same 0 (omega arith)) in
    let byte' : load8 k a < 2 ^ 8 = omega (arith, equal, byte) in
    mix_left c d (load8 m a) hc hd (
      checksum_kept n (a + 1) m k (mix c (load8 m a)) (mix d (load8 k a))
        (mix-below c (load8 m a) hc byte) (mix-below d (load8 k a) hd byte')
        (Bytes-step n a m bytes) (λ i h. rw (step a i) (same (suc i) (omega arith))) e
      ∙ ap (λ x. mix d x) equal)

-- One byte is damaged.
checksum_damaged :
    (n a j c : ℕ) (m k : Ram)
    → c < 2 ^ 32
    → j < n
    → Bytes n a m
    → Bytes n a k
    → ((i : ℕ) → i < n → i ≢ j → load8 k (a + i) ≡ load8 m (a + i))
    → checksum n a m c ≡ checksum n a k c
    → load8 k (a + j) ≡ load8 m (a + j)
unfolding checksum
checksum_damaged zero a j c m k hc hj bm bk same e = absurd (omega arith)
checksum_damaged (suc n) a zero c m k hc hj bm bk same e =
    let here : a + 0 ≡ a = omega arith in
    let byte = first_byte n a m bm in
    let byte' = first_byte n a k bk in
    rw here (
      sym (
        mix_right c (load8 m a) (load8 k a) hc (
          checksum_kept n (a + 1) m k (mix c (load8 m a)) (mix c (load8 k a))
            (mix-below c (load8 m a) hc byte) (mix-below c (load8 k a) hc byte')
            (Bytes-step n a m bm)
            (λ i h. rw (step a i) (same (suc i) (omega arith) (λ q. omega arith))) e)))
checksum_damaged (suc n) a (suc j) c m k hc hj bm bk same e =
    let here : a + 0 ≡ a = omega arith in
    let equal : load8 k a ≡ load8 m a = rw here at (same 0 (omega arith) (λ q. omega arith)) in
    rw (sym (step a j)) (
      checksum_damaged n (a + 1) j (mix c (load8 m a)) m k
        (mix-below c (load8 m a) hc (first_byte n a m bm)) (omega arith) (Bytes-step n a m bm)
        (Bytes-step n a k bk)
        (λ i h ne. rw (step a i) (same (suc i) (omega arith) (λ q. ne (omega arith))))
        (e ∙ ap (λ x. checksum n (a + 1) k (mix c x)) equal))

-- Two deliveries of a stream of bytes that differ in one byte alone have different checksums.
pub stream_checksum-Detects :
    (dest len j : ℕ) (m k : Ram)
    → j < len
    → Bytes len (p2addr dest) m
    → Bytes len (p2addr dest) k
    → ((i : ℕ) → i < len → i ≢ j → load8 k (p2addr dest + i) ≡ load8 m (p2addr dest + i))
    → load8 k (p2addr dest + j) ≢ load8 m (p2addr dest + j)
    → stream_checksum dest len m ≢ stream_checksum dest len k
unfolding stream_checksum
stream_checksum-Detects dest len j m k hj bm bk same ne e =
    ne (checksum_damaged len (p2addr dest) j 0 m k (omega arith) hj bm bk same e)
