-- ===== src/Shim/Ladder/Words.antt =====
-- The parts of a reply of the bring-up: its headers, its words and its bytes.
use cfp2dreamcast.Base.{
  ℕ, ◌+◌, ◌*◌, ◌/◌, ◌%◌, ◌^◌, ◌≤◌, ◌<◌, ◌≡◌, ◌⊎◌, inl, inr, ap, ◌∙◌, arith, bit_or,
}
use cfp2dreamcast.Base.Bits.{zero-bit_or, bit_or_high, bit_or_disjoint}
use cfp2dreamcast.Iface.{phys}
use cfp2dreamcast.Machine.Memory.{Ram, load8, load32, store8, store32, for_loop}
use cfp2dreamcast.Machine.Store.{
  Misses, load32-store32, load32-agree, store32-Misses, for_loop-outside, for_loop-inside,
}
use cfp2dreamcast.Shim.Ladder.{echo}

-- A reply header: a response code, the sender and the recipient of the frame that is answered, and
-- the count of words that follow.
abbrev pub header : ℕ → ℕ → ℕ → ℕ
header code words fh =
    code + fh / 2 ^ 16 % 2 ^ 8 * 2 ^ 8 + fh / 2 ^ 8 % 2 ^ 8 * 2 ^ 16 + words * 2 ^ 24

echo-eq : (fh : ℕ) → echo fh ≡ fh / 2 ^ 16 % 2 ^ 8 * 2 ^ 8 + fh / 2 ^ 8 % 2 ^ 8 * 2 ^ 16
unfolding echo
echo-eq fh =
    let a = fh / 2 ^ 16 % 2 ^ 8 * 2 ^ 8 in
    let low : a / 2 ^ 16 ≡ 0 = omega arith in
    omega (
      arith,
      bit_or_high 16 a (fh / 2 ^ 8 % 2 ^ 8),
      ap (λ q. bit_or q (fh / 2 ^ 8 % 2 ^ 8)) low,
      zero-bit_or (fh / 2 ^ 8 % 2 ^ 8),
    )

pub header_short : (code fh : ℕ) → code < 2 ^ 8 → bit_or (echo fh) code ≡ header code 0 fh
header_short code fh h =
    let up : echo fh ≡ (fh / 2 ^ 16 % 2 ^ 8 + fh / 2 ^ 8 % 2 ^ 8 * 2 ^ 8) * 2 ^ 8 =
      omega (arith, echo-eq fh) in
    ap (λ e. bit_or e code) up ∙ bit_or_disjoint 8 _ code h ∙ omega arith

pub header_long :
    (code words fh : ℕ)
    → code < 2 ^ 8
    → bit_or (bit_or (echo fh) code) (words * 2 ^ 24) ≡ header code words fh
header_long code words fh h =
    let w = header code 0 fh in
    let low : w / 2 ^ 24 ≡ 0 = omega arith in
    let none_above : bit_or (w / 2 ^ 24) words ≡ words =
      ap (λ q. bit_or q words) low ∙ zero-bit_or words in
    ap (λ e. bit_or e (words * 2 ^ 24)) (header_short code fh h)
    ∙ bit_or_high 24 w words
    ∙ omega (arith, none_above)

-- A loop that stores byte after byte.
module _ (n d : ℕ) (f : ℕ → ℕ) (m : Ram) (short : n ≤ 64) where
  pub bytes_inside :
      (j : ℕ) → j < n → load8 (for_loop n 0 (λ k. store8 (d + k) (f k)) m) (d + j) ≡ f j % 2 ^ 8
  bytes_inside j h =
      for_loop-inside (phys (d + j)) n 0 j (f j % 2 ^ 8) _ m (omega arith) (omega arith)
        (λ k. ground arith) (λ l k above below. ground arith)

  pub bytes_outside : (q : ℕ) → Misses q d n → for_loop n 0 (λ k. store8 (d + k) (f k)) m q ≡ m q
  bytes_outside q out =
      for_loop-outside q n 0 _ m (λ j k lo hi. ground (arith, out j (omega arith)))

module _ (rx : ℕ) (m : Ram) where
  pub word_here : (d v w : ℕ) → v ≡ w → w < 2 ^ 32 → load32 (store32 d v m) d ≡ w
  word_here d v w e h = ap (λ x. load32 (store32 d x m) d) e ∙ load32-store32 d w m h

  -- A word that a later word does not meet.
  pub word_beside :
      (a d v : ℕ)
      → a + 4 ≤ 64
      → d + 4 ≤ 64
      → (a + 4 ≤ d) ⊎ (d + 4 ≤ a)
      → load32 (store32 (rx + d) v m) (rx + a) ≡ load32 m (rx + a)
  word_beside a d v ha hd (inl apart) =
      load32-agree _ m (rx + a) (λ i q hi e. store32-Misses (rx + d) v q m (λ j hj f. omega arith))
  word_beside a d v ha hd (inr apart) =
      load32-agree _ m (rx + a) (λ i q hi e. store32-Misses (rx + d) v q m (λ j hj f. omega arith))

  -- A word in front of a loop's bytes, or behind them.
  pub word_before :
      (a d n : ℕ) (f : ℕ → ℕ)
      → n ≤ 64
      → a + 4 ≤ d
      → d + n ≤ 64
      → load32 (for_loop n 0 (λ k. store8 (rx + d + k) (f k)) m) (rx + a) ≡ load32 m (rx + a)
  word_before a d n f short apart fit =
      load32-agree _ m (rx + a)
        (λ i q hi e. bytes_outside n (rx + d) f m short q (λ j hj g. omega arith))
