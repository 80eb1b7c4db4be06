-- ===== src/Shim/Timeline/Stamps.antt =====
-- A milestone keeps the time of its first report, whatever the shim does later.
use native.Mathlib.Nat.{div-div-eq-div-mul, pow-suc}
use cfp2dreamcast.Base.{
  ℕ, zero, suc, ◌*◌, ◌/◌, ◌%◌, ◌^◌, ◌<◌, ◌≡◌, ◌≢◌, refl, ap, ◌∙◌, arith, Bool, true, false, max,
  bit_or, u8, has_bit, ◌==◌, if◌then◌else◌,
}
use cfp2dreamcast.Base.Bits.{bit_or_digit}
use cfp2dreamcast.Machine.{Platform, Machine}
use cfp2dreamcast.Shim.Timeline.{Timeline, put, ls_stamp_a, count_mie, la_clock, la_tick}

half_pow : (k a : ℕ) → a / 2 / 2 ^ k ≡ a / 2 ^ suc k
half_pow k a =
    let double : 2 * 2 ^ k ≡ 2 ^ suc k = omega (arith, pow-suc 2 k) in
    div-div-eq-div-mul a 2 (2 ^ k) ∙ ap (λ n. a / n) double

bit_or_bit : (k a b : ℕ) → bit_or a b / 2 ^ k % 2 ≡ max (a / 2 ^ k % 2) (b / 2 ^ k % 2)
bit_or_bit zero a b = ground (arith, bit_or_digit a b)
bit_or_bit (suc k) a b =
    let half : bit_or a b / 2 ≡ bit_or (a / 2) (b / 2) = omega (arith, bit_or_digit a b) in
    ground (
      arith,
      ap (λ n. n / 2 ^ k) half,
      bit_or_bit k (a / 2) (b / 2),
      half_pow k a,
      half_pow k b,
      half_pow k (bit_or a b),
    )

-- The bits of a byte.
has_bit-u8 : (k a : ℕ) → k < 5 → has_bit (u8 a) k ≡ has_bit a k
has_bit-u8 zero a h = ground arith
has_bit-u8 (suc zero) a h = ground arith
has_bit-u8 (suc (suc zero)) a h = ground arith
has_bit-u8 (suc (suc (suc zero))) a h = ground arith
has_bit-u8 (suc (suc (suc (suc zero)))) a h = ground arith
has_bit-u8 (suc (suc (suc (suc (suc k))))) a h = absurd (omega arith)

put_other : (i v j : ℕ) (arr : ℕ → ℕ) → j ≢ i → put i v arr j ≡ arr j
put_other i v j arr ne = ground arith

put_same : (i v : ℕ) (arr : ℕ → ℕ) → put i v arr i ≡ v
put_same i v arr = ground arith

pow_bit : (k : ℕ) → k < 5 → 2 ^ k / 2 ^ k % 2 ≡ 1
pow_bit zero h = refl
pow_bit (suc zero) h = refl
pow_bit (suc (suc zero)) h = refl
pow_bit (suc (suc (suc zero))) h = refl
pow_bit (suc (suc (suc (suc zero)))) h = refl
pow_bit (suc (suc (suc (suc (suc k))))) h = absurd (omega arith)

has_bit-pow : (k a : ℕ) → k < 5 → has_bit (u8 (bit_or a (2 ^ k))) k ≡ true
has_bit-pow k a h =
    ground (arith, has_bit-u8 k (bit_or a (2 ^ k)) h, bit_or_bit k a (2 ^ k), pow_bit k h)

-- A change of the timeline: a frame, with the machine it finds; a milestone reached; a reply.
pub data Step (p : Platform) : Timeline → Timeline → Type 0 where
  frame : (l : Timeline) (s : Machine p.Dev) → Step p l (la_tick p l s).0
  reached : (l : Timeline) (slot : ℕ) → Step p l (ls_stamp_a slot l)
  served : (l : Timeline) → Step p l (count_mie l)

pub data Later (p : Platform) (l : Timeline) : Timeline → Type 0 where
  here : Later p l l
  next : {t u : Timeline} → Later p l t → Step p t u → Later p l u

-- `slot` is stamped with a time and a count of replies.
abbrev pub Stamped : ℕ → ℕ → ℕ → Timeline → Type 0
Stamped slot ticks count l =
    (has_bit l.la_seen slot ≡ true) × (l.la_stamp slot ≡ ticks) × (l.la_mie slot ≡ count)

module _ (slot ticks count : ℕ) (hs : slot < 5) where
  seen_more : (a b : ℕ) → has_bit a slot ≡ true → has_bit (u8 (bit_or a b)) slot ≡ true
  seen_more a b h = ground (arith, has_bit-u8 slot (bit_or a b) hs, bit_or_bit slot a b)

  if-Stamped :
      (b : Bool) (x y : Timeline)
      → (b ≡ true → Stamped slot ticks count x)
      → (b ≡ false → Stamped slot ticks count y)
      → Stamped slot ticks count (if b then x else y)
  if-Stamped true x y hx hy = hx refl
  if-Stamped false x y hx hy = hy refl

  ls_stamp_a-Stamped :
      (other : ℕ) (l : Timeline)
      → Stamped slot ticks count l
      → Stamped slot ticks count (ls_stamp_a other l)
  unfolding ls_stamp_a
  ls_stamp_a-Stamped other l (seen, time, replies) =
      if-Stamped (l.la_sh == 0xff) _ _ (λ _. (seen, time, replies))
        λ _.
          if-Stamped (has_bit l.la_seen other) _ _ (λ _. (seen, time, replies))
            λ new.
              let apart : slot ≢ other = λ e. (let again = ap (λ j. has_bit l.la_seen j) e in cc) in
              (
                seen_more l.la_seen (2 ^ other) seen,
                put_other other l.la_ticks slot l.la_stamp apart ∙ time,
                put_other other l.mie_count slot l.la_mie apart ∙ replies,
              )

  la_clock-Stamped :
      (control now : ℕ) (l : Timeline)
      → Stamped slot ticks count l
      → Stamped slot ticks count (la_clock control now l)
  unfolding la_clock
  la_clock-Stamped control now l (seen, time, replies) =
      if-Stamped (l.la_sh == 0xff) _ _ (λ _. (seen_more l.la_seen 1 seen, time, replies))
        (λ _. (seen, time, replies))

  Step-Stamped :
      {p : Platform} {l t : Timeline}
      → Step p l t
      → Stamped slot ticks count l
      → Stamped slot ticks count t
  unfolding la_tick
  Step-Stamped (frame l s) h = la_clock-Stamped _ _ l h
  Step-Stamped (reached l other) h = ls_stamp_a-Stamped other l h
  Step-Stamped (served l) h = h

  Later-Stamped :
      {p : Platform} {l t : Timeline}
      → Later p l t
      → Stamped slot ticks count l
      → Stamped slot ticks count t
  Later-Stamped here h = h
  Later-Stamped (next before step) h = Step-Stamped step (Later-Stamped before h)

-- Once the clock runs, a milestone that is reached for the first time is stamped with the clock and
-- the count of replies of that moment, and has that stamp for ever after.
pub ls_stamp_a_first :
    (p : Platform) (slot : ℕ) (l t : Timeline)
    → slot < 5
    → l.la_sh ≢ 0xff
    → has_bit l.la_seen slot ≡ false
    → Later p (ls_stamp_a slot l) t
    → Stamped slot l.la_ticks l.mie_count t
unfolding ls_stamp_a
ls_stamp_a_first p slot l t hs running new later =
    let case = if-Stamped slot l.la_ticks l.mie_count hs in
    Later-Stamped slot l.la_ticks l.mie_count hs later (
      case (l.la_sh == 0xff) l _ (λ e. absurd (ground arith))
        λ _.
          case (has_bit l.la_seen slot) l _ (λ e. absurd (cc))
            λ _. (
              has_bit-pow slot l.la_seen hs,
              put_same slot l.la_ticks l.la_stamp,
              put_same slot l.mie_count l.la_mie,
            ))
