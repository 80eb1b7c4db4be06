-- ===== src/Cart/Split.antt =====
-- `cart_split` of shims/src/cart.c: a byte range of the cartridge as a partial head, whole sectors
-- and a partial tail.
use cfp2dreamcast.Base.{
  ℕ, ◌+◌, ◌-◌, ◌*◌, ◌/◌, ◌%◌, ◌^◌, ◌≤◌, ◌<◌, ◌≡◌, arith, ltb, ◌==◌, if◌then◌else◌, u32,
}

pub record Split : Type 0 where
  pub head_fad : ℕ
  pub head_skip : ℕ
  pub head_take : ℕ
  pub body_fad : ℕ
  pub body_sect : ℕ
  pub tail_fad : ℕ
  pub tail_take : ℕ

-- The part after the head: `len` bytes from the start of sector `sec`.
body_tail : ℕ → ℕ → ℕ → ℕ → ℕ → Split
body_tail fad skip take sec len = record {
  head_fad = fad;
  head_skip = skip;
  head_take = take;
  body_fad = sec;
  body_sect = len / 2048;
  tail_fad = if len % 2048 == 0 then 0 else u32 (sec + len / 2048);
  tail_take = len % 2048;
}

unfoldable pub cart_split : ℕ → ℕ → Split
unfolding body_tail
cart_split off len =
    let sec = off / 2048 in
    let skip = off % 2048 in
    let room = 2048 - skip in
    let take = if ltb len room then len else room in
    if skip == 0
    then body_tail 0 0 0 sec len
    else body_tail sec skip take (u32 (sec + 1)) (len - take)

-- The pieces of a split lie end to end and cover the range: the head ends with its sector or with
-- the range, the body is whole sectors, the tail is less than one.
pub record Tiles (off len : ℕ) (s : Split) : Type 0 where
  pub total : s.head_take + s.body_sect * 2048 + s.tail_take ≡ len
  pub head_start : 0 < s.head_take → s.head_fad * 2048 + s.head_skip ≡ off
  pub head_fits : s.head_skip + s.head_take ≤ 2048
  pub body_start : 0 < s.body_sect → s.body_fad * 2048 ≡ off + s.head_take
  pub tail_start : 0 < s.tail_take → s.tail_fad * 2048 ≡ off + s.head_take + s.body_sect * 2048
  pub tail_short : s.tail_take < 2048
  pub head_short : s.head_take < 2048

-- For every range that does not run past the end of the 32-bit address space, `cart_split` cuts it
-- into pieces that tile it.
pub cart_split-Tiles : (off len : ℕ) → off + len < 2 ^ 32 → Tiles off len (cart_split off len)
unfolding cart_split
cart_split-Tiles off len h = ground arith
