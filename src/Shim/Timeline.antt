-- ===== src/Shim/Timeline.antt =====
-- The load statistics of shims/src/main.c, which SHIM_LOADSTAT compiles in: a clock of the frames and
-- the time at which each milestone of the start is first reached. The variables are a state of
-- their own, since the default build has none of them.
pub mod Stamps
use cfp2dreamcast.Base.{
  ℕ, ◌+◌, ◌-◌, ◌*◌, ◌/◌, ◌%◌, ◌^◌, Bool, true, false, List, [], ◌∷◌, ltb, ◌==◌, if◌then◌else◌,
  get_or, has_bit, bit_or, u8, u32,
}
use cfp2dreamcast.Machine.{Platform, Machine}
use cfp2dreamcast.Shim.Input.{tcnt0, tcr0, shifts}
use cfp2dreamcast.Util.{hex_paint_c}

-- `la_sh` is 0xff until the first frame.
pub record Timeline : Type 0 where
  pub la_ticks : ℕ
  pub la_last : ℕ
  pub la_beat : ℕ
  pub la_sh : ℕ
  pub la_stamp : ℕ → ℕ
  pub la_seen : ℕ
  pub mie_count : ℕ
  pub la_mie : ℕ → ℕ

abbrev pub la_start : Timeline
la_start = record {
  la_ticks = 0;
  la_last = 0;
  la_beat = 0;
  la_sh = 0xff;
  la_stamp = λ i. 0;
  la_seen = 0;
  mie_count = 0;
  la_mie = λ i. 0;
}

-- `arr[i] = v;`
abbrev pub put : ℕ → ℕ → (ℕ → ℕ) → ℕ → ℕ
put i v arr j = if j == i then v else arr j

abbrev pub la2ms : Timeline → ℕ → ℕ
la2ms l t = u32 (t * 2 ^ l.la_sh) / 50000

pub ls_stamp_a : ℕ → Timeline → Timeline
ls_stamp_a slot l =
    let stamped = record l {
      la_seen = u8 (bit_or l.la_seen (2 ^ slot));
      la_stamp = put slot l.la_ticks l.la_stamp;
      la_mie = put slot l.mie_count l.la_mie;
    } in
    if l.la_sh == 0xff then l else if has_bit l.la_seen slot then l else stamped

-- The count at the head of `maple_reply`.
abbrev pub count_mie : Timeline → Timeline
count_mie l = record l { mie_count = u32 (l.mie_count + 1) }

-- The clock of `la_tick`, from the control and the count of the timer: on the first frame it takes
-- the prescaler, and later the ticks since the frame before, unless the timer was reloaded.
pub la_clock : ℕ → ℕ → Timeline → Timeline
la_clock control now l =
    let first = record l {
      la_sh = get_or shifts (control % 2 ^ 3) 0;
      la_last = now;
      la_seen = u8 (bit_or l.la_seen 1);
    } in
    let dt = u32 (l.la_last + 2 ^ 32 - now) in
    let ticks = if ltb dt (50000000 / 2 ^ l.la_sh) then u32 (l.la_ticks + dt) else l.la_ticks in
    let later = record l { la_ticks = ticks; la_last = now } in
    let clocked = if l.la_sh == 0xff then first else later in
    record clocked { la_beat = u32 (clocked.la_beat + 1) }

module _ (p : Platform) where
  open p use {Dev, load_reg}

  abbrev black_on_white : ℕ → ℕ → ℕ → Machine Dev → Machine Dev
  black_on_white x y val = hex_paint_c p x y val 0x0000 0xffff

  -- The nine numbers on the screen.
  pub la_paint : Timeline → Machine Dev → Machine Dev
  la_paint l s =
      let clock =
        black_on_white 340 166 l.la_beat (black_on_white 340 152 (la2ms l l.la_ticks) s) in
      let config = black_on_white 340 180 (la2ms l (l.la_stamp 1)) clock in
      let eeprom = black_on_white 340 194 (la2ms l (l.la_stamp 2)) config in
      let video = black_on_white 340 208 (la2ms l (l.la_stamp 3)) eeprom in
      let cart = black_on_white 340 222 (la2ms l (l.la_stamp 4)) video in
      let live = black_on_white 470 152 l.mie_count cart in
      black_on_white 470 180 (l.la_mie 1) (black_on_white 470 166 (l.la_mie 2) live)

  pub la_tick : Timeline → Machine Dev → Timeline × Machine Dev
  unfolding la_clock la_paint
  la_tick l s = let t = la_clock (load_reg tcr0 s.dev) (load_reg tcnt0 s.dev) l in (t, la_paint t s)
