-- ===== src/Examples/Pads.antt =====
-- A bus with a pad on the first port, which holds A, B, X, Y and Start, and none on the second.
use cfp2dreamcast.Base.{
  ℕ, ◌+◌, ◌%◌, ◌^◌, ◌<◌, ◌≡◌, ◌≢◌, refl, inl, arith, true, false, ◌==◌, if◌then◌else◌, Option, some,
  none,
}
use cfp2dreamcast.Iface.{p2addr}
use cfp2dreamcast.Machine.{Machine, Runs, Never}
use cfp2dreamcast.Machine.Memory.{Ram, load32, store32}
use cfp2dreamcast.Maple.{tx, rx, maple_getcond}
use cfp2dreamcast.Maple.Held.{PadBus, maple_getcond-held}
use cfp2dreamcast.Shim.Input.{jvs_digital}
use cfp2dreamcast.Shim.Input.Polls.{
  Clock, Cached, Asked, Restarts, jvs_digital-Cached, jvs_digital-Asked,
}
use cfp2dreamcast.Examples.Drive.{Job, drive}
use cfp2dreamcast.Examples.Cart.{start, statics_at_boot}

abbrev pads : ℕ → Option ℕ
pads port = if port == 0 then some 0xf9f1 else none

abbrev wired : Job → Ram → Job × Ram
wired d m = (
  d,
  if load32 m tx == 0x80000001
      then store32 (rx + 8) 0xf9f1 (store32 rx 8 m)
      else store32 rx 0xffffffff m,
)

reply :
    (m : Ram)
    → (load32 (store32 (rx + 8) 0xf9f1 (store32 rx 8 m)) rx % 2 ^ 8 ≡ 8)
      × (load32 (store32 (rx + 8) 0xf9f1 (store32 rx 8 m)) (rx + 8) % 2 ^ 16 ≡ 0xf9f1)
unfolding p2addr
reply m = (refl, refl)

no_reply : (m : Ram) → load32 (store32 rx 0xffffffff m) rx % 2 ^ 8 ≢ 8
unfolding p2addr
no_reply m e = omega (arith, e)

pads-wired : PadBus drive wired pads
pads-wired = record {
  word_size = λ port w e. ground (arith, e);
  answers = λ port w d m e frame.
      let first : port ≡ 0 = ground (arith, e) in
      let same : w ≡ 0xf9f1 = ground (arith, e) in
      let head : (load32 m tx == 0x80000001) ≡ true = ground (arith, frame.0, first) in
      rw (head, same) (reply m);
  silent = λ port d m e frame.
      let other : port ≢ 0 = ground (arith, e) in
      let head : (load32 m tx == 0x80000001) ≡ false = ground (arith, frame.0, other) in
      rw head (no_reply m);
}

-- The port with no pad, beside one whose pad answers.
maple_getcond-held_example : (maple_getcond drive wired 1 statics_at_boot.bus start).0 ≡ 0xffff
maple_getcond-held_example =
    maple_getcond-held drive wired pads pads-wired 1 (omega arith) statics_at_boot.bus start

-- The pads were asked `ago` ticks before the timer reached 0, and the window is 97 ticks.
abbrev asked_at : ℕ → Machine Job
asked_at ago = record start {
  statics = record statics_at_boot {
    pads = record { in_tcnt = ago; raw_cache_a = 0xffe7; raw_cache_b = 0xffff; pad_thresh = 97 };
  };
}

clock_at : (ago : ℕ) → ago < 2 ^ 32 → Clock drive wired ago 97 (asked_at ago)
clock_at ago h = record {
  now_word = omega arith;
  since = omega arith;
  short = h;
  eight_ms = inl (omega arith, refl);
}

jvs_digital-Cached_example :
    Runs
      (Cached drive wired 40 97 (asked_at 40) (clock_at 40 (omega arith)) 0xac300000)
      Never
      (λ t. ⊥)
      (jvs_digital drive wired 0xac300000 (asked_at 40))
jvs_digital-Cached_example =
    jvs_digital-Cached drive wired 40 97 (asked_at 40) (clock_at 40 (omega arith)) 0xac300000
      (omega arith)

jvs_digital-Asked_example :
    Runs
      (Asked drive wired 98 97 (asked_at 98) (clock_at 98 (omega arith)) pads pads-wired 0xac300000)
      Never
      (Restarts drive wired 98 97 (asked_at 98) (clock_at 98 (omega arith)) pads pads-wired)
      (jvs_digital drive wired 0xac300000 (asked_at 98))
jvs_digital-Asked_example =
    jvs_digital-Asked drive wired 98 97 (asked_at 98) (clock_at 98 (omega arith)) pads pads-wired
      0xac300000 (omega arith)
