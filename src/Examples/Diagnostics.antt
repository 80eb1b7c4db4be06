-- ===== src/Examples/Diagnostics.antt =====
-- The diagnostic builds, on the machine of the drive.
use cfp2dreamcast.Base.{
  ℕ, zero, suc, ◌+◌, ◌<◌, ◌≡◌, ◌≢◌, refl, arith, true, false, ◌==◌, if◌then◌else◌,
}
use cfp2dreamcast.Iface.{p2addr}
use cfp2dreamcast.Machine.Memory.{load8}
use cfp2dreamcast.Cart.Diagnose.{stream_checksum}
use cfp2dreamcast.Cart.Diagnose.Detects.{stream_checksum-Detects}
use cfp2dreamcast.Util.{framebuffer, unblank}
use cfp2dreamcast.Util.Hud.{shim_mark}
use cfp2dreamcast.Util.Hud.Marks.{Marked, shim_mark-Marked}
use cfp2dreamcast.Shim.Timeline.{Timeline, la_start, ls_stamp_a, count_mie, la_tick}
use cfp2dreamcast.Shim.Timeline.Stamps.{
  Stamped, here, next, frame, reached, served, ls_stamp_a_first,
}
use cfp2dreamcast.Examples.Drive.{drive}
use cfp2dreamcast.Examples.Cart.{start}

shim_mark-Marked_example :
    Marked
      (framebuffer drive (unblank drive start.dev))
      17
      0xf800
      start.ram
      (shim_mark drive true 17 0xf800 start).ram
    × (shim_mark drive false 17 0xf800 start ≡ start)
shim_mark-Marked_example = shim_mark-Marked drive 17 0xf800 start (omega arith)

-- The clock runs, and the video is about to be set up.
abbrev running : Timeline
running = record la_start { la_sh = 2; la_ticks = 12500; la_seen = 1; mie_count = 7 }

-- A reply and a frame later, and the video set up a second time.
abbrev much_later : Timeline
much_later = ls_stamp_a 3 (la_tick drive (count_mie (ls_stamp_a 3 running)) start).0

ls_stamp_a_first_example : Stamped 3 12500 7 much_later
ls_stamp_a_first_example =
    ls_stamp_a_first drive 3 running much_later (omega arith) (omega arith) refl
      (next (next (next here (served _)) (frame _ start)) (reached _ 3))

-- Two deliveries of three bytes, the middle one damaged.
abbrev delivered : ℕ → ℕ → ℕ
delivered v q = if q == 0x0c200001 then v else 7

beside :
    (i : ℕ)
    → i < 3
    → i ≢ 1
    → load8 (delivered 6) (p2addr 0x0c200000 + i) ≡ load8 (delivered 5) (p2addr 0x0c200000 + i)
unfolding p2addr
beside zero h ne = refl
beside (suc zero) h ne = absurd (ne refl)
beside (suc (suc zero)) h ne = refl
beside (suc (suc (suc i))) h ne = absurd (omega arith)

damaged : load8 (delivered 6) (p2addr 0x0c200000 + 1) ≢ load8 (delivered 5) (p2addr 0x0c200000 + 1)
unfolding p2addr
damaged e = let six_is_five : ◌≡◌ {A = ℕ} 6 5 = e in absurd (omega arith)

stream_checksum-Detects_example :
    stream_checksum 0x0c200000 3 (delivered 5) ≢ stream_checksum 0x0c200000 3 (delivered 6)
stream_checksum-Detects_example =
    stream_checksum-Detects 0x0c200000 3 1 (delivered 5) (delivered 6) (omega arith)
      (λ i h. ground arith) (λ i h. ground arith) beside damaged
