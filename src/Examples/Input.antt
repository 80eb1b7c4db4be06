-- ===== src/Examples/Input.antt =====
-- Buttons, colours, the cable and the fatal stop at concrete values.
use cfp2dreamcast.Base.{ℕ, ◌+◌, ◌*◌, ◌<◌, ◌/◌, ◌%◌, ◌^◌, ◌≡◌, refl, true, arith}
use cfp2dreamcast.Iface.{phys, rgb565_to_0555}
use cfp2dreamcast.Iface.Pixel.{rgb565_to_0555_channels}
use cfp2dreamcast.Jvs.{dc_to_jvs}
use cfp2dreamcast.Jvs.Buttons.{dc_to_jvs-eq}
use cfp2dreamcast.Machine.{Machine, returns}
use cfp2dreamcast.Util.{death_screen, shim_cable_is_vga, framebuffer, loadbar_paint}
use cfp2dreamcast.Util.Die.{Reports, death_screen-Reports}
use cfp2dreamcast.Util.Paint.{InMain}
use cfp2dreamcast.Util.Bar.{picture, loadbar_paint-eq-picture}
use cfp2dreamcast.Examples.Drive.{Job, drive}
use cfp2dreamcast.Examples.Cart.{start}

-- Start and Up.
dc_to_jvs-eq_example : dc_to_jvs 0xffe7 ≡ 0xa000
dc_to_jvs-eq_example = dc_to_jvs-eq 0xffe7 (omega arith)

rgb565_to_0555_channels_example :
    (rgb565_to_0555 0x39e7 / 2 ^ 15 ≡ 0)
    × (rgb565_to_0555 0x39e7 / 2 ^ 10 % 2 ^ 5 ≡ 7)
    × (rgb565_to_0555 0x39e7 / 2 ^ 5 % 2 ^ 5 ≡ 7)
    × (rgb565_to_0555 0x39e7 % 2 ^ 5 ≡ 7)
rgb565_to_0555_channels_example = rgb565_to_0555_channels 0x39e7 (omega arith)

death_screen-Reports_example :
    Reports 4 451878 0xcafe0002 (death_screen drive 4 451878 0xcafe0002 start).ram
death_screen-Reports_example =
    death_screen-Reports drive 4 451878 0xcafe0002 start (omega arith) (omega arith) (omega arith)

loadbar_paint-eq-picture_example :
    ((x y b q : ℕ)
      → x < 640
      → y < 480
      → b < 2
      → q ≡ phys (framebuffer drive start.dev + 2 * (y * 640 + x) + b)
      → (loadbar_paint drive 100 start).ram q ≡ picture 100 x y b (start.ram q))
    × ((q : ℕ) → InMain q → (loadbar_paint drive 100 start).ram q ≡ start.ram q)
loadbar_paint-eq-picture_example = loadbar_paint-eq-picture drive 100 start

-- The last lit pixel of the bar, and the first that is not.
lit_edge : (picture 100 259 422 0 9 ≡ 0x84) × (picture 100 260 422 0 9 ≡ 0)
lit_edge = (refl, refl)

sensed : Machine Job
sensed = record start { statics = record start.statics { cable_latch = 0 } }

sensed_first : shim_cable_is_vga drive start ≡ returns true sensed
unfolding shim_cable_is_vga sensed
sensed_first = refl
