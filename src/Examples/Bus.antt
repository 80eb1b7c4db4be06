-- ===== src/Examples/Bus.antt =====
-- The controller bus, the loader and the configuration hooks at concrete values.
use cfp2dreamcast.Base.{ℕ, ◌+◌, ◌≡◌, refl, ◌⊎◌, inl, List, [], ◌∷◌, length, get_or, arith}
use cfp2dreamcast.Iface.{game_load_addr, p2addr}
use cfp2dreamcast.Machine.{Machine, Never, Bus, pos, Ends, returns}
use cfp2dreamcast.Machine.Memory.{Ram, store8, store32, copy_in}
use cfp2dreamcast.Jvs.{digital_frame, jvs_checksum}
use cfp2dreamcast.Jvs.Frame.{big_endian, digital_frame-Carries}
use cfp2dreamcast.Loader.{Patch, apply_patches, sysrd_test}
use cfp2dreamcast.Loader.Apply.{Patched, apply_patches-Patched, apply_patches-outside}
use cfp2dreamcast.Loader.Rehearse.{Rehearsed, sysrd_test-Ends}
use cfp2dreamcast.Maple.{rx, maple_getcond}
use cfp2dreamcast.Maple.Poll.{Answered, maple_getcond-Answers, maple_getcond-Beside}
use cfp2dreamcast.Shim.{Blobs}
use cfp2dreamcast.Shim.Captures.{identify}
use cfp2dreamcast.Shim.Config.{shim_cfg_tx, shim_cfg_rx}
use cfp2dreamcast.Shim.Config.Replies.{cfg_tx-rx}
use cfp2dreamcast.Examples.Drive.{Job, drive, drive_laws}
use cfp2dreamcast.Examples.Cart.{start, statics_at_boot}

digital_frame-Carries_example :
    (length (digital_frame 0xa000 0x0200) ≡ 64)
    × (big_endian (digital_frame 0xa000 0x0200) 0x20 ≡ 0xa000)
    × (big_endian (digital_frame 0xa000 0x0200) 0x22 ≡ 0x0200)
    × (get_or (digital_frame 0xa000 0x0200) 0x3a 0 ≡ jvs_checksum (digital_frame 0xa000 0x0200))
digital_frame-Carries_example = digital_frame-Carries 0xa000 0x0200 (omega arith) (omega arith)

sysrd_test-Ends_example :
    Ends
      (Rehearsed drive drive_laws 0x8d000000 451878 1 start)
      Never
      (sysrd_test drive 0x8d000000 451878 1 start)
sysrd_test-Ends_example = sysrd_test-Ends drive drive_laws 0x8d000000 451878 1 start

-- Two patches of two bytes each.
abbrev table : List Patch
table =
    record { addr = game_load_addr + 8; old = 0 ∷ 0 ∷ []; neu = 9 ∷ 0 ∷ [] }
    ∷ record { addr = game_load_addr + 16; old = 0 ∷ 0 ∷ []; neu = 0x0b ∷ 0 ∷ [] }
    ∷ []

abbrev blank : Ram
blank q = 0

applied : (apply_patches table 0x8d100000 blank).0 ≡ pos 0
unfolding apply_patches copy_in
applied = refl

apply_patches-Patched_example : Patched table 0x8d100000 (apply_patches table 0x8d100000 blank).1
apply_patches-Patched_example =
    apply_patches-Patched table 0x8d100000 blank
      (omega arith, λ i h. (λ j l e. omega arith, tt), (omega arith, λ i h. tt, tt)) applied

apply_patches-outside_example :
    (apply_patches table 0x8d100000 blank).1 0x0d100000 ≡ blank 0x0d100000
apply_patches-outside_example =
    apply_patches-outside table 0x8d100000 0x0d100000 blank
      (λ j l e. omega arith, (λ j l e. omega arith, tt))

abbrev at_boot : Bus
at_boot = statics_at_boot.bus

-- A bus whose pad holds Start and Up, and a bus with no pad.
abbrev pub plugged : Job → Ram → Job × Ram
plugged d m = (d, store32 (rx + 8) 0xffe7 (store32 rx 8 m))

abbrev pub empty : Job → Ram → Job × Ram
empty d m = (d, store32 rx 0xffffffff m)

maple_getcond-Answers_example :
    ((maple_getcond drive plugged 0 at_boot start).0 ≡ 0xffff)
    ⊎ Answered drive plugged
        (maple_getcond drive plugged 0 at_boot start).0
        (maple_getcond drive plugged 0 at_boot start).2
maple_getcond-Answers_example = maple_getcond-Answers drive plugged 0 at_boot start

maple_getcond-Beside_example :
    (maple_getcond drive empty 0 at_boot start).2.ram 0x0c200000 ≡ start.ram 0x0c200000
unfolding p2addr
maple_getcond-Beside_example =
    maple_getcond-Beside drive empty 4 0x0c200000 (omega arith)
      (λ i h e. omega arith, λ i h e. omega arith) (λ d m. ground arith) 0 at_boot start

abbrev pub blobs : Blobs
blobs = record {
  eeprom_img = [];
  mie_sub01 = 0x87 ∷ 0 ∷ 0x20 ∷ 1 ∷ [];
  mie_sub13 = 0x87 ∷ 0 ∷ 0x20 ∷ 1 ∷ [];
  mie_sub17 = 0x87 ∷ 0 ∷ 0x20 ∷ 1 ∷ [];
  mie_sub27 = 0x87 ∷ 0 ∷ 0x20 ∷ 1 ∷ [];
  mie_sub31 = 0x87 ∷ 0 ∷ 0x20 ∷ 8 ∷ [];
  mie_subff = 0x87 ∷ 0 ∷ 0x20 ∷ 1 ∷ [];
  mie_jvsf1 = 0x87 ∷ 0 ∷ 0x20 ∷ 5 ∷ [];
  mie_jvs10 = [];
  mie_jvs11 = [];
  mie_jvs12 = [];
  mie_jvs13 = [];
  mie_jvs14 = [];
}

-- The start of the machine, with command 0x10 at 0x8c300000, and a captured reply of 23 bytes.
abbrev identifying : Machine Job
identifying = record start { ram = store8 0x8c300000 0x10 start.ram }

abbrev named : List ℕ
named =
    0x87 ∷ 0 ∷ 0x20 ∷ 5 ∷ 0 ∷ 0 ∷ 0 ∷ 0 ∷ 0 ∷ 0 ∷ 0 ∷ 0 ∷ 0 ∷ 0 ∷ 0 ∷ 0 ∷ 0 ∷ 0 ∷ 0 ∷ 0 ∷ 0 ∷ b'S'
    ∷ b'E' ∷ []

abbrev with_name : Blobs
with_name = record blobs { mie_jvs10 = named }

abbrev transmitted : Machine Job
transmitted = record identifying {
  statics = record statics_at_boot { pending_cfg = 0x10; hud_marks = 0x90 };
}

ran : shim_cfg_tx drive 0 0 1 0x8c300000 identifying ≡ returns (pos 0) transmitted
unfolding shim_cfg_tx
ran = refl

cfg_tx-rx_example :
    Ends
      (λ (reply : List ℕ) v.
        (length reply ≡ 2)
        × ((i : ℕ) → get_or reply i 0 ≡ get_or named (0x15 + i) 0)
        × (v.ram ≡ transmitted.ram)
        × (v.dev ≡ transmitted.dev))
      Never
      (shim_cfg_rx drive with_name transmitted)
cfg_tx-rx_example =
    cfg_tx-rx drive with_name 0 0 1 0x8c300000 named identifying transmitted transmitted (pos 0) ran
      refl (inl identify) (omega arith)
