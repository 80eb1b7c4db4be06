-- ===== src/Examples/Cart.antt =====
-- Requests for cartridge data, served by the example drive.
use cfp2dreamcast.Loader.Boot.{naomi}
use cfp2dreamcast.Base.{
  zero, suc, inl, inr, Bool-cases, ◌==◌, ◌&&◌, ltb, get_or, ℕ, ◌+◌, ◌-◌, ◌^◌, ◌<◌, ◌≤◌, ◌≡◌, refl,
  [], ◌∷◌, false, arith, ◌↔◌,
}
use cfp2dreamcast.Iface.{phys, p2addr, g1_mirror, shim_base, cart_size}
use cfp2dreamcast.Machine.{Machine, Statics, Ends, Never}
use cfp2dreamcast.Machine.Memory.{Ram, store32}
use cfp2dreamcast.Machine.Store.{IsBytes}
use cfp2dreamcast.Gd.{gd_read_sectors, gd_read_sectors_dma, gd_recover}
use cfp2dreamcast.Gd.Poll.{DiesWith}
use cfp2dreamcast.Gd.Read.{ReadEnd, ReadDies, gd_read_sectors-Ends, gd_read_sectors_dma-Ends}
use cfp2dreamcast.Gd.Recover.{WorkOnly, gd_recover-Ends}
use cfp2dreamcast.Cart.{
  rejects, request_off, request_len, request_dest, cart_read, shim_cart_service, pb_total,
}
use cfp2dreamcast.Cart.Split.{Tiles, cart_split, cart_split-Tiles}
use cfp2dreamcast.Cart.Bar.{bar_steps}
use cfp2dreamcast.Cart.Shown.{Pictured, bar_steps-Pictured}
use cfp2dreamcast.Cart.Fill.{CartDies}
use cfp2dreamcast.Cart.Read.{Delivered, cart_read-Ends}
use cfp2dreamcast.Cart.Live.{shim_cart_service-Serves}
use cfp2dreamcast.Cart.Service.{Served, ServiceDies, shim_cart_service-Ends, rejects_iff}
use cfp2dreamcast.Examples.Drive.{
  Job, rest, disc, drive, drive_laws, drive-Healthy, Work-first_page,
}

abbrev pub statics_at_boot : Statics
statics_at_boot = record {
  cart_first = 1;
  cart_count = 1;
  pb_left = pb_total;
  gd_last_err = 0xcafe0000;
  cable_latch = 0xff;
  pending_jvs = 0xff;
  pending_cfg = 0xf1;
  cfg_seen = 0;
  ee_logged = 1;
  eeread_logged = 1;
  hud_marks = 0x80;
  bus = record {
    bus_init_done = 0x10000;
    maple_hdr = λ i. 0xaaaa0000 + i;
    devinfo_hdr = λ i. 0xbbbb0000 + i;
  };
  pads = record { in_tcnt = 1; raw_cache_a = 0xffff; raw_cache_b = 0xffff; pad_thresh = 1 };
  counts = record {
    ee_wr_count = 0x10000;
    steady_beat = 0x10000;
    trig_seen = 0x10000;
    rc_ok_seen = 0x10000;
    reply_ticks = 0x10000;
    getcond_total = 1;
    gc_rate = 1;
    cc_rate = 1;
    last_gc = 1;
    last_cc = 1;
  };
}

-- The game asks for 5000 bytes from byte 100 on, at 0x8c200000: a head, two sectors and a tail.
abbrev registers : Ram
registers q =
    (store32 (g1_mirror + 0x10) 100
        (store32 (g1_mirror + 0x408) 5000 (store32 (g1_mirror + 0x404) 0x8c200000 (λ a. 0))))
      q

abbrev pub start : Machine Job
start = record { ram = registers; dev = rest; statics = statics_at_boot }

letter : (i : ℕ) → get_or naomi i 0 < 2 ^ 8
letter zero = omega arith
letter (suc zero) = omega arith
letter (suc (suc zero)) = omega arith
letter (suc (suc (suc zero))) = omega arith
letter (suc (suc (suc (suc zero)))) = omega arith
letter (suc (suc (suc (suc (suc i))))) = omega arith

disc_bytes : (f i : ℕ) → disc f i < 2 ^ 8
unfolding disc
disc_bytes f i = elim (Bool-cases (f == 451878 && ltb i 5)) [
  | inl e ↦ rw e (letter i)
  | inr e ↦ rw e (omega arith)
]

registers-IsBytes : IsBytes registers
registers-IsBytes q = ground arith

asked :
    (request_off registers ≡ 100)
    × (request_len registers ≡ 5000)
    × (request_dest registers ≡ 0x0c200000)
unfolding request_off request_len request_dest p2addr
asked = (refl, refl, refl)

not_in_page :
    (i : ℕ) → i < request_len registers → ¬ (drive_laws.Work (phys (request_dest registers + i)))
not_in_page i h w = omega (arith, asked, Work-first_page _ w)

shim_cart_service-Ends_example :
    Ends
      (λ _ t. Served drive drive_laws start t)
      (ServiceDies drive drive_laws start)
      (shim_cart_service drive start)
shim_cart_service-Ends_example =
    shim_cart_service-Ends drive drive_laws disc_bytes start registers-IsBytes (λ _. not_in_page)

asked_well :
    rejects (request_off registers) (request_len registers) (request_dest registers) ≡ false
asked_well =
    (rejects_iff _ _ _ (omega (arith, asked)) (omega (arith, asked)) (omega (arith, asked))).1
      (omega (arith, asked))

shim_cart_service-Serves_example :
    Ends (λ _ t. Served drive drive_laws start t) Never (shim_cart_service drive start)
shim_cart_service-Serves_example =
    shim_cart_service-Serves drive drive-Healthy drive_laws disc_bytes start registers-IsBytes
      not_in_page asked_well

away : (i : ℕ) → i < 5000 → ¬ (phys (0x0c200000 + i) < 2 ^ 12)
away i h = omega arith

cart_read-Ends_example :
    Ends
      (Delivered drive drive_laws 100 5000 0x0c200000 start)
      CartDies
      (cart_read drive 100 5000 0x0c200000 start)
cart_read-Ends_example =
    cart_read-Ends drive drive_laws disc_bytes 100 5000 0x0c200000 (omega arith) (omega arith)
      (λ i h w. away i h (Work-first_page _ w)) start

gd_read_sectors-Ends_example :
    Ends
      (ReadEnd drive drive_laws 0x8cfca000 451878 1 start)
      (ReadDies 451878 1)
      (gd_read_sectors drive 0x8cfca000 451878 1 start)
gd_read_sectors-Ends_example = gd_read_sectors-Ends drive drive_laws 0x8cfca000 451878 1 start

gd_read_sectors_dma-Ends_example :
    Ends
      (ReadEnd drive drive_laws 0x0c200000 451879 2 start)
      (ReadDies 451879 2)
      (gd_read_sectors_dma drive 0x0c200000 451879 2 start)
gd_read_sectors_dma-Ends_example =
    gd_read_sectors_dma-Ends drive drive_laws 0x0c200000 451879 2 start

gd_recover-Ends_example :
    Ends
      (λ _ t. WorkOnly drive drive_laws start t)
      (DiesWith 5 0xdead1217 0)
      (gd_recover drive start)
gd_recover-Ends_example = gd_recover-Ends drive drive_laws start

cart_split-Tiles_example : Tiles 100 5000 (cart_split 100 5000)
cart_split-Tiles_example = cart_split-Tiles 100 5000 (omega arith)

rejects_iff_example : (rejects 100 5000 0x0c200000 ≡ false) ↔ (
    (0 < 5000)
    × (5000 ≤ 0x01000000)
    × (100 + 5000 ≤ cart_size)
    × (0x0c000000 ≤ 0x0c200000)
    × (0x0c200000 + 5000 ≤ phys shim_base))
rejects_iff_example = rejects_iff 100 5000 0x0c200000 (omega arith) (omega arith) (omega arith)

-- After 75000 bytes two pixels of the bar are lit.
bar_steps-Pictured_example :
    ((bar_steps drive (5000 ∷ 70000 ∷ []) start).pb_left ≡ pb_total - 75000)
    × Pictured 0xa5000000 2 start.ram (bar_steps drive (5000 ∷ 70000 ∷ []) start).ram
bar_steps-Pictured_example =
    bar_steps-Pictured drive (λ v d. refl) 5000 (70000 ∷ []) start (omega arith) (omega arith)

-- The head, the sectors and the tail of that request.
split_of_request : cart_split 100 5000 ≡ record {
  head_fad = 0;
  head_skip = 100;
  head_take = 1948;
  body_fad = 1;
  body_sect = 1;
  tail_fad = 2;
  tail_take = 1004;
}
unfolding cart_split
split_of_request = refl
