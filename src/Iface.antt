-- ===== src/Iface.antt =====
-- shims/include/shim_iface.h: the addresses and sizes shared by the shim and the loader, the
-- uncached view of an address and the colour repack. Values are those of the default (GDI) build.
pub mod Address
pub mod Pixel
use cfp2dreamcast.Base.{ℕ, ◌+◌, ◌*◌, ◌/◌, ◌%◌, ◌^◌, bit_and, bit_or, u16}

abbrev pub shim_base : ℕ
shim_base = 0x8cfc0000

abbrev pub shim_code_max : ℕ
shim_code_max = 0x8000

abbrev pub shim_err : ℕ
shim_err = shim_base + 0x8000

abbrev pub g1_mirror : ℕ
g1_mirror = shim_base + 0x8800

abbrev pub maple_tx : ℕ
maple_tx = shim_base + 0x9000

abbrev pub maple_rx : ℕ
maple_rx = shim_base + 0x9040

abbrev pub shim_bounce : ℕ
shim_bounce = shim_base + 0xa000

abbrev pub bios_data_60000 : ℕ
bios_data_60000 = shim_base + 0xb000

abbrev pub bios_data_60000_len : ℕ
bios_data_60000_len = 0x7000

abbrev pub bios_data_1ffd00 : ℕ
bios_data_1ffd00 = shim_base + 0x12000

abbrev pub bios_data_1ffd00_len : ℕ
bios_data_1ffd00_len = 0x70

abbrev pub maple_mirror : ℕ
maple_mirror = shim_base + 0x13000

abbrev pub maple_mirror_len : ℕ
maple_mirror_len = 0x100

abbrev pub gd_stack_bottom : ℕ
gd_stack_bottom = shim_base + 0x14000

abbrev pub gd_stack_top : ℕ
gd_stack_top = shim_base + 0x18000

abbrev pub staging_addr : ℕ
staging_addr = 0x8cd00000

abbrev pub game_load_addr : ℕ
game_load_addr = 0x8c020000

abbrev pub game_len : ℕ
game_len = 0x00100000

abbrev pub game_entry : ℕ
game_entry = 0x8c04ae2c

abbrev pub cart_fad : ℕ
cart_fad = 451878

abbrev pub cart_size : ℕ
cart_size = 0x06800000

-- The uncached (P2) view of an address.
unfoldable pub p2addr : ℕ → ℕ
p2addr a = bit_or a 0xa0000000

-- The physical address behind each of the views P0, P1 and P2.
abbrev pub phys : ℕ → ℕ
phys a = a % 2 ^ 29

-- RGB565 to RGB0555.
unfoldable pub rgb565_to_0555 : ℕ → ℕ
rgb565_to_0555 p = u16 (bit_or (bit_and p 0xffc0 / 2) (bit_and p 0x1f))
