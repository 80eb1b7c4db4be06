-- ===== src/Lib.antt =====
-- Verification of cfp2dreamcast: the shim that runs under the converted game on the Dreamcast, and
-- its interface with the loader.
--
-- The program. The loader (loader/main.c) patches the game's boot image so that each touchpoint of
-- the arcade hardware calls the shim (shims/src), which stays in memory above the game. The game
-- asks for cartridge data through mirrored DMA registers; cart.c cuts the request into sectors and
-- reads them through gd.c, which drives the BIOS's GD-ROM calls; util.c paints the load bar and the
-- fatal screen and senses the video cable; jvs.c turns pad words into arcade input; main.c answers
-- the game's controller bus and configuration hooks.
--
-- Where each part is.
--   Base, Base/Bits    shared names, tests, lists; `&` and `|` as arithmetic.
--   Iface              shims/include/shim_iface.h: addresses, the uncached view, the colour repack.
--   Machine            memory, devices, the static variables and the ways a routine ends;
--                      Machine/Memory has memcpy and memset of shims/src/util.c,
--                      Machine/Store what they do to each byte, Machine/Ends the rules of `Ends`.
--   Jvs                shims/src/jvs.c: dc_to_jvs, dc_reset_combo, jvs_checksum, jvs_hasdata.
--   Util               shims/src/util.c: hex_paint_c, loadbar_paint, shim_die, shim_cable_is_vga,
--                      shim_vid_init; Util/Hud has shim_mark and shim_hex.
--   Gd                 shims/src/gd.c: gd_read_sectors, gd_read_sectors_dma, the recovery;
--                      Gd/Cache has dcache_inval, Gd/Cdxa the recovery of the CDI build.
--   Cart               shims/src/cart.c: cart_split, cart_read, shim_cart_service;
--                      Cart/Bar and Cart/Shown have the load bar, Cart/Diagnose the checksum and the
--                      load statistics of a stream.
--   Serial             shims/src/scif.c, and the report of shim_die.
--   Shim               shims/src/main.c: Shim/Config has the configuration hooks, Shim/Ladder
--                      mie_probe_reply, Shim/Input jvs_digital and its cache, Shim/Reply
--                      maple_reply, shim_maple_boot and shim_maple_entry, Shim/Steady
--                      shim_maple_steady, Shim/Timeline the load statistics, Shim/Probes
--                      the painted probes. The frame of jvs_digital is in Jvs.
--   Maple              shims/src/maple.c: maple_getcond, the bus set-up, probe_devinfo.
--   Loader             loader/main.c: apply_patches, sysrd_test; Loader/Boot has main.
--   Examples           a drive that meets the hypotheses, and every theorem at an input.
--
-- How state and operations correspond. `Machine` holds memory as a byte for each physical address,
-- the devices, and the static variables of the C files under their names. A C routine is a function
-- from a machine to an `Outcome`: it returns with a result and a machine, it has died in shim_die
-- with its three arguments, it has restarted the console, or the fuel of the model has run out
-- (`hung`). `Ends P E o` says that `o` returned with P or died with E, and neither restarted nor
-- hung; `Runs P E R o` allows a restart, with R. A pointer is a 32-bit address; a store or a
-- load acts on its low 29 bits, which the views P0, P1 and P2 share. Unsigned arithmetic is
-- arithmetic on natural numbers with the wrap written out where a value can pass its width.
--
-- Bounds and fuel. A poll loop takes one unit of fuel for each poll and starts with `poll_limit`
-- + 1 of it; the C loop dies at `poll_limit` polls, so the fuel is never what ends it. The retry
-- loop, the copying loops, the rehearsal of the loader with its 100000000 polls and the walk over
-- the descriptor list with its 32 rounds recur on the rounds left. The wait for the serial port has
-- one unit for each of its `spin_limit` + 2 reads, and dcache_inval three more than the lines of its
-- length, which covers a range that starts inside a line.
--
-- Builds. The model is the default (GDI) build. What a build switch compiles in stands beside it:
-- the serial port and the marks take their switch as an argument, and the load statistics, whose
-- variables the default build has none of, are states of their own (Shim/Timeline, Cart/Diagnose); the probes take
-- their switch and the static that they keep. The default build calls none of these, so the
-- routines above have no calls of them.
--
-- What is not under this repository is a parameter: the BIOS's GD-ROM call and the device registers
-- (`Platform`), with the documented behaviour of the call as the fields of `GdLaws` (Gd/Laws): what
-- an accepted read may write and when its data is there;
-- the reply blobs (`Blobs`) and what the loader embeds (`Parts`); the patch table; what a
-- transaction on the controller bus does (`dma` in Maple), and pads that answer it (`PadBus`); what the serial transmitter does
-- between two reads, and that it drains (`PortLaws`); the data cache (`CacheLaws`); the loader's
-- calls of KOS; and the game's own routines that a hook calls, its display initialisation and its
-- engine.
-- Not modelled: the MMU and the write-buffer barriers; the data cache, but for what dcache_inval
-- leaves in it, with a cache and its documented instruction as a parameter (Gd/Cache); the assembly
-- of gdstack.S and handoff.S; the serial trace and the marks of the
-- diagnostic builds on the screen, which the default build compiles out;
-- the mirror of main memory at 0x0d000000; the masking of interrupts before a restart; the log and
-- the texts of the loader.
pub mod Base
pub mod Iface
pub mod Machine
pub mod Jvs
pub mod Util
pub mod Gd
pub mod Cart
pub mod Serial
pub mod Shim
pub mod Maple
pub mod Loader
pub mod Examples
