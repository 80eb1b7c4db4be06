-- ===== src/Shim/Captures.antt =====
-- The replies of the input board that shims/src/main.c embeds, each with the JVS command that it was
-- captured from, as the declarations of main.c list them.
use cfp2dreamcast.Base.{ℕ, List}
use cfp2dreamcast.Shim.{Blobs}

-- What the board answered to a JVS command.
pub data Captured (b : Blobs) : ℕ → List ℕ → Type 0 where
  set_address : Captured b 0xf1 b.mie_jvsf1
  identify : Captured b 0x10 b.mie_jvs10
  command_revision : Captured b 0x11 b.mie_jvs11
  jvs_revision : Captured b 0x12 b.mie_jvs12
  bus_version : Captured b 0x13 b.mie_jvs13
  features : Captured b 0x14 b.mie_jvs14
