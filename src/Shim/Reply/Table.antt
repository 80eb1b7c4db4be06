-- ===== src/Shim/Reply/Table.antt =====
-- The replies that are fixed: by the last transmitted JVS command, and by the command itself.
use cfp2dreamcast.Base.{ℕ, ◌||◌, Option, some, none, List, ◌==◌, if◌then◌else◌}
use cfp2dreamcast.Shim.{Blobs}

abbrev pub enum_reply : Blobs → ℕ → Option (List ℕ)
enum_reply b jvs =
    if jvs == 0xf1
    then some b.mie_jvsf1
    else if jvs == 0x10
    then some b.mie_jvs10
    else if jvs == 0x11
    then some b.mie_jvs11
    else if jvs == 0x12
    then some b.mie_jvs12
    else if jvs == 0x13
    then some b.mie_jvs13
    else if jvs == 0x14
    then some b.mie_jvs14
    else none

abbrev pub ack : Blobs → ℕ → Option (List ℕ)
ack b sub =
    if sub == 0x01
    then some b.mie_sub01
    else if sub == 0x13
    then some b.mie_sub13
    else if sub == 0x17 || sub == 0x19 || sub == 0x21
    then some b.mie_sub17
    else if sub == 0x27
    then some b.mie_sub27
    else if sub == 0xff
    then some b.mie_subff
    else none
