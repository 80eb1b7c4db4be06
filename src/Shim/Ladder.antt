-- ===== src/Shim/Ladder.antt =====
-- `mie_probe_reply`: the replies to the commands by which the game brings the arcade board up.
pub mod Frame
pub mod Words
pub mod Answer
pub mod Decoded
use cfp2dreamcast.Base.{
  ℕ, zero, suc, ◌+◌, ◌*◌, ◌/◌, ◌%◌, ◌^◌, List, [], ◌∷◌, ◌==◌, if◌then◌else◌, bit_or, get_or,
}
use cfp2dreamcast.Iface.{p2addr}
use cfp2dreamcast.Machine.Memory.{Ram, load8, store8, store32, for_loop}

-- "315-6149    COPYRIGHT SEGA ENTERPRISES CO,LTD.  "
abbrev mie_id48 : List ℕ
mie_id48 =
    b'3' ∷ b'1' ∷ b'5' ∷ b'-' ∷ b'6' ∷ b'1' ∷ b'4' ∷ b'9' ∷ b' ' ∷ b' ' ∷ b' ' ∷ b' ' ∷ b'C' ∷ b'O'
    ∷ b'P' ∷ b'Y' ∷ b'R' ∷ b'I' ∷ b'G' ∷ b'H' ∷ b'T' ∷ b' ' ∷ b'S' ∷ b'E' ∷ b'G' ∷ b'A' ∷ b' '
    ∷ b'E' ∷ b'N' ∷ b'T' ∷ b'E' ∷ b'R' ∷ b'P' ∷ b'R' ∷ b'I' ∷ b'S' ∷ b'E' ∷ b'S' ∷ b' ' ∷ b'C'
    ∷ b'O' ∷ b',' ∷ b'L' ∷ b'T' ∷ b'D' ∷ b'.' ∷ b' ' ∷ b' ' ∷ []

-- Sender and recipient of a frame header, echoed into a reply header.
pub echo : ℕ → ℕ
echo fh = bit_or (fh / 2 ^ 16 % 2 ^ 8 * 2 ^ 8) (fh / 2 ^ 8 % 2 ^ 8 * 2 ^ 16)

-- The sum of the bytes from `a` on, wrapping at 32 bits, with `left` of them to go.
pub sum_bytes : ℕ → ℕ → Ram → ℕ → ℕ
sum_bytes zero a m sum = sum
sum_bytes (suc left) a m sum = sum_bytes left (a + 1) m ((sum + load8 m a) % 2 ^ 32)

-- The reply to JVSGetId: two frames, with the two parts of the identification.
pub id_reply : ℕ → ℕ → Ram → Ram
id_reply rx hdr m =
    let first = store32 rx (bit_or (bit_or hdr 0x83) (7 * 2 ^ 24)) m in
    let id1 = for_loop 28 0 (λ k. store8 (rx + 4 + k) (get_or mie_id48 k 0)) first in
    let second = store32 (rx + 32) (bit_or (bit_or hdr 0x83) (5 * 2 ^ 24)) id1 in
    for_loop 20 0 (λ k. store8 (rx + 36 + k) (get_or mie_id48 (28 + k) 0)) second

-- The reply to a chunk of the firmware: its checksum.
pub upload_reply : ℕ → ℕ → ℕ → Ram → Ram
upload_reply rx hdr frame m =
    let sum = sum_bytes 0x1c (frame + 0x0c) m 0 in
    store32 (rx + 8) (bit_or hdr 0x07)
      (store32 (rx + 4) (sum % 2 ^ 8) (store32 rx (bit_or (bit_or hdr 0x80) (1 * 2 ^ 24)) m))

pub mie_probe_reply : ℕ → ℕ → ℕ → ℕ → Ram → Ram
unfolding echo id_reply upload_reply
mie_probe_reply cmd fh rcv frame m =
    let rx = p2addr rcv in
    let hdr = echo fh in
    let reply = λ (code : ℕ). store32 rx (bit_or hdr code) m in
    if cmd == 0x01
    then reply 0x05
    else if cmd == 0x02
    then reply 0x06
    else if cmd == 0x03
    then reply 0x07
    else if cmd == 0x04
    then reply 0x07
    else if cmd == 0x82
    then id_reply rx hdr m
    else if cmd == 0x80
    then (if load8 m (frame + 0x0d) == 0xff then reply 0x07 else upload_reply rx hdr frame m)
    else reply 0x07
