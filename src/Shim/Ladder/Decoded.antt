-- ===== src/Shim/Ladder/Decoded.antt =====
-- A bring-up reply from what its command's descriptor says: whether an upload is at its end, and the
-- sum of a chunk of firmware.
use cfp2dreamcast.Base.{
  ℕ, zero, suc, ◌+◌, ◌*◌, ◌%◌, ◌^◌, ◌<◌, ◌≡◌, refl, ap, ◌∙◌, arith, Bool, bit_or, if◌then◌else◌,
  ◌==◌,
}
use cfp2dreamcast.Iface.{p2addr}
use cfp2dreamcast.Machine.Memory.{Ram, load8, store32}
use cfp2dreamcast.Shim.Ladder.{echo, sum_bytes, id_reply, upload_reply, mie_probe_reply}

pub probe_answer : ℕ → ℕ → ℕ → Bool → ℕ → Ram → Ram
probe_answer cmd fh rcv done sum m =
    let rx = p2addr rcv in
    let hdr = echo fh in
    let short = λ (code : ℕ). store32 rx (bit_or hdr code) m in
    let chunk =
      store32 (rx + 8) (bit_or hdr 0x07)
        (store32 (rx + 4) (sum % 2 ^ 8) (store32 rx (bit_or (bit_or hdr 0x80) (1 * 2 ^ 24)) m)) in
    if cmd == 0x01
    then short 0x05
    else if cmd == 0x02
    then short 0x06
    else if cmd == 0x03
    then short 0x07
    else if cmd == 0x04
    then short 0x07
    else if cmd == 0x82
    then id_reply rx hdr m
    else if cmd == 0x80
    then (if done then short 0x07 else chunk)
    else short 0x07

pub mie_probe_reply-eq-answer :
    (cmd fh rcv frame : ℕ) (m : Ram)
    → mie_probe_reply cmd fh rcv frame m
      ≡ probe_answer cmd fh rcv
          (load8 m (frame + 0x0d) == 0xff)
          (sum_bytes 0x1c (frame + 0x0c) m 0)
          m
unfolding mie_probe_reply probe_answer upload_reply
mie_probe_reply-eq-answer cmd fh rcv frame m = refl

pub sum_bytes-agree :
    (n a sum : ℕ) (m k : Ram)
    → ((i : ℕ) → i < n → load8 k (a + i) ≡ load8 m (a + i))
    → sum_bytes n a k sum ≡ sum_bytes n a m sum
unfolding sum_bytes
sum_bytes-agree zero a sum m k same = refl
sum_bytes-agree (suc n) a sum m k same =
    let here : load8 k a ≡ load8 m a = ground (arith, same 0 (omega arith)) in
    ap (λ v. sum_bytes n (a + 1) k ((sum + v) % 2 ^ 32)) here
    ∙ sum_bytes-agree n (a + 1) ((sum + load8 m a) % 2 ^ 32) m k
        (λ i h. let e : a + 1 + i ≡ a + (i + 1) = omega arith in rw e (same (i + 1) (omega arith)))
