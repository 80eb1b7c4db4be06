-- ===== src/Shim/Ladder/Frame.antt =====
-- Where the reply to a command of the bring-up lies, and its header.
use cfp2dreamcast.Base.{
  ℕ, ◌+◌, ◌*◌, ◌%◌, ◌^◌, ◌≤◌, ◌≡◌, ◌∙◌, arith, Bool, true, false, get_or, bit_or, if◌then◌else◌,
  ◌==◌,
}
use cfp2dreamcast.Iface.{p2addr}
use cfp2dreamcast.Machine.Memory.{Ram, load8, store8, store32, for_loop}
use cfp2dreamcast.Machine.Store.{Misses, store32-Misses, for_loop-outside}
use cfp2dreamcast.Shim.Ladder.{mie_id48, echo, sum_bytes, id_reply, upload_reply, mie_probe_reply}

if-at : (q v : ℕ) (b : Bool) (x y : Ram) → x q ≡ v → y q ≡ v → (if b then x else y) q ≡ v
if-at q v true x y hx hy = hx
if-at q v false x y hx hy = hy

module _ (q rx : ℕ) (far : Misses q rx 56) where
  word_at : (k v : ℕ) (m : Ram) → k + 4 ≤ 56 → store32 (rx + k) v m q ≡ m q
  word_at k v m h =
      store32-Misses (rx + k) v q m (λ i lt e. far (k + i) (omega arith) (omega (arith, e)))

  word_first : (v : ℕ) (m : Ram) → store32 rx v m q ≡ m q
  word_first v m = store32-Misses rx v q m (λ i lt e. far i (omega arith) e)

  bytes_at :
      (n k : ℕ) (f : ℕ → ℕ) (m : Ram)
      → k + n ≤ 56
      → for_loop n 0 (λ j. store8 (rx + k + j) (f j)) m q ≡ m q
  bytes_at n k f m h =
      for_loop-outside q n 0 _ m (λ j l lo hi. ground (arith, far (k + j) (omega arith)))

-- A reply of the bring-up writes into the 56 bytes at its receive address alone.
pub mie_probe_reply-outside :
    (cmd fh rcv frame q : ℕ) (m : Ram)
    → Misses q (p2addr rcv) 56
    → mie_probe_reply cmd fh rcv frame m q ≡ m q
unfolding mie_probe_reply id_reply upload_reply
mie_probe_reply-outside cmd fh rcv frame q m far =
    let rx = p2addr rcv in
    let at = if-at q (m q) in
    let first = λ (v : ℕ) (k : Ram). word_first q rx far v k in
    let hdr = echo fh in
    let head = store32 rx (bit_or (bit_or hdr 0x83) (7 * 2 ^ 24)) m in
    let id1 = for_loop 28 0 (λ k. store8 (rx + 4 + k) (get_or mie_id48 k 0)) head in
    let second = store32 (rx + 32) (bit_or (bit_or hdr 0x83) (5 * 2 ^ 24)) id1 in
    let sum = sum_bytes 0x1c (frame + 0x0c) m 0 in
    let one = store32 rx (bit_or (bit_or hdr 0x80) (1 * 2 ^ 24)) m in
    at (cmd == 0x01) _ _ (first _ m) (
      at (cmd == 0x02) _ _ (first _ m) (
        at (cmd == 0x03) _ _ (first _ m) (
          at (cmd == 0x04) _ _ (first _ m) (
            at (cmd == 0x82) _ _
              (bytes_at q rx far 20 36 (λ k. get_or mie_id48 (28 + k) 0) second (omega arith)
                ∙ word_at q rx far 32 _ id1 (omega arith)
                ∙ bytes_at q rx far 28 4 (λ k. get_or mie_id48 k 0) head (omega arith)
                ∙ first _ m)
              (at (cmd == 0x80) _ _
                (at (load8 m (frame + 0x0d) == 0xff) _ _ (first _ m) (
                  word_at q rx far 8 _ (store32 (rx + 4) (sum % 2 ^ 8) one) (omega arith)
                  ∙ word_at q rx far 4 _ one (omega arith)
                  ∙ first _ m))
                (first _ m))))))
