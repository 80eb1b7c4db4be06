-- ===== src/Shim/Ladder/Answer.antt =====
-- What each reply of the bring-up says.
use native.Mathlib.Nat.{zero-add}
use cfp2dreamcast.Base.{
  ℕ, zero, suc, ◌+◌, ◌*◌, ◌%◌, ◌^◌, ◌<◌, ◌≡◌, ◌≢◌, inl, refl, ap, sym, ◌∙◌, arith, Bool, true,
  false, get_or, bit_or, if◌then◌else◌, ◌==◌,
}
use cfp2dreamcast.Iface.{p2addr, phys}
use cfp2dreamcast.Machine.Memory.{Ram, load8, load32, store8, store32, for_loop}
use cfp2dreamcast.Machine.Store.{Misses, store32-Misses}
use cfp2dreamcast.Shim.Ladder.Frame.{mie_probe_reply-outside}
use cfp2dreamcast.Shim.Ladder.{mie_id48, echo, sum_bytes, id_reply, upload_reply, mie_probe_reply}
use cfp2dreamcast.Shim.Ladder.Words.{
  header, header_short, header_long, bytes_inside, bytes_outside, word_here, word_beside,
  word_before,
}

-- The response to a command, `done` when an upload is at its end, and the words that follow it.
abbrev pub response : ℕ → Bool → ℕ
response cmd done =
    if cmd == 0x01
    then 0x05
    else if cmd == 0x02
    then 0x06
    else if cmd == 0x82
    then 0x83
    else if cmd == 0x80
    then if done then 0x07 else 0x80
    else 0x07

abbrev pub following : ℕ → Bool → ℕ
following cmd done = if cmd == 0x82 then 7 else if cmd == 0x80 then if done then 0 else 1 else 0

-- The bytes from `a` on, `n` of them, added up.
abbrev pub total : ℕ → ℕ → Ram → ℕ
total zero a m = 0
total (suc n) a m = load8 m a + total n (a + 1) m

sum_bytes-total :
    (n a sum : ℕ) (m : Ram) → sum_bytes n a m sum % 2 ^ 8 ≡ (sum + total n a m) % 2 ^ 8
unfolding sum_bytes
sum_bytes-total zero a sum m = omega arith
sum_bytes-total (suc n) a sum m =
    sum_bytes-total n (a + 1) ((sum + load8 m a) % 2 ^ 32) m ∙ ground arith

-- The two frames of the identification.
abbrev pub Identifies : ℕ → ℕ → Ram → Type 0
Identifies rx fh t =
    ((k : ℕ) → k < 28 → load8 t (rx + 4 + k) ≡ get_or mie_id48 k 0 % 2 ^ 8)
    × (load32 t (rx + 32) ≡ header 0x83 5 fh)
    × ((k : ℕ) → k < 20 → load8 t (rx + 36 + k) ≡ get_or mie_id48 (28 + k) 0 % 2 ^ 8)

-- The checksum of the 28 bytes at `a`, and a second frame.
abbrev pub Confirms : ℕ → ℕ → ℕ → Ram → Ram → Type 0
Confirms rx fh a m t =
    (load32 t (rx + 4) ≡ total 0x1c a m % 2 ^ 8) × (load32 t (rx + 8) ≡ header 0x07 0 fh)

module _ (rx fh : ℕ) (m : Ram) where
  at_start : (t : Ram) → load32 t rx ≡ load32 t (rx + 0)
  at_start t = ap (load32 t) (omega arith)

  id_reply-Identifies :
      (load32 (id_reply rx (echo fh) m) rx ≡ header 0x83 7 fh)
      × Identifies rx fh (id_reply rx (echo fh) m)
  unfolding id_reply
  id_reply-Identifies =
      let part1 = λ (k : ℕ). get_or mie_id48 k 0 in
      let part2 = λ (k : ℕ). get_or mie_id48 (28 + k) 0 in
      let h1 = header_long 0x83 7 fh (omega arith) in
      let h2 = header_long 0x83 5 fh (omega arith) in
      let v1 = bit_or (bit_or (echo fh) 0x83) (7 * 2 ^ 24) in
      let v2 = bit_or (bit_or (echo fh) 0x83) (5 * 2 ^ 24) in
      let first = store32 rx v1 m in
      let id1 = for_loop 28 0 (λ k. store8 (rx + 4 + k) (part1 k)) first in
      let second = store32 (rx + 32) v2 id1 in
      let whole = for_loop 20 0 (λ k. store8 (rx + 36 + k) (part2 k)) second in
      (
        at_start whole
            ∙ word_before rx second 0 36 20 part2 (omega arith) (omega arith) (omega arith)
            ∙ word_beside rx id1 0 32 v2 (omega arith) (omega arith) (inl (omega arith))
            ∙ word_before rx first 0 4 28 part1 (omega arith) (omega arith) (omega arith)
            ∙ sym (at_start first)
            ∙ word_here rx m rx v1 _ h1 (omega arith),
        (
          (λ k h.
              let q = phys (rx + 4 + k) in
              bytes_outside 20 (rx + 36) part2 second (omega arith) q (λ j hj e. omega arith)
              ∙ store32-Misses (rx + 32) v2 q id1 (λ j hj e. omega arith)
              ∙ bytes_inside 28 (rx + 4) part1 first (omega arith) k h),
          word_before rx second 32 36 20 part2 (omega arith) (omega arith) (omega arith)
              ∙ word_here rx id1 (rx + 32) v2 _ h2 (omega arith),
          bytes_inside 20 (rx + 36) part2 second (omega arith),
        ),
      )

  upload_reply-Confirms :
      (frame : ℕ)
      → (load32 (upload_reply rx (echo fh) frame m) rx ≡ header 0x80 1 fh)
        × Confirms rx fh (frame + 0x0c) m (upload_reply rx (echo fh) frame m)
  unfolding upload_reply
  upload_reply-Confirms frame =
      let sum = sum_bytes 0x1c (frame + 0x0c) m 0 in
      let v1 = bit_or (bit_or (echo fh) 0x80) (1 * 2 ^ 24) in
      let v3 = bit_or (echo fh) 0x07 in
      let one = store32 rx v1 m in
      let two = store32 (rx + 4) (sum % 2 ^ 8) one in
      (
        at_start (store32 (rx + 8) v3 two)
            ∙ word_beside rx two 0 8 v3 (omega arith) (omega arith) (inl (omega arith))
            ∙ word_beside rx one 0 4 (sum % 2 ^ 8) (omega arith) (omega arith) (inl (omega arith))
            ∙ sym (at_start one)
            ∙ word_here rx m rx v1 _ (header_long 0x80 1 fh (omega arith)) (omega arith),
        (
          word_beside rx two 4 8 v3 (omega arith) (omega arith) (inl (omega arith))
              ∙ word_here rx one (rx + 4) (sum % 2 ^ 8) _
                  (sum_bytes-total 0x1c (frame + 0x0c) 0 m ∙ ap (λ n. n % 2 ^ 8) (zero-add _))
                  (omega arith),
          word_here rx two (rx + 8) v3 _ (header_short 0x07 fh (omega arith)) (omega arith),
        ),
      )

-- The upload at `frame` is at its end.
abbrev pub is_last : ℕ → Ram → Bool
is_last frame m = load8 m (frame + 0x0d) == 0xff

-- What `t` holds at `rx` answers command `cmd` with frame header `fh`.
abbrev pub Answers : ℕ → ℕ → ℕ → ℕ → Ram → Ram → Type 0
Answers cmd fh rx frame m t =
    (load32 t rx ≡ header (response cmd (is_last frame m)) (following cmd (is_last frame m)) fh)
    × (cmd ≡ 0x82 → Identifies rx fh t)
    × (cmd ≡ 0x80 → is_last frame m ≡ false → Confirms rx fh (frame + 0x0c) m t)

module _ (cmd fh rx frame : ℕ) (m : Ram) where
  header_for :
      (code words : ℕ)
      → response cmd (is_last frame m) ≡ code
      → following cmd (is_last frame m) ≡ words
      → header code words fh
        ≡ header (response cmd (is_last frame m)) (following cmd (is_last frame m)) fh
  header_for code words is more = λ i. header (sym is i) (sym more i) fh

  short-Answers :
      (code : ℕ)
      → code < 2 ^ 8
      → response cmd (is_last frame m) ≡ code
      → following cmd (is_last frame m) ≡ 0
      → cmd ≢ 0x82
      → (cmd ≡ 0x80 → is_last frame m ≡ true)
      → Answers cmd fh rx frame m (store32 rx (bit_or (echo fh) code) m)
  short-Answers code small is none_more other last = (
    word_here rx m rx (bit_or (echo fh) code) _ (header_short code fh small) (omega arith)
        ∙ header_for code 0 is none_more,
    (λ e. absurd (other e)),
    λ e not_last. absurd (cc (last e)),
  )

  if-Answers :
      (b : Bool) (x y : Ram)
      → (b ≡ true → Answers cmd fh rx frame m x)
      → (b ≡ false → Answers cmd fh rx frame m y)
      → Answers cmd fh rx frame m (if b then x else y)
  if-Answers true x y hx hy = hx refl
  if-Answers false x y hx hy = hy refl

-- A reply of the bring-up answers the command: its first word is the header with the response of
-- that command, and the sender and recipient of the frame. JVSGetId is followed by the two parts of
-- the identification, a chunk of firmware that is not the last by the sum of its 28 bytes, modulo
-- 256, and a second header. Nothing outside the 56 bytes at the receive address changes.
pub mie_probe_reply-Answers :
    (cmd fh rcv frame : ℕ) (m : Ram)
    → Answers cmd fh (p2addr rcv) frame m (mie_probe_reply cmd fh rcv frame m)
      × ((q : ℕ) → Misses q (p2addr rcv) 56 → mie_probe_reply cmd fh rcv frame m q ≡ m q)
unfolding mie_probe_reply
mie_probe_reply-Answers cmd fh rcv frame m =
    let rx = p2addr rcv in
    let split = if-Answers cmd fh rx frame m in
    let head = header_for cmd fh rx frame m in
    let short = short-Answers cmd fh rx frame m in
    let (id_head, identifies) = id_reply-Identifies rx fh m in
    let (sum_head, confirms) = upload_reply-Confirms rx fh m frame in
    (
      split (cmd == 0x01) _ _
          (λ e.
            short 0x05 (omega arith) (ground arith) (ground arith) (ground arith) (ground arith))
          (λ e1.
            split (cmd == 0x02) _ _
              (λ e.
                short 0x06 (omega arith) (ground arith) (ground arith) (ground arith)
                  (ground arith))
              (λ e2.
                split (cmd == 0x03) _ _
                  (λ e.
                    short 0x07 (omega arith) (ground arith) (ground arith) (ground arith)
                      (ground arith))
                  (λ e3.
                    split (cmd == 0x04) _ _
                      (λ e.
                        short 0x07 (omega arith) (ground arith) (ground arith) (ground arith)
                          (ground arith))
                      (λ e4.
                        split (cmd == 0x82) _ _
                          (λ e. (
                            id_head ∙ head 0x83 7 (ground arith) (ground arith),
                            (λ _. identifies),
                            λ f. absurd (ground arith),
                          ))
                          (λ e5.
                            split (cmd == 0x80) _ _
                              (λ e.
                                split (is_last frame m) _ _
                                  (λ last.
                                    short 0x07 (omega arith) (ground arith) (ground arith)
                                      (ground arith) (λ _. last))
                                  (λ more. (
                                    sum_head ∙ head 0x80 1 (ground arith) (ground arith),
                                    (λ f. absurd (ground arith)),
                                    λ _ _. confirms,
                                  )))
                              (λ e6.
                                short 0x07 (omega arith) (ground arith) (ground arith)
                                  (ground arith) (ground arith))))))),
      λ q out. mie_probe_reply-outside cmd fh rcv frame q m out,
    )
