-- ===== src/Util/Die.antt =====
-- What `shim_die` leaves for the reader of the error block.
use cfp2dreamcast.Base.{ℕ, ◌+◌, ◌*◌, ◌^◌, ◌<◌, ◌≤◌, ◌≡◌, ◌∙◌, arith}
use cfp2dreamcast.Iface.{shim_err}
use cfp2dreamcast.Machine.{Platform, Machine}
use cfp2dreamcast.Machine.Memory.{Ram, load32, store32}
use cfp2dreamcast.Machine.Store.{for_loop-outside, load32-agree}
use cfp2dreamcast.Util.{death_screen, hex_paint, error_block, fill_screen, death_colour}
use cfp2dreamcast.Util.Paint.{InMain, hex_paint-main}

-- The error block holds a report with its code.
abbrev pub Reports : ℕ → ℕ → ℕ → Ram → Type 0
Reports code a b m =
    (load32 m shim_err ≡ code)
    × (load32 m (shim_err + 4) ≡ a)
    × (load32 m (shim_err + 8) ≡ b)
    × (load32 m (shim_err + 12) ≡ 0xdeadcafe)

store32-screen :
    (i v q : ℕ) (m : Ram) → i < 2 ^ 18 → InMain q → store32 (0xa5000000 + 4 * i) v m q ≡ m q
store32-screen i v q m small main = ground arith

error_block-Reports :
    (code a b : ℕ) (m : Ram)
    → code < 2 ^ 32
    → a < 2 ^ 32
    → b < 2 ^ 32
    → Reports code a b (error_block code a b m)
unfolding error_block
error_block-Reports code a b m hc ha hb = omega arith

fill_screen-main : (px q : ℕ) (m : Ram) → InMain q → fill_screen px m q ≡ m q
unfolding fill_screen
fill_screen-main px q m main =
    for_loop-outside q (2 ^ 18) 0 _ m (λ i k _ hi. store32-screen i px q k hi main)

module _ (p : Platform) where
  open p use {Dev}

  death_screen-main :
      (code a b q : ℕ) (s : Machine Dev)
      → InMain q
      → (death_screen p code a b s).ram q ≡ error_block code a b s.ram q
  unfolding death_screen
  death_screen-main code a b q s main =
      let s0 = record s { ram = fill_screen (death_colour code) (error_block code a b s.ram) } in
      let s1 = hex_paint p 20 100 code s0 in
      let s2 = hex_paint p 20 114 a s1 in
      hex_paint-main p 20 128 b q s2 (omega arith) (omega arith) main
      ∙ hex_paint-main p 20 114 a q s1 (omega arith) (omega arith) main
      ∙ hex_paint-main p 20 100 code q s0 (omega arith) (omega arith) main
      ∙ fill_screen-main (death_colour code) q (error_block code a b s.ram) main

  -- After the screen is painted over, the error block still holds the code, both arguments and the
  -- magic word.
  pub death_screen-Reports :
      (code a b : ℕ) (s : Machine Dev)
      → code < 2 ^ 32
      → a < 2 ^ 32
      → b < 2 ^ 32
      → Reports code a b (death_screen p code a b s).ram
  death_screen-Reports code a b s hc ha hb =
      let (w0, w1, w2, w3) = error_block-Reports code a b s.ram hc ha hb in
      (
        word 0 (omega arith) ∙ w0,
        word 4 (omega arith) ∙ w1,
        word 8 (omega arith) ∙ w2,
        word 12 (omega arith) ∙ w3,
      )
    where
      word :
          (o : ℕ)
          → o ≤ 12
          → load32 (death_screen p code a b s).ram (shim_err + o)
            ≡ load32 (error_block code a b s.ram) (shim_err + o)
      word o h =
          load32-agree _ _ (shim_err + o) (λ i q hi e. death_screen-main code a b q s (omega arith))
