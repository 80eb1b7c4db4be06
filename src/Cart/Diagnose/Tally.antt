-- ===== src/Cart/Diagnose/Tally.antt =====
-- What the load statistics add up to over a number of streams.
use cfp2dreamcast.Base.{ℕ, ◌+◌, ◌^◌, ◌<◌, ◌≡◌, arith, List, [], ◌∷◌, u32}
use cfp2dreamcast.Cart.Diagnose.{LoadStat, ls_add}

-- A stream: its length, and the counts of the timer before and behind it.
abbrev Stream : Type 0
Stream = ℕ × ℕ × ℕ

streams : List Stream → LoadStat → LoadStat
unfolding ls_add
streams [] l = l
streams ((len, t0, now) ∷ rest) l = streams rest (ls_add len t0 now l)

total : List Stream → ℕ
total [] = 0
total ((len, t0, now) ∷ rest) = len + total rest

count : List Stream → ℕ
count [] = 0
count (s ∷ rest) = 1 + count rest

-- The sum of the lengths and the number of the streams, as words.
streams-Tally :
    (ss : List Stream) (l : LoadStat)
    → l.ls_bytes < 2 ^ 32
    → l.ls_reads < 2 ^ 32
    → ((streams ss l).ls_bytes ≡ u32 (l.ls_bytes + total ss))
      × ((streams ss l).ls_reads ≡ u32 (l.ls_reads + count ss))
unfolding streams total count ls_add
streams-Tally [] l hb hr = (omega arith, omega arith)
streams-Tally ((len, t0, now) ∷ rest) l hb hr =
    let after = ls_add len t0 now l in
    let (bytes, reads) = streams-Tally rest after (omega arith) (omega arith) in
    (omega (arith, bytes), omega (arith, reads))
