-- ===== src/Machine/Memory.antt =====
-- Memory as bytes by physical address, little-endian words, and the copying loops of util.c.
use cfp2dreamcast.Base.{ℕ, zero, suc, ◌+◌, ◌*◌, ◌/◌, ◌^◌, List, [], ◌∷◌, ◌==◌}
use cfp2dreamcast.Base.{if◌then◌else◌, u8}
use cfp2dreamcast.Iface.{phys}

abbrev pub Ram : Type 0
Ram = ℕ → ℕ

abbrev pub load8 : Ram → ℕ → ℕ
load8 m a = m (phys a)

abbrev pub store8 : ℕ → ℕ → Ram → Ram
store8 a v m q = if q == phys a then u8 v else m q

abbrev pub store16 : ℕ → ℕ → Ram → Ram
store16 a v m = store8 (a + 1) (v / 2 ^ 8) (store8 a v m)

abbrev pub load32 : Ram → ℕ → ℕ
load32 m a =
    load8 m a + load8 m (a + 1) * 2 ^ 8 + load8 m (a + 2) * 2 ^ 16 + load8 m (a + 3) * 2 ^ 24

abbrev pub store32 : ℕ → ℕ → Ram → Ram
store32 a v m = store16 (a + 2) (v / 2 ^ 16) (store16 a v m)

-- `while (n--) *dd++ = *ss++;`
unfoldable pub memcpy : ℕ → ℕ → ℕ → Ram → Ram
memcpy d s zero m = m
memcpy d s (suc n) m = memcpy (d + 1) (s + 1) n (store8 d (load8 m s) m)

-- `while (n--) *dd++ = (unsigned char)c;`
unfoldable pub memset : ℕ → ℕ → ℕ → Ram → Ram
memset d c zero m = m
memset d c (suc n) m = memset (d + 1) c n (store8 d c m)

-- `memcpy` from an array that is part of the program.
unfoldable pub copy_in : ℕ → List ℕ → Ram → Ram
copy_in d [] m = m
copy_in d (x ∷ xs) m = copy_in (d + 1) xs (store8 d x m)

-- A `for` loop over memory at index `i`, with `left` rounds to go.
unfoldable pub for_loop : ℕ → ℕ → (ℕ → Ram → Ram) → Ram → Ram
for_loop zero i body m = m
for_loop (suc left) i body m = for_loop left (i + 1) body (body i m)
