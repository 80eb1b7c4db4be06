-- ===== src/Machine/Store.antt =====
-- What the stores and the copying loops do to each byte of memory.
use cfp2dreamcast.Base.{
  ℕ, zero, suc, ◌+◌, ◌^◌, ◌<◌, ◌≤◌, ◌≡◌, ◌≢◌, refl, subst, ◌∙◌, arith, inl, inr, ltb, Bool-cases,
  List, [], ◌∷◌, length, get_or, u8,
}
use cfp2dreamcast.Iface.{phys}
use cfp2dreamcast.Machine.Memory.{Ram, load32, store32, memcpy, memset, copy_in, for_loop}

-- Physical address `q` is one of the `n` bytes from `a` on.
abbrev pub Within : ℕ → ℕ → ℕ → Type 0
Within a n q = (i : ℕ) × (i < n) × (q ≡ phys (a + i))

abbrev pub IsBytes : Ram → Type 0
IsBytes m = (q : ℕ) → m q < 2 ^ 8

module _ (q : ℕ) where
  abbrev pub Misses : ℕ → ℕ → Type 0
  Misses a n = (i : ℕ) → i < n → q ≢ phys (a + i)

  -- A byte outside the destination is left alone.
  pub copy_in-outside :
      (xs : List ℕ) (d : ℕ) (m : Ram) → Misses d (length xs) → copy_in d xs m q ≡ m q
  unfolding copy_in
  copy_in-outside [] d m out = refl
  copy_in-outside (x ∷ xs) d m out =
      copy_in-outside xs (d + 1) _ (λ i h e. out (i + 1) (omega arith) (omega arith))
      ∙ ground (arith, out 0 (omega arith))

  pub memcpy-outside : (n d s : ℕ) (m : Ram) → Misses d n → memcpy d s n m q ≡ m q
  unfolding memcpy
  memcpy-outside zero d s m out = refl
  memcpy-outside (suc n) d s m out =
      memcpy-outside n (d + 1) (s + 1) _ (λ i h e. out (i + 1) (omega arith) (omega arith))
      ∙ ground (arith, out 0 (omega arith))

  pub memset-outside : (n d c : ℕ) (m : Ram) → Misses d n → memset d c n m q ≡ m q
  unfolding memset
  memset-outside zero d c m out = refl
  memset-outside (suc n) d c m out =
      memset-outside n (d + 1) c _ (λ i h e. out (i + 1) (omega arith) (omega arith))
      ∙ ground (arith, out 0 (omega arith))

  -- A loop each of whose rounds leaves a byte alone leaves it alone.
  pub for_loop-outside :
      (left i : ℕ) (body : ℕ → Ram → Ram) (m : Ram)
      → ((j : ℕ) (k : Ram) → i ≤ j → j < i + left → body j k q ≡ k q)
      → for_loop left i body m q ≡ m q
  unfolding for_loop
  for_loop-outside zero i body m keep = refl
  for_loop-outside (suc left) i body m keep =
      for_loop-outside left (i + 1) body _ (λ j k lo hi. keep j k (omega arith) (omega arith))
      ∙ keep i m (omega arith) (omega arith)

  -- A byte that one round sets, and no later round changes, is as that round sets it.
  pub for_loop-inside :
      (left i j v : ℕ) (body : ℕ → Ram → Ram) (m : Ram)
      → i ≤ j
      → j < i + left
      → ((k : Ram) → body j k q ≡ v)
      → ((l : ℕ) (k : Ram) → j < l → l < i + left → body l k q ≡ k q)
      → for_loop left i body m q ≡ v
  unfolding for_loop
  for_loop-inside zero i j v body m lo hi sets keep = absurd (omega arith)
  for_loop-inside (suc left) i j v body m lo hi sets keep = elim (Bool-cases (ltb i j)) [
    | inl later ↦
        for_loop-inside left (i + 1) j v body _ (ground arith) (omega arith) sets
          (λ l k above below. keep l k above (omega arith))
    | inr now ↦
        (let here : j ≡ i = ground arith in
          for_loop-outside left (i + 1) body _
            (λ l k above below. keep l k (omega arith) (omega arith))
          ∙ subst (λ r. body r m q ≡ v) here (sets m))
  ]

-- A byte outside a stored word is left alone.
pub store32-Misses : (a v q : ℕ) (m : Ram) → Misses q a 4 → store32 a v m q ≡ m q
store32-Misses a v q m out =
    ground
      (arith, out 0 (omega arith), out 1 (omega arith), out 2 (omega arith), out 3 (omega arith))

-- `copy_in` stores the array's bytes one after the other.
pub copy_in-inside :
    (xs : List ℕ) (d i : ℕ) (m : Ram)
    → length xs ≤ 2 ^ 29
    → i < length xs
    → copy_in d xs m (phys (d + i)) ≡ u8 (get_or xs i 0)
unfolding copy_in
copy_in-inside [] d i m small h = absurd (omega arith)
copy_in-inside (x ∷ xs) d zero m small h =
    copy_in-outside _ xs (d + 1) _ (λ i lt e. omega arith) ∙ ground arith
copy_in-inside (x ∷ xs) d (suc i) m small h =
    rw (shift d i) (copy_in-inside xs (d + 1) i _ (omega arith) (omega arith))
  where
    shift : (d i : ℕ) → phys (d + suc i) ≡ phys (d + 1 + i)
    shift d i = omega arith

-- `memcpy` between two areas with no byte in common copies each byte.
pub memcpy-inside :
    (n d s i : ℕ) (m : Ram)
    → n ≤ 2 ^ 29
    → ((j k : ℕ) → j < n → k < n → phys (s + j) ≢ phys (d + k))
    → i < n
    → memcpy d s n m (phys (d + i)) ≡ u8 (m (phys (s + i)))
unfolding memcpy
memcpy-inside zero d s i m small apart h = absurd (omega arith)
memcpy-inside (suc n) d s zero m small apart h =
    memcpy-outside _ n (d + 1) (s + 1) _ (λ i lt e. omega arith) ∙ ground arith
memcpy-inside (suc n) d s (suc i) m small apart h =
    rw (shift d i, shift s i)
      (memcpy-inside n (d + 1) (s + 1) i _ (omega arith)
          (λ j k lj lk e. apart (j + 1) (k + 1) (omega arith) (omega arith) (omega arith))
          (omega arith)
        ∙ ground (arith, apart (suc i) 0 (omega arith) (omega arith)))
  where
    shift : (d i : ℕ) → phys (d + suc i) ≡ phys (d + 1 + i)
    shift d i = omega arith

-- A word that was stored is read back.
pub load32-store32 : (a v : ℕ) (m : Ram) → v < 2 ^ 32 → load32 (store32 a v m) a ≡ v
load32-store32 a v m h = ground arith

-- Two memories with the same four bytes hold the same word.
pub load32-agree :
    (m k : Ram) (a : ℕ)
    → ((i q : ℕ) → i < 4 → q ≡ phys (a + i) → m q ≡ k q)
    → load32 m a ≡ load32 k a
load32-agree m k a same = omega (
  arith,
  same 0 (phys a) (omega arith) (omega arith),
  same 1 (phys (a + 1)) (omega arith) refl,
  same 2 (phys (a + 2)) (omega arith) refl,
  same 3 (phys (a + 3)) (omega arith) refl,
)

pub load32-lt : (m : Ram) (a : ℕ) → IsBytes m → load32 m a < 2 ^ 32
load32-lt m a h = omega (arith, h (phys a), h (phys (a + 1)), h (phys (a + 2)), h (phys (a + 3)))
