-- ===== src/Gd/Cache/Fresh.antt =====
-- After the invalidation the range is read from memory, and no stale line can be written over it.
use cfp2dreamcast.Base.{
  ℕ, zero, suc, ◌+◌, ◌-◌, ◌*◌, ◌/◌, ◌%◌, ◌^◌, ◌<◌, ◌≤◌, ◌≡◌, refl, ◌∙◌, ap, subst, arith, some,
  List, [], ◌∷◌, ◌⊎◌, inl, inr, Bool-cases, false, ltb, bit_or, u32,
}
use cfp2dreamcast.Base.Bits.{bit_or_high}
use cfp2dreamcast.Iface.{phys}
use cfp2dreamcast.Machine.Memory.{Ram}
use cfp2dreamcast.Gd.Cache.{DataCache, CacheLaws, inval_lines, dcache_inval}

-- The P1 view of an address.
p1view : (a : ℕ) → bit_or (phys a) 0x80000000 ≡ phys a + 2 ^ 31
p1view a =
    let low : phys a / 2 ^ 31 ≡ 0 = omega arith in
    omega (arith, bit_or_high 31 (phys a) 1, ap (λ q. bit_or q 1) low)

module _ (h : DataCache) (laws : CacheLaws h) where
  open h use {Lines, ocbi, cached_load, evict}
  open laws use {Held}

  -- `t` holds the lines of `c`, less those from address `lo` up to address `hi` in the P1 view.
  record Dropped (lo hi : ℕ) (c t : Lines) : Type 0 where
    gone : (k : ℕ) → lo ≤ k * 32 + 2 ^ 31 → k * 32 + 2 ^ 31 < hi → ¬ (Held k t)
    adds_none : (k : ℕ) → Held k t → Held k c
    keeps : (k : ℕ) → (k * 32 + 2 ^ 31 < lo) ⊎ (hi ≤ k * 32 + 2 ^ 31) → Held k c → Held k t

  -- A range that is over.
  Dropped-none : (a end : ℕ) (c : Lines) → end ≤ a → Dropped a end c c
  Dropped-none a end c over = record {
    gone = λ k above below at. omega arith;
    adds_none = λ k at. at;
    keeps = λ k out at. at;
  }

  Dropped-line :
      (a end : ℕ) (c t : Lines)
      → a % 32 ≡ 0
      → 2 ^ 31 ≤ a
      → a < end
      → end ≤ 0xa0000000
      → Dropped (a + 32) end (ocbi a c) t
      → Dropped a end c t
  Dropped-line a end c t line lo more top drop = record {
    gone = λ k above below at. elim (Bool-cases (ltb (k * 32 + 2 ^ 31) (a + 32))) [
      | inl first ↦
          laws.ocbi_drops a c (subst (λ j. Held j (ocbi a c)) (ground arith) (drop.adds_none k at))
      | inr later ↦ drop.gone k (ground arith) below at
    ];
    adds_none = λ k at. laws.ocbi_adds_none k a c (drop.adds_none k at);
    keeps = λ k out at.
        drop.keeps k (elim out [ inl l ↦ inl (omega arith) | inr r ↦ inr r ])
          (laws.ocbi_keeps k a c (λ e. elim out [ inl l ↦ ground arith | inr r ↦ ground arith ])
            at);
  }

  inval_lines-Dropped :
      (left a end : ℕ) (c : Lines)
      → a % 32 ≡ 0
      → 2 ^ 31 ≤ a
      → a ≤ 0xa0000000
      → end ≤ 0xa0000000
      → end ≤ a + left * 32
      → (t : Lines) × (inval_lines h (suc left) a end c ≡ some t) × Dropped a end c t
  unfolding inval_lines
  inval_lines-Dropped zero a end c line lo hi top fuel =
      let over : ltb a end ≡ false = ground arith in
      (c, rw over refl, Dropped-none a end c (omega arith))
  inval_lines-Dropped (suc left) a end c line lo hi top fuel = elim (Bool-cases (ltb a end)) [
    | inl more ↦
        (let next : u32 (a + 32) ≡ a + 32 = ground arith in
          let (t, ends, drop) =
            inval_lines-Dropped left (a + 32) end (ocbi a c) (omega arith) (omega arith)
              (ground arith) top (omega arith) in
          (
            t,
            rw more (ap (λ b. inval_lines h (suc left) b end (ocbi a c)) next ∙ ends),
            Dropped-line a end c t line lo (ground arith) top drop,
          ))
    | inr done ↦ (c, rw done refl, Dropped-none a end c (ground arith))
  ]

  abbrev pub evictions : List ℕ → Lines → Ram → Lines × Ram
  evictions [] c m = (c, m)
  evictions (k ∷ ks) c m = evictions ks (evict k c m).0 (evict k c m).1

  -- Evictions neither bring a line in nor write outside the lines held.
  evictions_frame :
      (ks : List ℕ) (q : ℕ) (c : Lines) (m : Ram)
      → ¬ (Held (q / 32) c)
      → ¬ (Held (q / 32) (evictions ks c m).0) × ((evictions ks c m).1 q ≡ m q)
  evictions_frame [] q c m out = (out, refl)
  evictions_frame (k ∷ ks) q c m out =
      let (gone, same) =
        evictions_frame ks q (evict k c m).0 (evict k c m).1
          (λ at. out (laws.evict_adds_none (q / 32) k c m at)) in
      (gone, same ∙ laws.evict_frame q k c m out)

  -- A byte is in memory as `m` has it and a cached read gives it, whatever lines are evicted first.
  abbrev pub IsFresh : ℕ → Lines → Type 0
  IsFresh a t =
      (ks : List ℕ) (m : Ram)
      → ((evictions ks t m).1 (phys a) ≡ m (phys a))
        × (cached_load a (evictions ks t m).0 (evictions ks t m).1 ≡ m (phys a))

  missing-IsFresh : (a : ℕ) (t : Lines) → ¬ (Held (phys a / 32) t) → IsFresh a t
  missing-IsFresh a t out ks m =
      let (gone, same) = evictions_frame ks (phys a) t m out in
      (same, laws.load_miss a _ _ gone ∙ same)

  -- The invalidation of a range of physical memory ends. From then on no eviction changes a byte of
  -- the range and a cached read of it gives what is in memory. A line that does not meet the range
  -- stays in the cache.
  pub dcache_inval-Fresh :
      (address len : ℕ) (c : Lines)
      → phys address + len ≤ 2 ^ 29
      → (t : Lines) × (dcache_inval h address len c ≡ some t)
        × ((i : ℕ) → i < len → IsFresh (address + i) t)
        × ((k : ℕ)
            → (k * 32 + 32 ≤ phys address) ⊎ (phys address + len ≤ k * 32)
            → Held k c
            → Held k t)
  unfolding dcache_inval
  dcache_inval-Fresh address len c fits =
      let view = p1view address in
      let lo : bit_or (phys address) 0x80000000 - bit_or (phys address) 0x80000000 % 2 ^ 5
          ≡ phys address + 2 ^ 31 - (phys address + 2 ^ 31) % 2 ^ 5 =
        ap (λ (a : ℕ). a - a % 2 ^ 5) view in
      let hi : u32 (bit_or (phys address) 0x80000000 + len) ≡ phys address + 2 ^ 31 + len =
        omega (arith, view) in
      let a = phys address + 2 ^ 31 in
      let (t, ends, drop) =
        inval_lines-Dropped (len / 32 + 2) (a - a % 2 ^ 5) (a + len) c (omega arith) (omega arith)
          (omega arith) (omega arith) (omega arith) in
      (
        t,
        (λ i. inval_lines h (suc (len / 32 + 2)) (lo i) (hi i) c) ∙ ends,
        (λ i h. missing-IsFresh (address + i) t (drop.gone _ (omega arith) (omega arith))),
        λ k out. drop.keeps k (elim out [ inl l ↦ inl (omega arith) | inr r ↦ inr (omega arith) ]),
      )
