-- ===== src/Gd/Cache.antt =====
-- `dcache_inval` of shims/src/gd.c, which runs before each DMA read. The data cache of the processor
-- is a parameter, with its documented behaviour as hypotheses; it has 32-byte lines, numbered by
-- physical address. What the rest of the model calls memory is what a read past the cache sees.
pub mod Fresh
use cfp2dreamcast.Base.{
  ℕ, zero, suc, ◌+◌, ◌-◌, ◌/◌, ◌%◌, ◌^◌, ◌≡◌, Option, none, some, ltb, if◌then◌else◌, bit_or, u32,
}
use cfp2dreamcast.Iface.{phys}
use cfp2dreamcast.Machine.Memory.{Ram}

pub record DataCache : Type 1 where
  pub Lines : Type 0
  -- The instruction: the line of an address is discarded, also when it is dirty.
  pub ocbi : ℕ → Lines → Lines
  -- The byte that a cached read of an address gives.
  pub cached_load : ℕ → Lines → Ram → ℕ
  -- A line leaves the cache; if it is dirty it is written back.
  pub evict : ℕ → Lines → Ram → Lines × Ram

module _ (h : DataCache) where
  open h use {Lines, ocbi, cached_load, evict}

  pub record CacheLaws : Type 1 where
    pub Held : ℕ → Lines → Type 0
    pub ocbi_drops : (a : ℕ) (c : Lines) → ¬ (Held (phys a / 32) (ocbi a c))
    pub ocbi_adds_none : (k a : ℕ) (c : Lines) → Held k (ocbi a c) → Held k c
    pub ocbi_keeps : (k a : ℕ) (c : Lines) → ¬ (k ≡ phys a / 32) → Held k c → Held k (ocbi a c)
    -- A read that misses sees memory.
    pub load_miss :
        (a : ℕ) (c : Lines) (m : Ram) → ¬ (Held (phys a / 32) c) → cached_load a c m ≡ m (phys a)
    -- Evictions add no line, and write only into lines that are held.
    pub evict_adds_none : (j k : ℕ) (c : Lines) (m : Ram) → Held j (evict k c m).0 → Held j c
    pub evict_frame :
        (q k : ℕ) (c : Lines) (m : Ram) → ¬ (Held (q / 32) c) → (evict k c m).1 q ≡ m q

  -- The loop from address `a`; `none` means that the fuel ran out.
  pub inval_lines : ℕ → ℕ → ℕ → Lines → Option Lines
  inval_lines zero a end c = none
  inval_lines (suc left) a end c =
      let rest = inval_lines left (u32 (a + 32)) end (ocbi a c) in
      if ltb a end then rest else some c

  pub dcache_inval : ℕ → ℕ → Lines → Option Lines
  unfolding inval_lines
  dcache_inval address len c =
      let a = bit_or (phys address) 0x80000000 in
      inval_lines (suc (len / 32 + 2)) (a - a % 2 ^ 5) (u32 (a + len)) c
