-- ===== src/Examples/Cache.antt =====
-- A write-back cache: each line is absent, or holds its bytes and is dirty.
use cfp2dreamcast.Base.{
  ℕ, ◌+◌, ◌*◌, ◌/◌, ◌<◌, ◌≤◌, ◌≡◌, refl, subst, arith, Bool, true, false, Option, some, none, ◌⊎◌,
  ◌==◌, if◌then◌else◌,
}
use cfp2dreamcast.Iface.{phys}
use cfp2dreamcast.Machine.Memory.{Ram}
use cfp2dreamcast.Gd.Cache.{DataCache, CacheLaws, dcache_inval}
use cfp2dreamcast.Gd.Cache.Fresh.{IsFresh, dcache_inval-Fresh}

abbrev LineMap : Type 0
LineMap = ℕ → Option Ram

abbrev without : ℕ → LineMap → LineMap
without k c j = if j == k then none else c j

abbrev seen : Option Ram → ℕ → Ram → ℕ
seen (some l) q m = l q
seen none q m = m q

abbrev written : ℕ → Option Ram → Ram → Ram
written k (some l) m q = if q / 32 == k then l q else m q
written k none m q = m q

abbrev dcache : DataCache
dcache = record {
  Lines = LineMap;
  ocbi = λ a c. without (phys a / 32) c;
  cached_load = λ a c m. seen (c (phys a / 32)) (phys a) m;
  evict = λ k c m. (without k c, written k (c k) m);
}

abbrev IsSome : Option Ram → Type 0
IsSome (some l) = Unit {0}
IsSome none = ⊥

IsSome-if : (b : Bool) (o : Option Ram) → IsSome (if b then none else o) → IsSome o
IsSome-if true o h = absurd h
IsSome-if false o h = h

hit : (k : ℕ) (o : Option Ram) → IsSome (if k == k then none else o) → ⊥
hit k o h = ground arith

kept : (b : Bool) (o : Option Ram) → b ≡ false → IsSome o → IsSome (if b then none else o)
kept true o e h = absurd (cc)
kept false o e h = h

missed : (o : Option Ram) (q : ℕ) (m : Ram) → ¬ (IsSome o) → seen o q m ≡ m q
missed (some l) q m out = absurd (out tt)
missed none q m out = refl

spared :
    (k : ℕ) (o : Option Ram) (q : ℕ) (m : Ram) → (k ≡ q / 32 → IsSome o → ⊥) → written k o m q ≡ m q
spared k (some l) q m out = let other : k ≡ q / 32 → ⊥ = λ e. out e tt in ground (arith, other)
spared k none q m out = refl

laws : CacheLaws dcache
laws = record {
  Held = λ k c. IsSome (c k);
  ocbi_drops = λ a c h. hit (phys a / 32) (c (phys a / 32)) h;
  ocbi_adds_none = λ k a c h. IsSome-if (k == phys a / 32) (c k) h;
  ocbi_keeps = λ k a c other h. kept (k == phys a / 32) (c k) (ground arith) h;
  load_miss = λ a c m out. missed (c (phys a / 32)) (phys a) m out;
  evict_adds_none = λ j k c m h. IsSome-if (j == k) (c j) h;
  evict_frame = λ q k c m out. spared k (c k) q m (λ e h. out (subst (λ j. IsSome (c j)) e h));
}

stale : LineMap
stale k = some (λ q. 0xff)

dcache_inval-Fresh_example :
    (t : LineMap) × (dcache_inval dcache 0x0c010000 4096 stale ≡ some t)
    × ((i : ℕ) → i < 4096 → IsFresh dcache laws (0x0c010000 + i) t)
    × ((k : ℕ)
        → (k * 32 + 32 ≤ phys 0x0c010000) ⊎ (phys 0x0c010000 + 4096 ≤ k * 32)
        → laws.Held k stale
        → laws.Held k t)
dcache_inval-Fresh_example = dcache_inval-Fresh dcache laws 0x0c010000 4096 stale (omega arith)
