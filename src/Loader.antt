-- ===== src/Loader.antt =====
-- loader/main.c: the table of patches on the game's image, and the rehearsal of the BIOS read that
-- the shim will use. The table is generated, so it is a parameter.
pub mod Apply
pub mod Boot
pub mod Rehearse
use cfp2dreamcast.Base.{
  ℕ, zero, suc, ◌+◌, ◌-◌, ◌^◌, Bool, true, false, ◌&&◌, List, [], ◌∷◌, length, ◌==◌, if◌then◌else◌,
  u32,
}
use cfp2dreamcast.Iface.{game_load_addr}
use cfp2dreamcast.Machine.{ℤ, pos, negsuc, Platform, Machine, M, returns, hung}
use cfp2dreamcast.Machine.Memory.{Ram, load8, load32, copy_in}
use cfp2dreamcast.Gd.{
  cmd_pioread, gd_send, request, status, completed, failed, not_found, pending, pump, after,
}

-- `patch_t`, less the text for the log; the loader compares and copies `len` bytes of each array.
pub record Patch : Type 0 where
  pub addr : ℕ
  pub old : List ℕ
  pub neu : List ℕ

-- `!memcmp(at, p->old, p->len)`
unfoldable pub holds : List ℕ → ℕ → Ram → Bool
holds [] a m = true
holds (x ∷ xs) a m = (load8 m a == x) && holds xs (a + 1) m

abbrev pub patch_at : ℕ → Patch → ℕ
patch_at img p = img + u32 (p.addr + 2 ^ 32 - game_load_addr)

-- The loop over the table: -1 at the first mismatch, with the patches before it applied.
unfoldable pub apply_patches : List Patch → ℕ → Ram → ℤ × Ram
unfolding holds
apply_patches [] img m = (pos 0, m)
apply_patches (p ∷ ps) img m =
    if holds p.old (patch_at img p) m
    then apply_patches ps img (copy_in (patch_at img p) p.neu m)
    else (negsuc 0, m)

module _ (p : Platform) where
  open p use {Dev}

  -- The poll loop of `sysrd_test`, with `guard` polls to go.
  unfoldable pub sysrd_poll : ℕ → ℕ → M Dev ℤ
  sysrd_poll zero req s = returns (negsuc 2) s
  sysrd_poll (suc guard) req s =
      let y = pump p req s in
      let t = after p s y in
      let next = sysrd_poll guard req t in
      elim (status y.ret) [
        | completed ↦ returns (pos 0) t
        | failed ↦ returns (negsuc 1) t
        | not_found ↦ returns (negsuc 1) t
        | pending ↦ next
      ]

  unfoldable pub sysrd_test : ℕ → ℕ → ℕ → M Dev ℤ
  unfolding sysrd_poll
  sysrd_test dst fad n s =
      let x = p.gdc cmd_pioread (fad ∷ n ∷ dst ∷ 0 ∷ []) gd_send s.dev s.ram in
      let req = request x.ret in
      let t = after p s x in if req == 0 then returns (negsuc 0) t else sysrd_poll 100000000 req t
