-- ===== src/Loader/Apply.antt =====
-- The patch table: when it applies, and what it leaves.
use cfp2dreamcast.Base.{
  ℕ, ◌+◌, ◌^◌, ◌<◌, ◌≤◌, ◌≡◌, refl, sym, ap, ◌∙◌, arith, Bool, true, Bool-cases, inl, inr, List, [],
  ◌∷◌, length, get_or, u8, if◌then◌else◌,
}
use cfp2dreamcast.Iface.{phys}
use cfp2dreamcast.Machine.{pos, negsuc}
use cfp2dreamcast.Machine.Memory.{Ram, load8, copy_in}
use cfp2dreamcast.Machine.Store.{Misses, copy_in-inside, copy_in-outside}
use cfp2dreamcast.Loader.{Patch, holds, patch_at, apply_patches}

-- No patch of the table covers byte `q`.
abbrev pub Clear : List Patch → ℕ → ℕ → Type 0
Clear [] img q = Unit {0}
Clear (p ∷ ps) img q = Misses q (patch_at img p) (length p.neu) × Clear ps img q

-- A byte that no patch covers is left alone, whether or not the table applies to its end.
pub apply_patches-outside :
    (ps : List Patch) (img q : ℕ) (m : Ram) → Clear ps img q → (apply_patches ps img m).1 q ≡ m q
unfolding apply_patches
apply_patches-outside [] img q m c = refl
apply_patches-outside (p ∷ ps) img q m (out, c) =
    elim (Bool-cases (holds p.old (patch_at img p) m)) [
      | inl e ↦
          rw e (apply_patches-outside ps img q _ c ∙ copy_in-outside q p.neu (patch_at img p) m out)
      | inr e ↦ rw e refl
    ]

-- Each patch fits memory, and no two of them cover a byte.
abbrev pub Disjoint : List Patch → ℕ → Type 0
Disjoint [] img = Unit {0}
Disjoint (p ∷ ps) img =
    (length p.neu ≤ 2 ^ 29)
    × ((i : ℕ) → i < length p.neu → Clear ps img (phys (patch_at img p + i)))
    × Disjoint ps img

-- The new bytes of every patch are in place.
abbrev pub Patched : List Patch → ℕ → Ram → Type 0
Patched [] img m = Unit {0}
Patched (p ∷ ps) img m =
    ((i : ℕ) → i < length p.neu → load8 m (patch_at img p + i) ≡ u8 (get_or p.neu i 0))
    × Patched ps img m

chosen : {A : Type 0} (b : Bool) (x y : A) → b ≡ true → (if b then x else y) ≡ x
chosen b x y e = rw e refl

-- When the table applies with result 0, every one of its patches is in place at the end, if each
-- fits memory and no two of them cover a byte.
pub apply_patches-Patched :
    (ps : List Patch) (img : ℕ) (m : Ram)
    → Disjoint ps img
    → (apply_patches ps img m).0 ≡ pos 0
    → Patched ps img (apply_patches ps img m).1
unfolding apply_patches
apply_patches-Patched [] img m d h = tt
apply_patches-Patched (p ∷ ps) img m (small, apart, d) h =
    let at = patch_at img p in
    let k = copy_in at p.neu m in
    elim (Bool-cases (holds p.old at m)) [
      | inl e ↦ rw (chosen (holds p.old at m) (apply_patches ps img k) (negsuc 0, m) e) (
        λ i lt.
            apply_patches-outside ps img _ k (apart i lt) ∙ copy_in-inside p.neu at i m small lt,
        apply_patches-Patched ps img k d
            (sym (ap (λ z. z.0) (chosen _ (apply_patches ps img k) (negsuc 0, m) e)) ∙ h),
      )
      | inr e ↦ absurd (ground arith)
    ]
