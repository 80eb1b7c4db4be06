-- ===== src/Shim/Config/Settings.antt =====
-- Parts of a blob.
use cfp2dreamcast.Base.{ℕ, zero, suc, List, [], ◌∷◌}

module _ {ℓ} {A : Type ℓ} where
  abbrev pub take : ℕ → List A → List A
  take zero xs = []
  take (suc n) [] = []
  take (suc n) (x ∷ xs) = x ∷ take n xs

  abbrev pub drop : ℕ → List A → List A
  drop zero xs = xs
  drop (suc n) [] = []
  drop (suc n) (x ∷ xs) = drop n xs
