-- ===== src/Gd/Cdxa.antt =====
-- `gd_recover` of shims/src/gd.c in the CDI build (SHIM_CDXA): the BIOS is set again to the sector
-- mode of the disc. The call takes its block of four words where the others take a command.
use cfp2dreamcast.Base.{ℕ, ◌≡◌, ◌∙◌, List, [], ◌∷◌}
use cfp2dreamcast.Machine.{Platform, Machine, M, Ends, returns, ◌>>=◌}
use cfp2dreamcast.Machine.Memory.{Ram}
use cfp2dreamcast.Machine.Ends.{Ends-bind}
use cfp2dreamcast.Gd.{after, gd_recover}
use cfp2dreamcast.Gd.Laws.{GdLaws}
use cfp2dreamcast.Gd.Poll.{DiesWith}
use cfp2dreamcast.Gd.Recover.{WorkOnly, gd_recover-Ends}

abbrev gd_sector_mode : ℕ
gd_sector_mode = 10

abbrev mode : List ℕ
mode = 0 ∷ 0x2000 ∷ 2048 ∷ 2048 ∷ []

module _ (p : Platform) where
  open p use {Dev, gdc}

  set_mode : Unit {0} → M Dev (Unit {0})
  set_mode _ t = returns tt (after p t (gdc 0 mode gd_sector_mode t.dev t.ram))

  gd_recover_cdxa : M Dev (Unit {0})
  unfolding set_mode
  gd_recover_cdxa s = (gd_recover p >>= set_mode) s

  -- It ends as the recovery of the other build does, if the mode is kept in the BIOS's work area.
  gd_recover_cdxa-Ends :
      {disc : ℕ → ℕ → ℕ} (laws : GdLaws p disc) (s : Machine Dev)
      → ((q : ℕ) (d : Dev) (m : Ram) → ¬ (laws.Work q) → (gdc 0 mode 10 d m).ram q ≡ m q)
      → Ends (λ _ t. WorkOnly p laws s t) (DiesWith 5 0xdead1217 0) (gd_recover_cdxa s)
  unfolding gd_recover_cdxa set_mode
  gd_recover_cdxa-Ends laws s frame =
      Ends-bind (λ _ t. WorkOnly p laws s t) (DiesWith 5 0xdead1217 0) (λ _ t. WorkOnly p laws s t)
        (gd_recover p s) _ (gd_recover-Ends p laws s)
        (λ _ t (work, same). (λ q w. frame q t.dev t.ram w ∙ work q w, same))
