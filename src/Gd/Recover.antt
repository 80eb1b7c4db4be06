-- ===== src/Gd/Recover.antt =====
-- The recovery between two attempts: it ends, and touches the BIOS's work area only.
use cfp2dreamcast.Base.{ℕ, zero, suc, ◌+◌, ◌<◌, ◌≡◌, refl, ◌∙◌, [], arith, ltb, if◌then◌else◌, ◌==◌}
use cfp2dreamcast.Machine.{Platform, Machine, Outcome, Ends}
use cfp2dreamcast.Machine.Ends.{Ends-if, Ends-mono}
use cfp2dreamcast.Gd.{
  status, poll_limit, not_found_limit, pump, after, request, init_poll, gd_init_drive, gd_recover,
  cmd_init,
}
use cfp2dreamcast.Gd.Laws.{GdLaws}
use cfp2dreamcast.Gd.Poll.{Ends-status, DiesWith}
use cfp2dreamcast.Util.{shim_die}

module _ (p : Platform) {disc : ℕ → ℕ → ℕ} (laws : GdLaws p disc) where
  open p use {Dev, gdc}
  open laws use {Work, Quiet}

  -- Only the work area and the devices differ.
  abbrev pub WorkOnly : Machine Dev → Machine Dev → Type 0
  WorkOnly s t = ((q : ℕ) → ¬ (Work q) → t.ram q ≡ s.ram q) × (t.statics ≡ s.statics)

  abbrev RecoverEnd : Machine Dev → Unit {0} → Machine Dev → Type 0
  RecoverEnd s _ t = WorkOnly s t

  init_poll-Ends :
      (left guard req : ℕ) (s : Machine Dev)
      → Quiet s.dev
      → poll_limit < left + guard
      → guard < poll_limit + 1
      → Ends (RecoverEnd s) (DiesWith 5 0xdead1217 0) (init_poll p left guard req s)
  unfolding init_poll shim_die
  init_poll-Ends zero guard req s h fuel below = absurd (omega arith)
  init_poll-Ends (suc left) guard req s h fuel below =
      let y = pump p req s in
      let t = after p s y in
      let calm = laws.quiet_quiet 0 2 s.dev s.ram h in
      let moved : WorkOnly s t = (
        λ q w. laws.quiet_frame req 1 q _ _ calm w ∙ laws.quiet_frame 0 2 q s.dev s.ram h w,
        refl,
      ) in
      let again = init_poll p left (guard + 1) req t in
      let stop : Outcome Dev (Unit {0}) = shim_die p 5 0xdead1217 0 t in
      let count = if ltb poll_limit (guard + 1) then stop else again in
      let rest : Ends (RecoverEnd s) (DiesWith 5 0xdead1217 0) count =
        Ends-if (RecoverEnd s) (DiesWith 5 0xdead1217 0) (ltb poll_limit (guard + 1)) stop again
          (λ _. (refl, refl, refl))
          (λ e.
            Ends-mono (RecoverEnd s) (DiesWith 5 0xdead1217 0) (RecoverEnd t) again
              (init_poll-Ends left (guard + 1) req t (laws.quiet_quiet req 1 _ _ calm) (omega arith)
                (ground arith))
              (λ _ u end. (λ q w. end.0 q w ∙ moved.0 q w, end.1))) in
      Ends-status (RecoverEnd s) (DiesWith 5 0xdead1217 0) (status y.ret) _ _ _ _ (λ _. moved)
        (λ _. moved)
        (λ _.
          Ends-if (RecoverEnd s) (DiesWith 5 0xdead1217 0) (ltb not_found_limit guard) _ count
            (λ _. moved) (λ _. rest))
        (λ _. rest)

  -- The recovery returns with nothing but the work area changed, or dies as the drive hangs.
  pub gd_recover-Ends :
      (s : Machine Dev) → Ends (RecoverEnd s) (DiesWith 5 0xdead1217 0) (gd_recover p s)
  unfolding gd_recover gd_init_drive
  gd_recover-Ends s =
      let x = gdc 0 [] 3 s.dev s.ram in
      let t = after p s x in
      let y = gdc cmd_init [] 0 t.dev t.ram in
      let u = after p t y in
      let req = request y.ret in
      let calm = laws.sysinit_quiet s.dev s.ram in
      let moved : WorkOnly s u = (
        λ q w. laws.quiet_frame cmd_init 0 q _ _ calm w ∙ laws.sysinit_frame q s.dev s.ram w,
        refl,
      ) in
      let go = init_poll p (suc poll_limit) 0 req u in
      Ends-if (RecoverEnd s) (DiesWith 5 0xdead1217 0) (req == 0) _ go (λ _. moved)
        (λ _.
          Ends-mono (RecoverEnd s) (DiesWith 5 0xdead1217 0) (RecoverEnd u) go
            (init_poll-Ends (suc poll_limit) 0 req u (laws.quiet_quiet cmd_init 0 _ _ calm)
              (omega arith) (omega arith))
            (λ _ v end. (λ q w. end.0 q w ∙ moved.0 q w, end.1)))
