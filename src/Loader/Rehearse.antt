-- ===== src/Loader/Rehearse.antt =====
-- The rehearsal of the BIOS read: it ends with one of its four results, and 0 means the data is there.
use cfp2dreamcast.Base.{ℕ, zero, suc, ◌*◌, ◌<◌, ◌≡◌, refl, inl, arith, false, ◌==◌}
use cfp2dreamcast.Machine.{ℤ, pos, negsuc, Platform, Machine, Ends, Never}
use cfp2dreamcast.Machine.Ends.{Ends-if, Ends-mono}
use cfp2dreamcast.Gd.{pump, after, status, request, cmd_pioread}
use cfp2dreamcast.Gd.Laws.{GdLaws, Untouched, Loaded, params}
use cfp2dreamcast.Gd.Poll.{Untouched-trans, Ends-status, status-completed, status-pending}
use cfp2dreamcast.Loader.{sysrd_poll, sysrd_test}

abbrev pub IsResult : ℤ → Type 0
IsResult (pos n) = n ≡ 0
IsResult (negsuc n) = n < 3

module _ (p : Platform) {disc : ℕ → ℕ → ℕ} (laws : GdLaws p disc) (dst fad n : ℕ) where
  open p use {Dev}
  open laws use {Work, InFlight}

  -- How the rehearsal may end from `s`.
  abbrev pub Rehearsed : Machine Dev → ℤ → Machine Dev → Type 0
  Rehearsed s z t =
      IsResult z
      × (z ≡ pos 0 → Loaded disc dst fad n t.ram)
      × Untouched Work dst (n * 2048) s.ram t.ram
      × (t.statics ≡ s.statics)

  sysrd_poll-Ends :
      (guard req : ℕ) (s : Machine Dev)
      → InFlight req dst fad n s.dev
      → Ends (Rehearsed s) Never (sysrd_poll p guard req s)
  unfolding sysrd_poll
  sysrd_poll-Ends zero req s h = (omega arith, λ e. absurd (ground arith), λ q w out. refl, refl)
  sysrd_poll-Ends (suc guard) req s h =
      let y = pump p req s in
      let t = after p s y in
      let fly = laws.exec_flight req dst fad n s.dev s.ram h in
      let frame =
        Untouched-trans Work dst (n * 2048) (laws.exec_frame req dst fad n s.dev s.ram h)
          (laws.check_frame req dst fad n _ _ fly) in
      Ends-status (Rehearsed s) Never (status y.ret) _ _ _ _
        (λ e. (
          refl,
          λ _. laws.check_done req dst fad n _ _ fly (status-completed y.ret e),
          frame,
          refl,
        ))
        (λ e. (omega arith, λ q. absurd (ground arith), frame, refl))
        (λ e. (omega arith, λ q. absurd (ground arith), frame, refl))
        (λ e.
          let (r, f, ne) = status-pending y.ret e in
          Ends-mono (Rehearsed s) Never (Rehearsed t) (sysrd_poll p guard req t)
            (sysrd_poll-Ends guard req t (laws.check_flight req dst fad n r _ _ fly f ne))
            (λ z u end. (end.0, end.1, Untouched-trans Work dst (n * 2048) frame end.2, end.3)))

  accepted : (z : ℤ) → (request z == 0) ≡ false → (r : ℕ) × (z ≡ pos (suc r)) × (request z ≡ suc r)
  accepted (pos zero) h = absurd (ground arith)
  accepted (pos (suc r)) h = (r, refl, refl)
  accepted (negsuc k) h = absurd (ground arith)

  -- The rehearsal of the BIOS read always ends with 0, -1, -2 or -3; 0 means that the sectors are in
  -- the buffer, and memory outside the buffer and the BIOS's work area and the shim's variables are
  -- as they were.
  pub sysrd_test-Ends : (s : Machine Dev) → Ends (Rehearsed s) Never (sysrd_test p dst fad n s)
  unfolding sysrd_test
  sysrd_test-Ends s =
      let x = p.gdc cmd_pioread (params dst fad n) 0 s.dev s.ram in
      let t = after p s x in
      let req = request x.ret in
      let frame : Untouched Work dst (n * 2048) s.ram t.ram =
        λ q w _. laws.send_frame cmd_pioread dst fad n q s.dev s.ram w in
      let go = sysrd_poll p 100000000 req t in
      Ends-if (Rehearsed s) Never (req == 0) _ go
        (λ _. (omega arith, λ q. absurd (ground arith), frame, refl))
        (λ e.
          let (r, is_pos, is_req) = accepted x.ret e in
          let flying = laws.send_accepted cmd_pioread dst fad n r s.dev s.ram (inl refl) is_pos in
          Ends-mono (Rehearsed s) Never (Rehearsed t) go
            (sysrd_poll-Ends 100000000 req t (rw is_req flying))
            (λ z u end. (end.0, end.1, Untouched-trans Work dst (n * 2048) frame end.2, end.3)))
