-- ===== src/Gd/Read.antt =====
-- The two sector reads: whatever the drive does, they end, and a success means that the sectors are
-- in the buffer and nothing else has changed.
use cfp2dreamcast.Base.{
  ℕ, zero, suc, ◌+◌, ◌*◌, ◌≡◌, refl, ap, ◌∙◌, ◌⊎◌, inl, inr, Bool, true, false, arith,
  if◌then◌else◌, ◌==◌,
}
use cfp2dreamcast.Iface.{phys}
use cfp2dreamcast.Machine.{ℤ, pos, negsuc, Platform, Statics, Machine, Ends, returns, M}
use cfp2dreamcast.Machine.Ends.{Ends-if, Ends-mono, Ends-bind, Ends-weaken}
use cfp2dreamcast.Gd.{
  poll, poll_limit, after, request, try_read, attempts, gd_recover, gd_read_sectors,
  gd_read_sectors_dma, gd_dma_ack,
}
use cfp2dreamcast.Gd.Laws.{GdLaws, Untouched, Loaded, params}
use cfp2dreamcast.Gd.Poll.{poll-Ends, PollEnd, Keeps, DiesWith, Untouched-trans}
use cfp2dreamcast.Gd.Recover.{gd_recover-Ends, WorkOnly}

-- A read dies of a hung drive only, in the transfer or in a recovery.
abbrev pub ReadDies : {D : Type 0} → ℕ → ℕ → ℕ → ℕ → ℕ → Machine D → Type 0
ReadDies fad n c a b t = (c ≡ 5) × (((a ≡ fad) × (b ≡ n)) ⊎ ((a ≡ 0xdead1217) × (b ≡ 0)))

module _ (p : Platform) {disc : ℕ → ℕ → ℕ} (laws : GdLaws p disc) where
  open p use {Dev, gdc}
  open laws use {Work}

  -- How a read of `n` sectors from `fad` on into `buf` may end: with result 0 and the sectors in
  -- the buffer, or with result -2; outside the buffer and the work area memory is as it was.
  abbrev pub ReadEnd : ℕ → ℕ → ℕ → Machine Dev → ℤ → Machine Dev → Type 0
  ReadEnd buf fad n s r t =
      Untouched Work buf (n * 2048) s.ram t.ram
      × Keeps s t
      × (((r ≡ pos 0) × Loaded disc buf fad n t.ram) ⊎ (r ≡ negsuc 1))

  module _ (cmd buf fad n : ℕ) (known : (cmd ≡ 16) ⊎ (cmd ≡ 17)) (ack : Machine Dev → Machine Dev)
      (ack_ram : (t : Machine Dev) → (ack t).ram ≡ t.ram)
      (ack_statics : (t : Machine Dev) → (ack t).statics ≡ t.statics) where
    abbrev TryEnd : Machine Dev → Bool → Machine Dev → Type 0
    TryEnd s done t =
        Untouched Work buf (n * 2048) s.ram t.ram
        × (done ≡ true → Loaded disc buf fad n t.ram)
        × Keeps s t

    accepted :
        (z : ℤ) → (request z == 0) ≡ false → (r : ℕ) × (z ≡ pos (suc r)) × (request z ≡ suc r)
    accepted (pos zero) h = absurd (ground arith)
    accepted (pos (suc r)) h = (r, refl, refl)
    accepted (negsuc k) h = absurd (ground arith)

    try_read-Ends :
        (s : Machine Dev) → Ends (TryEnd s) (ReadDies fad n) (try_read p cmd buf fad n ack s)
    unfolding try_read
    try_read-Ends s =
        let x = gdc cmd (params buf fad n) 0 s.dev s.ram in
        let t = after p s x in
        let req = request x.ret in
        let frame : Untouched Work buf (n * 2048) s.ram t.ram =
          λ q w _. laws.send_frame cmd buf fad n q s.dev s.ram w in
        let go = poll p (suc poll_limit) 0 req fad n ack t in
        Ends-if (TryEnd s) (ReadDies fad n) (req == 0) _ go (λ _. (frame, λ e. absurd (cc), refl))
          (λ e.
            let (r, is_pos, is_req) = accepted x.ret e in
            let flying = laws.send_accepted cmd buf fad n r s.dev s.ram known is_pos in
            Ends-weaken (TryEnd s) (ReadDies fad n)
              (PollEnd p laws req buf fad n ack ack_ram ack_statics t) (DiesWith 5 fad n) go
              (poll-Ends p laws req buf fad n ack ack_ram ack_statics (suc poll_limit) 0 t
                (rw is_req flying) (omega arith) (omega arith))
              (λ done u end. (Untouched-trans Work buf (n * 2048) frame end.0, end.1, end.2))
              (λ c a b u (hc, ha, hb). (hc, inl (ha, hb))))

    recovered-Ends :
        (attempt : ℕ) (s : Machine Dev)
        → Ends
            (λ _ t. WorkOnly p laws s t)
            (ReadDies fad n)
            (if attempt == 0 then returns tt s else gd_recover p s)
    recovered-Ends attempt s =
        Ends-if (λ _ t. WorkOnly p laws s t) (ReadDies fad n) (attempt == 0) _ (gd_recover p s)
          (λ _. (λ q w. refl, refl))
          (λ _.
            Ends-weaken _ (ReadDies fad n) (λ _ t. WorkOnly p laws s t) (DiesWith 5 0xdead1217 0)
              (gd_recover p s) (gd_recover-Ends p laws s) (λ _ t h. h)
              (λ c a b u (hc, ha, hb). (hc, inr (ha, hb))))

    -- What an attempt that began with a recovery leads to, given how the attempts after it end.
    settled :
        (s t u : Machine Dev) (done : Bool) (next : M Dev ℤ)
        → WorkOnly p laws s t
        → TryEnd t done u
        → Ends (ReadEnd buf fad n u) (ReadDies fad n) (next u)
        → Ends
            (ReadEnd buf fad n s)
            (ReadDies fad n)
            ((elim done as (λ _. M Dev ℤ) [ true ↦ λ v. returns (pos 0) v | false ↦ next ]) u)
    settled s t u true next moved (frame, loaded, keeps) later = (
      λ q w o. frame q w o ∙ moved.0 q w,
      keeps ∙ ap (λ (z : Statics). record z { gd_last_err = u.gd_last_err }) moved.1,
      inl (refl, loaded refl),
    )
    settled s t u false next moved (frame, loaded, keeps) later =
        Ends-mono (ReadEnd buf fad n s) (ReadDies fad n) (ReadEnd buf fad n u) (next u) later
          λ r v (frame', keeps', result). (
            λ q w o. frame' q w o ∙ frame q w o ∙ moved.0 q w,
            keeps'
                ∙ ap (λ (z : Statics). record z { gd_last_err = v.gd_last_err })
                    (keeps
                      ∙ ap (λ (z : Statics). record z { gd_last_err = u.gd_last_err }) moved.1),
            result,
          )

    attempts-Ends :
        (left attempt : ℕ) (s : Machine Dev)
        → Ends (ReadEnd buf fad n s) (ReadDies fad n) (attempts p left attempt cmd buf fad n ack s)
    unfolding attempts
    attempts-Ends zero attempt s = (λ q w o. refl, refl, inr refl)
    attempts-Ends (suc left) attempt s =
        Ends-bind (ReadEnd buf fad n s) (ReadDies fad n) (λ _ t. WorkOnly p laws s t) _ _
          (recovered-Ends attempt s)
          (λ _ t moved.
            Ends-bind (ReadEnd buf fad n s) (ReadDies fad n) (TryEnd t) _ _ (try_read-Ends t)
              λ done u end.
                settled s t u done (attempts p left (attempt + 1) cmd buf fad n ack) moved end
                  (attempts-Ends left (attempt + 1) u))

  -- A polled read of whole sectors always ends. It returns 0 with the sectors of the disc in the
  -- buffer, or -2, and memory outside the buffer and the BIOS's work area is as it was; or the shim
  -- dies with code 5, of a transfer or a recovery that never ends.
  pub gd_read_sectors-Ends :
      (dst fad n : ℕ) (s : Machine Dev)
      → Ends (ReadEnd dst fad n s) (ReadDies fad n) (gd_read_sectors p dst fad n s)
  unfolding gd_read_sectors
  gd_read_sectors-Ends dst fad n s =
      attempts-Ends 16 dst fad n (inl refl) (λ t. t) (λ t. refl) (λ t. refl) 4 0 s

  -- The same of the DMA read, at the physical address of its buffer.
  pub gd_read_sectors_dma-Ends :
      (address fad n : ℕ) (s : Machine Dev)
      → Ends
          (ReadEnd (phys address) fad n s)
          (ReadDies fad n)
          (gd_read_sectors_dma p address fad n s)
  unfolding gd_read_sectors_dma gd_dma_ack
  gd_read_sectors_dma-Ends address fad n s =
      attempts-Ends 17 (phys address) fad n (inr refl) (gd_dma_ack p) (λ t. refl) (λ t. refl) 4 0
        (record s { dev = _ })
