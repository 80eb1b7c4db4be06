-- ===== src/Gd/Progress.antt =====
-- A drive that takes a read and has it done within the limit of polls: the first attempt succeeds.
use cfp2dreamcast.Base.{
  ℕ, zero, suc, ◌+◌, ◌*◌, ◌<◌, ◌≤◌, ◌≡◌, refl, sym, ◌∙◌, ◌⊎◌, inl, inr, Bool, true, arith, ltb,
  ◌==◌,
}
use cfp2dreamcast.Iface.{phys}
use cfp2dreamcast.Machine.{ℤ, pos, negsuc, Platform, Machine, Outcome, Ends, Never}
use cfp2dreamcast.Gd.{
  status, pending, request, pump, after, poll, poll_limit, try_read, attempts, cmd_pioread,
  cmd_dmaread, gd_read_sectors, gd_read_sectors_dma, mask_gd_irq, gd_dma_ack,
}
use cfp2dreamcast.Gd.Poll.{Ends-status}
use cfp2dreamcast.Machine.Ends.{Ends-if, Ends-bind, Ends-both, Ends-weaken}
use cfp2dreamcast.Gd.Laws.{GdLaws, Untouched, Loaded, params}
use cfp2dreamcast.Gd.Read.{ReadEnd, ReadDies, gd_read_sectors-Ends}

module _ (p : Platform) where
  open p use {Dev, gdc}

  -- After `k` polls that report the request as pending, one reports it complete.
  abbrev pub Completes : ℕ → ℕ → Machine Dev → Type 0
  Completes zero req s = (pump p req s).ret ≡ pos 2
  Completes (suc k) req s =
      (status (pump p req s).ret ≡ pending) × Completes k req (after p s (pump p req s))

  -- The machine behind the SEND call of a read.
  abbrev pub sent_off : ℕ → ℕ → ℕ → ℕ → Machine Dev → Machine Dev
  sent_off cmd buf fad n s = after p s (gdc cmd (params buf fad n) 0 s.dev s.ram)

  -- The read is accepted, and is complete after `k` polls.
  abbrev pub Serves : ℕ → ℕ → ℕ → ℕ → ℕ → Machine Dev → Type 0
  Serves k cmd buf fad n s =
      let req = request (gdc cmd (params buf fad n) 0 s.dev s.ram).ret in
      (0 < req) × Completes k req (sent_off cmd buf fad n s)

  abbrev Succeeds : Bool → Machine Dev → Type 0
  Succeeds done t = done ≡ true

  abbrev pub Returns0 : ℤ → Machine Dev → Type 0
  Returns0 r t = r ≡ pos 0

  module _ (fad n : ℕ) (ack : Machine Dev → Machine Dev) where
    poll-Completes :
        (k left guard req : ℕ) (s : Machine Dev)
        → k < left
        → guard + k ≤ poll_limit
        → Completes k req s
        → Ends Succeeds Never (poll p left guard req fad n ack s)
    unfolding poll
    poll-Completes k zero guard req s lt below c = absurd (omega arith)
    poll-Completes zero (suc left) guard req s lt below c =
        Ends-status Succeeds Never (status (pump p req s).ret) _ _ _ _ (λ e. refl)
          (λ e. absurd (ground (arith, c, e))) (λ e. absurd (ground (arith, c, e)))
          (λ e. absurd (ground (arith, c, e)))
    poll-Completes (suc k) (suc left) guard req s lt below (c, more) =
        let u = after p s (pump p req s) in
        Ends-status Succeeds Never (status (pump p req s).ret) _ _ _ _ (λ e. refl)
          (λ e. absurd (cc (sym c ∙ e))) (λ e. absurd (cc (sym c ∙ e)))
          (λ e.
            Ends-if Succeeds Never (ltb poll_limit (guard + 1)) _
              (poll p left (guard + 1) req fad n ack u) (λ late. absurd (ground arith))
              (λ young. poll-Completes k left (guard + 1) req u (omega arith) (omega arith) more))

    attempts-Serves :
        (k cmd buf : ℕ) (s : Machine Dev)
        → k ≤ poll_limit
        → Serves k cmd buf fad n s
        → Ends Returns0 Never (attempts p 4 0 cmd buf fad n ack s)
    unfolding attempts try_read
    attempts-Serves k cmd buf s below (taken, c) =
        let u = sent_off cmd buf fad n s in
        let req = request (gdc cmd (params buf fad n) 0 s.dev s.ram).ret in
        Ends-bind Returns0 Never Succeeds (try_read p cmd buf fad n ack s) _
          (Ends-if Succeeds Never (req == 0) _ (poll p (suc poll_limit) 0 req fad n ack u)
            (λ e. absurd (ground arith))
            (λ e. poll-Completes k (suc poll_limit) 0 req u (omega arith) (omega arith) c))
          (λ done t e. rw e refl)

  pub gd_read_sectors-Returns0 :
      (k dst fad n : ℕ) (s : Machine Dev)
      → k ≤ poll_limit
      → Serves k cmd_pioread dst fad n s
      → Ends Returns0 Never (gd_read_sectors p dst fad n s)
  unfolding gd_read_sectors
  gd_read_sectors-Returns0 k dst fad n s below serves =
      attempts-Serves fad n (λ t. t) k cmd_pioread dst s below serves

  -- The DMA read sends from the state in which the interrupt is masked.
  pub gd_read_sectors_dma-Returns0 :
      (address fad n : ℕ) (s : Machine Dev)
      → ((t : Machine Dev)
          → (k : ℕ) × (k ≤ poll_limit) × Serves k cmd_dmaread (phys address) fad n t)
      → Ends Returns0 Never (gd_read_sectors_dma p address fad n s)
  unfolding gd_read_sectors_dma mask_gd_irq
  gd_read_sectors_dma-Returns0 address fad n s ready =
      let t = record s { dev = mask_gd_irq p s.dev } in
      let (k, below, serves) = ready t in
      attempts-Serves fad n (gd_dma_ack p) k cmd_dmaread (phys address) t below serves

  module _ {disc : ℕ → ℕ → ℕ} (laws : GdLaws p disc) where
    open laws use {Work}

    -- The read has succeeded: the sectors are in the buffer, and nothing else has changed.
    abbrev pub Delivers : ℕ → ℕ → ℕ → Machine Dev → ℤ → Machine Dev → Type 0
    Delivers buf fad n s r t =
        (r ≡ pos 0) × Loaded disc buf fad n t.ram × Untouched Work buf (n * 2048) s.ram t.ram

    settle :
        (buf fad n : ℕ) (s : Machine Dev) (o : Outcome Dev ℤ)
        → Ends Returns0 Never o
        → Ends (ReadEnd p laws buf fad n s) (ReadDies fad n) o
        → Ends (Delivers buf fad n s) Never o
    settle buf fad n s o good safe =
        Ends-weaken (Delivers buf fad n s) Never
          (λ r t. Returns0 r t × ReadEnd p laws buf fad n s r t)
          (λ c a b t. Never c a b t × ReadDies fad n c a b t) o
          (Ends-both Returns0 (ReadEnd p laws buf fad n s) Never (ReadDies fad n) o good safe)
          (λ r t (zero_result, (frame, keeps, result)).
            (zero_result, loaded r t zero_result result, frame))
          (λ c a b t h. h.0)
      where
        loaded :
            (r : ℤ) (t : Machine Dev)
            → r ≡ pos 0
            → ((r ≡ pos 0) × Loaded disc buf fad n t.ram) ⊎ (r ≡ negsuc 1)
            → Loaded disc buf fad n t.ram
        loaded r t e (inl h) = h.1
        loaded r t e (inr h) = absurd (ground arith)

    -- A drive that takes the read and has it done within the limit of polls gives result 0 with the
    -- sectors in the buffer: the shim does not give up on it, nor stop.
    pub gd_read_sectors-Delivers :
        (k dst fad n : ℕ) (s : Machine Dev)
        → k ≤ poll_limit
        → Serves k cmd_pioread dst fad n s
        → Ends (Delivers dst fad n s) Never (gd_read_sectors p dst fad n s)
    gd_read_sectors-Delivers k dst fad n s below serves =
        settle dst fad n s (gd_read_sectors p dst fad n s)
          (gd_read_sectors-Returns0 k dst fad n s below serves)
          (gd_read_sectors-Ends p laws dst fad n s)
