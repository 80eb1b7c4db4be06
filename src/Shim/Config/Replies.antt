-- ===== src/Shim/Config/Replies.antt =====
-- What the configuration hooks answer.
use cfp2dreamcast.Base.{
  ℕ, ◌+◌, ◌-◌, ◌≤◌, ◌≡◌, refl, ap, subst, ◌∙◌, ◌⊎◌, inl, inr, arith, List, length, get_or,
}
use cfp2dreamcast.Machine.{ℤ, Platform, Machine, returns, Ends, Never}
use cfp2dreamcast.Machine.Memory.{load8}
use cfp2dreamcast.Shim.{Blobs}
use cfp2dreamcast.Shim.Captures.{
  Captured, set_address, identify, command_revision, jvs_revision, bus_version, features,
}
use cfp2dreamcast.Shim.Config.{cfg_reply, shim_cfg_tx, shim_cfg_rx}
use cfp2dreamcast.Shim.Config.Settings.{drop}
use cfp2dreamcast.Shim.Config.Delivered.{get_or-drop, length-drop}

-- The reply to command `cmd`: the captured one, or that to 0xf1 if none was captured.
abbrev pub Chosen : Blobs → ℕ → List ℕ → Type 0
Chosen b cmd xs = Captured b cmd xs ⊎ (((ys : List ℕ) → ¬ (Captured b cmd ys)) × (xs ≡ b.mie_jvsf1))

cfg_reply-Captured :
    (b : Blobs) (cmd : ℕ) (xs : List ℕ) → Captured b cmd xs → (cfg_reply b cmd).0 ≡ xs
unfolding cfg_reply
cfg_reply-Captured b _ _ set_address = refl
cfg_reply-Captured b _ _ identify = refl
cfg_reply-Captured b _ _ command_revision = refl
cfg_reply-Captured b _ _ jvs_revision = refl
cfg_reply-Captured b _ _ bus_version = refl
cfg_reply-Captured b _ _ features = refl

cfg_reply-Chosen : (b : Blobs) (cmd : ℕ) (xs : List ℕ) → Chosen b cmd xs → (cfg_reply b cmd).0 ≡ xs
cfg_reply-Chosen b cmd xs (inl c) = cfg_reply-Captured b cmd xs c
cfg_reply-Chosen b cmd xs (inr (other, e)) =
    let n10 : cmd ≡ 0x10 → ⊥ = λ h. other b.mie_jvs10 (rw h identify) in
    let n11 : cmd ≡ 0x11 → ⊥ = λ h. other b.mie_jvs11 (rw h command_revision) in
    let n12 : cmd ≡ 0x12 → ⊥ = λ h. other b.mie_jvs12 (rw h jvs_revision) in
    let n13 : cmd ≡ 0x13 → ⊥ = λ h. other b.mie_jvs13 (rw h bus_version) in
    let n14 : cmd ≡ 0x14 → ⊥ = λ h. other b.mie_jvs14 (rw h features) in
    unfold cfg_reply in ground (arith, n10, n11, n12, n13, n14)

module _ (p : Platform) where
  open p use {Dev}

  tx-pending :
      (node arg1 len payload : ℕ) (s : Machine Dev)
      → Ends
          (λ (r : ℤ) t. t.pending_cfg ≡ load8 s.ram payload)
          Never
          (shim_cfg_tx p node arg1 len payload s)
  unfolding shim_cfg_tx
  tx-pending node arg1 len payload s = refl

  -- A configuration receive answers for the command that the last transmit sent, the first byte of
  -- its payload: after the transmit, in any later state in which the pending command stands, it gives
  -- the bytes from the 0x15th on of the reply that was captured for that command, or of that to
  -- 0xf1 if none was, and changes neither memory nor the devices.
  pub cfg_tx-rx :
      (b : Blobs) (node arg1 len payload : ℕ) (xs : List ℕ) (s t u : Machine Dev) (r : ℤ)
      → shim_cfg_tx p node arg1 len payload s ≡ returns r t
      → u.pending_cfg ≡ t.pending_cfg
      → Chosen b (load8 s.ram payload) xs
      → 0x15 ≤ length xs
      → Ends
          (λ (reply : List ℕ) v.
            (length reply ≡ length xs - 0x15)
            × ((i : ℕ) → get_or reply i 0 ≡ get_or xs (0x15 + i) 0)
            × (v.ram ≡ u.ram)
            × (v.dev ≡ u.dev))
          Never
          (shim_cfg_rx p b u)
  unfolding shim_cfg_rx
  cfg_tx-rx b node arg1 len payload xs s t u r ran kept chosen long =
      let sent =
        subst (λ o. Ends (λ (r : ℤ) (t : Machine Dev). t.pending_cfg ≡ load8 s.ram payload) Never o)
          ran (tx-pending node arg1 len payload s) in
      let is : (cfg_reply b u.pending_cfg).0 ≡ xs =
        ap (λ k. (cfg_reply b k).0) (kept ∙ sent)
        ∙ cfg_reply-Chosen b (load8 s.ram payload) xs chosen in
      (
        ap (λ z. length (drop 0x15 z)) is ∙ omega (arith, length-drop 0x15 xs long),
        (λ i. ap (λ z. get_or (drop 0x15 z) i 0) is ∙ get_or-drop 0x15 i xs),
        refl,
        refl,
      )
