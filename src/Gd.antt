-- ===== src/Gd.antt =====
-- shims/src/gd.c: sector reads through the BIOS GD-ROM calls, polled, retried and recovered. The
-- call itself is the platform's `gdc`, behind the stack switch of gdstack.S. The cache invalidation
-- before a DMA has no effect on a memory without a cache; it is modelled by itself in Cache. Default
-- (GDI) build.
pub mod Laws
pub mod Poll
pub mod Recover
pub mod Read
pub mod Progress
pub mod Cache
pub mod Cdxa
use cfp2dreamcast.Base.{
  ℕ, zero, suc, ◌+◌, ◌-◌, ◌*◌, ◌/◌, ◌%◌, ◌^◌, Bool, true, false, List, [], ◌∷◌, ltb, ◌==◌,
  clear_bit, if◌then◌else◌,
}
use cfp2dreamcast.Iface.{phys}
use cfp2dreamcast.Machine.{
  ℤ, pos, negsuc, Platform, Answer, Machine, Outcome, returns, died, rebooted, hung, M, ◌>>=◌, ◌>>◌,
  pure, modify,
}
use cfp2dreamcast.Util.{shim_die}

abbrev pub cmd_pioread : ℕ
cmd_pioread = 16

abbrev pub cmd_dmaread : ℕ
cmd_dmaread = 17

abbrev pub cmd_init : ℕ
cmd_init = 24

abbrev pub gd_send : ℕ
gd_send = 0

abbrev pub gd_check : ℕ
gd_check = 1

abbrev pub gd_exec : ℕ
gd_exec = 2

abbrev pub gd_sysinit : ℕ
gd_sysinit = 3

-- More polls than this, and the shim stops with code 5. Shut, since a proof must not count to it.
pub poll_limit : ℕ
poll_limit = 100000000

-- From this poll on a request that is not found is a failure.
pub not_found_limit : ℕ
not_found_limit = 1000000

-- What the poll loops tell apart in a CHECK result: `COMPLETED` (2), `<= FAILED` (-1), `NOT_FOUND`
-- (0), and the rest.
pub data Status : Type 0 where
  completed failed not_found pending : Status

abbrev pub status : ℤ → Status
status (negsuc n) = failed
status (pos n) = if n == 2 then completed else if n == 0 then not_found else pending

-- `req` if it is positive, else 0, which no request has.
abbrev pub request : ℤ → ℕ
request (negsuc n) = 0
request (pos n) = n

module _ (p : Platform) where
  open p use {Dev, gdc, load_reg, store_reg}

  -- The state behind a BIOS call.
  abbrev pub after : Machine Dev → Answer Dev → Machine Dev
  after s x = record s { ram = x.ram; dev = x.dev }

  -- `gd_last_err = e;`
  abbrev pub note : ℕ → Machine Dev → Machine Dev
  note e s = record s { statics = record s.statics { gd_last_err = e } }

  -- The two calls of a poll: EXEC, then CHECK.
  abbrev pub pump : ℕ → Machine Dev → Answer Dev
  pump req s = let x = gdc 0 [] gd_exec s.dev s.ram in gdc req [] gd_check x.dev x.ram

  -- The loop of `gd_init_drive`.
  pub init_poll : ℕ → ℕ → ℕ → M Dev (Unit {0})
  init_poll zero guard req s = hung
  init_poll (suc left) guard req s =
      let y = pump req s in
      let t = after s y in
      let again = init_poll left (guard + 1) req t in
      let count = if ltb poll_limit (guard + 1) then shim_die p 5 0xdead1217 0 t else again in
      elim (status y.ret) [
        | completed ↦ returns tt t
        | failed ↦ returns tt t
        | not_found ↦ if ltb not_found_limit guard then returns tt t else count
        | pending ↦ count
      ]

  pub gd_init_drive : M Dev (Unit {0})
  gd_init_drive s =
      let x = gdc cmd_init [] gd_send s.dev s.ram in
      let req = request x.ret in
      let t = after s x in if req == 0 then returns tt t else init_poll (suc poll_limit) 0 req t

  -- `gd_sys_reinit`
  pub gd_sys_reinit : Machine Dev → Machine Dev
  gd_sys_reinit s = after s (gdc 0 [] gd_sysinit s.dev s.ram)

  pub gd_recover : M Dev (Unit {0})
  unfolding gd_sys_reinit
  gd_recover s = gd_init_drive (gd_sys_reinit s)

  -- The inner loop of both reads; `ack` is what the DMA read does on completion.
  pub poll : ℕ → ℕ → ℕ → ℕ → ℕ → (Machine Dev → Machine Dev) → M Dev Bool
  poll zero guard req fad n ack s = hung
  poll (suc left) guard req fad n ack s =
      let y = pump req s in
      let t = after s y in
      let again = poll left (guard + 1) req fad n ack t in
      let count = if ltb poll_limit (guard + 1) then shim_die p 5 fad n t else again in
      elim (status y.ret) [
        | completed ↦ returns true (ack t)
        | failed ↦ returns false (note y.stat0 t)
        | not_found ↦ if ltb not_found_limit guard then returns false (note 0xcafe0001 t) else count
        | pending ↦ count
      ]

  -- One round of the retry loop: recover unless it is the first, send, poll.
  pub try_read : ℕ → ℕ → ℕ → ℕ → (Machine Dev → Machine Dev) → M Dev Bool
  unfolding gd_recover
  try_read cmd buf fad n ack s =
      let x = gdc cmd (fad ∷ n ∷ buf ∷ 0 ∷ []) gd_send s.dev s.ram in
      let req = request x.ret in
      let t = after s x in
      if req == 0
      then returns false (note 0xcafe0002 t)
      else poll (suc poll_limit) 0 req fad n ack t

  -- The retry loop, `left` rounds before it gives up.
  pub attempts : ℕ → ℕ → ℕ → ℕ → ℕ → ℕ → (Machine Dev → Machine Dev) → M Dev ℤ
  attempts zero attempt cmd buf fad n ack s = returns (negsuc 1) s
  attempts (suc left) attempt cmd buf fad n ack s =
      let next = attempts left (attempt + 1) cmd buf fad n ack in
      let recovered : Outcome Dev (Unit {0}) =
        if attempt == 0 then returns tt s else gd_recover s in
      elim recovered [
        | returns _ t ↦
            (◌>>=◌ (try_read cmd buf fad n ack)
              (λ done. elim done [ true ↦ pure (pos 0) | false ↦ next ]) t)
        | died c a b t ↦ died c a b t
        | rebooted t ↦ rebooted t
        | hung ↦ hung
      ]

  pub gd_read_sectors : ℕ → ℕ → ℕ → M Dev ℤ
  unfolding attempts
  gd_read_sectors dst fad n = attempts 4 0 cmd_pioread dst fad n (λ s. s)

  -- `*reg &= ~(1u << 14)` on the masks of the three interrupt levels.
  mask_gd_irq : Dev → Dev
  mask_gd_irq d =
      let mask = λ (a : ℕ) (e : Dev). store_reg a (clear_bit (load_reg a e) 14) e in
      mask 0xa05f6930 (mask 0xa05f6920 (mask 0xa05f6910 d))

  -- The write that acknowledges the end of the DMA.
  pub gd_dma_ack : Machine Dev → Machine Dev
  gd_dma_ack s = record s { dev = store_reg 0xa05f6900 (2 ^ 14) s.dev }

  pub gd_read_sectors_dma : ℕ → ℕ → ℕ → M Dev ℤ
  unfolding attempts mask_gd_irq
  gd_read_sectors_dma address fad n s =
      attempts 4 0 cmd_dmaread (phys address) fad n gd_dma_ack
        (record s { dev = mask_gd_irq s.dev })
