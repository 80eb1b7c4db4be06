-- ===== src/Cart/Live.antt =====
-- A valid request is served to the end when the drive does its part.
use cfp2dreamcast.Base.{ℕ, ◌+◌, ◌*◌, ◌^◌, ◌<◌, ◌≤◌, ◌≡◌, arith, false, ◌==◌, ◌%◌, u32}
use cfp2dreamcast.Iface.{phys, p2addr, shim_bounce, cart_fad}
use cfp2dreamcast.Machine.{ℤ, pos, Platform, Machine, M, Ends, Never}
use cfp2dreamcast.Machine.Ends.{Ends-if, Ends-bind, Ends-both, Ends-weaken}
use cfp2dreamcast.Machine.Store.{IsBytes}
use cfp2dreamcast.Gd.{poll_limit, cmd_pioread, cmd_dmaread, gd_read_sectors, gd_read_sectors_dma}
use cfp2dreamcast.Gd.Laws.{GdLaws}
use cfp2dreamcast.Gd.Progress.{Serves, gd_read_sectors-Returns0, gd_read_sectors_dma-Returns0}
use cfp2dreamcast.Cart.{
  or_die, gd_or_die, gd_or_die_dma, part, body, cart_read, shim_cart_service, rejects, request_off,
  request_len, request_dest,
}
use cfp2dreamcast.Cart.Split.{cart_split, cart_split-Tiles}
use cfp2dreamcast.Cart.Service.{Served, ServiceDies, bounds, shim_cart_service-Ends}

module _ (p : Platform) where
  open p use {Dev}

  -- Whatever it is asked to read, up to the size of the address space, the drive takes the read and
  -- has it done within the limit of polls.
  abbrev pub Healthy : Type 0
  Healthy =
      (cmd buf fad n : ℕ) (s : Machine Dev)
      → n * 2048 ≤ 2 ^ 29
      → (k : ℕ) × (k ≤ poll_limit) × Serves p k cmd buf fad n s

  abbrev Returns : {A : Type 0} → A → Machine Dev → Type 0
  Returns a t = Unit {0}

  module _ (healthy : Healthy) where
    or_die-Returns :
        (rel : ℕ) (read : M Dev ℤ) (s : Machine Dev)
        → Ends (λ r t. r ≡ pos 0) Never (read s)
        → Ends Returns Never (or_die p rel read s)
    unfolding or_die
    or_die-Returns rel read s h =
        Ends-bind Returns Never (λ (r : ℤ) t. r ≡ pos 0) (read s) _ h (λ r t e. rw e tt)

    gd_or_die-Returns :
        (dst fad n : ℕ) (s : Machine Dev)
        → n * 2048 ≤ 2 ^ 29
        → Ends Returns Never (gd_or_die p dst fad n s)
    unfolding gd_or_die
    gd_or_die-Returns dst fad n s fits =
        let (k, below, serves) = healthy cmd_pioread dst (u32 (cart_fad + fad)) n s fits in
        or_die-Returns fad (gd_read_sectors p dst (u32 (cart_fad + fad)) n) s
          (gd_read_sectors-Returns0 p k dst (u32 (cart_fad + fad)) n s below serves)

    gd_or_die_dma-Returns :
        (address fad n : ℕ) (s : Machine Dev)
        → n * 2048 ≤ 2 ^ 29
        → Ends Returns Never (gd_or_die_dma p address fad n s)
    unfolding gd_or_die_dma
    gd_or_die_dma-Returns address fad n s fits =
        let at = u32 (cart_fad + fad) in
        or_die-Returns fad (gd_read_sectors_dma p address at n) s (
          gd_read_sectors_dma-Returns0 p address at n s
            (λ t. healthy cmd_dmaread (phys address) at n t fits))

    part-Returns :
        (dst fad skip take : ℕ) (s : Machine Dev) → Ends Returns Never (part p dst fad skip take s)
    unfolding part
    part-Returns dst fad skip take s =
        Ends-if Returns Never (take == 0) _ _ (λ _. tt)
          (λ _.
            Ends-bind Returns Never Returns (gd_or_die p shim_bounce fad 1 s) _
              (gd_or_die-Returns shim_bounce fad 1 s (omega arith)) (λ _ t _. tt))

    body-Returns :
        (dst body_phys fad sect : ℕ) (s : Machine Dev)
        → sect * 2048 ≤ 2 ^ 29
        → Ends Returns Never (body p dst body_phys fad sect s)
    unfolding body
    body-Returns dst body_phys fad sect s fits =
        Ends-if Returns Never (sect == 0) _ _ (λ _. tt)
          (λ _.
            Ends-if Returns Never (body_phys % 32 == 0) _ _
              (λ _. gd_or_die_dma-Returns body_phys fad sect s fits)
              (λ _. gd_or_die-Returns dst fad sect s fits))

    cart_read-Returns :
        (off len dest : ℕ) (s : Machine Dev)
        → off + len < 2 ^ 32
        → len ≤ 2 ^ 29
        → Ends Returns Never (cart_read p off len dest s)
    unfolding cart_read
    cart_read-Returns off len dest s range short =
        let c = cart_split off len in
        let tiles = cart_split-Tiles off len range in
        let dst = p2addr dest in
        Ends-bind Returns Never Returns (part p dst c.head_fad c.head_skip c.head_take _) _
          (part-Returns dst c.head_fad c.head_skip c.head_take _)
          λ _ t _.
            Ends-bind Returns Never Returns
              (body p (dst + c.head_take) (u32 (dest + c.head_take)) c.body_fad c.body_sect t) _
              (body-Returns (dst + c.head_take) (u32 (dest + c.head_take)) c.body_fad c.body_sect t
                (omega (arith, tiles.total)))
              λ _ u _.
                part-Returns (dst + c.head_take + c.body_sect * 2048) c.tail_fad 0 c.tail_take u

    module _ {disc : ℕ → ℕ → ℕ} (laws : GdLaws p disc) where
      open laws use {Work}

      -- When the drive takes each read and has it done within the limit of polls, a valid request is
      -- served to the end: the service returns, with the asked bytes of the image in place and the
      -- done register clear, and the shim does not stop.
      pub shim_cart_service-Serves :
          ((f i : ℕ) → disc f i < 2 ^ 8)
          → (s : Machine Dev) → IsBytes s.ram
          → ((i : ℕ) → i < request_len s.ram → ¬ (Work (phys (request_dest s.ram + i))))
          → rejects (request_off s.ram) (request_len s.ram) (request_dest s.ram) ≡ false
          → Ends (λ _ t. Served p laws s t) Never (shim_cart_service p s)
      shim_cart_service-Serves bytes s whole idle ok =
          let (asked, small, inside, low, high) = bounds p laws s whole ok in
          Ends-weaken (λ _ t. Served p laws s t) Never (λ r t. Returns r t × Served p laws s t)
            (λ c a b t. Never c a b t × ServiceDies p laws s c a b t) (shim_cart_service p s)
            (Ends-both Returns (λ _ t. Served p laws s t) Never (ServiceDies p laws s)
              (shim_cart_service p s) (returns_from (omega arith) (omega arith))
              (shim_cart_service-Ends p laws bytes s whole (λ _. idle)))
            (λ r t h. h.1) (λ c a b t h. h.0)
        where
          returns_from :
              request_off s.ram + request_len s.ram < 2 ^ 32
              → request_len s.ram ≤ 2 ^ 29
              → Ends Returns Never (shim_cart_service p s)
          returns_from range short =
              unfold shim_cart_service in
              Ends-if Returns Never
                (rejects (request_off s.ram) (request_len s.ram) (request_dest s.ram)) _ _
                (λ bad. absurd (cc))
                (λ _.
                  Ends-bind Returns Never Returns
                    (cart_read p (request_off s.ram) (request_len s.ram) (request_dest s.ram) s) _
                    (cart_read-Returns (request_off s.ram) (request_len s.ram) (request_dest s.ram)
                      s range short)
                    (λ _ t _. tt))
