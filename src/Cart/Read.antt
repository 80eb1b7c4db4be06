-- ===== src/Cart/Read.antt =====
-- `cart_read` delivers the bytes of the cartridge image.
use cfp2dreamcast.Base.{ℕ, ◌+◌, ◌*◌, ◌/◌, ◌%◌, ◌^◌, ◌<◌, ◌≤◌, ◌≡◌, refl, subst, ◌∙◌, arith, u32}
use cfp2dreamcast.Iface.{phys, p2addr, shim_base}
use cfp2dreamcast.Iface.Address.{phys-p2addr}
use cfp2dreamcast.Machine.{Platform, Machine, Ends, ◌>>◌}
use cfp2dreamcast.Machine.Ends.{Ends-bind, Ends-mono}
use cfp2dreamcast.Gd.Laws.{GdLaws}
use cfp2dreamcast.Cart.{cart_read, count_read, part, body}
use cfp2dreamcast.Cart.Split.{Split, cart_split, Tiles, cart_split-Tiles}
use cfp2dreamcast.Cart.Fill.{
  Fills, Fills-append, CartDies, ClearOfBounce, part-Ends, body-Ends, sectors, on_disc,
}

module _ (p : Platform) {disc : ℕ → ℕ → ℕ} (laws : GdLaws p disc) where
  open p use {Dev}
  open laws use {Work}

  -- Byte `j` of the cartridge image on the disc.
  abbrev pub image : ℕ → ℕ
  image j = disc (on_disc p laws (j / 2048)) (j % 2048)

  Fills-cong :
      (d e n : ℕ) (want want' : ℕ → ℕ) (s t : Machine Dev)
      → phys d ≡ phys e
      → ((i : ℕ) → i < n → want i ≡ want' i)
      → Fills p laws d n want s t
      → Fills p laws e n want' s t
  Fills-cong d e n want want' s t same equal (filled, keep, keeps) = (
    λ i h.
        let there : phys (e + i) ≡ phys (d + i) = omega arith in rw there (filled i h ∙ equal i h),
    λ q w o1 o2. keep q w o1 (λ i h e'. o2 i h (omega arith)),
    keeps,
  )

  -- The pieces of a split are the bytes of the image.
  module _ (off len : ℕ) (c : Split) (range : off + len < 2 ^ 32) (t : Tiles off len c) where
    head_image :
        (i : ℕ)
        → i < c.head_take
        → disc (on_disc p laws c.head_fad) (c.head_skip + i) ≡ image (off + i)
    head_image i h =
        let sector : (off + i) / 2048 ≡ c.head_fad =
          omega (arith, t.head_start (omega arith), t.head_fits) in
        let byte : (off + i) % 2048 ≡ c.head_skip + i =
          omega (arith, t.head_start (omega arith), t.head_fits) in
        rw (sector, byte)

    body_image :
        (i : ℕ)
        → i < c.body_sect * 2048
        → sectors p laws c.body_fad i ≡ image (off + (c.head_take + i))
    body_image i h =
        let sector : on_disc p laws ((off + (c.head_take + i)) / 2048)
            ≡ on_disc p laws c.body_fad + i / 2048 =
          omega (arith, t.body_start (omega arith), t.total) in
        let byte : (off + (c.head_take + i)) % 2048 ≡ i % 2048 =
          omega (arith, t.body_start (omega arith)) in
        rw (sector, byte)

    tail_image :
        (i : ℕ)
        → i < c.tail_take
        → disc (on_disc p laws c.tail_fad) (0 + i)
          ≡ image (off + (c.head_take + c.body_sect * 2048 + i))
    tail_image i h =
        let sector : (off + (c.head_take + c.body_sect * 2048 + i)) / 2048 ≡ c.tail_fad =
          omega (arith, t.tail_start (omega arith), t.tail_short) in
        let byte : (off + (c.head_take + c.body_sect * 2048 + i)) % 2048 ≡ 0 + i =
          omega (arith, t.tail_start (omega arith), t.tail_short) in
        rw (sector, byte)

  -- How a read of `len` bytes from `off` on to the physical address `dest` returns.
  abbrev pub Delivered : ℕ → ℕ → ℕ → Machine Dev → Unit {0} → Machine Dev → Type 0
  Delivered off len dest s _ t = Fills p laws dest len (λ i. image (off + i)) (count_read p s) t

  module _ (bytes : (f i : ℕ) → disc f i < 2 ^ 8) (off len dest : ℕ) (range : off + len < 2 ^ 32)
      (below : dest + len ≤ phys shim_base)
      (idle : (i : ℕ) → i < len → ¬ (Work (phys (dest + i)))) where
    clear_below : (d a : ℕ) → d % 2 ^ 29 + a ≤ phys shim_base → ClearOfBounce d a
    clear_below d a h = λ i j hi hj e. omega arith

    abbrev wanted : ℕ → ℕ
    wanted i = image (off + i)

    -- One more piece.
    extend :
        (dst a b : ℕ) (want : ℕ → ℕ) (s t u : Machine Dev)
        → phys dst ≡ phys dest
        → a + b ≤ len
        → ((i : ℕ) → i < b → want i ≡ wanted (a + i))
        → Fills p laws dst a wanted s t
        → Fills p laws (dst + a) b want t u
        → Fills p laws dst (a + b) wanted s u
    extend dst a b want s t u same fits equal f g =
        Fills-append p laws dst a b wanted s t u (omega arith)
          (λ i h w. idle i (omega arith) (rw (there i) at w)) (clear_below dst a (omega arith)) f
          (Fills-cong (dst + a) (dst + a) b want (λ i. wanted (a + i)) t u refl equal g)
      where
        there : (i : ℕ) → phys (dst + i) ≡ phys (dest + i)
        there i = omega arith

    pieces :
        (c : Split) (dst : ℕ) (s : Machine Dev)
        → Tiles off len c
        → phys dst ≡ phys dest
        → Ends
            (λ _ t. Fills p laws dst len wanted s t)
            CartDies
            ((part p dst c.head_fad c.head_skip c.head_take
                >> (body p (dst + c.head_take) (u32 (dest + c.head_take)) c.body_fad c.body_sect
                    >> part p (dst + c.head_take + c.body_sect * 2048) c.tail_fad 0 c.tail_take))
              s)
    pieces c dst s t same =
        let a = c.head_take in
        let b = c.body_sect * 2048 in
        let post : Unit {0} → Machine Dev → Type 0 = λ _ v. Fills p laws dst len wanted s v in
        Ends-bind post CartDies
          (λ _ u. Fills p laws dst a (λ i. disc (on_disc p laws c.head_fad) (c.head_skip + i)) s u)
          _ _
          (part-Ends p laws dst c.head_fad c.head_skip a s t.head_fits
            (clear_below dst a (omega (arith, t.total))) bytes)
          λ _ u head.
            let f1 =
              Fills-cong dst dst a (λ i. disc (on_disc p laws c.head_fad) (c.head_skip + i)) wanted
                s u refl (head_image off len c range t) head in
            Ends-bind post CartDies
              (λ _ v. Fills p laws (dst + a) b (sectors p laws c.body_fad) u v) _ _
              (body-Ends p laws (dst + a) (u32 (dest + a)) c.body_fad c.body_sect u (omega arith))
              λ _ v mid.
                let f2 =
                  extend dst a b (sectors p laws c.body_fad) s u v same (omega (arith, t.total))
                    (body_image off len c range t) f1 mid in
                Ends-mono post CartDies
                  (λ _ w.
                    Fills p laws (dst + a + b) c.tail_take
                      (λ i. disc (on_disc p laws c.tail_fad) (0 + i)) v w)
                  _
                  (part-Ends p laws (dst + a + b) c.tail_fad 0 c.tail_take v
                    (omega (arith, t.tail_short))
                    (clear_below (dst + a + b) c.tail_take (omega (arith, t.total))) bytes)
                  λ _ w tail.
                    let want = λ (i : ℕ). disc (on_disc p laws c.tail_fad) (0 + i) in
                    let placed : Fills p laws (dst + (a + b)) c.tail_take want v w =
                      Fills-cong (dst + a + b) (dst + (a + b)) c.tail_take want want v w
                        (omega arith) (λ i h. refl) tail in
                    subst (λ n. Fills p laws dst n wanted s w) t.total
                      (extend dst (a + b) c.tail_take want s v w same (omega (arith, t.total))
                        (tail_image off len c range t) f2 placed)

    -- A read of the cartridge ends: the bytes of the image from `off` on lie at `dest`, and but for
    -- the bounce buffer and the BIOS's work area no other byte of memory has changed; or the shim
    -- dies, with code 4 when the drive refuses a sector four times and 5 when it hangs.
    pub cart_read-Ends :
        (s : Machine Dev) → Ends (Delivered off len dest s) CartDies (cart_read p off len dest s)
    unfolding cart_read
    cart_read-Ends s =
        let c = cart_split off len in
        let dst = p2addr dest in
        let u = count_read p s in
        let tiles = cart_split-Tiles off len range in
        Ends-mono (Delivered off len dest s) CartDies (λ _ t. Fills p laws dst len wanted u t) _
          (pieces c dst u tiles (phys-p2addr dest))
          (λ _ t filled.
            Fills-cong dst dest len wanted wanted u t (phys-p2addr dest) (λ i h. refl) filled)
