-- ===== src/Cart/Service.antt =====
-- `shim_cart_service`: the guard, and what the service as a whole promises the game.
use cfp2dreamcast.Base.{
  ℕ, ◌+◌, ◌-◌, ◌^◌, ◌<◌, ◌≤◌, ◌≡◌, ◌↔◌, refl, ap, ◌∙◌, true, false, ◌⊎◌, inl, inr, arith,
}
use cfp2dreamcast.Iface.{phys, p2addr, shim_base, shim_bounce, g1_mirror, cart_size}
use cfp2dreamcast.Machine.{Platform, Statics, Machine, Ends}
use cfp2dreamcast.Machine.Memory.{Ram, load32, store32}
use cfp2dreamcast.Machine.Store.{Misses, IsBytes, load32-agree, load32-lt}
use cfp2dreamcast.Machine.Ends.{Ends-if, Ends-bind, Ends-weaken}
use cfp2dreamcast.Gd.Laws.{GdLaws}
use cfp2dreamcast.Cart.{
  rejects, request_off, request_len, request_dest, bar_step, cart_read, shim_cart_service,
  count_read, finish,
}
use cfp2dreamcast.Cart.Bar.{bar_step-left, bar_step-main}
use cfp2dreamcast.Cart.Fill.{CartDies}
use cfp2dreamcast.Cart.Read.{image, Delivered, cart_read-Ends}
use cfp2dreamcast.Util.{shim_die}
use cfp2dreamcast.Util.Paint.{InMain}

-- A request passes the guard exactly when it asks for at least one byte and at most 16 MiB, inside
-- the cartridge, into main memory below the shim; no 32-bit overflow gets past.
pub rejects_iff :
    (off len dest : ℕ)
    → off < 2 ^ 28
    → len < 2 ^ 32
    → dest < 2 ^ 29
    → (rejects off len dest ≡ false) ↔ (
        (0 < len)
        × (len ≤ 0x01000000)
        × (off + len ≤ cart_size)
        × (0x0c000000 ≤ dest)
        × (dest + len ≤ phys shim_base))
unfolding rejects
rejects_iff off len dest ho hl hd = ground arith

store32-Misses : (a q : ℕ) (m : Ram) → Misses q a 4 → store32 a 0 m q ≡ m q
store32-Misses a q m out =
    ground
      (arith, out 0 (omega arith), out 1 (omega arith), out 2 (omega arith), out 3 (omega arith))

-- The register by which the game learns that its transfer is done.
abbrev pub done_register : ℕ
done_register = g1_mirror + 0x418

module _ (p : Platform) {disc : ℕ → ℕ → ℕ} (laws : GdLaws p disc) where
  open p use {Dev}
  open laws use {Work}

  -- How the service returns from a request: it was a valid one, its bytes are delivered, the done
  -- register reads 0, the bar has moved on, and no other byte of main memory has changed but for
  -- the bounce buffer and the BIOS's work area.
  pub record Served (s t : Machine Dev) : Type 0 where
    pub valid : rejects (request_off s.ram) (request_len s.ram) (request_dest s.ram) ≡ false
    pub delivered :
        (i : ℕ)
        → i < request_len s.ram
        → t.ram (phys (request_dest s.ram + i)) ≡ image p laws (request_off s.ram + i)
    pub finished : load32 t.ram done_register ≡ 0
    pub bar : t.pb_left ≡ s.pb_left - request_len s.ram
    pub untouched :
        (q : ℕ)
        → InMain q
        → ¬ (Work q)
        → Misses q shim_bounce 2048
        → Misses q (request_dest s.ram) (request_len s.ram)
        → Misses q done_register 4
        → t.ram q ≡ s.ram q

  -- The deaths of the service: code 2, with the offset and the destination, for a request that is
  -- not valid, 4 or 5 for the drive.
  abbrev pub ServiceDies : Machine Dev → ℕ → ℕ → ℕ → Machine Dev → Type 0
  ServiceDies s c a b t =
      let bad = rejects (request_off s.ram) (request_len s.ram) (request_dest s.ram) in
      ((bad ≡ true) × (c ≡ 2) × (a ≡ request_off s.ram) × (b ≡ request_dest s.ram))
      ⊎ ((bad ≡ false) × ((c ≡ 4) ⊎ (c ≡ 5)))

  module _ (s : Machine Dev) (whole : IsBytes s.ram)
      (ok : rejects (request_off s.ram) (request_len s.ram) (request_dest s.ram) ≡ false) where
    abbrev off : ℕ
    off = request_off s.ram

    abbrev len : ℕ
    len = request_len s.ram

    abbrev dest : ℕ
    dest = request_dest s.ram

    pub bounds :
        (0 < len)
        × (len ≤ 0x01000000)
        × (off + len ≤ cart_size)
        × (0x0c000000 ≤ dest)
        × (dest + len ≤ phys shim_base)
    bounds = (rejects_iff off len dest off_lt len_lt dest_lt).0 ok
      where
        off_lt : off < 2 ^ 28
        off_lt = unfold request_off in omega arith

        len_lt : len < 2 ^ 32
        len_lt = unfold request_len in load32-lt s.ram _ whole

        dest_lt : dest < 2 ^ 29
        dest_lt = unfold request_dest in omega arith

    served : (t : Machine Dev) → Delivered p laws off len dest s tt t → Served s (finish p len t)
    unfolding count_read finish p2addr
    served t (filled, keep, keeps) =
        let v = record t { ram = store32 (p2addr g1_mirror + 0x418) 0 t.ram } in
        let (pos, small, inside, low, high) = bounds in
        record {
          valid = ok;
          delivered = λ i h.
              let q = phys (dest + i) in
              bar_step-main p len q v (omega arith)
              ∙ store32-Misses (p2addr g1_mirror + 0x418) q t.ram (λ j hj e. omega arith)
              ∙ filled i h;
          finished =
              load32-agree (bar_step p len v).ram v.ram done_register
                (λ i q hi e. bar_step-main p len q v (omega arith))
              ∙ refl;
          bar = bar_step-left p len v ∙ ap (λ (z : Statics). z.pb_left - len) keeps;
          untouched = λ q main w o1 o2 o3.
              bar_step-main p len q v main
              ∙ store32-Misses (p2addr g1_mirror + 0x418) q t.ram (λ j hj e. o3 j hj (omega arith))
              ∙ keep q w o1 o2;
        }

  -- The service ends for every request but one that the guard lets past into the BIOS's work area:
  -- where the destination and the length stay below the shim, the destination must miss that area.
  -- It returns only from a valid request, with `Served`; a request that is not valid stops the shim
  -- with code 2, the offset and the destination, and a valid one with code 4 or 5 if the drive fails.
  pub shim_cart_service-Ends :
      ((f i : ℕ) → disc f i < 2 ^ 8)
      → (s : Machine Dev) → IsBytes s.ram
      → (request_dest s.ram + request_len s.ram ≤ phys shim_base
          → (i : ℕ) → i < request_len s.ram
          → ¬ (Work (phys (request_dest s.ram + i))))
      → Ends (λ _ t. Served s t) (ServiceDies s) (shim_cart_service p s)
  unfolding shim_cart_service shim_die
  shim_cart_service-Ends bytes s whole idle =
      let off = request_off s.ram in
      let len = request_len s.ram in
      let dest = request_dest s.ram in
      Ends-if (λ _ t. Served s t) (ServiceDies s) (rejects off len dest) _ _
        (λ bad. inl (bad, refl, refl, refl))
        λ ok.
          let (pos, small, inside, low, high) = bounds s whole ok in
          Ends-bind (λ _ t. Served s t) (ServiceDies s) (Delivered p laws off len dest s)
            (cart_read p off len dest s) _
            (Ends-weaken (Delivered p laws off len dest s) (ServiceDies s)
              (Delivered p laws off len dest s) CartDies (cart_read p off len dest s)
              (cart_read-Ends p laws bytes off len dest (omega arith) high (idle high) s)
              (λ _ t d. d) (λ c a b t e. inr (ok, e)))
            λ _ t d. served s whole ok t d
