-- ===== src/Shim/Steady/Decode.antt =====
-- The walk and its reference: the list decoded as the engine left it, and then served in order.
use cfp2dreamcast.Base.{
  ℕ, zero, suc, ◌+◌, ◌*◌, ◌/◌, ◌%◌, ◌^◌, ◌<◌, ◌≤◌, ◌≡◌, refl, ap, sym, subst, ◌∙◌, arith, Bool,
  true, false, ◌&&◌, ◌==◌, List, [], ◌∷◌, has_bit, if◌then◌else◌,
}
use cfp2dreamcast.Iface.{p2addr, phys}
use cfp2dreamcast.Machine.{
  Platform, Machine, Outcome, returns, died, rebooted, hung, M, Runs, ◌>>=◌,
}
use cfp2dreamcast.Machine.Memory.{Ram, load8, load32}
use cfp2dreamcast.Machine.Store.{Misses, load32-agree}
use cfp2dreamcast.Maple.Poll.{Beside}
use cfp2dreamcast.Shim.{Blobs}
use cfp2dreamcast.Shim.Ladder.{sum_bytes}
use cfp2dreamcast.Shim.Ladder.Decoded.{probe_answer, mie_probe_reply-eq-answer, sum_bytes-agree}
use cfp2dreamcast.Shim.Reply.{set_jvs, latched, maple_reply}
use cfp2dreamcast.Shim.Reply.Frame.{Fits, Kept, Resets}
use cfp2dreamcast.Shim.Steady.{in_main, serve, next_frame, walk}
use cfp2dreamcast.Shim.Steady.Walk.{recv_of, Stopped, serve-Runs}

-- The continuation of a routine matters only where the routine returns.
bind_cong :
    {D A B : Type 0} (o : Outcome D A) (f g : A → M D B)
    → ((a : A) (t : Machine D) → o ≡ returns a t → f a t ≡ g a t)
    → (elim o [
      | returns a t ↦ f a t
      | died c a b t ↦ died c a b t
      | rebooted t ↦ rebooted t
      | hung ↦ hung
    ])
      ≡ (elim o [
        | returns a t ↦ g a t
        | died c a b t ↦ died c a b t
        | rebooted t ↦ rebooted t
        | hung ↦ hung
      ])
bind_cong (returns a t) f g same = same a t refl
bind_cong (died c a b t) f g same = refl
bind_cong (rebooted t) f g same = refl
bind_cong hung f g same = refl

-- What a descriptor says: its address, operation and receive address, the header of its frame, the
-- command and the JVS byte, and for a chunk of firmware whether it is the last, and its sum.
pub record Request : Type 0 where
  pub addr : ℕ
  pub op : ℕ
  pub recv : ℕ
  pub header : ℕ
  pub sub : ℕ
  pub jvs : ℕ
  pub last_chunk : Bool
  pub sum : ℕ

abbrev pub decode : ℕ → Ram → Request
decode a m = record {
  addr = a;
  op = load32 m a / 256 % 8;
  recv = load32 m (a + 4) / 32 % 2 ^ 24 * 32;
  header = load32 m (a + 8);
  sub = load8 m (a + 12);
  jvs = load8 m (a + 20);
  last_chunk = load8 m (a + 13) == 0xff;
  sum = sum_bytes 28 (a + 12) m 0;
}

-- The requests of a list, `left` of them at most, as they lie in memory: the low byte of a
-- descriptor's first word counts the words behind the first three, and bit 31 ends the list.
unfoldable pub requests : ℕ → ℕ → Ram → List Request
requests zero a m = []
requests (suc left) a m =
    let rest = requests left ((a + 12 + load32 m a % 256 * 4) % 2 ^ 32) m in
    decode a m ∷ (if load32 m a / 2 ^ 31 % 2 == 1 then [] else rest)

module _ (p : Platform) (dma : p.Dev → Ram → p.Dev × Ram) (b : Blobs) where
  open p use {Dev}

  -- A request is served from what it says; no descriptor is read.
  pub serve_request : Request → M Dev (Unit {0})
  serve_request r s =
      let t = set_jvs p dma b (latched r.sub r.jvs s.pending_jvs) s in
      if r.op == 0
      then (if r.header % 2 ^ 8 == 0x86 && r.header / 2 ^ 8 % 2 ^ 8 == 0x20
          then (if in_main r.recv then maple_reply p dma b r.sub r.recv r.addr t else returns tt t)
          else if in_main r.recv
          then returns tt (record s {
            ram = probe_answer (r.header % 2 ^ 8) r.header r.recv r.last_chunk r.sum s.ram;
          })
          else returns tt s)
      else returns tt s

  serve-eq-request :
      (a : ℕ) (s : Machine Dev) → serve p dma b a s ≡ serve_request (decode a s.ram) s
  unfolding serve serve_request
  serve-eq-request a s = rw (← mie_probe_reply-eq-answer _ _ _ a s.ram) refl

  -- One after the other.
  pub serve_all : List Request → M Dev (Unit {0})
  serve_all [] s = returns tt s
  serve_all (r ∷ more) s = (serve_request r >>= λ _. serve_all more) s

  module _ (size : ℕ) (area : ℕ → Type 0) where
    -- The 40 bytes from each descriptor's start on, which are all that a serving reads of it, are in
    -- the area, and each reply that has a sane address misses it.
    abbrev pub Apart : List Request → Type 0
    Apart [] = Unit {0}
    Apart (r ∷ more) =
        ((i : ℕ) → i < 40 → area (phys (r.addr + i)))
        × (in_main r.recv ≡ true → (q : ℕ) → area q → Misses q (p2addr r.recv) size)
        × Apart more

    abbrev Agrees : Ram → Ram → Type 0
    Agrees m k = (q : ℕ) → area q → k q ≡ m q

    module _ (room : 4 ≤ size) (fits : Fits b size) (wide : 132 ≤ size)
        (beside : (q : ℕ) → area q → Beside size q)
        (keeps : (q : ℕ) → area q → (d : Dev) (m : Ram) → (dma d m).1 q ≡ m q) where
      module _ (m k : Ram) (a : ℕ) (same : Agrees m k)
          (head : (i : ℕ) → i < 40 → area (phys (a + i))) where
        same_byte : (o : ℕ) → o < 40 → load8 k (a + o) ≡ load8 m (a + o)
        same_byte o h = same (phys (a + o)) (head o h)

        same_word : (w o : ℕ) → w ≡ a + o → o ≤ 36 → load32 k w ≡ load32 m w
        same_word w o at fit = load32-agree k m w λ i q hi e.
            let there : phys (a + (o + i)) ≡ phys (w + i) = omega arith in
            same q (subst area (there ∙ sym e) (head (o + i) (omega arith)))

        same_sum : sum_bytes 28 (a + 12) k 0 ≡ sum_bytes 28 (a + 12) m 0
        same_sum = sum_bytes-agree 28 (a + 12) 0 m k λ i h.
            let e : a + 12 + i ≡ a + (12 + i) = omega arith in
            rw e (same_byte (12 + i) (omega arith))

        same_request : decode a k ≡ decode a m
        same_request =
            let first = same_word a 0 (omega arith) (omega arith) in
            let second = same_word (a + 4) 4 refl (omega arith) in
            let third = same_word (a + 8) 8 refl (omega arith) in
            let command = same_byte 12 (omega arith) in
            let jvs_byte = same_byte 20 (omega arith) in
            let chunk = same_byte 13 (omega arith) in
            λ i. record {
              addr = a;
              op = first i / 256 % 8;
              recv = second i / 32 % 2 ^ 24 * 32;
              header = third i;
              sub = command i;
              jvs = jvs_byte i;
              last_chunk = chunk i == 0xff;
              sum = same_sum i;
            }

      serve_keeps :
          (m : Ram) (a : ℕ) (more : List Request) (s t : Machine Dev)
          → Agrees m s.ram
          → Apart (decode a m ∷ more)
          → serve p dma b a s ≡ returns tt t
          → Agrees m t.ram
      serve_keeps m a more s t same (head, clear, later) ran q h =
          let rcv : recv_of s.ram a ≡ recv_of m a =
            ap (λ (r : Request). r.recv) (same_request m s.ram a same head) in
          let run =
            serve-Runs p dma size q room (beside q h) (keeps q h) b fits wide a s
              (λ g. rw rcv (clear (rw (sym rcv) g) q h)) in
          subst (λ o. Runs (Kept q s) Stopped Resets o) ran run ∙ same q h

      -- What follows a descriptor, which is the last of its list or not.
      tail_from :
          (last : Bool) (left addr next : ℕ) (m : Ram) (u : Machine Dev)
          → addr ≡ next
          → Apart (if last then [] else requests left next m)
          → (Apart (requests left next m)
              → walk p dma b left next u ≡ serve_all (requests left next m) u)
          → (if last then returns tt u else walk p dma b left addr u)
            ≡ serve_all (if last then [] else requests left next m) u
      unfolding serve_all
      tail_from true left addr next m u there apart later = refl
      tail_from false left addr next m u there apart later =
          ap (λ a. walk p dma b left a u) there ∙ later apart

      walk_from :
          (left addr : ℕ) (m : Ram) (s : Machine Dev)
          → Agrees m s.ram
          → Apart (requests left addr m)
          → walk p dma b left addr s ≡ serve_all (requests left addr m) s
      unfolding walk requests serve_all
      walk_from zero addr m s same apart = refl
      walk_from (suc left) addr m s same apart =
          let h1 = load32 m addr in
          let next = (addr + 12 + h1 % 256 * 4) % 2 ^ 32 in
          let there : next_frame p dma b h1 addr ≡ next = omega arith in
          let more = if has_bit h1 31 then [] else requests left next m in
          let word = same_word m s.ram addr same apart.0 addr 0 (omega arith) (omega arith) in
          let request =
            serve-eq-request addr s
            ∙ ap (λ r. serve_request r s) (same_request m s.ram addr same apart.0) in
          bind_cong (serve p dma b addr s) _ (λ _. serve_all more)
            (λ _ u ran.
              (λ i.
                if has_bit (word i) 31
                then returns tt u
                else walk p dma b left (next_frame p dma b (word i) addr) u)
              ∙ tail_from (has_bit h1 31) left (next_frame p dma b h1 addr) next m u there apart.2
                  (walk_from left next m u (serve_keeps m addr more s u same apart ran)))
          ∙ ap
              (λ o. elim o [
                | returns z t ↦ serve_all more t
                | died c x y t ↦ died c x y t
                | rebooted t ↦ rebooted t
                | hung ↦ hung
              ])
              request

      -- The walk serves the list as the engine left it: what each of at most `left` descriptors says is
      -- what `requests` decodes from memory before any of them is served, and the walk serves these
      -- requests in order. The condition is an area of memory that has the 40 bytes from each
      -- descriptor's start on in it, and that neither the `size` bytes of a reply at a sane address
      -- nor the bus and its two buffers meet.
      pub walk-eq-serve_all :
          (left addr : ℕ) (s : Machine Dev)
          → Apart (requests left addr s.ram)
          → walk p dma b left addr s ≡ serve_all (requests left addr s.ram) s
      walk-eq-serve_all left addr s apart = walk_from left addr s.ram s (λ q h. refl) apart
