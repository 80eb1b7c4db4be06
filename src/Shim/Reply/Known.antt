-- ===== src/Shim/Reply/Known.antt =====
-- Which commands are answered, which stop the shim and which may restart the console.
use cfp2dreamcast.Base.{
  ℕ, ◌≤◌, ◌≡◌, refl, ap, ◌∙◌, ◌⊎◌, inl, inr, arith, Bool, true, false, ◌==◌, ◌||◌, none,
}
use cfp2dreamcast.Iface.{p2addr}
use cfp2dreamcast.Machine.{Platform, Machine, Outcome, Runs, Never}
use cfp2dreamcast.Machine.Ends.{Runs-if, Runs-option, Runs-weaken}
use cfp2dreamcast.Machine.Memory.{Ram}
use cfp2dreamcast.Machine.Store.{Misses}
use cfp2dreamcast.Maple.Poll.{Beside}
use cfp2dreamcast.Shim.{Blobs}
use cfp2dreamcast.Shim.Reply.{
  maple_reply, reply_eeprom, reply_switches, reply_write, reply_ack, count_reply,
}
use cfp2dreamcast.Shim.Reply.Table.{ack}
use cfp2dreamcast.Util.{shim_die}
use cfp2dreamcast.Shim.Input.{asks_reset}
use cfp2dreamcast.Shim.Reply.Frame.{
  Fits, ack-Fits, Kept, Resets, copied, jvs_digital-Beside, reply_receive-Beside,
  reply_eeprom-Beside, reply_switches-Beside, reply_write-Beside,
}

-- The commands that the code knows.
abbrev pub is_known : ℕ → Bool
is_known sub =
    sub == 0x01
    || sub == 0x03
    || sub == 0x0b
    || sub == 0x13
    || sub == 0x15
    || sub == 0x17
    || sub == 0x19
    || sub == 0x21
    || sub == 0x27
    || sub == 0x31
    || sub == 0x33
    || sub == 0xff

-- A command that is not known has stopped the shim, with the command and its receive address.
abbrev pub Unknown : {D : Type 0} → ℕ → ℕ → ℕ → ℕ → ℕ → Machine D → Type 0
Unknown sub recv code x y t = (is_known sub ≡ false) × (code ≡ 3) × (x ≡ sub) × (y ≡ recv)

abbrev pub Replied : {D : Type 0} → ℕ → ℕ → Machine D → Unit {0} → Machine D → Type 0
Replied q sub s _ t = (is_known sub ≡ true) × (t.ram q ≡ s.ram q)

-- Only a live poll restarts the console.
abbrev pub Restarted : {D : Type 0} → ℕ → Machine D → Type 0
Restarted sub t = ((sub ≡ 0x33) ⊎ (sub ≡ 0x15)) × (asks_reset t.pads ≡ true)

module _ (p : Platform) (dma : p.Dev → Ram → p.Dev × Ram) (size q : ℕ) (room : 4 ≤ size)
    (out : Beside size q) (keeps : (d : p.Dev) (m : Ram) → (dma d m).1 q ≡ m q) (b : Blobs)
    (fits : Fits b size) (wide : 132 ≤ size) where
  open p use {Dev}

  reply_ack-Runs :
      (sub recv : ℕ) (s t : Machine Dev)
      → t.ram ≡ s.ram
      → Misses q (p2addr recv) size
      → (ack b sub ≡ none → is_known sub ≡ false)
      → Runs (Replied q sub s) (Unknown sub recv) (Restarted sub) (reply_ack p dma b sub recv t)
  unfolding reply_ack shim_die
  reply_ack-Runs sub recv s t same far unknown =
      Runs-option (Replied q sub s) (Unknown sub recv) (Restarted sub) (ack b sub) _ _
        (λ xs e. (
          ground arith,
          copied p dma size q room out keeps (p2addr recv) xs t.ram (ack-Fits b size sub xs fits e)
                far
              ∙ ap (λ (m : Ram). m q) same,
        ))
        (λ e. (unknown e, refl, refl, refl))

  -- A reply to a command: a known one returns with byte `q` as it was, which lies outside the
  -- `size` bytes at the receive address and the two buffers of the bus, or restarts the console,
  -- in a live poll with the reset combination held; one that is not known stops the shim with
  -- code 3, the command and the address.
  pub maple_reply-Runs :
      (sub recv frame : ℕ) (s : Machine Dev)
      → Misses q (p2addr recv) size
      → Runs
          (Replied q sub s)
          (Unknown sub recv)
          (Restarted sub)
          (maple_reply p dma b sub recv frame s)
  unfolding maple_reply
  maple_reply-Runs sub recv frame s far =
      let rx = p2addr recv in
      let t = count_reply p dma b s in
      let live : Misses q rx 64 = λ i h. far i (omega arith) in
      let split = Runs-if (Replied q sub s) (Unknown sub recv) (Restarted sub) in
      let polls =
        λ (o : Outcome Dev (Unit {0})) (known : is_known sub ≡ true)
            (which : (sub ≡ 0x33) ⊎ (sub ≡ 0x15)) (run : Runs (Kept q t) Never Resets o).
          Runs-weaken (Replied q sub s) (Unknown sub recv) (Restarted sub) (Kept q t) Never Resets o
            run (λ _ u e. (known, e)) (λ c x y u h. absurd h) (λ u e. (which, e)) in
      let plain =
        λ (o : Outcome Dev (Unit {0})) (known : is_known sub ≡ true)
            (run : Runs (Kept q t) Never (λ u. ⊥) o).
          Runs-weaken (Replied q sub s) (Unknown sub recv) (Restarted sub) (Kept q t) Never (λ u. ⊥)
            o run (λ _ u e. (known, e)) (λ c x y u h. absurd h) (λ u h. absurd h) in
      split (sub == 0x33) _ _
        (λ e.
          polls _ (ground arith) (inl (ground arith))
            (jvs_digital-Beside p dma size q room out keeps rx t live))
        (λ e1.
          split (sub == 0x15) _ _
            (λ e.
              polls _ (ground arith) (inr (ground arith))
                (reply_receive-Beside p dma size q room out keeps b fits wide rx t far))
            (λ e2.
              split (sub == 0x03) _ _
                (λ e.
                  plain (reply_eeprom p dma b rx t) (ground arith)
                    (reply_eeprom-Beside p dma size q room out keeps b fits wide rx t far))
                (λ e3.
                  split (sub == 0x31) _ _
                    (λ e.
                      plain (reply_switches p dma b rx t) (ground arith)
                        (reply_switches-Beside p dma size q room out keeps b fits wide rx t far))
                    (λ e4.
                      split (sub == 0x0b) _ _
                        (λ e.
                          plain (reply_write p dma b rx t) (ground arith)
                            (reply_write-Beside p dma size q room out keeps b fits wide rx t far))
                        (λ e5. reply_ack-Runs sub recv s t refl far (ground arith))))))
