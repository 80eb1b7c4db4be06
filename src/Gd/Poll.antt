-- ===== src/Gd/Poll.antt =====
-- The poll loop of a read: it ends, and it ends well only with the sectors in memory.
use cfp2dreamcast.Base.{
  ℕ, zero, suc, ◌+◌, ◌*◌, ◌<◌, ◌≡◌, ◌≢◌, refl, ◌∙◌, Bool, true, arith, ltb, if◌then◌else◌,
}
use cfp2dreamcast.Machine.{ℤ, pos, negsuc, Platform, Machine, Outcome, Ends}
use cfp2dreamcast.Machine.Memory.{Ram}
use cfp2dreamcast.Machine.Ends.{Ends-if, Ends-mono}
use cfp2dreamcast.Gd.{
  Status, completed, failed, not_found, pending, status, poll, poll_limit, not_found_limit, pump,
  after,
}
use cfp2dreamcast.Gd.Laws.{GdLaws, Untouched, Loaded}
use cfp2dreamcast.Util.{shim_die}

pub Untouched-trans :
    (Work : ℕ → Type 0) (buf size : ℕ) {m k l : Ram}
    → Untouched Work buf size m k
    → Untouched Work buf size k l
    → Untouched Work buf size m l
Untouched-trans Work buf size f g q w out = g q w out ∙ f q w out

-- The shim's variables are as they were but for the last error.
abbrev pub Keeps : {D : Type 0} → Machine D → Machine D → Type 0
Keeps s t = t.statics ≡ record s.statics { gd_last_err = t.gd_last_err }

abbrev pub DiesWith : {D : Type 0} → ℕ → ℕ → ℕ → ℕ → ℕ → ℕ → Machine D → Type 0
DiesWith code x y c a b t = (c ≡ code) × (a ≡ x) × (b ≡ y)

pub status-completed : (z : ℤ) → status z ≡ completed → z ≡ pos 2
status-completed z h = ground arith

pub status-pending : (z : ℤ) → status z ≡ pending → (r : ℕ) × (z ≡ pos r) × (r ≢ 2)
status-pending (pos n) h = (n, refl, λ e. ground arith)
status-pending (negsuc n) h = absurd (ground arith)

status-not_found : (z : ℤ) → status z ≡ not_found → (r : ℕ) × (z ≡ pos r) × (r ≢ 2)
status-not_found (pos n) h = (n, refl, λ e. ground arith)
status-not_found (negsuc n) h = absurd (ground arith)

module _ {D A : Type 0} (P : A → Machine D → Type 0) (E : ℕ → ℕ → ℕ → Machine D → Type 0) where
  pub Ends-status :
      (z : Status) (a b c d : Outcome D A)
      → (z ≡ completed → Ends P E a)
      → (z ≡ failed → Ends P E b)
      → (z ≡ not_found → Ends P E c)
      → (z ≡ pending → Ends P E d)
      → Ends P E (elim z [ completed ↦ a | failed ↦ b | not_found ↦ c | pending ↦ d ])
  Ends-status completed a b c d ha hb hc hd = ha refl
  Ends-status failed a b c d ha hb hc hd = hb refl
  Ends-status not_found a b c d ha hb hc hd = hc refl
  Ends-status pending a b c d ha hb hc hd = hd refl

module _ (p : Platform) {disc : ℕ → ℕ → ℕ} (laws : GdLaws p disc) (req buf fad n : ℕ)
    (ack : Machine p.Dev → Machine p.Dev) (ack_ram : (t : Machine p.Dev) → (ack t).ram ≡ t.ram)
    (ack_statics : (t : Machine p.Dev) → (ack t).statics ≡ t.statics) where
  open p use {Dev}
  open laws use {Work, InFlight}

  -- How a poll loop that starts at `s` may end.
  abbrev pub PollEnd : Machine Dev → Bool → Machine Dev → Type 0
  PollEnd s done t =
      Untouched Work buf (n * 2048) s.ram t.ram
      × (done ≡ true → Loaded disc buf fad n t.ram)
      × Keeps s t

  pump_frame :
      (s : Machine Dev)
      → InFlight req buf fad n s.dev
      → Untouched Work buf (n * 2048) s.ram (pump p req s).ram
  pump_frame s h =
      Untouched-trans Work buf (n * 2048) (laws.exec_frame req buf fad n s.dev s.ram h)
        (laws.check_frame req buf fad n _ _ (laws.exec_flight req buf fad n s.dev s.ram h))

  pub poll-Ends :
      (left guard : ℕ) (s : Machine Dev)
      → InFlight req buf fad n s.dev
      → poll_limit < left + guard
      → guard < poll_limit + 1
      → Ends (PollEnd s) (DiesWith 5 fad n) (poll p left guard req fad n ack s)
  unfolding poll shim_die
  poll-Ends zero guard s h fuel below = absurd (omega arith)
  poll-Ends (suc left) guard s h fuel below =
      let y = pump p req s in
      let t = after p s y in
      let fly = λ (r : ℕ) (e : y.ret ≡ pos r) (ne : r ≢ 2).
        laws.check_flight req buf fad n r _ _ (laws.exec_flight req buf fad n s.dev s.ram h) e ne in
      let frame = pump_frame s h in
      let again = poll p left (guard + 1) req fad n ack t in
      let stop : Outcome Dev Bool = shim_die p 5 fad n t in
      let count = if ltb poll_limit (guard + 1) then stop else again in
      let rest : InFlight req buf fad n t.dev → Ends (PollEnd s) (DiesWith 5 fad n) count = λ g.
        Ends-if (PollEnd s) (DiesWith 5 fad n) (ltb poll_limit (guard + 1)) stop again
          (λ _. (refl, refl, refl))
          (λ e.
            Ends-mono (PollEnd s) (DiesWith 5 fad n) (PollEnd t) again
              (poll-Ends left (guard + 1) t g (omega arith) (ground arith))
              (λ done u end. (Untouched-trans Work buf (n * 2048) frame end.0, end.1, end.2))) in
      Ends-status (PollEnd s) (DiesWith 5 fad n) (status y.ret) _ _ _ _
        (λ e. (
          rw ack_ram frame,
          λ _. rw ack_ram (
              laws.check_done req buf fad n _ _ (laws.exec_flight req buf fad n s.dev s.ram h)
                (status-completed y.ret e)),
          rw ack_statics refl,
        ))
        (λ e. (frame, λ q. absurd (cc), refl))
        (λ e.
          Ends-if (PollEnd s) (DiesWith 5 fad n) (ltb not_found_limit guard) _ count
            (λ _. (frame, λ q. absurd (cc), refl))
            (λ _. let (r, f, ne) = status-not_found y.ret e in rest (fly r f ne)))
        (λ e. let (r, f, ne) = status-pending y.ret e in rest (fly r f ne))
