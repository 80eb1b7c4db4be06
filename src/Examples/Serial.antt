-- ===== src/Examples/Serial.antt =====
-- A port that is busy for one read after each character, and keeps what it is sent.
use cfp2dreamcast.Base.{
  ℕ, ◌+◌, ◌≤◌, ◌≡◌, refl, arith, Bool, true, false, some, List, [], ◌∷◌, ◌++◌, ◌⊎◌, ◌==◌,
  if◌then◌else◌,
}
use cfp2dreamcast.Machine.{Platform, pos}
use cfp2dreamcast.Serial.{spin_limit, is_ready, transmit, scif_putc, report}
use cfp2dreamcast.Serial.Wait.{settled, ReadyAt, BusyFor, scif_putc-Ends}
use cfp2dreamcast.Serial.Report.{PortLaws, Tells, report-Tells}

abbrev Wire : Type 0
Wire = Bool × List ℕ

abbrev status_word : Wire → ℕ
status_word d = if d.0 then 0x40 else 0x60

abbrev line : Platform
line = record {
  Dev = Wire;
  gdc = λ cmd param func d m. record { ret = pos 0; stat0 = 0; dev = d; ram = m };
  load_reg = λ a d. status_word d;
  store_reg = λ a v d. if a == 0xffe8000c then (true, d.1 ++ v ∷ []) else d;
}

abbrev rest : Wire → Wire
rest d = (false, d.1)

line-drains :
    (d : Wire) → (k : ℕ) × (k ≤ spin_limit) × (is_ready line rest (settled line rest k d) ≡ true)
unfolding spin_limit
line-drains (b, t) = (1, omega arith, refl)

line_laws : PortLaws line rest
line_laws = record {
  taken = λ d. d.1;
  taken_settle = λ d. refl;
  taken_data = λ c d h. refl;
  taken_flags = λ v d. refl;
  drains = line-drains;
}

abbrev free : Wire
free = (false, [])

report-Tells_example :
    (e : Wire) × (report line rest true 4 451878 0xcafe0002 free ≡ some e)
    × Tells line rest line_laws 4 451878 0xcafe0002 free e
report-Tells_example =
    report-Tells line rest line_laws 4 451878 0xcafe0002 free (omega arith) (omega arith)
      (omega arith)

scif_putc-Ends_example :
    ((k : ℕ) × (k ≤ spin_limit + 1)
      × ReadyAt line rest k (true, [])
      × (scif_putc line rest true 65 (true, [])
          ≡ some (transmit line rest 65 (settled line rest k (true, [])))))
    ⊎ (BusyFor line rest (spin_limit + 2) (true, [])
        × (scif_putc line rest true 65 (true, [])
            ≡ some (settled line rest (spin_limit + 1) (true, []))))
scif_putc-Ends_example = scif_putc-Ends line rest 65 (true, [])
