-- ===== src/Machine.antt =====
-- The machine under the shim: memory by physical address, the devices, and the shim's static
-- variables. Caches, the MMU and the serial port are left out: the views P0, P1 and P2 of an
-- address are one byte, and the default build sends nothing to the port.
pub mod Memory
pub mod Store
pub mod Ends
use cfp2dreamcast.Base.{ℕ, Bool, List, arith}
use Memory.{Ram}

-- A signed C int: `negsuc n` is -(n + 1).
pub data ℤ : Type 0 where
  pos : ℕ → ℤ
  negsuc : ℕ → ℤ

-- What a BIOS GD-ROM call leaves: its result, the first word of its status block, the devices and
-- memory.
pub record Answer (D : Type 0) : Type 0 where
  pub ret : ℤ
  pub stat0 : ℕ
  pub dev : D
  pub ram : Ram

-- What is not the shim's: the GD-ROM call behind the BIOS vector, by command, parameter block and
-- function code, and the device registers by address.
pub record Platform : Type 1 where
  pub Dev : Type 0
  pub gdc : ℕ → List ℕ → ℕ → Dev → Ram → Answer Dev
  pub load_reg : ℕ → Dev → ℕ
  pub store_reg : ℕ → ℕ → Dev → Dev

-- The static variables of maple.c; the headers are by port.
pub record Bus : Type 0 where
  pub bus_init_done : ℕ
  pub maple_hdr : ℕ → ℕ
  pub devinfo_hdr : ℕ → ℕ

-- The pad cache of main.c.
pub record Pads : Type 0 where
  pub in_tcnt : ℕ
  pub raw_cache_a : ℕ
  pub raw_cache_b : ℕ
  pub pad_thresh : ℕ

-- The counters of main.c.
pub record Counts : Type 0 where
  pub ee_wr_count : ℕ
  pub steady_beat : ℕ
  pub trig_seen : ℕ
  pub rc_ok_seen : ℕ
  pub reply_ticks : ℕ
  pub getcond_total : ℕ
  pub gc_rate : ℕ
  pub cc_rate : ℕ
  pub last_gc : ℕ
  pub last_cc : ℕ

-- The static variables of cart.c, gd.c, util.c and main.c that the default build keeps.
pub record Statics : Type 0 where
  pub cart_first : ℕ
  pub cart_count : ℕ
  pub pb_left : ℕ
  pub gd_last_err : ℕ
  pub cable_latch : ℕ
  pub pending_jvs : ℕ
  pub pending_cfg : ℕ
  pub cfg_seen : ℕ
  pub ee_logged : ℕ
  pub eeread_logged : ℕ
  pub hud_marks : ℕ
  pub bus : Bus
  pub pads : Pads
  pub counts : Counts

pub record Machine (D : Type 0) : Type 0 where
  pub ram : Ram
  pub dev : D
  pub statics : Statics
  pub open statics use *

-- How a routine ends: it returns, it stops in `shim_die`, it restarts the console, or the fuel of
-- its model runs out.
pub data Outcome {ℓ} (D : Type 0) (A : Type ℓ) : Type ℓ where
  returns : A → Machine D → Outcome D A
  died : ℕ → ℕ → ℕ → Machine D → Outcome D A
  rebooted : Machine D → Outcome D A
  hung : Outcome D A

abbrev pub M : Type 0 → Type 0 → Type 0
M D A = Machine D → Outcome D A

infixl 5 ◌>>=◌ ◌>>◌
abbrev pub ◌>>=◌ : {D A B : Type 0} → M D A → (A → M D B) → M D B
◌>>=◌ m f s = elim (m s) [
  | returns a t ↦ f a t
  | died c a b t ↦ died c a b t
  | rebooted t ↦ rebooted t
  | hung ↦ hung
]

abbrev pub ◌>>◌ : {D B : Type 0} → M D (Unit {0}) → M D B → M D B
m >> k = m >>= λ _. k

abbrev pub pure : {D A : Type 0} → A → M D A
pure a s = returns a s

-- A change of the state.
abbrev pub modify : {D : Type 0} → (Machine D → Machine D) → M D (Unit {0})
modify f s = returns tt (f s)

-- `Runs P E R o`: the routine returned with `P`, died with `E` or restarted the console with `R`;
-- its fuel was enough.
abbrev pub Runs {ℓ} :
    {D : Type 0} {A : Type ℓ}
    → (A → Machine D → Type 0)
    → (ℕ → ℕ → ℕ → Machine D → Type 0)
    → (Machine D → Type 0)
    → Outcome D A
    → Type 0
Runs P E R (returns a s) = P a s
Runs P E R (died c a b s) = E c a b s
Runs P E R (rebooted s) = R s
Runs P E R hung = ⊥

-- `Ends P E o`: the same of a routine that never restarts the console.
abbrev pub Ends {ℓ} :
    {D : Type 0} {A : Type ℓ}
    → (A → Machine D → Type 0)
    → (ℕ → ℕ → ℕ → Machine D → Type 0)
    → Outcome D A
    → Type 0
Ends P E (returns a s) = P a s
Ends P E (died c a b s) = E c a b s
Ends P E (rebooted s) = ⊥
Ends P E hung = ⊥

-- No fatal stop.
abbrev pub Never : {D : Type 0} → ℕ → ℕ → ℕ → Machine D → Type 0
Never c a b t = ⊥
