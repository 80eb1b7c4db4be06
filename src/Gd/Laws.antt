-- ===== src/Gd/Laws.antt =====
-- What the reads rely on in the BIOS and the drive: its documented calls, as hypotheses.
use cfp2dreamcast.Base.{ℕ, suc, ◌+◌, ◌*◌, ◌/◌, ◌%◌, ◌<◌, ◌≡◌, ◌⊎◌, List, [], ◌∷◌}
use cfp2dreamcast.Iface.{phys}
use cfp2dreamcast.Machine.{Platform, pos}
use cfp2dreamcast.Machine.Memory.{Ram}
use cfp2dreamcast.Machine.Store.{Misses}

-- `m` and `k` agree but for the BIOS's own work area and the `size` bytes from `buf` on.
abbrev pub Untouched : (ℕ → Type 0) → ℕ → ℕ → Ram → Ram → Type 0
Untouched Work buf size m k = (q : ℕ) → ¬ (Work q) → Misses q buf size → k q ≡ m q

-- The `n` sectors of the disc from `fad` on lie in memory from `buf` on.
abbrev pub Loaded : (ℕ → ℕ → ℕ) → ℕ → ℕ → ℕ → Ram → Type 0
Loaded disc buf fad n m =
    (i : ℕ) → i < n * 2048 → m (phys (buf + i)) ≡ disc (fad + i / 2048) (i % 2048)

abbrev pub params : ℕ → ℕ → ℕ → List ℕ
params buf fad n = fad ∷ n ∷ buf ∷ 0 ∷ []

module _ (p : Platform) where
  open p use {Dev, gdc}

  pub record GdLaws (disc : ℕ → ℕ → ℕ) : Type 1 where
    -- The bytes that the BIOS keeps for itself.
    pub Work : ℕ → Type 0
    -- A transfer is queued under an identifier, by buffer, first sector and count.
    pub InFlight : ℕ → ℕ → ℕ → ℕ → Dev → Type 0
    -- No transfer is queued.
    pub Quiet : Dev → Type 0
    -- Sending a read moves no data yet.
    pub send_frame :
        (cmd buf fad n q : ℕ) (d : Dev) (m : Ram)
        → ¬ (Work q)
        → (gdc cmd (params buf fad n) 0 d m).ram q ≡ m q
    -- A read that is accepted is queued.
    pub send_accepted :
        (cmd buf fad n r : ℕ) (d : Dev) (m : Ram)
        → (cmd ≡ 16) ⊎ (cmd ≡ 17)
        → (gdc cmd (params buf fad n) 0 d m).ret ≡ pos (suc r)
        → InFlight (suc r) buf fad n (gdc cmd (params buf fad n) 0 d m).dev
    -- While a transfer is queued, EXEC and CHECK write into its buffer alone.
    pub exec_frame :
        (req buf fad n : ℕ) (d : Dev) (m : Ram)
        → InFlight req buf fad n d
        → Untouched Work buf (n * 2048) m (gdc 0 [] 2 d m).ram
    pub exec_flight :
        (req buf fad n : ℕ) (d : Dev) (m : Ram)
        → InFlight req buf fad n d
        → InFlight req buf fad n (gdc 0 [] 2 d m).dev
    pub check_frame :
        (req buf fad n : ℕ) (d : Dev) (m : Ram)
        → InFlight req buf fad n d
        → Untouched Work buf (n * 2048) m (gdc req [] 1 d m).ram
    -- A CHECK that reports neither an end nor an error leaves the transfer queued.
    pub check_flight :
        (req buf fad n r : ℕ) (d : Dev) (m : Ram)
        → InFlight req buf fad n d
        → (gdc req [] 1 d m).ret ≡ pos r
        → (r ≡ 2 → ⊥)
        → InFlight req buf fad n (gdc req [] 1 d m).dev
    -- A transfer reported complete is in its buffer.
    pub check_done :
        (req buf fad n : ℕ) (d : Dev) (m : Ram)
        → InFlight req buf fad n d
        → (gdc req [] 1 d m).ret ≡ pos 2
        → Loaded disc buf fad n (gdc req [] 1 d m).ram
    -- The re-initialisation of the BIOS state drops every transfer.
    pub sysinit_frame : (q : ℕ) (d : Dev) (m : Ram) → ¬ (Work q) → (gdc 0 [] 3 d m).ram q ≡ m q
    pub sysinit_quiet : (d : Dev) (m : Ram) → Quiet (gdc 0 [] 3 d m).dev
    -- With no transfer queued, a call with no parameter block keeps to the work area.
    pub quiet_frame :
        (cmd func q : ℕ) (d : Dev) (m : Ram)
        → Quiet d
        → ¬ (Work q)
        → (gdc cmd [] func d m).ram q ≡ m q
    pub quiet_quiet : (cmd func : ℕ) (d : Dev) (m : Ram) → Quiet d → Quiet (gdc cmd [] func d m).dev
