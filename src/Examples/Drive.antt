-- ===== src/Examples/Drive.antt =====
-- A drive that accepts every read that fits memory and has it done by the first CHECK. Its disc holds
-- at byte `i` of sector `f` the number `f + i`, cut to a byte, but for the letters at the start of the
-- cartridge image; the BIOS's work area is the first page of memory.
use cfp2dreamcast.Base.{
  ℕ, suc, ◌+◌, ◌-◌, ◌*◌, ◌/◌, ◌%◌, ◌^◌, ◌<◌, ◌≤◌, ◌≡◌, refl, sym, subst, true, List, [], ◌∷◌, arith,
  ◌&&◌, get_or, ltb, leb, ◌==◌, if◌then◌else◌,
}
use cfp2dreamcast.Iface.{phys}
use cfp2dreamcast.Machine.{pos, Platform, Answer}
use cfp2dreamcast.Machine.Memory.{Ram}
use cfp2dreamcast.Cart.Live.{Healthy}
use cfp2dreamcast.Loader.Boot.{naomi}
use cfp2dreamcast.Gd.{request, after}
use cfp2dreamcast.Gd.Progress.{Completes}
use cfp2dreamcast.Gd.Laws.{GdLaws, Untouched, Loaded, params}

unfoldable pub disc : ℕ → ℕ → ℕ
disc f i = if f == 451878 && ltb i 5 then get_or naomi i 0 else (f + i) % 2 ^ 8

-- What the drive is doing.
pub data Job : Type 0 where
  rest : Job
  reading : ℕ → ℕ → ℕ → Job

-- The place of physical address `q` in a buffer.
abbrev place : ℕ → ℕ → ℕ
place q buf = (q + 2 ^ 29 - phys buf) % 2 ^ 29

transfer : ℕ → ℕ → ℕ → Ram → Ram
transfer buf fad n m q =
    let i = place q buf in
    if ltb q (2 ^ 29)
    then (if ltb i (n * 2048) then disc (fad + i / 2048) (i % 2048) else m q)
    else m q

check : Job → Ram → Answer Job
check rest m = record { ret = pos 0; stat0 = 0; dev = rest; ram = m }
check (reading buf fad n) m = record {
  ret = pos 2;
  stat0 = 0;
  dev = rest;
  ram = transfer buf fad n m;
}

send : List ℕ → Job → Ram → Answer Job
send (fad ∷ n ∷ buf ∷ more) d m =
    if leb (n * 2048) (2 ^ 29)
    then record { ret = pos 1; stat0 = 0; dev = reading buf fad n; ram = m }
    else record { ret = pos 0; stat0 = 0; dev = d; ram = m }
send _ d m = record { ret = pos 0; stat0 = 0; dev = d; ram = m }

unfoldable pub call : ℕ → List ℕ → ℕ → Job → Ram → Answer Job
unfolding check send transfer
call cmd param func d m =
    if func == 0
    then send param d m
    else if func == 1
    then check d m
    else if func == 3
    then record { ret = pos 0; stat0 = 0; dev = rest; ram = m }
    else record { ret = pos 0; stat0 = 0; dev = d; ram = m }

abbrev pub drive : Platform
drive = record { Dev = Job; gdc = call; load_reg = λ a d. 0; store_reg = λ a v d. d }

abbrev pub Flying : ℕ → ℕ → ℕ → ℕ → Job → Type 0
Flying req buf fad n rest = ⊥
Flying req buf fad n (reading b f k) = (b ≡ buf) × (f ≡ fad) × (k ≡ n) × (n * 2048 ≤ 2 ^ 29)

abbrev IsResting : Job → Type 0
IsResting rest = Unit {0}
IsResting (reading b f k) = ⊥

abbrev FirstPage : ℕ → Type 0
FirstPage q = q < 2 ^ 12

accepted :
    (cmd buf fad n r : ℕ) (d : Job) (m : Ram)
    → (call cmd (params buf fad n) 0 d m).ret ≡ pos (suc r)
    → Flying (suc r) buf fad n (call cmd (params buf fad n) 0 d m).dev
unfolding call
accepted cmd buf fad n r d m h = ground arith

send_still :
    (cmd buf fad n q : ℕ) (d : Job) (m : Ram) → (call cmd (params buf fad n) 0 d m).ram q ≡ m q
unfolding call
send_still cmd buf fad n q d m = ground arith

check_writes :
    (req buf fad n : ℕ) (d : Job) (m : Ram)
    → Flying req buf fad n d
    → Untouched FirstPage buf (n * 2048) m (call req [] 1 d m).ram
unfolding call transfer
check_writes req buf fad n rest m h q w out = absurd h
check_writes req buf fad n (reading b f k) m h q w out = ground (arith, out (place q buf))

pub check_fills :
    (req buf fad n : ℕ) (d : Job) (m : Ram)
    → Flying req buf fad n d
    → Loaded disc buf fad n (call req [] 1 d m).ram
unfolding call transfer
check_fills req buf fad n rest m h i lt = absurd h
check_fills req buf fad n (reading b f k) m h i lt =
    let e : place (phys (b + i)) b ≡ i = omega arith in ground (arith, e)

quiet_call :
    (cmd func : ℕ) (d : Job) (m : Ram)
    → IsResting d
    → ((q : ℕ) → (call cmd [] func d m).ram q ≡ m q) × IsResting (call cmd [] func d m).dev
unfolding call
quiet_call cmd func rest m h = (λ q. ground arith, ground arith)
quiet_call cmd func (reading b f k) m h = absurd h

exec_still : (d : Job) (m : Ram) → ((call 0 [] 2 d m).ram ≡ m) × ((call 0 [] 2 d m).dev ≡ d)
unfolding call
exec_still d m = (refl, refl)

flight :
    (req buf fad n r : ℕ) (d : Job) (m : Ram)
    → Flying req buf fad n d
    → (call req [] 1 d m).ret ≡ pos r
    → (r ≡ 2 → ⊥)
    → Flying req buf fad n (call req [] 1 d m).dev
unfolding call
flight req buf fad n r rest m h e ne = absurd h
flight req buf fad n r (reading b f k) m h e ne = absurd (ground arith)

-- The drive behaves as the BIOS's documentation says.
pub drive_laws : GdLaws drive disc
drive_laws = record {
  Work = FirstPage;
  InFlight = Flying;
  Quiet = IsResting;
  send_frame = λ cmd buf fad n q d m w. send_still cmd buf fad n q d m;
  send_accepted = λ cmd buf fad n r d m k e. accepted cmd buf fad n r d m e;
  exec_frame = λ req buf fad n d m h q w o. rw (exec_still d m).0 refl;
  exec_flight = λ req buf fad n d m h. rw (exec_still d m).1 h;
  check_frame = check_writes;
  check_flight = flight;
  check_done = λ req buf fad n d m h e. check_fills req buf fad n d m h;
  sysinit_frame = λ q d m w. unfold call in refl;
  sysinit_quiet = λ d m. unfold call in tt;
  quiet_frame = λ cmd func q d m h w. (quiet_call cmd func d m h).0 q;
  quiet_quiet = λ cmd func d m h. (quiet_call cmd func d m h).1;
}

pub Work-first_page : (q : ℕ) → drive_laws.Work q → q < 2 ^ 12
unfolding drive_laws
Work-first_page q w = w

-- It takes every read that fits, and has it done at the first poll.
accepts :
    (cmd buf fad n : ℕ) (d : Job) (m : Ram)
    → n * 2048 ≤ 2 ^ 29
    → call cmd (params buf fad n) 0 d m
      ≡ record { ret = pos 1; stat0 = 0; dev = reading buf fad n; ram = m }
unfolding call
accepts cmd buf fad n d m fits =
    let fit : leb (n * 2048) (2 ^ 29) ≡ true = ground arith in rw fit refl

pub drive-Healthy : Healthy drive
unfolding call
drive-Healthy cmd buf fad n s fits =
    let taken = accepts cmd buf fad n s.dev s.ram fits in
    let prompt =
      subst
        (λ (x : Answer Job).
          (0 < request x.ret) × Completes drive 0 (request x.ret) (after drive s x))
        (sym taken) (omega arith, refl) in
    (0, omega arith, prompt)
