-- ===== src/Serial/Report.antt =====
-- What a transmitter that drains is sent: the text of the report, its numbers readable again.
use mathlib.Core.List.{append_assoc, append-nil}
use cfp2dreamcast.Base.{
  ℕ, zero, suc, ◌+◌, ◌-◌, ◌*◌, ◌/◌, ◌%◌, ◌^◌, ◌<◌, ◌≤◌, ◌≡◌, refl, ap, sym, subst, ◌∙◌, arith, Bool,
  true, false, Option, some, List, [], ◌∷◌, ◌++◌, ◌⊎◌, inl, inr, Bool-cases, length, ltb, ◌==◌,
  if◌then◌else◌, u8,
}
use cfp2dreamcast.Machine.{Platform}
use cfp2dreamcast.Serial.{
  codes, ◌>>=◌, scfsr2, scftdr2, spin_limit, is_ready, transmit, scif_putc, scif_puts, hex_char,
  hex_digits, scif_puthex, report,
}
use cfp2dreamcast.Serial.Wait.{settled, scif_putc-Ends}

-- The bytes of a string on the wire: a newline is sent as a return and a newline.
abbrev pub wire : List ℕ → List ℕ
wire [] = []
wire (c ∷ s) = (if c == b'\n' then b'\r' ∷ c ∷ [] else c ∷ []) ++ wire s

-- A byte of a string, none of which is its NUL.
abbrev pub IsText : List ℕ → Type 0
IsText [] = Unit {0}
IsText (c ∷ s) = (0 < c) × (c < 2 ^ 8) × IsText s

-- The value of a hexadecimal digit, and of a number behind `n`.
abbrev pub digit : ℕ → ℕ
digit c = if ltb c b'a' then c - b'0' else c - b'a' + 10

abbrev pub number : ℕ → List ℕ → ℕ
number n [] = n
number n (c ∷ s) = number (n * 16 + digit c) s

-- Eight characters, each one of 0 to 9 and a to f.
abbrev pub IsHexDigit : ℕ → Type 0
IsHexDigit c = ((b'0' ≤ c) × (c ≤ b'9')) ⊎ ((b'a' ≤ c) × (c ≤ b'f'))

abbrev pub All : List ℕ → Type 0
All [] = Unit {0}
All (c ∷ s) = IsHexDigit c × All s

abbrev pub IsHexWord : List ℕ → Type 0
IsHexWord x = (length x ≡ 8) × All x

hex_text : ℕ → ℕ → List ℕ
hex_text zero v = []
hex_text (suc left) v = hex_char (v / 2 ^ (4 * left) % 2 ^ 4) ∷ hex_text left v

digit-hex_char : (n : ℕ) → n < 16 → digit (hex_char n) ≡ n
unfolding hex_char
digit-hex_char n h = ground arith

hex_char-small : (n : ℕ) → hex_char n < 2 ^ 8
unfolding hex_char
hex_char-small n = ground arith

hex_char-IsHexDigit : (n : ℕ) → n < 16 → IsHexDigit (hex_char n)
unfolding hex_char
hex_char-IsHexDigit n h = elim (Bool-cases (ltb n 10)) [
  | inl low ↦ inl (ground arith, ground arith)
  | inr high ↦ inr (ground arith, ground arith)
]

hex_text-All : (left v : ℕ) → All (hex_text left v)
unfolding hex_text
hex_text-All zero v = tt
hex_text-All (suc left) v = (hex_char-IsHexDigit _ (omega arith), hex_text-All left v)

hex_text-IsHexWord : (v : ℕ) → IsHexWord (hex_text 8 v)
unfolding hex_text
hex_text-IsHexWord v = (refl, hex_text-All 8 v)

number-hex_text : (v : ℕ) → v < 2 ^ 32 → number 0 (hex_text 8 v) ≡ v
unfolding hex_text
number-hex_text v h =
    omega (arith, nibble 0, nibble 1, nibble 2, nibble 3, nibble 4, nibble 5, nibble 6, nibble 7)
  where
    nibble : (k : ℕ) → digit (hex_char (v / 2 ^ (4 * k) % 2 ^ 4)) ≡ v / 2 ^ (4 * k) % 2 ^ 4
    nibble k = digit-hex_char (v / 2 ^ (4 * k) % 2 ^ 4) (omega arith)

module _ (p : Platform) (settle : p.Dev → p.Dev) where
  open p use {Dev, load_reg, store_reg}

  -- A port whose transmitter drains within the limit of the wait, and the bytes it has taken.
  pub record PortLaws : Type 0 where
    pub taken : Dev → List ℕ
    pub taken_settle : (d : Dev) → taken (settle d) ≡ taken d
    pub taken_data :
        (c : ℕ) (d : Dev)
        → is_ready p settle d ≡ true
        → taken (store_reg scftdr2 c d) ≡ taken d ++ c ∷ []
    pub taken_flags : (v : ℕ) (d : Dev) → taken (store_reg scfsr2 v d) ≡ taken d
    pub drains :
        (d : Dev) → (k : ℕ) × (k ≤ spin_limit) × (is_ready p settle (settled p settle k d) ≡ true)

  module _ (laws : PortLaws) where
    open laws use {taken}

    -- `f` sends `text`.
    abbrev pub Sends : (Dev → Option Dev) → List ℕ → Type 0
    Sends f text = (d : Dev) → (e : Dev) × (f d ≡ some e) × (taken e ≡ taken d ++ text)

    taken-settled : (k : ℕ) (d : Dev) → taken (settled p settle k d) ≡ taken d
    taken-settled zero d = refl
    taken-settled (suc k) d = taken-settled k (settle d) ∙ laws.taken_settle d

    taken-transmit :
        (c : ℕ) (d : Dev)
        → is_ready p settle d ≡ true
        → taken (transmit p settle c d) ≡ taken d ++ u8 c ∷ []
    unfolding transmit
    taken-transmit c d now = laws.taken_flags _ _ ∙ laws.taken_data (u8 c) d now

    scif_putc-Sends : (c : ℕ) → Sends (scif_putc p settle true c) (u8 c ∷ [])
    scif_putc-Sends c d = elim (scif_putc-Ends p settle c d) [
      | inl (k, le, (busy, now), end) ↦
          (_, end, taken-transmit c _ now ∙ ap (λ t. t ++ u8 c ∷ []) (taken-settled k d))
      | inr (busy, end) ↦
          (let (k, le, now) = laws.drains d in let late = busy k (omega arith) in absurd (cc))
    ]

    char-Sends : (c : ℕ) → c < 2 ^ 8 → Sends (scif_putc p settle true c) (c ∷ [])
    char-Sends c h =
        let byte : u8 c ≡ c = omega arith in
        subst (λ t. Sends (scif_putc p settle true c) (t ∷ [])) byte (scif_putc-Sends c)

    Sends-then :
        (f g : Dev → Option Dev) (x y : List ℕ)
        → Sends f x
        → Sends g y
        → Sends (λ d. f d >>= g) (x ++ y)
    Sends-then f g x y hf hg d =
        let (e, ef, tf) = hf d in
        let (e', eg, tg) = hg e in
        (e', ap (λ o. o >>= g) ef ∙ eg, tg ∙ ap (λ t. t ++ y) tf ∙ append_assoc (taken d) x y)

    hex_digits-Sends : (left v : ℕ) → Sends (hex_digits p settle true left v) (hex_text left v)
    unfolding hex_digits hex_text
    hex_digits-Sends zero v = λ d. (d, refl, sym (append-nil (taken d)))
    hex_digits-Sends (suc left) v =
        let c = hex_char (v / 2 ^ (4 * left) % 2 ^ 4) in
        Sends-then (scif_putc p settle true c) (hex_digits p settle true left v) (c ∷ [])
          (hex_text left v) (char-Sends c (hex_char-small _)) (hex_digits-Sends left v)

    -- One round of `scif_puts`, with its two tests as `z` and `b`.
    puts_round :
        (z b : Bool) (c : ℕ) (s : List ℕ)
        → z ≡ false
        → c < 2 ^ 8
        → Sends (scif_puts p settle true s) (wire s)
        → Sends
            (λ d.
              let first = if b then scif_putc p settle true b'\r' d else some d in
              let rest = first >>= scif_putc p settle true c >>= scif_puts p settle true s in
              if z then some d else rest)
            ((if b then b'\r' ∷ c ∷ [] else c ∷ []) ++ wire s)
    puts_round true b c s h byte more = λ d. absurd (cc)
    puts_round false true c s h byte more =
        Sends-then (λ d. scif_putc p settle true b'\r' d >>= scif_putc p settle true c)
          (scif_puts p settle true s) (b'\r' ∷ c ∷ []) (wire s)
          (Sends-then (scif_putc p settle true b'\r') (scif_putc p settle true c) (b'\r' ∷ [])
            (c ∷ []) (char-Sends b'\r' (omega arith)) (char-Sends c byte))
          more
    puts_round false false c s h byte more =
        Sends-then (scif_putc p settle true c) (scif_puts p settle true s) (c ∷ []) (wire s)
          (char-Sends c byte) more

    scif_puts-Sends : (s : List ℕ) → IsText s → Sends (scif_puts p settle true s) (wire s)
    unfolding scif_puts
    scif_puts-Sends [] h = λ d. (d, refl, sym (append-nil (taken d)))
    scif_puts-Sends (c ∷ s) (pos, byte, more) =
        puts_round (c == 0) (c == b'\n') c s (ground arith) byte (scif_puts-Sends s more)

    -- What the port has taken since `d` is the report of three numbers.
    abbrev pub Tells : ℕ → ℕ → ℕ → Dev → Dev → Type 0
    Tells code a b d e =
        (x : List ℕ) × (y : List ℕ) × (z : List ℕ) × IsHexWord x
        × IsHexWord y
        × IsHexWord z
        × (number 0 x ≡ code)
        × (number 0 y ≡ a)
        × (number 0 z ≡ b)
        × (taken e
            ≡ taken d
              ++ (codes "SHIMERR code="
                  ++ x
                  ++ codes " a="
                  ++ y
                  ++ codes " b="
                  ++ z
                  ++ codes "\r\n"))

    -- On a port that drains, the report of a fatal stop is sent whole: its text with three numbers of
    -- eight characters, each of them one of 0 to 9 and a to f, and reading these as hexadecimal gives
    -- the code and both arguments back, if each is a word.
    pub report-Tells :
        (code a b : ℕ) (d : Dev)
        → code < 2 ^ 32
        → a < 2 ^ 32
        → b < 2 ^ 32
        → (e : Dev) × (report p settle true code a b d ≡ some e) × Tells code a b d e
    unfolding report scif_puthex
    report-Tells code a b d hc ha hb =
        let say = scif_puts p settle true in
        let hex = scif_puthex p settle true in
        let (e, end, sent) =
          Sends-then _ (say (codes "\n")) _ (codes "\r\n")
            (Sends-then _ (hex b) _ (hex_text 8 b)
              (Sends-then _ (say (codes " b=")) _ (codes " b=")
                (Sends-then _ (hex a) _ (hex_text 8 a)
                  (Sends-then _ (say (codes " a=")) _ (codes " a=")
                    (Sends-then (say (codes "SHIMERR code=")) (hex code) (codes "SHIMERR code=")
                      (hex_text 8 code) (scif_puts-Sends (codes "SHIMERR code=") (omega arith))
                      (hex_digits-Sends 8 code))
                    (scif_puts-Sends (codes " a=") (omega arith)))
                  (hex_digits-Sends 8 a))
                (scif_puts-Sends (codes " b=") (omega arith)))
              (hex_digits-Sends 8 b))
            (scif_puts-Sends (codes "\n") (omega arith)) d in
        let text : Tells code a b d e = (
          hex_text 8 code,
          hex_text 8 a,
          hex_text 8 b,
          hex_text-IsHexWord code,
          hex_text-IsHexWord a,
          hex_text-IsHexWord b,
          number-hex_text code hc,
          number-hex_text a ha,
          number-hex_text b hb,
          sent,
        ) in
        (e, end, text)
