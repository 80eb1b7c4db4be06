-- ===== src/Serial.antt =====
-- shims/src/scif.c: the serial port. `serial` is the build switch SHIM_SERIAL; with it off, as in
-- the release, nothing is sent. What the transmitter does between two reads of its status is
-- `settle`, a parameter. The report of shim_die (shims/src/util.c) stands here too.
pub mod Wait
pub mod Report
use Prim.Native.Char.{code}
use Prim.Native.String.{String}
use cfp2dreamcast.Base.{
  ℕ, zero, suc, ◌+◌, ◌-◌, ◌*◌, ◌/◌, ◌%◌, ◌^◌, Bool, Option, none, some, List, [], ◌∷◌, ltb, ◌==◌,
  if◌then◌else◌, get_or, has_bit, field, u8,
}
use cfp2dreamcast.Machine.{Platform}

-- The bytes of a string literal.
abbrev pub codes : String → List ℕ
codes String.[] = []
codes (String.◌∷◌ c s) = code c ∷ codes s

infixl 5 ◌>>=◌
abbrev pub ◌>>=◌ : {A B : Type 0} → Option A → (A → Option B) → Option B
none >>= f = none
some a >>= f = f a

abbrev pub scfsr2 : ℕ
scfsr2 = 0xffe80010

abbrev pub scftdr2 : ℕ
scftdr2 = 0xffe8000c

-- More rounds than this, and the character is dropped. Shut, since a proof must not count to it.
unfoldable pub spin_limit : ℕ
spin_limit = 1000000

-- How the wait ends: the transmitter is ready, the character is dropped, or the model's fuel has
-- run out.
pub data Waited (D : Type 0) : Type 0 where
  ready : D → Waited D
  dropped : D → Waited D
  unended : Waited D

-- The digit of a nibble.
pub hex_char : ℕ → ℕ
hex_char n = get_or (codes "0123456789abcdef") n 0

module _ (p : Platform) (settle : p.Dev → p.Dev) where
  open p use {Dev, load_reg, store_reg}

  -- `SCFSR2 & 0x20`
  abbrev pub is_ready : Dev → Bool
  is_ready d = has_bit (load_reg scfsr2 d) 5

  pub await : ℕ → ℕ → Dev → Waited Dev
  await zero g d = unended
  await (suc left) g d =
      let again = await left (g + 1) (settle d) in
      if is_ready d then ready d else if ltb spin_limit g then dropped d else again

  -- The two stores that send a character.
  pub transmit : ℕ → Dev → Dev
  transmit c d =
      let e = store_reg scftdr2 (u8 c) d in
      let w = load_reg scfsr2 e in store_reg scfsr2 (w - field w 5 2) e

  pub after_wait : ℕ → Waited Dev → Option Dev
  unfolding transmit
  after_wait c (ready d) = some (transmit c d)
  after_wait c (dropped d) = some d
  after_wait c unended = none

  module _ (serial : Bool) where
    pub scif_putc : ℕ → Dev → Option Dev
    unfolding await after_wait
    scif_putc c d =
        let sent = after_wait c (await (suc (spin_limit + 1)) 0 d) in
        if serial then sent else some d

    -- The characters before the NUL that ends the string, or up to a NUL among them.
    pub scif_puts : List ℕ → Dev → Option Dev
    unfolding scif_putc
    scif_puts [] d = some d
    scif_puts (c ∷ s) d =
        let first = if c == b'\n' then scif_putc b'\r' d else some d in
        let rest = first >>= scif_putc c >>= scif_puts s in if c == 0 then some d else rest

    -- The digits from the one of weight `16 ^ left` down, that one excluded.
    pub hex_digits : ℕ → ℕ → Dev → Option Dev
    unfolding scif_putc hex_char
    hex_digits zero v d = some d
    hex_digits (suc left) v d =
        scif_putc (hex_char (v / 2 ^ (4 * left) % 2 ^ 4)) d >>= hex_digits left v

    pub scif_puthex : ℕ → Dev → Option Dev
    unfolding hex_digits
    scif_puthex = hex_digits 8

    -- What `shim_die` says on the port.
    pub report : ℕ → ℕ → ℕ → Dev → Option Dev
    unfolding scif_puts scif_puthex
    report code a b d =
        scif_puts (codes "SHIMERR code=") d
        >>= scif_puthex code
        >>= scif_puts (codes " a=")
        >>= scif_puthex a
        >>= scif_puts (codes " b=")
        >>= scif_puthex b
        >>= scif_puts (codes "\n")
