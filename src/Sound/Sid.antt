-- ===== src/Sound/Sid.antt =====
-- habisound/lib/sid.js and the register file of interpreter.js. A `Uint8Array` keeps the low byte of
-- what is written, and a write out of range does nothing.
use neohabitat.Prelude.{ℕ, ◌/◌, ◌%◌, Bool, not, List, [], ◌∷◌, ◌==◌, get_elem?, set, or_zero, ltb}

abbrev pub num_regs : ℕ
num_regs = 25

abbrev pub filter_voice : ℕ
filter_voice = 3

abbrev pub num_voices : ℕ
num_voices = 7

-- VOICE_OFFSET
abbrev pub voice_offsets : List ℕ
voice_offsets = 0 ∷ 7 ∷ 14 ∷ 21 ∷ 2 ∷ 9 ∷ 16 ∷ []

unfoldable pub voice_offset : ℕ → ℕ
voice_offset vi = or_zero (get_elem? voice_offsets vi)

unfoldable pub write : ℕ → ℕ → List ℕ → List ℕ
write i v regs = set regs i (v % 256)

-- the registers, and the two accumulators of the filter setup
pub record Chip : Type 0 where
  pub regs : List ℕ
  pub resonance_and_flags : ℕ
  pub volume_and_filter : ℕ

abbrev pub zero_regs : List ℕ
zero_regs =
    0 ∷ 0 ∷ 0 ∷ 0 ∷ 0 ∷ 0 ∷ 0 ∷ 0 ∷ 0 ∷ 0 ∷ 0 ∷ 0 ∷ 0 ∷ 0 ∷ 0 ∷ 0 ∷ 0 ∷ 0 ∷ 0 ∷ 0 ∷ 0 ∷ 0 ∷ 0 ∷ 0
    ∷ 0 ∷ []

-- the chip after `reset`
abbrev pub fresh_chip : Chip
fresh_chip = record { regs = set zero_regs 24 15; resonance_and_flags = 0; volume_and_filter = 15 }

unfoldable pub poke : ℕ → ℕ → Chip → Chip
poke i v c = record c { regs = write i v c.regs }

-- `(x & m) !== 0` for a power of two
abbrev pub has_bit : ℕ → ℕ → Bool
has_bit x m = not (x / m % 2 == 0)

-- `isOsc`
abbrev pub is_osc : ℕ → Bool
is_osc vi = ltb vi filter_voice
