-- ===== src/Sound/Valid.antt =====
-- The invariant of a player: 25 registers of one byte, seven voices with 16-bit counters.
use neohabitat.Prelude.{
  ℕ, zero, suc, ◌%◌, ◌<◌, ◌≡◌, ◌∙◌, Bool, true, false, List, [], ◌∷◌, if◌then◌else◌, arith,
  get_elem?, get_or, set, length, length-set, All,
}
use neohabitat.Sound.Sid.{Chip, poke, write, num_regs}
use neohabitat.Sound.Voice.{Voice, make_voice, byte_at, advance, zap_duration, tick, ramp}
use neohabitat.Sound.Decode.{Cursor, word, set_gate}

module _ {ℓ κ} {A : Type ℓ} (P : A → Type κ) where
  pub All-set : (l : List A) (i : ℕ) (v : A) → All P l → P v → All P (set l i v)
  All-set [] i v t h = tt
  All-set (x ∷ l) zero v (p, t) h = (h, t)
  All-set (x ∷ l) (suc i) v (p, t) h = (p, All-set l i v t h)

  pub All-get_or : (l : List A) (i : ℕ) (d : A) → All P l → P d → P (get_or (get_elem? l i) d)
  All-get_or [] i d t h = h
  All-get_or (x ∷ l) zero d (p, t) h = p
  All-get_or (x ∷ l) (suc i) d (p, t) h = All-get_or l i d t h

  pub if-holds : (b : Bool) (x y : A) → P x → P y → P (if b then x else y)
  if-holds true x y p q = p
  if-holds false x y p q = q

pub record IsChip (c : Chip) : Type 0 where
  pub regs_length : length c.regs ≡ num_regs
  pub regs_bytes : All (λ r. r < 256) c.regs

pub record IsVoice (v : Voice) : Type 0 where
  pub addr_word : v.addr < 65536
  pub freq_word : v.freq < 65536
  pub duration_word : v.duration < 65536
  pub increment_word : v.increment < 65536
  pub attack_byte : v.attack_decay < 256
  pub sustain_byte : v.sustain_release < 256

pub record IsCursor (d : Cursor) : Type 0 where
  pub voice_valid : IsVoice d.voice
  pub chip_valid : IsChip d.chip

pub byte_at_lt : (v : Voice) (i : ℕ) → byte_at v i < 256
unfolding byte_at
byte_at_lt v i = omega arith

pub word_lt : (lo hi : ℕ) → lo < 256 → hi < 256 → word lo hi < 65536
word_lt lo hi h g = omega arith

pub poke-IsChip : (i v : ℕ) (c : Chip) → IsChip c → IsChip (poke i v c)
unfolding poke write
poke-IsChip i v c h = record {
  regs_length = length-set c.regs i (v % 256) ∙ h.regs_length;
  regs_bytes = All-set (λ r. r < 256) c.regs i (v % 256) h.regs_bytes (omega arith);
}

pub make_voice-IsVoice : IsVoice make_voice
make_voice-IsVoice = record {
  addr_word = omega arith;
  freq_word = omega arith;
  duration_word = omega arith;
  increment_word = omega arith;
  attack_byte = omega arith;
  sustain_byte = omega arith;
}

pub zap_duration-IsVoice : (v : Voice) → IsVoice v → IsVoice (zap_duration v)
unfolding zap_duration
zap_duration-IsVoice v h = record {
  addr_word = h.addr_word;
  freq_word = h.freq_word;
  duration_word = omega arith;
  increment_word = omega arith;
  attack_byte = h.attack_byte;
  sustain_byte = h.sustain_byte;
}

pub tick-IsVoice : (v : Voice) → IsVoice v → IsVoice (tick v)
unfolding tick
tick-IsVoice v h = record {
  addr_word = h.addr_word;
  freq_word = h.freq_word;
  duration_word = omega arith;
  increment_word = h.increment_word;
  attack_byte = h.attack_byte;
  sustain_byte = h.sustain_byte;
}

pub ramp-IsVoice : (v : Voice) → IsVoice v → IsVoice (ramp v)
unfolding ramp
ramp-IsVoice v h = record {
  addr_word = h.addr_word;
  freq_word = omega arith;
  duration_word = h.duration_word;
  increment_word = h.increment_word;
  attack_byte = h.attack_byte;
  sustain_byte = h.sustain_byte;
}

pub advance-IsVoice : (n : ℕ) (v : Voice) → IsVoice v → IsVoice (advance n v)
unfolding advance
advance-IsVoice n v h = record {
  addr_word = omega arith;
  freq_word = h.freq_word;
  duration_word = h.duration_word;
  increment_word = h.increment_word;
  attack_byte = h.attack_byte;
  sustain_byte = h.sustain_byte;
}

pub set_gate-IsVoice : (b : Bool) (cmd : ℕ) (v : Voice) → IsVoice v → IsVoice (set_gate b cmd v)
unfolding set_gate
set_gate-IsVoice b cmd v h =
    if-holds IsVoice b _ v
      (record {
        addr_word = h.addr_word;
        freq_word = h.freq_word;
        duration_word = h.duration_word;
        increment_word = h.increment_word;
        attack_byte = h.attack_byte;
        sustain_byte = h.sustain_byte;
      })
      h
