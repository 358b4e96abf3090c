-- ===== src/Sound/Kept.antt =====
-- Every block of a command keeps the invariant.
use neohabitat.Prelude.{ℕ, ◌+◌, ◌/◌, ◌%◌, ◌<◌, Bool, ◌&&◌, Option, none, some, arith, is_num}
use neohabitat.Sound.Sid.{Chip, is_osc, has_bit, voice_offset}
use neohabitat.Sound.Voice.{Voice, zap_duration, change_voice, set_voice_control}
use neohabitat.Sound.Decode.{
  Cursor, peek, word, read_freq, read_adsr, read_pulse_width, set_filter, read_filter,
  read_duration, read_extend, read_waveform, read_blocks, read_loop, branch_back,
}
use neohabitat.Sound.Valid.{
  if-holds, IsChip, IsVoice, IsCursor, byte_at_lt, word_lt, poke-IsChip, zap_duration-IsVoice,
}

peek_lt : (b k : ℕ) (d : Cursor) → peek b k d < 256
peek_lt b k d = byte_at_lt d.voice (b + d.y + k)

peeked_word : (b i j : ℕ) (d : Cursor) → word (peek b i d) (peek b j d) < 65536
peeked_word b i j d = word_lt (peek b i d) (peek b j d) (peek_lt b i d) (peek_lt b j d)

-- the three ways in which the blocks change a voice's counters
set_freq-IsVoice : (v : Voice) (f : ℕ) → f < 65536 → IsVoice v → IsVoice (record v { freq = f })
set_freq-IsVoice v f b h = record {
  addr_word = h.addr_word;
  freq_word = b;
  duration_word = h.duration_word;
  increment_word = h.increment_word;
  attack_byte = h.attack_byte;
  sustain_byte = h.sustain_byte;
}

set_ramp-IsVoice :
    (v : Voice) (d i : ℕ)
    → d < 65536
    → i < 65536
    → IsVoice v
    → IsVoice (record v { duration = d; increment = i })
set_ramp-IsVoice v d i b c h = record {
  addr_word = h.addr_word;
  freq_word = h.freq_word;
  duration_word = b;
  increment_word = c;
  attack_byte = h.attack_byte;
  sustain_byte = h.sustain_byte;
}

set_envelope-IsVoice :
    (v : Voice) (a s : ℕ)
    → a < 256
    → s < 256
    → IsVoice v
    → IsVoice (record v { attack_decay = a; sustain_release = s })
set_envelope-IsVoice v a s b c h = record {
  addr_word = h.addr_word;
  freq_word = h.freq_word;
  duration_word = h.duration_word;
  increment_word = h.increment_word;
  attack_byte = b;
  sustain_byte = c;
}

set_cursor-IsVoice :
    (v : Voice) (a : ℕ) (l : Option ℕ)
    → a < 65536
    → IsVoice v
    → IsVoice (record v { addr = a; loop_count = l })
set_cursor-IsVoice v a l b h = record {
  addr_word = b;
  freq_word = h.freq_word;
  duration_word = h.duration_word;
  increment_word = h.increment_word;
  attack_byte = h.attack_byte;
  sustain_byte = h.sustain_byte;
}

read_freq-IsCursor : (b cmd : ℕ) (d : Cursor) → IsCursor d → IsCursor (read_freq b cmd d)
unfolding read_freq
read_freq-IsCursor b cmd d h =
    let freq : IsVoice (record d.voice { freq = word (peek b 1 d) (peek b 2 d) }) =
      set_freq-IsVoice d.voice (word (peek b 1 d) (peek b 2 d)) (peeked_word b 1 2 d)
        h.voice_valid in
    if-holds IsCursor (has_bit cmd 4) _ _
      (if-holds IsCursor (has_bit cmd 64) _ _
        (record { voice_valid = zap_duration-IsVoice _ freq; chip_valid = h.chip_valid })
        (record {
          voice_valid = set_ramp-IsVoice _ _ _ (peeked_word b 3 4 d) (peeked_word b 5 6 d) freq;
          chip_valid = h.chip_valid;
        }))
      (record {
        voice_valid = zap_duration-IsVoice d.voice h.voice_valid;
        chip_valid = h.chip_valid;
      })

read_adsr-IsCursor :
    (osc : Bool) (b cmd : ℕ) (d : Cursor) → IsCursor d → IsCursor (read_adsr osc b cmd d)
unfolding read_adsr
read_adsr-IsCursor osc b cmd d h =
    if-holds IsCursor (osc && has_bit cmd 8) _ d
      (record {
        voice_valid =
            set_envelope-IsVoice d.voice _ _ (peek_lt b 1 d) (peek_lt b 2 d) h.voice_valid;
        chip_valid = h.chip_valid;
      })
      h

read_pulse_width-IsCursor :
    (vi b ext : ℕ) (d : Cursor) → IsCursor d → IsCursor (read_pulse_width vi b ext d)
unfolding read_pulse_width
read_pulse_width-IsCursor vi b ext d h =
    if-holds IsCursor (is_osc vi && has_bit ext 1) _ d
      (record {
        voice_valid = h.voice_valid;
        chip_valid = poke-IsChip _ _ _ (poke-IsChip _ _ _ h.chip_valid);
      })
      h

set_filter-IsChip : (res vol lo hi : ℕ) (c : Chip) → IsChip c → IsChip (set_filter res vol lo hi c)
unfolding set_filter
set_filter-IsChip res vol lo hi c h = poke-IsChip 22 _ _ (
    poke-IsChip 21 _ _ (
      poke-IsChip 24 _ _
        (poke-IsChip 23 _ _ (record { regs_length = h.regs_length; regs_bytes = h.regs_bytes }))))

read_filter-IsCursor : (b ext : ℕ) (d : Cursor) → IsCursor d → IsCursor (read_filter b ext d)
unfolding read_filter
read_filter-IsCursor b ext d h =
    if-holds IsCursor (has_bit ext 2) _ d
      (record {
        voice_valid = h.voice_valid;
        chip_valid = set_filter-IsChip _ _ _ _ d.chip h.chip_valid;
      })
      h

read_duration-IsCursor : (b ext : ℕ) (d : Cursor) → IsCursor d → IsCursor (read_duration b ext d)
unfolding read_duration
read_duration-IsCursor b ext d h =
    if-holds IsCursor (has_bit ext 4) _ d
      (record {
        voice_valid =
            let z = zap_duration-IsVoice d.voice h.voice_valid in
            set_ramp-IsVoice (zap_duration d.voice) _ (zap_duration d.voice).increment
              (peeked_word b 1 2 d) z.increment_word z;
        chip_valid = h.chip_valid;
      })
      h

read_extend-IsCursor : (vi b cmd : ℕ) (d : Cursor) → IsCursor d → IsCursor (read_extend vi b cmd d)
unfolding read_extend
read_extend-IsCursor vi b cmd d h =
    if-holds IsCursor (has_bit cmd 16) _ d
      (read_duration-IsCursor b _ _ (
        read_filter-IsCursor b _ _ (
          read_pulse_width-IsCursor vi b _ _
            (record { voice_valid = h.voice_valid; chip_valid = h.chip_valid }))))
      h

read_waveform-IsCursor : (b cmd : ℕ) (d : Cursor) → IsCursor d → IsCursor (read_waveform b cmd d)
unfolding read_waveform
read_waveform-IsCursor b cmd d h =
    if-holds IsCursor (has_bit cmd 32) _ d
      (record {
        voice_valid = (record {
          addr_word = h.voice_valid.addr_word;
          freq_word = h.voice_valid.freq_word;
          duration_word = h.voice_valid.duration_word;
          increment_word = h.voice_valid.increment_word;
          attack_byte = h.voice_valid.attack_byte;
          sustain_byte = h.voice_valid.sustain_byte;
        });
        chip_valid = h.chip_valid;
      })
      h

pub read_blocks-IsCursor :
    (vi b cmd : ℕ) (d : Cursor) → IsCursor d → IsCursor (read_blocks vi b cmd d)
unfolding read_blocks
read_blocks-IsCursor vi b cmd d h = read_waveform-IsCursor b cmd _ (
    read_extend-IsCursor vi b cmd _
      (read_adsr-IsCursor (is_osc vi) b cmd _ (read_freq-IsCursor b cmd d h)))

branch_back_lt : (b : ℕ) (o : Option ℕ) → branch_back b o < 65536
unfolding branch_back
branch_back_lt b none = omega arith
branch_back_lt b (some n) = omega arith

pub read_loop-IsVoice : (b : ℕ) (d : Cursor) → IsVoice d.voice → IsVoice (read_loop b d)
unfolding read_loop
read_loop-IsVoice b d h =
    if-holds IsVoice (is_num d.voice.loop_count 1) _ _
      (set_cursor-IsVoice d.voice _ _ (omega arith) h)
      (set_cursor-IsVoice d.voice _ _ (branch_back_lt b _) h)

pub change_voice-IsChip : (vi : ℕ) (v : Voice) (c : Chip) → IsChip c → IsChip (change_voice vi v c)
unfolding change_voice
change_voice-IsChip vi v c h =
    let low = poke-IsChip (voice_offset vi) (v.freq % 256) c h in
    let both = poke-IsChip (voice_offset vi + 1) (v.freq / 256 % 256) _ low in
    if-holds IsChip (is_osc vi) _ _ (poke-IsChip _ _ _ (poke-IsChip _ _ _ both)) both

pub set_voice_control-IsChip :
    (vi : ℕ) (v : Voice) (c : Chip) → IsChip c → IsChip (set_voice_control vi v c)
unfolding set_voice_control
set_voice_control-IsChip vi v c h = if-holds IsChip (is_osc vi) _ c (poke-IsChip _ _ c h) h
