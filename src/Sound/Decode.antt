-- ===== src/Sound/Decode.antt =====
-- `_nextRamp` of interpreter.js: one command of the bytecode, block by block. `y` is the number of
-- bytes behind the command byte that have been consumed.
use Prim.Native.Nat.{bit_or}
use neohabitat.Prelude.{
  ℕ, zero, suc, ◌+◌, ◌-◌, ◌*◌, ◌/◌, ◌%◌, Bool, ◌&&◌, Option, none, some, if◌then◌else◌, is_num,
  get_elem?,
}
use neohabitat.Sound.Sid.{Chip, poke, voice_offset, is_osc, has_bit}
use neohabitat.Sound.Voice.{Voice, byte_at, zap_duration}

pub record Cursor : Type 0 where
  pub voice : Voice
  pub chip : Chip
  pub y : ℕ

-- `data[base + (++y)]`, as the byte `k` behind the last one consumed
abbrev pub peek : ℕ → ℕ → Cursor → ℕ
peek base k d = byte_at d.voice (base + d.y + k)

-- `(hi << 8) | lo` of two bytes
abbrev pub word : ℕ → ℕ → ℕ
word lo hi = hi * 256 + lo

-- bit 0: GATE
unfoldable pub set_gate : Bool → ℕ → Voice → Voice
set_gate osc cmd v =
    if osc then record v { control = v.control / 2 * 2 + (if has_bit cmd 1 then 1 else 0) } else v

-- bit 2: FREQ, and the NOW bit
unfoldable pub read_freq : ℕ → ℕ → Cursor → Cursor
read_freq base cmd d =
    if has_bit cmd 4
    then (let v = record d.voice { freq = word (peek base 1 d) (peek base 2 d) } in
        if has_bit cmd 64 then record d { voice = zap_duration v; y = d.y + 2 } else record d {
          voice = record v {
            duration = word (peek base 3 d) (peek base 4 d);
            increment = word (peek base 5 d) (peek base 6 d);
          };
          y = d.y + 6;
        })
    else record d { voice = zap_duration d.voice }

-- bit 3: ADSR
unfoldable pub read_adsr : Bool → ℕ → ℕ → Cursor → Cursor
read_adsr osc base cmd d =
    if osc && has_bit cmd 8
    then record d {
      voice = record d.voice { attack_decay = peek base 1 d; sustain_release = peek base 2 d };
      y = d.y + 2;
    }
    else d

-- the parts of bit 4, EXTEND: pulse width, filter, duration
unfoldable pub read_pulse_width : ℕ → ℕ → ℕ → Cursor → Cursor
read_pulse_width vi base ext d =
    if is_osc vi && has_bit ext 1
    then (let off = voice_offset (vi + 4) in
        record d {
          chip = poke (off + 1) (peek base 2 d) (poke off (peek base 1 d) d.chip);
          y = d.y + 2;
        })
    else d

unfoldable pub set_filter : ℕ → ℕ → ℕ → ℕ → Chip → Chip
set_filter res vol lo hi c =
    let flags = bit_or c.resonance_and_flags res in
    let c1 = record c { resonance_and_flags = flags; volume_and_filter = vol } in
    poke 22 hi (poke 21 lo (poke 24 vol (poke 23 flags c1)))

unfoldable pub read_filter : ℕ → ℕ → Cursor → Cursor
read_filter base ext d =
    if has_bit ext 2
    then record d {
      chip = set_filter (peek base 1 d) (peek base 2 d) (peek base 3 d) (peek base 4 d) d.chip;
      y = d.y + 4;
    }
    else d

unfoldable pub read_duration : ℕ → ℕ → Cursor → Cursor
read_duration base ext d =
    if has_bit ext 4
    then record d {
      voice = record (zap_duration d.voice) { duration = word (peek base 1 d) (peek base 2 d) };
      y = d.y + 2;
    }
    else d

unfoldable pub read_extend : ℕ → ℕ → ℕ → Cursor → Cursor
read_extend vi base cmd d =
    if has_bit cmd 16
    then (let ext = peek base 1 d in
        read_duration base ext
          (read_filter base ext (read_pulse_width vi base ext (record d { y = d.y + 1 }))))
    else d

-- bit 5: WAVEFORM
unfoldable pub read_waveform : ℕ → ℕ → Cursor → Cursor
read_waveform base cmd d =
    if has_bit cmd 32
    then record d {
      voice = record d.voice { control = bit_or (d.voice.control % 16) (peek base 1 d) };
      y = d.y + 1;
    }
    else d

-- the blocks from FREQ to WAVEFORM
unfoldable pub read_blocks : ℕ → ℕ → ℕ → Cursor → Cursor
read_blocks vi base cmd d =
    read_waveform base cmd
      (read_extend vi base cmd (read_adsr (is_osc vi) base cmd (read_freq base cmd d)))

-- the new loop count: the byte starts a loop, else one round is over
unfoldable pub count_round : Option ℕ → Option ℕ → Option ℕ
count_round none count = none
count_round (some zero) count = count
count_round (some (suc n)) count = some n

-- bit 7: LOOP; `base - undefined` is NaN, which `& 0xffff` makes 0
unfoldable pub branch_back : ℕ → Option ℕ → ℕ
branch_back base none = 0
branch_back base (some back) = (base + 65536 - back % 256) % 65536

unfoldable pub read_loop : ℕ → Cursor → Voice
read_loop base d =
    let v = d.voice in
    if is_num v.loop_count 1
    then record v { loop_count = some 0; addr = (base + d.y + 3) % 65536 }
    else record v {
      addr = branch_back base (get_elem? v.bytecode (base + d.y + 1));
      loop_count = count_round v.loop_count (get_elem? v.bytecode (base + d.y + 2));
    }
