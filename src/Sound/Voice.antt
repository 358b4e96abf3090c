-- ===== src/Sound/Voice.antt =====
-- The voices of interpreter.js: their state, and what one frame does to it.
use neohabitat.Prelude.{ℕ, ◌+◌, ◌/◌, ◌%◌, Option, some, List, [], if◌then◌else◌, get_elem?, or_zero}
use neohabitat.Sound.Sid.{Chip, poke, voice_offset, is_osc}

-- `loopCount` is `none` where the source has `undefined` or NaN, after a read behind the data.
pub record Voice : Type 0 where
  pub bytecode : List ℕ
  pub addr : ℕ
  pub command : ℕ
  pub control : ℕ
  pub freq : ℕ
  pub duration : ℕ
  pub increment : ℕ
  pub attack_decay : ℕ
  pub sustain_release : ℕ
  pub loop_count : Option ℕ

abbrev pub make_voice : Voice
make_voice = record {
  bytecode = [];
  addr = 0;
  command = 0;
  control = 0;
  freq = 0;
  duration = 0;
  increment = 0;
  attack_decay = 0;
  sustain_release = 0;
  loop_count = some 0;
}

-- a byte of the bytecode; behind its end bit operations see 0
unfoldable pub byte_at : Voice → ℕ → ℕ
byte_at v i = or_zero (get_elem? v.bytecode i) % 256

-- `_advance`
unfoldable pub advance : ℕ → Voice → Voice
advance consumed v = record v { addr = (v.addr + consumed) % 65536 }

-- `_zapDuration`
unfoldable pub zap_duration : Voice → Voice
zap_duration v = record v { duration = 0; increment = 0 }

-- `_changeVoice`
unfoldable pub change_voice : ℕ → Voice → Chip → Chip
change_voice vi v c =
    let off = voice_offset vi in
    let c1 = poke (off + 1) (v.freq / 256 % 256) (poke off (v.freq % 256) c) in
    if is_osc vi then poke (off + 6) v.sustain_release (poke (off + 5) v.attack_decay c1) else c1

-- `_setVoiceControl`
unfoldable pub set_voice_control : ℕ → Voice → Chip → Chip
set_voice_control vi v c = if is_osc vi then poke (voice_offset vi + 4) v.control c else c

-- the countdown of `_updateRamps`: `(duration - 1) & 0xffff`
unfoldable pub tick : Voice → Voice
tick v = record v { duration = (v.duration + 65535) % 65536 }

-- the ramp of `_updateRamps`
unfoldable pub ramp : Voice → Voice
ramp v = record v { freq = (v.freq + v.increment) % 65536 }
