-- ===== src/Sound/Examples.antt =====
-- The theorems about the sound driver, at a short sound.
use neohabitat.Prelude.{
  ℕ, ◌+◌, ◌-◌, ◌*◌, ◌/◌, ◌%◌, ◌<◌, ◌≤◌, ◌≡◌, ◌≢◌, refl, true, false, none, some, List, [], ◌∷◌,
  arith, any,
}
use neohabitat.Sound.Sid.{filter_voice, has_bit, voice_offset, write, poke}
use neohabitat.Sound.Voice.{
  byte_at, advance, zap_duration, change_voice, set_voice_control, tick, ramp,
}
use neohabitat.Sound.Decode.{
  set_gate, read_freq, read_adsr, read_pulse_width, read_filter, read_duration, read_extend,
  read_waveform, read_blocks,
}
use neohabitat.Sound.Player.{
  Player, fresh_player, voice_at, is_active, queued, play, is_free, find_free, enqueue, maintain,
  next_ramp, any_active, start_queued, start_sound, begin_command, decode, store, put_voice,
  down_from, sound_frame, ramp_active, update_ramps, refresh, gate_active, refresh_done,
}
use neohabitat.Sound.Invariant.{IsValid, Reached, made, played, frame, Reached-IsValid}
use neohabitat.Sound.Ramp.{frames, frames-ramp, reg}
use neohabitat.Sound.Playing.{play-queued, next_ramp-stop}

-- gate on and a ramp from 1000 for four frames, 500 up in each, then STOP
abbrev beep : List ℕ
beep = 5 ∷ 232 ∷ 3 ∷ 4 ∷ 0 ∷ 244 ∷ 1 ∷ 2 ∷ 0 ∷ []

-- the player after the first frame of the sound
abbrev playing : Player
playing = (maintain 8 (play beep none fresh_player).0).0

playing-Reached : Reached playing
playing-Reached = frame 8 (play beep none fresh_player).0 (played beep none fresh_player made)

Reached-IsValid_example : IsValid playing
Reached-IsValid_example = Reached-IsValid playing playing-Reached

playing_duration : (voice_at playing 0).duration ≡ 3
unfolding maintain play find_free is_free enqueue down_from start_queued start_sound next_ramp
    begin_command decode store put_voice sound_frame any_active any ramp_active update_ramps refresh
    gate_active byte_at advance zap_duration change_voice set_voice_control tick ramp set_gate
    read_freq read_adsr read_pulse_width read_filter read_duration read_extend read_waveform
    read_blocks voice_offset write poke refresh_done
playing_duration = refl

playing-IsValid : IsValid playing
playing-IsValid = Reached-IsValid playing playing-Reached

frames-ramp_example :
    ((voice_at (frames 2 8 0 playing) 0).freq
      ≡ ((voice_at playing 0).freq + 2 * (voice_at playing 0).increment) % 65536)
    × ((voice_at (frames 2 8 0 playing) 0).duration ≡ (voice_at playing 0).duration - 2)
    × (reg (frames 2 8 0 playing).chip (voice_offset 0)
        ≡ some (((voice_at playing 0).freq + 2 * (voice_at playing 0).increment) % 65536 % 256))
    × (reg (frames 2 8 0 playing).chip (voice_offset 0 + 1)
        ≡ some (((voice_at playing 0).freq + 2 * (voice_at playing 0).increment) % 65536 / 256))
frames-ramp_example =
    frames-ramp 1 8 0 playing playing-IsValid (omega arith) (omega (arith, playing_duration))

play-queued_example :
    ((play beep (some (2 ∷ [])) playing).1 < filter_voice)
    × (queued (play beep (some (2 ∷ [])) playing).0 (play beep (some (2 ∷ [])) playing).1
        ≡ some beep)
    × ((track : List ℕ)
        → some (2 ∷ []) ≡ some track
        → queued (play beep (some (2 ∷ [])) playing).0 ((play beep (some (2 ∷ [])) playing).1 + 4)
          ≡ some track)
    × ((k : ℕ)
        → (play beep (some (2 ∷ [])) playing).1 ≢ k
        → (play beep (some (2 ∷ [])) playing).1 + 4 ≢ k
        → queued (play beep (some (2 ∷ [])) playing).0 k ≡ queued playing k)
    × ((k : ℕ)
        → k < filter_voice
        → is_free playing k ≡ true
        → is_free playing (play beep (some (2 ∷ [])) playing).1 ≡ true)
play-queued_example = play-queued beep (some (2 ∷ [])) playing playing-IsValid

-- the voice stands at STOP already
stands_at_stop : has_bit (byte_at (voice_at playing 0) (voice_at playing 0).addr) 2 ≡ true
unfolding maintain play find_free is_free enqueue down_from start_queued start_sound next_ramp
    begin_command decode store put_voice sound_frame any_active any ramp_active update_ramps refresh
    gate_active byte_at advance zap_duration change_voice set_voice_control tick ramp set_gate
    read_freq read_adsr read_pulse_width read_filter read_duration read_extend read_waveform
    read_blocks voice_offset write poke refresh_done
stands_at_stop = refl

next_ramp-stop_example :
    ((next_ramp 1 0 playing).1 ≡ true)
    × (is_active (next_ramp 1 0 playing).0 0 ≡ false)
    × (0 < filter_voice → is_active (next_ramp 1 0 playing).0 4 ≡ false)
    × ((k : ℕ)
        → 0 ≢ k
        → (4 ≡ k → filter_voice ≤ 0)
        → is_active (next_ramp 1 0 playing).0 k ≡ is_active playing k)
next_ramp-stop_example = next_ramp-stop 0 0 playing playing-IsValid (omega arith) stands_at_stop
