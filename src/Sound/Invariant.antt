-- ===== src/Sound/Invariant.antt =====
-- `play`, `playPiece` and `maintain` keep a player valid.
use neohabitat.Prelude.{
  ℕ, zero, suc, ◌+◌, ◌<◌, ◌≡◌, refl, ◌∙◌, Bool, true, false, Option, none, some, List, [], ◌∷◌,
  arith, set, length, length-set, All, Option-cases, Bool-cases, ◌⊎◌, inl, inr, ltb, ◌==◌,
}
use neohabitat.Sound.Sid.{Chip, fresh_chip, is_osc, has_bit, num_voices, filter_voice}
use neohabitat.Sound.Voice.{Voice, make_voice, byte_at, tick, ramp}
use neohabitat.Sound.Player.{
  Player, Part, fresh_player, voice_at, put_voice, enqueue, play, queue_parts, play_piece,
  terminate_voice, begin_command, decode, store, next_ramp, start_sound, refresh, refresh_done,
  update_ramps, start_queued, down_from, ramp_active, gate_active, sound_frame, maintain, queued,
  is_active, any_active,
}
use neohabitat.Sound.Valid.{
  All-set, All-get_or, if-holds, IsChip, IsVoice, IsCursor, make_voice-IsVoice, tick-IsVoice,
  ramp-IsVoice, advance-IsVoice, set_gate-IsVoice,
}
use neohabitat.Sound.Kept.{
  read_blocks-IsCursor, read_loop-IsVoice, change_voice-IsChip, set_voice_control-IsChip,
}

-- 25 registers of one byte, and seven voices, 16-bit counters in each
pub record IsValid (p : Player) : Type 0 where
  pub chip_valid : IsChip p.chip
  pub voices_valid : All IsVoice p.voices
  pub voices_length : length p.voices ≡ num_voices
  pub active_length : length p.active ≡ num_voices
  pub queue_length : length p.queue ≡ num_voices

pub voice_at-IsVoice : (p : Player) (vi : ℕ) → IsValid p → IsVoice (voice_at p vi)
voice_at-IsVoice p vi h =
    All-get_or IsVoice p.voices vi make_voice h.voices_valid make_voice-IsVoice

put_voice-IsValid :
    (vi : ℕ) (v : Voice) (p : Player) → IsVoice v → IsValid p → IsValid (put_voice vi v p)
unfolding put_voice
put_voice-IsValid vi v p hv h = record {
  chip_valid = h.chip_valid;
  voices_valid = All-set IsVoice p.voices vi v h.voices_valid hv;
  voices_length = length-set p.voices vi v ∙ h.voices_length;
  active_length = h.active_length;
  queue_length = h.queue_length;
}

set_chip-IsValid : (c : Chip) (p : Player) → IsChip c → IsValid p → IsValid (record p { chip = c })
set_chip-IsValid c p hc h = record {
  chip_valid = hc;
  voices_valid = h.voices_valid;
  voices_length = h.voices_length;
  active_length = h.active_length;
  queue_length = h.queue_length;
}

set_queue-IsValid :
    (vi : ℕ) (q : Option (List ℕ)) (p : Player)
    → IsValid p
    → IsValid (record p { queue = set p.queue vi q })
set_queue-IsValid vi q p h = record {
  chip_valid = h.chip_valid;
  voices_valid = h.voices_valid;
  voices_length = h.voices_length;
  active_length = h.active_length;
  queue_length = length-set p.queue vi q ∙ h.queue_length;
}

store-IsValid :
    (vi : ℕ) (v : Voice) (c : Chip) (p : Player)
    → IsVoice v
    → IsChip c
    → IsValid p
    → IsValid (store vi v c p)
unfolding store
store-IsValid vi v c p hv hc h = put_voice-IsValid vi v _ hv (set_chip-IsValid c p hc h)

enqueue-IsValid : (vi : ℕ) (q : Option (List ℕ)) (p : Player) → IsValid p → IsValid (enqueue vi q p)
unfolding enqueue
enqueue-IsValid vi none p h = h
enqueue-IsValid vi (some code) p h = set_queue-IsValid vi (some code) p h

abbrev SevenLong : List Bool → Type 0
SevenLong l = length l ≡ num_voices

terminate_voice-IsValid : (vi : ℕ) (p : Player) → IsValid p → IsValid (terminate_voice vi p)
unfolding terminate_voice
terminate_voice-IsValid vi p h = record {
  chip_valid = set_voice_control-IsChip vi (voice_at p vi) p.chip h.chip_valid;
  voices_valid = h.voices_valid;
  voices_length = h.voices_length;
  queue_length = h.queue_length;
  active_length =
      if-holds SevenLong (ltb vi filter_voice) _ _
        (length-set (set p.active vi false) (vi + 4) false
          ∙ length-set p.active vi false
          ∙ h.active_length)
        (length-set p.active vi false ∙ h.active_length);
}

begin_command-IsVoice : (vi : ℕ) (v : Voice) → IsVoice v → IsVoice (begin_command vi v)
unfolding begin_command
begin_command-IsVoice vi v h = set_gate-IsVoice (is_osc vi) _ _ (record {
  addr_word = h.addr_word;
  freq_word = h.freq_word;
  duration_word = h.duration_word;
  increment_word = h.increment_word;
  attack_byte = h.attack_byte;
  sustain_byte = h.sustain_byte;
})

decode-IsCursor : (vi : ℕ) (p : Player) → IsValid p → IsCursor (decode vi p)
unfolding decode
decode-IsCursor vi p h = read_blocks-IsCursor vi _ _ _ (record {
  voice_valid = begin_command-IsVoice vi (voice_at p vi) (voice_at-IsVoice p vi h);
  chip_valid = h.chip_valid;
})

next_ramp-IsValid : (f vi : ℕ) (p : Player) → IsValid p → IsValid (next_ramp f vi p).0
unfolding next_ramp
next_ramp-IsValid zero vi p h = h
next_ramp-IsValid (suc f) vi p h =
    let v = voice_at p vi in
    let d = decode vi p in
    let hd : IsCursor d = decode-IsCursor vi p h in
    elim (Bool-cases (has_bit (byte_at v v.addr) 2)) [
      | inl e ↦
          rw (e, next_ramp)
            (terminate_voice-IsValid vi _
              (put_voice-IsValid vi _ p (begin_command-IsVoice vi v (voice_at-IsVoice p vi h)) h))
      | inr e ↦ elim (Bool-cases (has_bit (byte_at v v.addr) 128)) [
        | inl l ↦
            rw (e, l, next_ramp)
              (next_ramp-IsValid f vi _ (
                store-IsValid vi _ d.chip p (read_loop-IsVoice v.addr d hd.voice_valid)
                  hd.chip_valid h))
        | inr l ↦
            rw (e, l, next_ramp)
              (store-IsValid vi _ d.chip p (advance-IsVoice _ d.voice hd.voice_valid) hd.chip_valid
                h)
      ]
    ]

start_sound-IsValid :
    (f vi : ℕ) (code : List ℕ) (p : Player) → IsValid p → IsValid (start_sound f vi code p).0
unfolding start_sound
start_sound-IsValid f vi code p h =
    let v = voice_at-IsVoice p vi h in
    next_ramp-IsValid f vi _ (record {
      chip_valid = h.chip_valid;
      voices_valid = All-set IsVoice p.voices vi _ h.voices_valid (record {
        addr_word = omega arith;
        freq_word = v.freq_word;
        duration_word = v.duration_word;
        increment_word = v.increment_word;
        attack_byte = v.attack_byte;
        sustain_byte = v.sustain_byte;
      });
      voices_length = length-set p.voices vi _ ∙ h.voices_length;
      active_length = length-set p.active vi true ∙ h.active_length;
      queue_length = h.queue_length;
    })

refresh-IsValid : (vi : ℕ) (p : Player) → IsValid p → IsValid (refresh vi p)
unfolding refresh
refresh-IsValid vi p h =
    set_chip-IsValid _ p (change_voice-IsChip vi (voice_at p vi) p.chip h.chip_valid) h

refresh_done-IsValid : (vi : ℕ) (q : Player × Bool) → IsValid q.0 → IsValid (refresh_done vi q).0
unfolding refresh_done
refresh_done-IsValid vi (p, true) h = refresh-IsValid vi p h
refresh_done-IsValid vi (p, false) h = h

-- the invariant of a step with the report whether it has ended
abbrev pub Valid : Player × Bool → Type 0
Valid q = IsValid q.0

pub update_ramps-IsValid : (f vi : ℕ) (p : Player) → IsValid p → Valid (update_ramps f vi p)
unfolding update_ramps
update_ramps-IsValid f vi p h =
    let v = tick (voice_at p vi) in
    let hv = tick-IsVoice (voice_at p vi) (voice_at-IsVoice p vi h) in
    let h1 = put_voice-IsValid vi v p hv h in
    if-holds Valid (v.duration == 65535) _ _
      (refresh_done-IsValid vi (next_ramp f vi (put_voice vi v p)) (next_ramp-IsValid f vi _ h1))
      (refresh-IsValid vi _ (put_voice-IsValid vi (ramp v) _ (ramp-IsVoice v hv) h1))

start_queued-IsValid : (f vi : ℕ) (p : Player) → IsValid p → Valid (start_queued f vi p)
unfolding start_queued
start_queued-IsValid f vi p h = elim (Option-cases (queued p vi)) [
  | inl e ↦ rw (e, start_queued) h
  | inr (code, e) ↦
      rw (e, start_queued) (start_sound-IsValid f vi code _ (set_queue-IsValid vi none p h))
]

down_from-IsValid :
    (n : ℕ) (step : ℕ → Player → Player × Bool)
    → ((i : ℕ) (p : Player) → IsValid p → Valid (step i p))
    → (p : Player) → IsValid p
    → Valid (down_from n step p)
unfolding down_from
down_from-IsValid zero step keep p h = h
down_from-IsValid (suc n) step keep p h = elim (Bool-cases (step n p).1) [
  | inl e ↦ rw (e, down_from) (down_from-IsValid n step keep (step n p).0 (keep n p h))
  | inr e ↦ rw (e, down_from) (keep n p h)
]

ramp_active-IsValid : (f vi : ℕ) (p : Player) → IsValid p → Valid (ramp_active f vi p)
unfolding ramp_active
ramp_active-IsValid f vi p h = if-holds Valid (is_active p vi) _ _ (update_ramps-IsValid f vi p h) h

gate_active-IsValid : (vi : ℕ) (p : Player) → IsValid p → Valid (gate_active vi p)
unfolding gate_active
gate_active-IsValid vi p h =
    if-holds IsValid (is_active p vi) _ p
      (set_chip-IsValid _ p (set_voice_control-IsChip vi (voice_at p vi) p.chip h.chip_valid) h) h

sound_frame-IsValid : (f : ℕ) (p : Player) → IsValid p → Valid (sound_frame f p)
unfolding sound_frame
sound_frame-IsValid f p h = if-holds Valid (any_active p) _ _ (go (Bool-cases ramped.1)) h
  where
    ramped : Player × Bool
    ramped = down_from num_voices (ramp_active f) p

    ramped_valid : Valid ramped
    ramped_valid = down_from-IsValid num_voices (ramp_active f) (ramp_active-IsValid f) p h

    go :
        ((ramped.1 ≡ true) ⊎ (ramped.1 ≡ false))
        → Valid (elim ramped.1 [
          | true ↦ down_from num_voices gate_active ramped.0
          | false ↦ (ramped.0, false)
        ])
    go (inl e) =
        rw e (down_from-IsValid num_voices gate_active gate_active-IsValid ramped.0 ramped_valid)
    go (inr e) = rw e ramped_valid

-- A frame keeps the player valid, also one that does not end.
pub maintain-IsValid : (f : ℕ) (p : Player) → IsValid p → IsValid (maintain f p).0
unfolding maintain
maintain-IsValid f p h = elim (Bool-cases (down_from num_voices (start_queued f) p).1) [
  | inl e ↦
      rw (e, maintain)
        (sound_frame-IsValid f _
          (down_from-IsValid num_voices (start_queued f) (start_queued-IsValid f) p h))
  | inr e ↦
      rw (e, maintain) (down_from-IsValid num_voices (start_queued f) (start_queued-IsValid f) p h)
]

pub play-IsValid :
    (code : List ℕ) (pw : Option (List ℕ)) (p : Player) → IsValid p → IsValid (play code pw p).0
unfolding play
play-IsValid code pw p h = enqueue-IsValid _ pw _ (enqueue-IsValid _ (some code) p h)

fresh_regs : All (λ r. r < 256) fresh_chip.regs
fresh_regs =
    let z : 0 < 256 = omega arith in
    (
      z,
      (
        z,
        (
          z,
          (
            z,
            (
              z,
              (
                z,
                (
                  z,
                  (
                    z,
                    (
                      z,
                      (
                        z,
                        (
                          z,
                          (
                            z,
                            (
                              z,
                              (
                                z,
                                (z, (z, (z, (z, (z, (z, (z, (z, (z, (z, (omega arith, tt))))))))))),
                              ),
                            ),
                          ),
                        ),
                      ),
                    ),
                  ),
                ),
              ),
            ),
          ),
        ),
      ),
    )

pub fresh_player-IsValid : IsValid fresh_player
fresh_player-IsValid =
    let v = make_voice-IsVoice in
    record {
      chip_valid = record { regs_length = refl; regs_bytes = fresh_regs };
      voices_valid = (v, (v, (v, (v, (v, (v, (v, tt)))))));
      voices_length = refl;
      active_length = refl;
      queue_length = refl;
    }

queue_parts-IsValid :
    (i : ℕ) (parts : List Part) (p : Player) → IsValid p → IsValid (queue_parts i parts p)
unfolding queue_parts
queue_parts-IsValid i [] p h = h
queue_parts-IsValid i (part ∷ parts) p h = queue_parts-IsValid (i + 1) parts _ (
    if-holds IsValid (ltb i filter_voice) _ p
      (enqueue-IsValid (i + 4) part.pw _ (enqueue-IsValid i part.voices p h)) h)

-- the players that a client can reach: fresh, and after each call
pub data Reached : Player → Type 0 where
  made : Reached fresh_player
  played :
      (code : List ℕ) (pw : Option (List ℕ)) (p : Player) → Reached p → Reached (play code pw p).0
  piece : (parts : List Part) (p : Player) → Reached p → Reached (play_piece parts p)
  frame : (fuel : ℕ) (p : Player) → Reached p → Reached (maintain fuel p).0

-- A player that is reached by calls of `play`, `playPiece` and `maintain` has 25 registers of one
-- byte each, and seven voices whose address, frequency, duration and increment are 16-bit words.
pub Reached-IsValid : (p : Player) → Reached p → IsValid p
unfolding play_piece
Reached-IsValid p made = fresh_player-IsValid
Reached-IsValid p (played code pw q r) = play-IsValid code pw q (Reached-IsValid q r)
Reached-IsValid p (piece parts q r) = queue_parts-IsValid 0 parts fresh_player fresh_player-IsValid
Reached-IsValid p (frame fuel q r) = maintain-IsValid fuel q (Reached-IsValid q r)
