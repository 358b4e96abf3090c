-- ===== src/Sound/Player.antt =====
-- Class `SfxPlayer` of interpreter.js.
use neohabitat.Prelude.{
  ℕ, zero, suc, ◌+◌, Bool, true, false, ◌&&◌, ◌||◌, not, Option, none, some, List, [], ◌∷◌, ◌==◌,
  if◌then◌else◌, get_elem?, get_or, set, is_some, any, ltb,
}
use neohabitat.Sound.Sid.{Chip, fresh_chip, is_osc, has_bit, filter_voice, num_voices}
use neohabitat.Sound.Voice.{
  Voice, make_voice, byte_at, advance, change_voice, set_voice_control, tick, ramp,
}
use neohabitat.Sound.Decode.{Cursor, set_gate, read_blocks, read_loop}

pub record Player : Type 0 where
  pub chip : Chip
  pub voices : List Voice
  pub active : List Bool
  pub queue : List (Option (List ℕ))

-- `reset`, and the constructor
abbrev pub fresh_player : Player
fresh_player = record {
  chip = fresh_chip;
  voices =
      make_voice ∷ make_voice ∷ make_voice ∷ make_voice ∷ make_voice ∷ make_voice ∷ make_voice ∷ [];
  active = false ∷ false ∷ false ∷ false ∷ false ∷ false ∷ false ∷ [];
  queue = none ∷ none ∷ none ∷ none ∷ none ∷ none ∷ none ∷ [];
}

abbrev pub voice_at : Player → ℕ → Voice
voice_at p vi = get_or (get_elem? p.voices vi) make_voice

abbrev pub is_active : Player → ℕ → Bool
is_active p vi = get_or (get_elem? p.active vi) false

abbrev pub queued : Player → ℕ → Option (List ℕ)
queued p vi = get_or (get_elem? p.queue vi) none

unfoldable pub put_voice : ℕ → Voice → Player → Player
put_voice vi v p = record p { voices = set p.voices vi v }

-- `findIndex` over the three oscillators
unfoldable pub is_free : Player → ℕ → Bool
is_free p vi = not (is_active p vi) && not (is_some (queued p vi))

unfoldable pub find_free : Player → Option ℕ
find_free p =
    if is_free p 0
    then some 0
    else if is_free p 1
    then some 1
    else if is_free p 2
    then some 2
    else none

unfoldable pub enqueue : ℕ → Option (List ℕ) → Player → Player
enqueue vi none p = p
enqueue vi (some code) p = record p { queue = set p.queue vi (some code) }

-- `play`, with the voice that it returns
unfoldable pub play : List ℕ → Option (List ℕ) → Player → Player × ℕ
play voice_data pw_data p =
    let vi = get_or (find_free p) 0 in
    (enqueue (vi + 4) pw_data (enqueue vi (some voice_data) p), vi)

-- a part of a piece: `{ voices, pw }`
pub record Part : Type 0 where
  pub voices : Option (List ℕ)
  pub pw : Option (List ℕ)

unfoldable pub queue_parts : ℕ → List Part → Player → Player
queue_parts i [] p = p
queue_parts i (part ∷ parts) p =
    queue_parts (i + 1) parts
      (if ltb i filter_voice then enqueue (i + 4) part.pw (enqueue i part.voices p) else p)

unfoldable pub play_piece : List Part → Player → Player
play_piece parts p = queue_parts 0 parts fresh_player

unfoldable pub any_active : Player → Bool
any_active p = any (λ a. a) p.active

unfoldable pub is_busy : Player → Bool
is_busy p = any_active p || any (is_some) p.queue

-- `_terminateVoice`; an oscillator stops its paired pulse-width track too
unfoldable pub terminate_voice : ℕ → Player → Player
terminate_voice vi p =
    let stopped = set p.active vi false in
    record p {
      chip = set_voice_control vi (voice_at p vi) p.chip;
      active = if ltb vi filter_voice then set stopped (vi + 4) false else stopped;
    }

-- the command byte and the gate, which come before STOP
unfoldable pub begin_command : ℕ → Voice → Voice
begin_command vi v =
    let cmd = byte_at v v.addr in set_gate (is_osc vi) cmd (record v { command = cmd })

unfoldable pub decode : ℕ → Player → Cursor
decode vi p =
    let v = voice_at p vi in
    read_blocks vi v.addr (byte_at v v.addr)
      (record { voice = begin_command vi v; chip = p.chip; y = 0 })

unfoldable pub store : ℕ → Voice → Chip → Player → Player
store vi v c p = put_voice vi v (record p { chip = c })

-- `_nextRamp`: the loop `for (;;)` has fuel, and `false` says that it did not end
unfoldable pub next_ramp : ℕ → ℕ → Player → Player × Bool
next_ramp zero vi p = (p, false)
next_ramp (suc f) vi p =
    let v = voice_at p vi in
    let cmd = byte_at v v.addr in
    elim (has_bit cmd 2) [
      | true ↦ (terminate_voice vi (put_voice vi (begin_command vi v) p), true)
      | false ↦
          let d = decode vi p in
          elim (has_bit cmd 128) [
            | true ↦ next_ramp f vi (store vi (read_loop v.addr d) d.chip p)
            | false ↦ (store vi (advance (d.y + 1) d.voice) d.chip p, true)
          ]
    ]

-- `_startSound`
unfoldable pub start_sound : ℕ → ℕ → List ℕ → Player → Player × Bool
start_sound fuel vi code p = next_ramp fuel vi (record p {
  voices =
      set p.voices vi (record (voice_at p vi) { loop_count = some 0; bytecode = code; addr = 0 });
  active = set p.active vi true;
})

unfoldable pub refresh : ℕ → Player → Player
refresh vi p = record p { chip = change_voice vi (voice_at p vi) p.chip }

unfoldable pub refresh_done : ℕ → Player × Bool → Player × Bool
refresh_done vi (p, true) = (refresh vi p, true)
refresh_done vi (p, false) = (p, false)

-- `_updateRamps`
unfoldable pub update_ramps : ℕ → ℕ → Player → Player × Bool
update_ramps fuel vi p =
    let v = tick (voice_at p vi) in
    let p1 = put_voice vi v p in
    if v.duration == 65535
    then refresh_done vi (next_ramp fuel vi p1)
    else (refresh vi (put_voice vi (ramp v) p1), true)

-- the three loops of `maintain`, over the voices from `n - 1` down to 0
unfoldable pub start_queued : ℕ → ℕ → Player → Player × Bool
start_queued fuel vi p = elim (queued p vi) [
  | none ↦ (p, true)
  | some code ↦ start_sound fuel vi code (record p { queue = set p.queue vi none })
]

unfoldable pub down_from : ℕ → (ℕ → Player → Player × Bool) → Player → Player × Bool
down_from zero step p = (p, true)
down_from (suc n) step p =
    let (p', done) = step n p in elim done [ true ↦ down_from n step p' | false ↦ (p', false) ]

unfoldable pub ramp_active : ℕ → ℕ → Player → Player × Bool
ramp_active fuel vi p = if is_active p vi then update_ramps fuel vi p else (p, true)

unfoldable pub gate_active : ℕ → Player → Player × Bool
gate_active vi p = (
  if is_active p vi then record p { chip = set_voice_control vi (voice_at p vi) p.chip } else p,
  true,
)

-- `maintain`, once the queued sounds are started
unfoldable pub sound_frame : ℕ → Player → Player × Bool
sound_frame fuel p =
    if any_active p
    then (let (p1, done) = down_from num_voices (ramp_active fuel) p in
        elim done [ true ↦ down_from num_voices gate_active p1 | false ↦ (p1, false) ])
    else (p, true)

unfoldable pub maintain : ℕ → Player → Player × Bool
maintain fuel p =
    let (p1, done) = down_from num_voices (start_queued fuel) p in
    elim done [ true ↦ sound_frame fuel p1 | false ↦ (p1, false) ]
