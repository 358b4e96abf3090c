-- ===== src/Sound/Ramp.antt =====
-- `_updateRamps` while the duration lasts: the frequency ramp, and the registers that follow it.
use mathlib.Core.Path.{subst}
use neohabitat.Prelude.{
  ℕ, zero, suc, ◌+◌, ◌-◌, ◌*◌, ◌/◌, ◌%◌, ◌<◌, ◌≤◌, ◌≡◌, ◌≢◌, refl, sym, ap, ◌∙◌, true, false,
  Option, some, arith, length, get_elem?-set_self, get_elem?-set_ne, length-set, Bool-cases, inl,
  inr, get_elem?, ◌==◌,
}
use neohabitat.Sound.Sid.{Chip, poke, write, is_osc, voice_offset, num_voices, num_regs}
use neohabitat.Sound.Voice.{Voice, change_voice, tick, ramp}
use neohabitat.Sound.Player.{Player, voice_at, put_voice, refresh, update_ramps}
use neohabitat.Sound.Valid.{IsChip, IsVoice, poke-IsChip, ramp-IsVoice, tick-IsVoice}
use neohabitat.Sound.Invariant.{IsValid, voice_at-IsVoice, update_ramps-IsValid}

-- a register
abbrev pub reg : Chip → ℕ → Option ℕ
reg c i = get_elem? c.regs i

voice_at-put_voice :
    (vi : ℕ) (v : Voice) (p : Player) → vi < length p.voices → voice_at (put_voice vi v p) vi ≡ v
unfolding put_voice
voice_at-put_voice vi v p h = rw (get_elem?-set_self p.voices vi v h) refl

offset_lt : (vi : ℕ) → vi < num_voices → voice_offset vi < 22
unfolding voice_offset
offset_lt zero h = omega arith
offset_lt (suc zero) h = omega arith
offset_lt (suc (suc zero)) h = omega arith
offset_lt (suc (suc (suc zero))) h = omega arith
offset_lt (suc (suc (suc (suc zero)))) h = omega arith
offset_lt (suc (suc (suc (suc (suc zero))))) h = omega arith
offset_lt (suc (suc (suc (suc (suc (suc zero)))))) h = omega arith
offset_lt (suc (suc (suc (suc (suc (suc (suc k))))))) h = absurd (omega arith)

reg-poke_self : (i v : ℕ) (c : Chip) → i < length c.regs → reg (poke i v c) i ≡ some (v % 256)
unfolding poke write
reg-poke_self i v c h = get_elem?-set_self c.regs i (v % 256) h

reg-poke_ne : (i v j : ℕ) (c : Chip) → i ≢ j → reg (poke i v c) j ≡ reg c j
unfolding poke write
reg-poke_ne i v j c h = get_elem?-set_ne c.regs (v % 256) h

-- the two frequency registers after `_changeVoice`
reg-change_voice :
    (vi : ℕ) (v : Voice) (c : Chip)
    → vi < num_voices
    → IsChip c
    → v.freq < 65536
    → (reg (change_voice vi v c) (voice_offset vi) ≡ some (v.freq % 256))
      × (reg (change_voice vi v c) (voice_offset vi + 1) ≡ some (v.freq / 256))
unfolding change_voice
reg-change_voice vi v c h k f =
    let o = voice_offset vi in
    let low = poke o (v.freq % 256) c in
    let both = poke (o + 1) (v.freq / 256 % 256) low in
    let b : o < 22 = offset_lt vi h in
    let n : length c.regs ≡ num_regs = k.regs_length in
    let n' : length low.regs ≡ num_regs = (poke-IsChip o (v.freq % 256) c k).regs_length in
    let lo : reg both o ≡ some (v.freq % 256) =
      reg-poke_ne (o + 1) (v.freq / 256 % 256) o low (omega arith)
      ∙ reg-poke_self o (v.freq % 256) c (omega arith)
      ∙ ap some (omega arith) in
    let hi : reg both (o + 1) ≡ some (v.freq / 256) =
      reg-poke_self (o + 1) (v.freq / 256 % 256) low (omega arith) ∙ ap some (omega arith) in
    let env = poke (o + 5) v.attack_decay both in
    elim (Bool-cases (is_osc vi)) [
      | inl e ↦
          rw (e, change_voice)
            (
              reg-poke_ne (o + 6) v.sustain_release o env (omega arith)
                  ∙ reg-poke_ne (o + 5) v.attack_decay o both (omega arith)
                  ∙ lo,
              reg-poke_ne (o + 6) v.sustain_release (o + 1) env (omega arith)
                  ∙ reg-poke_ne (o + 5) v.attack_decay (o + 1) both (omega arith)
                  ∙ hi,
            )
      | inr e ↦ rw (e, change_voice) (lo, hi)
    ]

-- the frame in which a command still lasts
ramp_frame :
    (f vi : ℕ) (p : Player)
    → vi < length p.voices
    → 0 < (voice_at p vi).duration
    → IsVoice (voice_at p vi)
    → update_ramps f vi p ≡ (
      refresh vi
          (put_voice vi (ramp (tick (voice_at p vi))) (put_voice vi (tick (voice_at p vi)) p)),
      true,
    )
unfolding update_ramps tick
ramp_frame f vi p h d v =
    rw (not_over (voice_at p vi).duration d v.duration_word, update_ramps) refl
  where
    not_over : (n : ℕ) → 0 < n → n < 65536 → ((n + 65535) % 65536 == 65535) ≡ false
    not_over n a b = ground arith

-- `k` frames of one voice
unfoldable pub frames : ℕ → ℕ → ℕ → Player → Player
frames zero f vi p = p
frames (suc k) f vi p = (update_ramps f vi (frames k f vi p)).0

-- the voice and its registers after one frame of a ramp
pub update_ramps-step :
    (f vi : ℕ) (p : Player)
    → IsValid p
    → vi < num_voices
    → 0 < (voice_at p vi).duration
    → let v = voice_at p vi in
      let q = (update_ramps f vi p).0 in
      (voice_at q vi ≡ ramp (tick v))
      × (reg q.chip (voice_offset vi) ≡ some ((v.freq + v.increment) % 65536 % 256))
      × (reg q.chip (voice_offset vi + 1) ≡ some ((v.freq + v.increment) % 65536 / 256))
unfolding refresh put_voice ramp tick
update_ramps-step f vi p h l d =
    let v = voice_at p vi in
    let hv : IsVoice v = voice_at-IsVoice p vi h in
    let v1 = ramp (tick v) in
    let p1 = put_voice vi (tick v) p in
    let short : vi < length p.voices = omega (arith, h.voices_length) in
    let run = ramp_frame f vi p short d hv in
    let at : voice_at (put_voice vi v1 p1) vi ≡ v1 =
      voice_at-put_voice vi v1 p1
        (omega (arith, h.voices_length, length-set p.voices vi (tick v))) in
    let chip : (update_ramps f vi p).0.chip ≡ change_voice vi v1 p.chip =
      ap (λ q. q.0.chip) run ∙ ap (λ u. change_voice vi u p.chip) at in
    let regs =
      reg-change_voice vi v1 p.chip l h.chip_valid
        (ramp-IsVoice (tick v) (tick-IsVoice v hv)).freq_word in
    (
      ap (λ q. voice_at q.0 vi) run ∙ at,
      ap (λ c. reg c (voice_offset vi)) chip ∙ regs.0,
      ap (λ c. reg c (voice_offset vi + 1)) chip ∙ regs.1,
    )

frames-IsValid : (k f vi : ℕ) (p : Player) → IsValid p → IsValid (frames k f vi p)
unfolding frames
frames-IsValid zero f vi p h = h
frames-IsValid (suc k) f vi p h = update_ramps-IsValid f vi _ (frames-IsValid k f vi p h)

-- the counters of a voice in a ramp
record Ramped (k : ℕ) (v u : Voice) : Type 0 where
  freq_law : u.freq ≡ (v.freq + k * v.increment) % 65536
  duration_law : u.duration ≡ v.duration - k
  increment_law : u.increment ≡ v.increment

add_mod : (a b c : ℕ) → ((a + b) % 65536 + c) % 65536 ≡ (a + (b + c)) % 65536
add_mod a b c = omega arith

next_freq :
    (k : ℕ) (v u : Voice)
    → Ramped k v u
    → (u.freq + u.increment) % 65536 ≡ (v.freq + suc k * v.increment) % 65536
next_freq k v u r =
    ap (λ n. (n + u.increment) % 65536) r.freq_law
    ∙ ap (λ n. ((v.freq + k * v.increment) % 65536 + n) % 65536) r.increment_law
    ∙ add_mod v.freq (k * v.increment) v.increment
    ∙ ap (λ n. (v.freq + n) % 65536) (omega arith)

ramp_on :
    (k : ℕ) (v u : Voice)
    → suc k ≤ v.duration
    → IsVoice v
    → Ramped k v u
    → Ramped (suc k) v (ramp (tick u))
unfolding ramp tick
ramp_on k v u h hv r = record {
  freq_law = next_freq k v u r;
  duration_law = ap (λ n. (n + 65535) % 65536) r.duration_law ∙ omega (arith, hv.duration_word);
  increment_law = r.increment_law;
}

frames-Ramped :
    (k f vi : ℕ) (p : Player)
    → IsValid p
    → vi < num_voices
    → k ≤ (voice_at p vi).duration
    → Ramped k (voice_at p vi) (voice_at (frames k f vi p) vi)
unfolding frames
frames-Ramped zero f vi p h l d = record {
  freq_law = omega (arith, (voice_at-IsVoice p vi h).freq_word);
  duration_law = omega arith;
  increment_law = refl;
}
frames-Ramped (suc k) f vi p h l d =
    let q = frames k f vi p in
    let before : Ramped k (voice_at p vi) (voice_at q vi) =
      frames-Ramped k f vi p h l (omega arith) in
    let step =
      update_ramps-step f vi q (frames-IsValid k f vi p h) l (omega (arith, before.duration_law)) in
    subst (Ramped (suc k) (voice_at p vi)) (sym step.0)
      (ramp_on k (voice_at p vi) (voice_at q vi) d (voice_at-IsVoice p vi h) before)

-- A ramp, of one of the seven voices of a valid player: while the duration of a voice's command lasts, `_updateRamps` adds the increment to the
-- frequency in each frame, modulo 65536, and counts the duration down; and after each frame the two
-- frequency registers of the voice hold the low and the high byte of the frequency.
pub frames-ramp :
    (k f vi : ℕ) (p : Player)
    → IsValid p
    → vi < num_voices
    → suc k ≤ (voice_at p vi).duration
    → let v = voice_at p vi in
      let q = frames (suc k) f vi p in
      let freq = (v.freq + suc k * v.increment) % 65536 in
      ((voice_at q vi).freq ≡ freq)
      × ((voice_at q vi).duration ≡ v.duration - suc k)
      × (reg q.chip (voice_offset vi) ≡ some (freq % 256))
      × (reg q.chip (voice_offset vi + 1) ≡ some (freq / 256))
unfolding frames
frames-ramp k f vi p h l d =
    let q = frames k f vi p in
    let before = frames-Ramped k f vi p h l (omega arith) in
    let after = frames-Ramped (suc k) f vi p h l d in
    let step =
      update_ramps-step f vi q (frames-IsValid k f vi p h) l (omega (arith, before.duration_law)) in
    let v = voice_at p vi in
    let e : ((voice_at q vi).freq + (voice_at q vi).increment) % 65536
        ≡ (v.freq + suc k * v.increment) % 65536 =
      next_freq k v (voice_at q vi) before in
    (
      after.freq_law,
      after.duration_law,
      step.1 ∙ ap (λ n. some (n % 256)) e,
      step.2 ∙ ap (λ n. some (n / 256)) e,
    )
