-- ===== src/Sound/Playing.antt =====
-- What `play`, STOP, a ramp and an idle frame do.
use neohabitat.Prelude.{
  ℕ, zero, suc, ◌+◌, ◌<◌, ◌≤◌, ◌≡◌, ◌≢◌, refl, ap, ◌∙◌, Bool, true, false, Option, none, some, List,
  [], ◌∷◌, arith, set, length, get_elem?-set_self, get_elem?-set_ne, length-set, Option-cases,
  Bool-cases, inl, inr, ◌⊎◌, ltb, get_or, get_elem?, is_some, any,
}
use neohabitat.Sound.Sid.{has_bit, num_voices, filter_voice}
use neohabitat.Sound.Voice.{byte_at}
use neohabitat.Sound.Player.{
  Player, voice_at, put_voice, is_active, queued, enqueue, play, is_free, find_free,
  terminate_voice, begin_command, next_ramp, start_queued, down_from, maintain, is_busy, any_active,
  sound_frame,
}
use neohabitat.Sound.Invariant.{IsValid}

find_free_cases :
    (p : Player)
    → ((find_free p ≡ none) × (is_free p 0 ≡ false) × (is_free p 1 ≡ false) × (is_free p 2 ≡ false))
      ⊎ ((vi : ℕ) × (find_free p ≡ some vi) × (vi < filter_voice) × (is_free p vi ≡ true))
unfolding find_free
find_free_cases p = elim (Bool-cases (is_free p 0)) [
  | inl a ↦ inr (0, rw (a, find_free) refl, omega arith, a)
  | inr a ↦ elim (Bool-cases (is_free p 1)) [
    | inl b ↦ inr (1, rw (a, b, find_free) refl, omega arith, b)
    | inr b ↦ elim (Bool-cases (is_free p 2)) [
      | inl c ↦ inr (2, rw (a, b, c, find_free) refl, omega arith, c)
      | inr c ↦ inl (rw (a, b, c, find_free) refl, a, b, c)
    ]
  ]
]

queued-enqueue_self :
    (vi : ℕ) (code : List ℕ) (p : Player)
    → vi < length p.queue
    → queued (enqueue vi (some code) p) vi ≡ some code
unfolding enqueue
queued-enqueue_self vi code p h = rw (get_elem?-set_self p.queue vi (some code) h) refl

queued-enqueue_ne :
    (vi k : ℕ) (q : Option (List ℕ)) (p : Player) → vi ≢ k → queued (enqueue vi q p) k ≡ queued p k
unfolding enqueue
queued-enqueue_ne vi k none p h = refl
queued-enqueue_ne vi k (some code) p h = rw (get_elem?-set_ne p.queue (some code) h) refl

abbrev chosen : Player → ℕ
chosen p = get_or (find_free p) 0

chosen_lt : (p : Player) → chosen p < filter_voice
chosen_lt p = elim (find_free_cases p) [
  | inl (e, a, b, c) ↦ rw e (omega arith)
  | inr (vi, e, l, f) ↦ rw e l
]

none_free :
    (p : Player)
    → is_free p 0 ≡ false
    → is_free p 1 ≡ false
    → is_free p 2 ≡ false
    → (k : ℕ) → k < filter_voice
    → is_free p k ≡ false
none_free p a b c zero h = a
none_free p a b c (suc zero) h = b
none_free p a b c (suc (suc zero)) h = c
none_free p a b c (suc (suc (suc k))) h = absurd (omega arith)

chosen_free :
    (p : Player) (k : ℕ) → k < filter_voice → is_free p k ≡ true → is_free p (chosen p) ≡ true
chosen_free p k h f = elim (find_free_cases p) [
  | inl (e, a, b, c) ↦ cc (none_free p a b c k h, f)
  | inr (vi, e, l, g) ↦ rw e g
]

enqueue-length :
    (vi : ℕ) (q : Option (List ℕ)) (p : Player) → length (enqueue vi q p).queue ≡ length p.queue
unfolding enqueue
enqueue-length vi none p = refl
enqueue-length vi (some code) p = length-set p.queue vi (some code)

-- `play` in a valid player: the sound waits for the oscillator that is returned,
-- and its pulse-width track, if there is one, for the paired track; the queue of no other voice
-- changes; and the oscillator is a free one (neither active nor waited for) if any of the three is.
pub play-queued :
    (code : List ℕ) (pw : Option (List ℕ)) (p : Player)
    → IsValid p
    → ((play code pw p).1 < filter_voice)
      × (queued (play code pw p).0 (play code pw p).1 ≡ some code)
      × ((track : List ℕ)
          → pw ≡ some track
          → queued (play code pw p).0 ((play code pw p).1 + 4) ≡ some track)
      × ((k : ℕ)
          → (play code pw p).1 ≢ k
          → (play code pw p).1 + 4 ≢ k
          → queued (play code pw p).0 k ≡ queued p k)
      × ((k : ℕ) → k < filter_voice → is_free p k ≡ true → is_free p (play code pw p).1 ≡ true)
unfolding play
play-queued code pw p h =
    let vi = chosen p in
    let p1 = enqueue vi (some code) p in
    let l : vi < filter_voice = chosen_lt p in
    let q : length p.queue ≡ num_voices = h.queue_length in
    let q1 : length p1.queue ≡ length p.queue = enqueue-length vi (some code) p in
    let mine : queued p1 vi ≡ some code = queued-enqueue_self vi code p (omega arith) in
    (
      l,
      queued-enqueue_ne (vi + 4) vi pw p1 (omega arith) ∙ mine,
      λ track e. rw e (queued-enqueue_self (vi + 4) track p1 (omega arith)),
      λ k a b. queued-enqueue_ne (vi + 4) k pw p1 b ∙ queued-enqueue_ne vi k (some code) p a,
      λ k b f. chosen_free p k b f,
    )

any-false {ℓ} :
    {A : Type ℓ} (f : A → Bool) (l : List A)
    → any f l ≡ false
    → (i : ℕ) (a : A) → get_elem? l i ≡ some a
    → f a ≡ false
unfolding any
any-false f [] h i a e = cc
any-false f (x ∷ l) h zero a e = ground arith
any-false f (x ∷ l) h (suc i) a e = any-false f l (ground arith) i a e

idle_queue : (p : Player) → any is_some p.queue ≡ false → (vi : ℕ) → queued p vi ≡ none
idle_queue p h vi = elim (Option-cases (get_elem? p.queue vi)) [
  | inl e ↦ rw e refl
  | inr (q, e) ↦ rw e (none_of q (any-false is_some p.queue h vi q e))
]
  where
    none_of : (q : Option (List ℕ)) → is_some q ≡ false → q ≡ none
    none_of none e = refl
    none_of (some c) e = cc

not_queued : (f vi : ℕ) (p : Player) → queued p vi ≡ none → start_queued f vi p ≡ (p, true)
unfolding start_queued
not_queued f vi p h = rw (h, start_queued) refl

idle_start :
    (f n : ℕ) (p : Player)
    → any is_some p.queue ≡ false
    → down_from n (start_queued f) p ≡ (p, true)
unfolding down_from
idle_start f zero p h = refl
idle_start f (suc n) p h = grind (arith, not_queued f n p (idle_queue p h n), idle_start f n p h)

-- A frame of a player with nothing to do changes nothing and ends, however the player came about.
pub maintain-idle : (f : ℕ) (p : Player) → is_busy p ≡ false → maintain f p ≡ (p, true)
unfolding maintain is_busy sound_frame
maintain-idle f p h =
    let q : any_active p ≡ false = ground arith in
    let started : down_from num_voices (start_queued f) p ≡ (p, true) =
      idle_start f num_voices p (ground arith) in
    grind (arith, started, q)

-- the voices that sound after an end
terminate_voice-active :
    (vi : ℕ) (p : Player)
    → length p.active ≡ num_voices
    → vi < num_voices
    → (is_active (terminate_voice vi p) vi ≡ false)
      × (vi < filter_voice → is_active (terminate_voice vi p) (vi + 4) ≡ false)
      × ((k : ℕ)
          → vi ≢ k
          → (vi + 4 ≡ k → filter_voice ≤ vi)
          → is_active (terminate_voice vi p) k ≡ is_active p k)
unfolding terminate_voice
terminate_voice-active vi p n l =
    let stopped = set p.active vi false in
    let here : get_elem? stopped vi ≡ some false =
      get_elem?-set_self p.active vi false (omega arith) in
    let len : length stopped ≡ length p.active = length-set p.active vi false in
    elim (Bool-cases (ltb vi filter_voice)) [
      | inl e ↦
          rw (e, terminate_voice)
            (
              ap (λ o. get_or o false) (get_elem?-set_ne stopped false (omega arith) ∙ here),
              λ b.
                  ap (λ o. get_or o false)
                    (get_elem?-set_self stopped (vi + 4) false (ground arith)),
              λ k a b.
                  ap (λ o. get_or o false)
                    (get_elem?-set_ne stopped {i = vi + 4} {j = k} false
                        (λ q. absurd (ground (arith, b q)))
                      ∙ get_elem?-set_ne p.active false a),
            )
      | inr e ↦
          rw (e, terminate_voice)
            (
              ap (λ o. get_or o false) here,
              λ b. absurd (ground arith),
              λ k a b. ap (λ o. get_or o false) (get_elem?-set_ne p.active false a),
            )
    ]

-- STOP as the next command of one of the seven voices of a valid player: the command ends, the voice ends, an oscillator's pulse-width track too,
-- and no other voice does.
pub next_ramp-stop :
    (f vi : ℕ) (p : Player)
    → IsValid p
    → vi < num_voices
    → has_bit (byte_at (voice_at p vi) (voice_at p vi).addr) 2 ≡ true
    → ((next_ramp (suc f) vi p).1 ≡ true)
      × (is_active (next_ramp (suc f) vi p).0 vi ≡ false)
      × (vi < filter_voice → is_active (next_ramp (suc f) vi p).0 (vi + 4) ≡ false)
      × ((k : ℕ)
          → vi ≢ k
          → (vi + 4 ≡ k → filter_voice ≤ vi)
          → is_active (next_ramp (suc f) vi p).0 k ≡ is_active p k)
unfolding next_ramp
next_ramp-stop f vi p h l s =
    let t =
      terminate_voice-active vi (put_voice vi (begin_command vi (voice_at p vi)) p)
        (unfold put_voice in h.active_length) l in
    rw (s, next_ramp) (refl, t.0, t.1, unfold put_voice in t.2)
