-- ===== src/Verb/Keeps/Context.antt =====
-- What is stable is kept by the calls of a context.
use neohabitat.Prelude.{ℕ, ℤ, String, Option, none, some, List, [], ◌∷◌}
use neohabitat.World.Object.{Object, World}
use neohabitat.Verb.Pause.{Place}
use neohabitat.Verb.Program.{
  Reply, Result, good, standing_as, with_number, with_text, said, refused, Act,
}
use neohabitat.Verb.Context.{
  Ctx, mod_now, in_hand, beeps, boings, play_sound, play_chore, strike_posture, redraws,
  redraws_state, says, says_line, shows_page, changes_state, changes_light, turn, if_granted,
  put_into, change_region,
}
use neohabitat.Verb.Walking.{arrive, walked, walk_to, pause, wait_walk, if_ok, go_then}
use neohabitat.Verb.Keeps.{Assumption, Keeps, IsStable}
use neohabitat.Verb.Keeps.Worlds.{CtxKeeps, world_rules}

module _ {I : World → Type 0} {Fair : Assumption} (st : IsStable I Fair) where
  pub mod_now-Keeps : (o : Object) → Keeps I Fair (mod_now o)
  unfolding mod_now
  mod_now-Keeps o = search world_rules depth 60

  pub in_hand-Keeps : (c : Ctx) → CtxKeeps I Fair c → Keeps I Fair (in_hand c)
  unfolding in_hand
  in_hand-Keeps c hc = search world_rules depth 60

  pub beeps-Keeps : (r : String) → Keeps I Fair (beeps r)
  unfolding beeps
  beeps-Keeps r = search world_rules depth 60

  pub boings-Keeps : (r : String) → Keeps I Fair (boings r)
  unfolding boings
  boings-Keeps r = search world_rules depth 60

  pub play_sound-Keeps : (name : String) (noid : ℕ) → Keeps I Fair (play_sound name noid)
  unfolding play_sound
  play_sound-Keeps name noid = search world_rules depth 60

  pub play_chore-Keeps :
      (act : String) (c : Ctx) → CtxKeeps I Fair c → Keeps I Fair (play_chore act c)
  unfolding play_chore
  play_chore-Keeps act c hc = search world_rules depth 60

  pub strike_posture-Keeps :
      (p : ℕ) (c : Ctx) → CtxKeeps I Fair c → Keeps I Fair (strike_posture p c)
  unfolding strike_posture
  strike_posture-Keeps p c hc = search world_rules depth 60

  pub redraws-Keeps : (noid : ℕ) → Keeps I Fair (redraws noid)
  unfolding redraws
  redraws-Keeps noid = search world_rules depth 60

  pub redraws_state-Keeps : (noid : ℕ) (state : ℕ) → Keeps I Fair (redraws_state noid state)
  unfolding redraws_state
  redraws_state-Keeps noid state = search world_rules depth 60

  pub says-Keeps : (x : Option String) (y : Option ℕ) → Keeps I Fair (says x y)
  unfolding says
  says-Keeps none speaker = search world_rules depth 60
  says-Keeps (some text) speaker = search world_rules depth 60

  pub says_line-Keeps :
      (text : String) (c : Ctx) → CtxKeeps I Fair c → Keeps I Fair (says_line text c)
  unfolding says_line
  says_line-Keeps text c hc = search (world_rules, says-Keeps) depth 60

  pub shows_page-Keeps : (x : List ℕ) → Keeps I Fair (shows_page x)
  unfolding shows_page
  shows_page-Keeps [] = search world_rules depth 60
  shows_page-Keeps (b ∷ bytes) = search world_rules depth 60

  pub changes_state-Keeps : (noid : ℕ) (state : ℕ) → Keeps I Fair (changes_state noid state)
  unfolding changes_state
  changes_state-Keeps noid state = search world_rules depth 60

  pub changes_light-Keeps : (n : ℤ) → Keeps I Fair (changes_light n)
  unfolding changes_light
  changes_light-Keeps n = search world_rules depth 60

  pub arrive-Keeps :
      (c : Ctx) (to : Place) (how : ℕ) → CtxKeeps I Fair c → Keeps I Fair (arrive c to how)
  unfolding arrive
  arrive-Keeps c to how hc = search world_rules depth 60

  pub walked-Keeps :
      (c : Ctx) (from : Option Place) (to : Place) (how : ℕ)
      → CtxKeeps I Fair c
      → Keeps I Fair (walked c from to how)
  unfolding walked
  walked-Keeps c from to how hc = search (world_rules, arrive-Keeps) depth 60

  pub walk_to-Keeps :
      (c : Ctx) (x : Option ℕ) (y : Option ℕ) → CtxKeeps I Fair c → Keeps I Fair (walk_to c x y)
  unfolding walk_to
  walk_to-Keeps c x y hc = search (world_rules, walked-Keeps) depth 60

  pub pause-Keeps : (ms : ℕ) → Keeps I Fair (pause ms)
  unfolding pause
  pause-Keeps ms = search world_rules depth 60

  pub wait_walk-Keeps : Keeps I Fair wait_walk
  unfolding wait_walk
  wait_walk-Keeps = search (world_rules, pause-Keeps) depth 60

  pub turn-Keeps : (x : Option ℕ) (y : Object) → Keeps I Fair (turn x y)
  unfolding turn
  turn-Keeps none item = search world_rules depth 60
  turn-Keeps (some o) item = search world_rules depth 60

  pub if_granted-Keeps :
      (reply : Option Reply) (k : Act Result) → Keeps I Fair k → Keeps I Fair (if_granted reply k)
  unfolding if_granted
  if_granted-Keeps reply k hk = search (world_rules, beeps-Keeps) depth 60

  pub put_into-Keeps :
      (c : Ctx) (container : ℕ) (x : Option ℕ) (y : Option ℕ) (orientation : Option ℕ)
      → CtxKeeps I Fair c
      → Keeps I Fair (put_into c container x y orientation)
  unfolding put_into
  put_into-Keeps c container x y orientation hc =
      search (world_rules, mod_now-Keeps, in_hand-Keeps, beeps-Keeps, turn-Keeps, if_granted-Keeps)
        depth 60

  pub change_region-Keeps :
      (c : Ctx) (direction : String) → CtxKeeps I Fair c → Keeps I Fair (change_region c direction)
  unfolding change_region
  change_region-Keeps c direction hc = search world_rules depth 60

  pub if_ok-Keeps : (x : Result) (k : Act Result) → Keeps I Fair k → Keeps I Fair (if_ok x k)
  unfolding if_ok
  if_ok-Keeps good k hk = hk
  if_ok-Keeps (standing_as p) k hk = hk
  if_ok-Keeps (with_number n) k hk = hk
  if_ok-Keeps (with_text l) k hk = hk
  if_ok-Keeps (said u) k hk = hk
  if_ok-Keeps (refused e) k hk = search (world_rules, beeps-Keeps) depth 60

  pub go_then-Keeps :
      (c : Ctx) (k : Act Result) → CtxKeeps I Fair c → Keeps I Fair k → Keeps I Fair (go_then c k)
  unfolding go_then
  go_then-Keeps c k hc hk = search (world_rules, wait_walk-Keeps, if_ok-Keeps) depth 60

pub ruleset context_rules = (
  world_rules, mod_now-Keeps, in_hand-Keeps, beeps-Keeps, boings-Keeps, play_sound-Keeps,
  play_chore-Keeps, strike_posture-Keeps, redraws-Keeps, redraws_state-Keeps, says-Keeps,
  says_line-Keeps, shows_page-Keeps, changes_state-Keeps, changes_light-Keeps, arrive-Keeps,
  walked-Keeps, walk_to-Keeps, pause-Keeps, wait_walk-Keeps, turn-Keeps, if_granted-Keeps,
  put_into-Keeps, change_region-Keeps, if_ok-Keeps, go_then-Keeps,
)
