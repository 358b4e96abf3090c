-- ===== src/Verb/Keeps/Basic.antt =====
-- What is stable is kept by the verbs of index.js.
use neohabitat.Prelude.{ℕ, Option}
use neohabitat.World.Object.{Object, World}
use neohabitat.Verb.Program.{Reply}
use neohabitat.Verb.Context.{Ctx}
use neohabitat.Verb.Basic.{
  illegal, no_effect, generic_cease, generic_depends, walk_up_to, generic_go_to,
  generic_go_to_cursor, generic_go_to_or_pass_through, take_posture, avatar_go, do_gesture,
  fn_key_pressed, ask_for_help, shed_body, take_identity, note_balance, change_body,
  toggle_ghost_mode, sky_go, wall_go, trap_go, drop_at_cursor, trap_put, generic_broadcast,
  transit_region,
}
use neohabitat.Verb.Keeps.{Assumption, Keeps, IsStable}
use neohabitat.Verb.Keeps.Worlds.{CtxKeeps}
use neohabitat.Verb.Keeps.Context.{context_rules}

module _ {I : World → Type 0} {Fair : Assumption} (st : IsStable I Fair) where
  pub illegal-Keeps : (c : Ctx) → CtxKeeps I Fair c → Keeps I Fair (illegal c)
  unfolding illegal
  illegal-Keeps c hc = search context_rules depth 60

  pub no_effect-Keeps : (c : Ctx) → CtxKeeps I Fair c → Keeps I Fair (no_effect c)
  unfolding no_effect
  no_effect-Keeps c hc = search context_rules depth 60

  pub generic_cease-Keeps : (c : Ctx) → CtxKeeps I Fair c → Keeps I Fair (generic_cease c)
  unfolding generic_cease
  generic_cease-Keeps c hc = search context_rules depth 60

  pub generic_depends-Keeps : (c : Ctx) → CtxKeeps I Fair c → Keeps I Fair (generic_depends c)
  unfolding generic_depends
  generic_depends-Keeps c hc = search context_rules depth 60

  pub walk_up_to-Keeps : (c : Ctx) (noid : ℕ) → CtxKeeps I Fair c → Keeps I Fair (walk_up_to c noid)
  unfolding walk_up_to
  walk_up_to-Keeps c noid hc = search context_rules depth 60

  pub generic_go_to-Keeps : (c : Ctx) → CtxKeeps I Fair c → Keeps I Fair (generic_go_to c)
  unfolding generic_go_to
  generic_go_to-Keeps c hc = search (context_rules, walk_up_to-Keeps) depth 60

  pub generic_go_to_cursor-Keeps :
      (c : Ctx) → CtxKeeps I Fair c → Keeps I Fair (generic_go_to_cursor c)
  unfolding generic_go_to_cursor
  generic_go_to_cursor-Keeps c hc = search context_rules depth 60

  pub generic_go_to_or_pass_through-Keeps :
      (c : Ctx) → CtxKeeps I Fair c → Keeps I Fair (generic_go_to_or_pass_through c)
  unfolding generic_go_to_or_pass_through
  generic_go_to_or_pass_through-Keeps c hc = search (context_rules, walk_up_to-Keeps) depth 60

  pub take_posture-Keeps :
      (c : Ctx) (a : Object) (p : ℕ) → CtxKeeps I Fair c → Keeps I Fair (take_posture c a p)
  unfolding take_posture
  take_posture-Keeps c a p hc = search context_rules depth 60

  pub avatar_go-Keeps : (c : Ctx) → CtxKeeps I Fair c → Keeps I Fair (avatar_go c)
  unfolding avatar_go
  avatar_go-Keeps c hc = search (context_rules, walk_up_to-Keeps, take_posture-Keeps) depth 60

  pub do_gesture-Keeps : (g : ℕ) (c : Ctx) → CtxKeeps I Fair c → Keeps I Fair (do_gesture g c)
  unfolding do_gesture
  do_gesture-Keeps g c hc = search context_rules depth 60

  pub fn_key_pressed-Keeps :
      (key : ℕ) (target : ℕ) (c : Ctx)
      → CtxKeeps I Fair c
      → Keeps I Fair (fn_key_pressed key target c)
  unfolding fn_key_pressed
  fn_key_pressed-Keeps key target c hc = search context_rules depth 60

  pub ask_for_help-Keeps : (target : Option Object) → Keeps I Fair (ask_for_help target)
  unfolding ask_for_help
  ask_for_help-Keeps target = search context_rules depth 60

  pub shed_body-Keeps :
      (old : ℕ) (success : ℕ) (new : Option ℕ) → Keeps I Fair (shed_body old success new)
  unfolding shed_body
  shed_body-Keeps old success new = search context_rules depth 60

  pub take_identity-Keeps : (new : Option ℕ) → Keeps I Fair (take_identity new)
  unfolding take_identity
  take_identity-Keeps new = search context_rules depth 60

  pub note_balance-Keeps : (balance : Option ℕ) → Keeps I Fair (note_balance balance)
  unfolding note_balance
  note_balance-Keeps balance = search context_rules depth 60

  pub change_body-Keeps : (old : ℕ) (reply : Option Reply) → Keeps I Fair (change_body old reply)
  unfolding change_body
  change_body-Keeps old reply =
      search (context_rules, shed_body-Keeps, take_identity-Keeps, note_balance-Keeps) depth 60

  pub toggle_ghost_mode-Keeps : (c : Ctx) → CtxKeeps I Fair c → Keeps I Fair (toggle_ghost_mode c)
  unfolding toggle_ghost_mode
  toggle_ghost_mode-Keeps c hc = search (context_rules, change_body-Keeps) depth 60

  pub sky_go-Keeps : (c : Ctx) → CtxKeeps I Fair c → Keeps I Fair (sky_go c)
  unfolding sky_go
  sky_go-Keeps c hc = search context_rules depth 60

  pub wall_go-Keeps : (c : Ctx) → CtxKeeps I Fair c → Keeps I Fair (wall_go c)
  unfolding wall_go
  wall_go-Keeps c hc = search context_rules depth 60

  pub trap_go-Keeps : (c : Ctx) → CtxKeeps I Fair c → Keeps I Fair (trap_go c)
  unfolding trap_go
  trap_go-Keeps c hc = search context_rules depth 60

  pub drop_at_cursor-Keeps : (c : Ctx) → CtxKeeps I Fair c → Keeps I Fair (drop_at_cursor c)
  unfolding drop_at_cursor
  drop_at_cursor-Keeps c hc = search context_rules depth 60

  pub trap_put-Keeps : (c : Ctx) → CtxKeeps I Fair c → Keeps I Fair (trap_put c)
  unfolding trap_put
  trap_put-Keeps c hc = search (context_rules, drop_at_cursor-Keeps) depth 60

  pub generic_broadcast-Keeps : (c : Ctx) → CtxKeeps I Fair c → Keeps I Fair (generic_broadcast c)
  unfolding generic_broadcast
  generic_broadcast-Keeps c hc = search context_rules depth 60

  pub transit_region-Keeps : (c : Ctx) → CtxKeeps I Fair c → Keeps I Fair (transit_region c)
  unfolding transit_region
  transit_region-Keeps c hc = search context_rules depth 60

pub ruleset basic_rules = (
  context_rules, illegal-Keeps, no_effect-Keeps, generic_cease-Keeps, generic_depends-Keeps,
  walk_up_to-Keeps, generic_go_to-Keeps, generic_go_to_cursor-Keeps,
  generic_go_to_or_pass_through-Keeps, take_posture-Keeps, avatar_go-Keeps, do_gesture-Keeps,
  fn_key_pressed-Keeps, ask_for_help-Keeps, shed_body-Keeps, take_identity-Keeps,
  note_balance-Keeps, change_body-Keeps, toggle_ghost_mode-Keeps, sky_go-Keeps, wall_go-Keeps,
  trap_go-Keeps, drop_at_cursor-Keeps, trap_put-Keeps, generic_broadcast-Keeps,
  transit_region-Keeps,
)
