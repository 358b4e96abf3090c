-- ===== src/Verb/Keeps/Openables.antt =====
-- What is stable is kept by the verbs of doors and containers.
use neohabitat.Prelude.{ℕ, Bool, Option, List}
use neohabitat.World.Object.{Object, World}
use neohabitat.Verb.Context.{Ctx}
use neohabitat.Verb.Openables.{
  have_key, put_flags, close_door, open_door, locked, toggle_door, generic_adjacent_open_close,
  close_container, open_container, toggle_container, generic_adjacent_open_close_container, choose,
  pick_from_container, get_target, nothing_picked, pick_target, pick_from,
  generic_go_to_and_pick_from, generic_go_to_and_pick_from_if_open,
  generic_go_to_and_pick_from_or_get, drop_in, drop_into, generic_go_to_and_drop_into,
  generic_go_to_and_drop_into_if_open,
}
use neohabitat.Verb.Keeps.{Assumption, Keeps, IsStable}
use neohabitat.Verb.Keeps.Worlds.{CtxKeeps}
use neohabitat.Verb.Keeps.Carrying.{carrying_rules}

module _ {I : World → Type 0} {Fair : Assumption} (st : IsStable I Fair) where
  pub have_key-Keeps :
      (held : Option Object) (c : Ctx) → CtxKeeps I Fair c → Keeps I Fair (have_key held c)
  unfolding have_key
  have_key-Keeps held c hc = search carrying_rules depth 60

  pub put_flags-Keeps : (o : Object) (flags : ℕ) → Keeps I Fair (put_flags o flags)
  unfolding put_flags
  put_flags-Keeps o flags = search carrying_rules depth 60

  pub close_door-Keeps :
      (key : Bool) (flags : ℕ) (c : Ctx) → CtxKeeps I Fair c → Keeps I Fair (close_door key flags c)
  unfolding close_door
  close_door-Keeps key flags c hc = search (carrying_rules, put_flags-Keeps) depth 60

  pub open_door-Keeps : (c : Ctx) → CtxKeeps I Fair c → Keeps I Fair (open_door c)
  unfolding open_door
  open_door-Keeps c hc = search (carrying_rules, put_flags-Keeps) depth 60

  pub locked-Keeps : (c : Ctx) → CtxKeeps I Fair c → Keeps I Fair (locked c)
  unfolding locked
  locked-Keeps c hc = search carrying_rules depth 60

  pub toggle_door-Keeps :
      (held : Option Object) (c : Ctx) → CtxKeeps I Fair c → Keeps I Fair (toggle_door held c)
  unfolding toggle_door
  toggle_door-Keeps held c hc =
      search (carrying_rules, have_key-Keeps, close_door-Keeps, open_door-Keeps, locked-Keeps) depth
        60

  pub generic_adjacent_open_close-Keeps :
      (c : Ctx) → CtxKeeps I Fair c → Keeps I Fair (generic_adjacent_open_close c)
  unfolding generic_adjacent_open_close
  generic_adjacent_open_close-Keeps c hc = search (carrying_rules, toggle_door-Keeps) depth 60

  pub close_container-Keeps :
      (key : Bool) (flags : ℕ) (c : Ctx)
      → CtxKeeps I Fair c
      → Keeps I Fair (close_container key flags c)
  unfolding close_container
  close_container-Keeps key flags c hc = search (carrying_rules, put_flags-Keeps) depth 60

  pub open_container-Keeps : (c : Ctx) → CtxKeeps I Fair c → Keeps I Fair (open_container c)
  unfolding open_container
  open_container-Keeps c hc = search (carrying_rules, put_flags-Keeps) depth 60

  pub toggle_container-Keeps : (c : Ctx) → CtxKeeps I Fair c → Keeps I Fair (toggle_container c)
  unfolding toggle_container
  toggle_container-Keeps c hc =
      search
        (carrying_rules, have_key-Keeps, locked-Keeps, close_container-Keeps, open_container-Keeps)
        depth 60

  pub generic_adjacent_open_close_container-Keeps :
      (c : Ctx) → CtxKeeps I Fair c → Keeps I Fair (generic_adjacent_open_close_container c)
  unfolding generic_adjacent_open_close_container
  generic_adjacent_open_close_container-Keeps c hc =
      search (carrying_rules, toggle_container-Keeps) depth 60

  pub choose-Keeps : (l : List Object) (c : Ctx) → CtxKeeps I Fair c → Keeps I Fair (choose l c)
  unfolding choose
  choose-Keeps l c hc = search carrying_rules depth 60

  pub pick_from_container-Keeps :
      (c : Ctx) → CtxKeeps I Fair c → Keeps I Fair (pick_from_container c)
  unfolding pick_from_container
  pick_from_container-Keeps c hc = search (carrying_rules, choose-Keeps) depth 60

  pub get_target-Keeps :
      (target : Object) (c : Ctx) → CtxKeeps I Fair c → Keeps I Fair (get_target target c)
  unfolding get_target
  get_target-Keeps target c hc = search carrying_rules depth 60

  pub nothing_picked-Keeps : (c : Ctx) → CtxKeeps I Fair c → Keeps I Fair (nothing_picked c)
  unfolding nothing_picked
  nothing_picked-Keeps c hc = search carrying_rules depth 60

  pub pick_target-Keeps :
      (whole : Bool) (c : Ctx) → CtxKeeps I Fair c → Keeps I Fair (pick_target whole c)
  unfolding pick_target
  pick_target-Keeps whole c hc =
      search (carrying_rules, pick_from_container-Keeps, get_target-Keeps, nothing_picked-Keeps)
        depth 60

  pub pick_from-Keeps :
      (require_open : Bool) (or_get : Bool) (c : Ctx)
      → CtxKeeps I Fair c
      → Keeps I Fair (pick_from require_open or_get c)
  unfolding pick_from
  pick_from-Keeps require_open or_get c hc = search (carrying_rules, pick_target-Keeps) depth 60

  pub generic_go_to_and_pick_from-Keeps :
      (c : Ctx) → CtxKeeps I Fair c → Keeps I Fair (generic_go_to_and_pick_from c)
  unfolding generic_go_to_and_pick_from
  generic_go_to_and_pick_from-Keeps c hc = search (carrying_rules, pick_from-Keeps) depth 60

  pub generic_go_to_and_pick_from_if_open-Keeps :
      (c : Ctx) → CtxKeeps I Fair c → Keeps I Fair (generic_go_to_and_pick_from_if_open c)
  unfolding generic_go_to_and_pick_from_if_open
  generic_go_to_and_pick_from_if_open-Keeps c hc = search (carrying_rules, pick_from-Keeps) depth 60

  pub generic_go_to_and_pick_from_or_get-Keeps :
      (c : Ctx) → CtxKeeps I Fair c → Keeps I Fair (generic_go_to_and_pick_from_or_get c)
  unfolding generic_go_to_and_pick_from_or_get
  generic_go_to_and_pick_from_or_get-Keeps c hc = search (carrying_rules, pick_from-Keeps) depth 60

  pub drop_in-Keeps : (c : Ctx) → CtxKeeps I Fair c → Keeps I Fair (drop_in c)
  unfolding drop_in
  drop_in-Keeps c hc = search carrying_rules depth 60

  pub drop_into-Keeps :
      (require_open : Bool) (c : Ctx) → CtxKeeps I Fair c → Keeps I Fair (drop_into require_open c)
  unfolding drop_into
  drop_into-Keeps require_open c hc = search (carrying_rules, drop_in-Keeps) depth 60

  pub generic_go_to_and_drop_into-Keeps :
      (c : Ctx) → CtxKeeps I Fair c → Keeps I Fair (generic_go_to_and_drop_into c)
  unfolding generic_go_to_and_drop_into
  generic_go_to_and_drop_into-Keeps c hc = search (carrying_rules, drop_into-Keeps) depth 60

  pub generic_go_to_and_drop_into_if_open-Keeps :
      (c : Ctx) → CtxKeeps I Fair c → Keeps I Fair (generic_go_to_and_drop_into_if_open c)
  unfolding generic_go_to_and_drop_into_if_open
  generic_go_to_and_drop_into_if_open-Keeps c hc = search (carrying_rules, drop_into-Keeps) depth 60

pub ruleset openables_rules = (
  carrying_rules, have_key-Keeps, put_flags-Keeps, close_door-Keeps, open_door-Keeps, locked-Keeps,
  toggle_door-Keeps, generic_adjacent_open_close-Keeps, close_container-Keeps, open_container-Keeps,
  toggle_container-Keeps, generic_adjacent_open_close_container-Keeps, choose-Keeps,
  pick_from_container-Keeps, get_target-Keeps, nothing_picked-Keeps, pick_target-Keeps,
  pick_from-Keeps, generic_go_to_and_pick_from-Keeps, generic_go_to_and_pick_from_if_open-Keeps,
  generic_go_to_and_pick_from_or_get-Keeps, drop_in-Keeps, drop_into-Keeps,
  generic_go_to_and_drop_into-Keeps, generic_go_to_and_drop_into_if_open-Keeps,
)
