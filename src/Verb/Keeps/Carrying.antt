-- ===== src/Verb/Keeps/Carrying.antt =====
-- What is stable is kept by the verbs that move things.
use neohabitat.Prelude.{ℕ}
use neohabitat.World.Object.{Object, World}
use neohabitat.Verb.Context.{Ctx}
use neohabitat.Verb.Carrying.{
  take_up, bend_and_get, generic_go_to_and_get, generic_go_to_and_drop_at, throw_at, generic_throw,
  unpocket, pick_and_unpocket, choose_and_unpocket, get_from_self, grab, get_from_other, avatar_get,
  pocket, wear_or_pocket, put_on_self, hand_over, avatar_put, doff, head_get,
}
use neohabitat.Verb.Keeps.{Assumption, Keeps, IsStable}
use neohabitat.Verb.Keeps.Worlds.{CtxKeeps}
use neohabitat.Verb.Keeps.Basic.{basic_rules}

module _ {I : World → Type 0} {Fair : Assumption} (st : IsStable I Fair) where
  pub take_up-Keeps :
      (item : ℕ) (slot : ℕ) (c : Ctx) → CtxKeeps I Fair c → Keeps I Fair (take_up item slot c)
  unfolding take_up
  take_up-Keeps item slot c hc = search basic_rules depth 60

  pub bend_and_get-Keeps :
      (item : Object) (c : Ctx) → CtxKeeps I Fair c → Keeps I Fair (bend_and_get item c)
  unfolding bend_and_get
  bend_and_get-Keeps item c hc = search (basic_rules, take_up-Keeps) depth 60

  pub generic_go_to_and_get-Keeps :
      (c : Ctx) → CtxKeeps I Fair c → Keeps I Fair (generic_go_to_and_get c)
  unfolding generic_go_to_and_get
  generic_go_to_and_get-Keeps c hc = search (basic_rules, take_up-Keeps) depth 60

  pub generic_go_to_and_drop_at-Keeps :
      (c : Ctx) → CtxKeeps I Fair c → Keeps I Fair (generic_go_to_and_drop_at c)
  unfolding generic_go_to_and_drop_at
  generic_go_to_and_drop_at-Keeps c hc = search basic_rules depth 60

  pub throw_at-Keeps :
      (surface : ℕ) (c : Ctx) → CtxKeeps I Fair c → Keeps I Fair (throw_at surface c)
  unfolding throw_at
  throw_at-Keeps surface c hc = search basic_rules depth 60

  pub generic_throw-Keeps : (c : Ctx) → CtxKeeps I Fair c → Keeps I Fair (generic_throw c)
  unfolding generic_throw
  generic_throw-Keeps c hc = search (basic_rules, throw_at-Keeps) depth 60

  pub unpocket-Keeps :
      (a : Object) (item : Object) (c : Ctx) → CtxKeeps I Fair c → Keeps I Fair (unpocket a item c)
  unfolding unpocket
  unpocket-Keeps a item c hc = search basic_rules depth 60

  pub pick_and_unpocket-Keeps :
      (a : Object) (c : Ctx) → CtxKeeps I Fair c → Keeps I Fair (pick_and_unpocket a c)
  unfolding pick_and_unpocket
  pick_and_unpocket-Keeps a c hc = search (basic_rules, unpocket-Keeps) depth 60

  pub choose_and_unpocket-Keeps :
      (a : Object) (c : Ctx) → CtxKeeps I Fair c → Keeps I Fair (choose_and_unpocket a c)
  unfolding choose_and_unpocket
  choose_and_unpocket-Keeps a c hc =
      search (basic_rules, unpocket-Keeps, pick_and_unpocket-Keeps) depth 60

  pub get_from_self-Keeps :
      (a : Object) (c : Ctx) → CtxKeeps I Fair c → Keeps I Fair (get_from_self a c)
  unfolding get_from_self
  get_from_self-Keeps a c hc = search (basic_rules, choose_and_unpocket-Keeps) depth 60

  pub grab-Keeps : (c : Ctx) → CtxKeeps I Fair c → Keeps I Fair (grab c)
  unfolding grab
  grab-Keeps c hc = search (basic_rules, take_up-Keeps) depth 60

  pub get_from_other-Keeps : (c : Ctx) → CtxKeeps I Fair c → Keeps I Fair (get_from_other c)
  unfolding get_from_other
  get_from_other-Keeps c hc = search (basic_rules, grab-Keeps) depth 60

  pub avatar_get-Keeps : (c : Ctx) → CtxKeeps I Fair c → Keeps I Fair (avatar_get c)
  unfolding avatar_get
  avatar_get-Keeps c hc = search (basic_rules, get_from_self-Keeps, get_from_other-Keeps) depth 60

  pub pocket-Keeps : (a : Object) (c : Ctx) → CtxKeeps I Fair c → Keeps I Fair (pocket a c)
  unfolding pocket
  pocket-Keeps a c hc = search basic_rules depth 60

  pub wear_or_pocket-Keeps :
      (a : Object) (item : Object) (c : Ctx)
      → CtxKeeps I Fair c
      → Keeps I Fair (wear_or_pocket a item c)
  unfolding wear_or_pocket
  wear_or_pocket-Keeps a item c hc = search (basic_rules, pocket-Keeps) depth 60

  pub put_on_self-Keeps :
      (a : Object) (item : Object) (c : Ctx)
      → CtxKeeps I Fair c
      → Keeps I Fair (put_on_self a item c)
  unfolding put_on_self
  put_on_self-Keeps a item c hc = search (basic_rules, wear_or_pocket-Keeps) depth 60

  pub hand_over-Keeps :
      (item : Object) (c : Ctx) → CtxKeeps I Fair c → Keeps I Fair (hand_over item c)
  unfolding hand_over
  hand_over-Keeps item c hc = search basic_rules depth 60

  pub avatar_put-Keeps : (c : Ctx) → CtxKeeps I Fair c → Keeps I Fair (avatar_put c)
  unfolding avatar_put
  avatar_put-Keeps c hc = search (basic_rules, put_on_self-Keeps, hand_over-Keeps) depth 60

  pub doff-Keeps : (a : Object) (c : Ctx) → CtxKeeps I Fair c → Keeps I Fair (doff a c)
  unfolding doff
  doff-Keeps a c hc = search basic_rules depth 60

  pub head_get-Keeps : (c : Ctx) → CtxKeeps I Fair c → Keeps I Fair (head_get c)
  unfolding head_get
  head_get-Keeps c hc = search (basic_rules, bend_and_get-Keeps, doff-Keeps) depth 60

pub ruleset carrying_rules = (
  basic_rules, take_up-Keeps, bend_and_get-Keeps, generic_go_to_and_get-Keeps,
  generic_go_to_and_drop_at-Keeps, throw_at-Keeps, generic_throw-Keeps, unpocket-Keeps,
  pick_and_unpocket-Keeps, choose_and_unpocket-Keeps, get_from_self-Keeps, grab-Keeps,
  get_from_other-Keeps, avatar_get-Keeps, pocket-Keeps, wear_or_pocket-Keeps, put_on_self-Keeps,
  hand_over-Keeps, avatar_put-Keeps, doff-Keeps, head_get-Keeps,
)
