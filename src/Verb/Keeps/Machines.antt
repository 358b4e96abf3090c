-- ===== src/Verb/Keeps/Machines.antt =====
-- What is stable is kept by the verbs of machines.js.
use neohabitat.Prelude.{ℕ, String}
use neohabitat.World.Object.{Object, World}
use neohabitat.Verb.Program.{Result, Act}
use neohabitat.Verb.Context.{Ctx}
use neohabitat.Verb.Machines.{
  with_tokens, rejected, feed_coins, generic_coin_op, displayed, cycle_display, vendo_do,
  set_image_state, rub, magic_lamp_do, change_own_sex, operate_changer, sex_changer_do, escape,
  escape_device_do, ask_for, grenade_do, fake_gun_do, fake_gun_rdo, munch, pawn_machine_do,
}
use neohabitat.Verb.Keeps.{Assumption, Keeps, IsStable}
use neohabitat.Verb.Keeps.Worlds.{CtxKeeps}
use neohabitat.Verb.Keeps.Magic.{magic_rules}

module _ {I : World → Type 0} {Fair : Assumption} (st : IsStable I Fair) where
  pub with_tokens-Keeps :
      (c : Ctx) (k : Act Result)
      → CtxKeeps I Fair c
      → Keeps I Fair k
      → Keeps I Fair (with_tokens c k)
  unfolding with_tokens
  with_tokens-Keeps c k hc hk = search magic_rules depth 60

  pub rejected-Keeps : (c : Ctx) → CtxKeeps I Fair c → Keeps I Fair (rejected c)
  unfolding rejected
  rejected-Keeps c hc = search magic_rules depth 60

  pub feed_coins-Keeps : (c : Ctx) → CtxKeeps I Fair c → Keeps I Fair (feed_coins c)
  unfolding feed_coins
  feed_coins-Keeps c hc = search (magic_rules, rejected-Keeps) depth 60

  pub generic_coin_op-Keeps : (c : Ctx) → CtxKeeps I Fair c → Keeps I Fair (generic_coin_op c)
  unfolding generic_coin_op
  generic_coin_op-Keeps c hc = search (magic_rules, with_tokens-Keeps, feed_coins-Keeps) depth 60

  pub displayed-Keeps :
      (item : ℕ) (price : ℕ) (c : Ctx) → CtxKeeps I Fair c → Keeps I Fair (displayed item price c)
  unfolding displayed
  displayed-Keeps item price c hc = search magic_rules depth 60

  pub cycle_display-Keeps : (c : Ctx) → CtxKeeps I Fair c → Keeps I Fair (cycle_display c)
  unfolding cycle_display
  cycle_display-Keeps c hc = search (magic_rules, displayed-Keeps) depth 60

  pub vendo_do-Keeps : (c : Ctx) → CtxKeeps I Fair c → Keeps I Fair (vendo_do c)
  unfolding vendo_do
  vendo_do-Keeps c hc = search (magic_rules, cycle_display-Keeps) depth 60

  pub set_image_state-Keeps :
      (n : ℕ) (c : Ctx) → CtxKeeps I Fair c → Keeps I Fair (set_image_state n c)
  unfolding set_image_state
  set_image_state-Keeps n c hc = search magic_rules depth 60

  pub rub-Keeps : (c : Ctx) → CtxKeeps I Fair c → Keeps I Fair (rub c)
  unfolding rub
  rub-Keeps c hc = search (magic_rules, set_image_state-Keeps) depth 60

  pub magic_lamp_do-Keeps : (c : Ctx) → CtxKeeps I Fair c → Keeps I Fair (magic_lamp_do c)
  unfolding magic_lamp_do
  magic_lamp_do-Keeps c hc = search (magic_rules, rub-Keeps) depth 60

  pub change_own_sex-Keeps : (a : Object) → Keeps I Fair (change_own_sex a)
  unfolding change_own_sex
  change_own_sex-Keeps a = search magic_rules depth 60

  pub operate_changer-Keeps : (c : Ctx) → CtxKeeps I Fair c → Keeps I Fair (operate_changer c)
  unfolding operate_changer
  operate_changer-Keeps c hc = search (magic_rules, change_own_sex-Keeps) depth 60

  pub sex_changer_do-Keeps : (c : Ctx) → CtxKeeps I Fair c → Keeps I Fair (sex_changer_do c)
  unfolding sex_changer_do
  sex_changer_do-Keeps c hc = search (magic_rules, operate_changer-Keeps) depth 60

  pub escape-Keeps : (c : Ctx) → CtxKeeps I Fair c → Keeps I Fair (escape c)
  unfolding escape
  escape-Keeps c hc = search magic_rules depth 60

  pub escape_device_do-Keeps : (c : Ctx) → CtxKeeps I Fair c → Keeps I Fair (escape_device_do c)
  unfolding escape_device_do
  escape_device_do-Keeps c hc = search (magic_rules, escape-Keeps) depth 60

  pub ask_for-Keeps :
      (op : String) (success : String) (c : Ctx) (k : Act Result)
      → CtxKeeps I Fair c
      → Keeps I Fair k
      → Keeps I Fair (ask_for op success c k)
  unfolding ask_for
  ask_for-Keeps op success c k hc hk = search magic_rules depth 60

  pub grenade_do-Keeps : (c : Ctx) → CtxKeeps I Fair c → Keeps I Fair (grenade_do c)
  unfolding grenade_do
  grenade_do-Keeps c hc = search (magic_rules, ask_for-Keeps) depth 60

  pub fake_gun_do-Keeps : (c : Ctx) → CtxKeeps I Fair c → Keeps I Fair (fake_gun_do c)
  unfolding fake_gun_do
  fake_gun_do-Keeps c hc = search (magic_rules, set_image_state-Keeps, ask_for-Keeps) depth 60

  pub fake_gun_rdo-Keeps : (c : Ctx) → CtxKeeps I Fair c → Keeps I Fair (fake_gun_rdo c)
  unfolding fake_gun_rdo
  fake_gun_rdo-Keeps c hc = search (magic_rules, set_image_state-Keeps) depth 60

  pub munch-Keeps : (c : Ctx) → CtxKeeps I Fair c → Keeps I Fair (munch c)
  unfolding munch
  munch-Keeps c hc = search magic_rules depth 60

  pub pawn_machine_do-Keeps : (c : Ctx) → CtxKeeps I Fair c → Keeps I Fair (pawn_machine_do c)
  unfolding pawn_machine_do
  pawn_machine_do-Keeps c hc = search (magic_rules, munch-Keeps) depth 60

pub ruleset machines_rules = (
  magic_rules, with_tokens-Keeps, rejected-Keeps, feed_coins-Keeps, generic_coin_op-Keeps,
  displayed-Keeps, cycle_display-Keeps, vendo_do-Keeps, set_image_state-Keeps, rub-Keeps,
  magic_lamp_do-Keeps, change_own_sex-Keeps, operate_changer-Keeps, sex_changer_do-Keeps,
  escape-Keeps, escape_device_do-Keeps, ask_for-Keeps, grenade_do-Keeps, fake_gun_do-Keeps,
  fake_gun_rdo-Keeps, munch-Keeps, pawn_machine_do-Keeps,
)
