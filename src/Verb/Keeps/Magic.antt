-- ===== src/Verb/Keeps/Magic.antt =====
-- What is stable is kept by the verbs of magic and gadgets.
use neohabitat.Prelude.{ℕ, Option}
use neohabitat.World.Object.{Object, World}
use neohabitat.Verb.Program.{Reply}
use neohabitat.Verb.Context.{Ctx}
use neohabitat.Verb.Magic.{
  send_magic, cast, generic_do_magic, generic_do_magic_if_magic, cast_at, generic_rdo_magic,
  generic_rdo_magic_if_magic, generic_adjacent_do_magic, resolve_attack, attack, generic_strike,
  generic_shoot, scan, sensor_do, garbage_can_do, recolor, spray, spray_can_do, shovel_rdo, hole_do,
  changomatic_rdo, stun, stun_gun_rdo, read_mail, mailbox_get, generic_enter_or_exit, generic_test,
}
use neohabitat.Verb.Keeps.{Assumption, Keeps, IsStable}
use neohabitat.Verb.Keeps.Worlds.{CtxKeeps}
use neohabitat.Verb.Keeps.Held.{held_rules}

module _ {I : World → Type 0} {Fair : Assumption} (st : IsStable I Fair) where
  pub send_magic-Keeps :
      (target : ℕ) (c : Ctx) → CtxKeeps I Fair c → Keeps I Fair (send_magic target c)
  unfolding send_magic
  send_magic-Keeps target c hc = search held_rules depth 60

  pub cast-Keeps : (c : Ctx) → CtxKeeps I Fair c → Keeps I Fair (cast c)
  unfolding cast
  cast-Keeps c hc = search (held_rules, send_magic-Keeps) depth 60

  pub generic_do_magic-Keeps : (c : Ctx) → CtxKeeps I Fair c → Keeps I Fair (generic_do_magic c)
  unfolding generic_do_magic
  generic_do_magic-Keeps c hc = search (held_rules, cast-Keeps) depth 60

  pub generic_do_magic_if_magic-Keeps :
      (c : Ctx) → CtxKeeps I Fair c → Keeps I Fair (generic_do_magic_if_magic c)
  unfolding generic_do_magic_if_magic
  generic_do_magic_if_magic-Keeps c hc = search (held_rules, cast-Keeps) depth 60

  pub cast_at-Keeps : (c : Ctx) → CtxKeeps I Fair c → Keeps I Fair (cast_at c)
  unfolding cast_at
  cast_at-Keeps c hc = search (held_rules, send_magic-Keeps) depth 60

  pub generic_rdo_magic-Keeps : (c : Ctx) → CtxKeeps I Fair c → Keeps I Fair (generic_rdo_magic c)
  unfolding generic_rdo_magic
  generic_rdo_magic-Keeps c hc = search (held_rules, cast_at-Keeps) depth 60

  pub generic_rdo_magic_if_magic-Keeps :
      (c : Ctx) → CtxKeeps I Fair c → Keeps I Fair (generic_rdo_magic_if_magic c)
  unfolding generic_rdo_magic_if_magic
  generic_rdo_magic_if_magic-Keeps c hc = search (held_rules, cast_at-Keeps) depth 60

  pub generic_adjacent_do_magic-Keeps :
      (c : Ctx) → CtxKeeps I Fair c → Keeps I Fair (generic_adjacent_do_magic c)
  unfolding generic_adjacent_do_magic
  generic_adjacent_do_magic-Keeps c hc = search (held_rules, send_magic-Keeps) depth 60

  pub resolve_attack-Keeps :
      (victim : Object) (reply : Option Reply) → Keeps I Fair (resolve_attack victim reply)
  unfolding resolve_attack
  resolve_attack-Keeps victim reply = search held_rules depth 60

  pub attack-Keeps :
      (victim : Object) (c : Ctx) → CtxKeeps I Fair c → Keeps I Fair (attack victim c)
  unfolding attack
  attack-Keeps victim c hc = search (held_rules, resolve_attack-Keeps) depth 60

  pub generic_strike-Keeps : (c : Ctx) → CtxKeeps I Fair c → Keeps I Fair (generic_strike c)
  unfolding generic_strike
  generic_strike-Keeps c hc = search (held_rules, attack-Keeps) depth 60

  pub generic_shoot-Keeps : (c : Ctx) → CtxKeeps I Fair c → Keeps I Fair (generic_shoot c)
  unfolding generic_shoot
  generic_shoot-Keeps c hc = search (held_rules, attack-Keeps) depth 60

  pub scan-Keeps : (c : Ctx) → CtxKeeps I Fair c → Keeps I Fair (scan c)
  unfolding scan
  scan-Keeps c hc = search held_rules depth 60

  pub sensor_do-Keeps : (c : Ctx) → CtxKeeps I Fair c → Keeps I Fair (sensor_do c)
  unfolding sensor_do
  sensor_do-Keeps c hc = search (held_rules, scan-Keeps) depth 60

  pub garbage_can_do-Keeps : (c : Ctx) → CtxKeeps I Fair c → Keeps I Fair (garbage_can_do c)
  unfolding garbage_can_do
  garbage_can_do-Keeps c hc = search held_rules depth 60

  pub recolor-Keeps : (c0 : Option ℕ) (c1 : Option ℕ) (a : Object) → Keeps I Fair (recolor c0 c1 a)
  unfolding recolor
  recolor-Keeps c0 c1 a = search held_rules depth 60

  pub spray-Keeps : (c : Ctx) → CtxKeeps I Fair c → Keeps I Fair (spray c)
  unfolding spray
  spray-Keeps c hc = search (held_rules, recolor-Keeps) depth 60

  pub spray_can_do-Keeps : (c : Ctx) → CtxKeeps I Fair c → Keeps I Fair (spray_can_do c)
  unfolding spray_can_do
  spray_can_do-Keeps c hc = search (held_rules, spray-Keeps) depth 60

  pub shovel_rdo-Keeps : (c : Ctx) → CtxKeeps I Fair c → Keeps I Fair (shovel_rdo c)
  unfolding shovel_rdo
  shovel_rdo-Keeps c hc = search held_rules depth 60

  pub hole_do-Keeps : (c : Ctx) → CtxKeeps I Fair c → Keeps I Fair (hole_do c)
  unfolding hole_do
  hole_do-Keeps c hc = search held_rules depth 60

  pub changomatic_rdo-Keeps : (c : Ctx) → CtxKeeps I Fair c → Keeps I Fair (changomatic_rdo c)
  unfolding changomatic_rdo
  changomatic_rdo-Keeps c hc = search held_rules depth 60

  pub stun-Keeps : (victim : Object) (c : Ctx) → CtxKeeps I Fair c → Keeps I Fair (stun victim c)
  unfolding stun
  stun-Keeps victim c hc = search held_rules depth 60

  pub stun_gun_rdo-Keeps : (c : Ctx) → CtxKeeps I Fair c → Keeps I Fair (stun_gun_rdo c)
  unfolding stun_gun_rdo
  stun_gun_rdo-Keeps c hc = search (held_rules, stun-Keeps) depth 60

  pub read_mail-Keeps : (c : Ctx) → CtxKeeps I Fair c → Keeps I Fair (read_mail c)
  unfolding read_mail
  read_mail-Keeps c hc = search held_rules depth 60

  pub mailbox_get-Keeps : (c : Ctx) → CtxKeeps I Fair c → Keeps I Fair (mailbox_get c)
  unfolding mailbox_get
  mailbox_get-Keeps c hc = search (held_rules, read_mail-Keeps) depth 60

  pub generic_enter_or_exit-Keeps :
      (c : Ctx) → CtxKeeps I Fair c → Keeps I Fair (generic_enter_or_exit c)
  unfolding generic_enter_or_exit
  generic_enter_or_exit-Keeps c hc = search held_rules depth 60

  pub generic_test-Keeps : (c : Ctx) → CtxKeeps I Fair c → Keeps I Fair (generic_test c)
  unfolding generic_test
  generic_test-Keeps c hc = search held_rules depth 60

pub ruleset magic_rules = (
  held_rules, send_magic-Keeps, cast-Keeps, generic_do_magic-Keeps, generic_do_magic_if_magic-Keeps,
  cast_at-Keeps, generic_rdo_magic-Keeps, generic_rdo_magic_if_magic-Keeps,
  generic_adjacent_do_magic-Keeps, resolve_attack-Keeps, attack-Keeps, generic_strike-Keeps,
  generic_shoot-Keeps, scan-Keeps, sensor_do-Keeps, garbage_can_do-Keeps, recolor-Keeps,
  spray-Keeps, spray_can_do-Keeps, shovel_rdo-Keeps, hole_do-Keeps, changomatic_rdo-Keeps,
  stun-Keeps, stun_gun_rdo-Keeps, read_mail-Keeps, mailbox_get-Keeps, generic_enter_or_exit-Keeps,
  generic_test-Keeps,
)
