-- ===== src/Host/Identity/Machines.antt =====
-- The same for choreography, devices and machines.
use neohabitat.Prelude.{ℕ, ℤ, ◌≡◌, refl, String, Option, List, [], ◌∷◌}
use neohabitat.World.Object.{Object, World}
use neohabitat.World.Identity.{index}
use neohabitat.Host.Context.{Ctx}
use neohabitat.Host.Identity.{context_rules}
use neohabitat.Host.Choreography.{
  play_all, generic_play, play_weapon, play_attack_chore, react_to_hit, avatar_attack, avatar_bash,
  say, generic_speak, generic_object_speak, avatar_dig, avatar_take, avatar_bugout,
  region_appearing,
}
use neohabitat.Host.Devices.{
  light_up, generic_on, generic_off, switch_light, set_state_if, generic_change_state,
  button_change_state, sensor_scan, spray_can_spray,
}
use neohabitat.Host.Machines.{
  debit_by_noid, generic_pay, teleport_pay, move_found, swap_display, vendo_select, magic_lamp_rub,
  grenade_explode, fake_gun_fakeshoot, fake_gun_reset, pawn_machine_munch, windup_toy_wind,
}

index-play_all :
    (s : String → List String) (ks : List String) (n : ℕ) (w : World)
    → index (play_all s ks n w) ≡ index w
unfolding play_all
index-play_all s [] n w = refl
index-play_all s (k ∷ ks) n w = grind (context_rules, index-play_all s ks)

index-play_attack_chore : (a : ℕ) (w : World) → index (play_attack_chore a w) ≡ index w
unfolding play_attack_chore play_weapon
index-play_attack_chore a w = grind context_rules

index-say : (t : Option String) (s : Option ℕ) (w : World) → index (say t s w) ≡ index w
unfolding say
index-say t s w = grind context_rules

pub index-debit_by_noid : (a : Option ℕ) (n : ℕ) (w : World) → index (debit_by_noid a n w) ≡ index w
unfolding debit_by_noid
index-debit_by_noid a n w = grind context_rules

index-set_state_if : (s : Option ℕ) (n : ℕ) (w : World) → index (set_state_if s n w) ≡ index w
unfolding set_state_if
index-set_state_if s n w = grind context_rules

index-light_up : (o : Object) (n : ℕ) (d : ℤ) (w : World) → index (light_up o n d w) ≡ index w
unfolding light_up
index-light_up o n d w = grind context_rules

index-swap_display : (f i : Object) (n : ℕ) (w : World) → index (swap_display f i n w) ≡ index w
unfolding swap_display move_found
index-swap_display f i n w = grind context_rules

ruleset part_rules = (
  context_rules, index-play_all, index-play_attack_chore, index-say, index-debit_by_noid,
  index-set_state_if, index-light_up, index-swap_display,
)

module _ (c : Ctx) (w : World) where
  pub index-generic_play : (s : String → List String) → index (generic_play s c w).0 ≡ index w
  unfolding generic_play
  index-generic_play s = grind part_rules

  pub index-avatar_attack : index (avatar_attack c w).0 ≡ index w
  unfolding avatar_attack react_to_hit
  index-avatar_attack = grind part_rules

  pub index-avatar_bash : index (avatar_bash c w).0 ≡ index w
  unfolding avatar_bash
  index-avatar_bash = grind part_rules

  pub index-generic_speak : index (generic_speak c w).0 ≡ index w
  unfolding generic_speak
  index-generic_speak = grind part_rules

  pub index-generic_object_speak : index (generic_object_speak c w).0 ≡ index w
  unfolding generic_object_speak
  index-generic_object_speak = grind part_rules

  pub index-avatar_dig : index (avatar_dig c w).0 ≡ index w
  unfolding avatar_dig
  index-avatar_dig = grind part_rules

  pub index-avatar_take : index (avatar_take c w).0 ≡ index w
  unfolding avatar_take
  index-avatar_take = grind part_rules

  pub index-avatar_bugout : index (avatar_bugout c w).0 ≡ index w
  unfolding avatar_bugout
  index-avatar_bugout = grind part_rules

  pub index-region_appearing : index (region_appearing c w).0 ≡ index w
  unfolding region_appearing
  index-region_appearing = grind part_rules

  pub index-generic_on : index (generic_on c w).0 ≡ index w
  unfolding generic_on
  index-generic_on = grind part_rules

  pub index-generic_off : index (generic_off c w).0 ≡ index w
  unfolding generic_off
  index-generic_off = grind part_rules

  pub index-switch_light : (n : ℕ) (d : ℤ) → index (switch_light n d c w).0 ≡ index w
  unfolding switch_light
  index-switch_light n d = grind part_rules

  pub index-generic_change_state : index (generic_change_state c w).0 ≡ index w
  unfolding generic_change_state
  index-generic_change_state = grind part_rules

  pub index-button_change_state : index (button_change_state c w).0 ≡ index w
  unfolding button_change_state
  index-button_change_state = grind part_rules

  pub index-sensor_scan : index (sensor_scan c w).0 ≡ index w
  unfolding sensor_scan
  index-sensor_scan = grind part_rules

  pub index-spray_can_spray : index (spray_can_spray c w).0 ≡ index w
  unfolding spray_can_spray
  index-spray_can_spray = grind part_rules

  pub index-generic_pay : index (generic_pay c w).0 ≡ index w
  unfolding generic_pay
  index-generic_pay = grind part_rules

  pub index-teleport_pay : index (teleport_pay c w).0 ≡ index w
  unfolding teleport_pay
  index-teleport_pay = grind part_rules

  pub index-vendo_select : index (vendo_select c w).0 ≡ index w
  unfolding vendo_select
  index-vendo_select = grind part_rules

  pub index-magic_lamp_rub : index (magic_lamp_rub c w).0 ≡ index w
  unfolding magic_lamp_rub
  index-magic_lamp_rub = grind part_rules

  pub index-grenade_explode : index (grenade_explode c w).0 ≡ index w
  unfolding grenade_explode
  index-grenade_explode = grind part_rules

  pub index-fake_gun_fakeshoot : index (fake_gun_fakeshoot c w).0 ≡ index w
  unfolding fake_gun_fakeshoot
  index-fake_gun_fakeshoot = grind part_rules

  pub index-fake_gun_reset : index (fake_gun_reset c w).0 ≡ index w
  unfolding fake_gun_reset
  index-fake_gun_reset = grind part_rules

  pub index-pawn_machine_munch : index (pawn_machine_munch c w).0 ≡ index w
  unfolding pawn_machine_munch
  index-pawn_machine_munch = grind part_rules

  pub index-windup_toy_wind : index (windup_toy_wind c w).0 ≡ index w
  unfolding windup_toy_wind
  index-windup_toy_wind = grind part_rules
