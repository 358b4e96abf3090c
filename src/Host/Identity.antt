-- ===== src/Host/Identity.antt =====
-- Host behaviors change fields and containers; the identities stay, but for those that delete.
pub mod Machines
use neohabitat.Prelude.{
  ℕ, ℤ, ◌≡◌, refl, ◌∙◌, String, Bool, Option, none, some, List, [], ◌∷◌, arith,
}
use neohabitat.World.Object.{Object, World}
use neohabitat.World.Identity.{
  Index, index, index_rules, index-emit, index-update, index-change_containers,
}
use neohabitat.Host.Message.{Msg}
use neohabitat.Host.Context.{
  Ctx, Handler, chore_here, chore_at, sound_at, redraw, redraw_state, change_light_by,
  inbound_sound, field_change,
}
use neohabitat.Host.Doors.{set_flags, avatar_open, avatar_close, avatar_open_container}
use neohabitat.Host.Inventory.{
  reach_out, reach_back, set_orientation, avatar_getm, avatar_putm, avatar_grab_from, avatar_throw,
  avatar_wear, avatar_remove,
}
use neohabitat.Host.Motion.{play_posture, avatar_walk, avatar_posture}
use neohabitat.Host.State.{
  fiddle_at, host_fiddle, region_change_light, region_change_containers, bottle_fill, bottle_pour,
  sit_down, get_up, avatar_sit_or_get_up, sound_if, host_change, change_sex, operate_machine,
  host_sex_change,
}

pub index-chore_here : (a : String) (c : Ctx) (w : World) → index (chore_here a c w) ≡ index w
unfolding chore_here
index-chore_here a c w = grind index_rules

pub index-chore_at :
    (a : String) (n : ℕ) (h : Option ℕ) (w : World) → index (chore_at a n h w) ≡ index w
unfolding chore_at
index-chore_at a n h w = grind index_rules

pub index-sound_at : (s : String) (n : ℕ) (w : World) → index (sound_at s n w) ≡ index w
unfolding sound_at
index-sound_at s n w = grind index_rules

pub index-redraw : (n : ℕ) (w : World) → index (redraw n w) ≡ index w
unfolding redraw
index-redraw n w = grind index_rules

pub index-redraw_state : (n : ℕ) (s : Option ℕ) (w : World) → index (redraw_state n s w) ≡ index w
unfolding redraw_state
index-redraw_state n s w = grind index_rules

pub index-change_light_by : (d : ℤ) (w : World) → index (change_light_by d w) ≡ index w
unfolding change_light_by index
index-change_light_by d w = grind index_rules

pub index-inbound_sound :
    (s : String) (n : Option ℕ) (m : Msg) (w : World) → index (inbound_sound s n m w) ≡ index w
unfolding inbound_sound
index-inbound_sound s n m w = grind index_rules

pub index-field_change : (n : ℕ) (w : World) → index (field_change n w) ≡ index w
unfolding field_change
index-field_change n w = grind index_rules

pub ruleset context_rules = (
  index_rules, index-chore_here, index-chore_at, index-sound_at, index-redraw, index-redraw_state,
  index-change_light_by, index-inbound_sound, index-field_change,
)

pub index-set_flags : (n f : ℕ) (w : World) → index (set_flags n f w) ≡ index w
unfolding set_flags
index-set_flags n f w = grind context_rules

module _ (c : Ctx) (w : World) where
  pub index-avatar_open : index (avatar_open c w).0 ≡ index w
  unfolding avatar_open
  index-avatar_open = grind (context_rules, index-set_flags)

  pub index-avatar_close : index (avatar_close c w).0 ≡ index w
  unfolding avatar_close
  index-avatar_close = grind (context_rules, index-set_flags)

  pub index-avatar_open_container : index (avatar_open_container c w).0 ≡ index w
  unfolding avatar_open_container
  index-avatar_open_container = grind (context_rules, index-set_flags)

  pub index-avatar_getm : index (avatar_getm c w).0 ≡ index w
  unfolding avatar_getm reach_back
  index-avatar_getm = grind context_rules

  pub index-avatar_putm : index (avatar_putm c w).0 ≡ index w
  unfolding avatar_putm reach_out reach_back set_orientation
  index-avatar_putm = grind context_rules

  pub index-avatar_grab_from : index (avatar_grab_from c w).0 ≡ index w
  unfolding avatar_grab_from
  index-avatar_grab_from = grind context_rules

  pub index-avatar_throw : index (avatar_throw c w).0 ≡ index w
  unfolding avatar_throw
  index-avatar_throw = grind context_rules

  pub index-avatar_wear : index (avatar_wear c w).0 ≡ index w
  unfolding avatar_wear
  index-avatar_wear = grind context_rules

  pub index-avatar_remove : index (avatar_remove c w).0 ≡ index w
  unfolding avatar_remove
  index-avatar_remove = grind context_rules

  pub index-avatar_walk : index (avatar_walk c w).0 ≡ index w
  unfolding avatar_walk
  index-avatar_walk = grind context_rules

  pub index-avatar_posture : index (avatar_posture c w).0 ≡ index w
  unfolding avatar_posture play_posture
  index-avatar_posture = grind context_rules

  pub index-host_fiddle : index (host_fiddle c w).0 ≡ index w
  unfolding host_fiddle fiddle_at
  index-host_fiddle = grind context_rules

  pub index-region_change_light : index (region_change_light c w).0 ≡ index w
  unfolding region_change_light index
  index-region_change_light = grind context_rules

  pub index-region_change_containers : index (region_change_containers c w).0 ≡ index w
  unfolding region_change_containers
  index-region_change_containers = grind context_rules

  pub index-bottle_fill : index (bottle_fill c w).0 ≡ index w
  unfolding bottle_fill
  index-bottle_fill = grind context_rules

  pub index-bottle_pour : index (bottle_pour c w).0 ≡ index w
  unfolding bottle_pour
  index-bottle_pour = grind context_rules

  pub index-avatar_sit_or_get_up : index (avatar_sit_or_get_up c w).0 ≡ index w
  unfolding avatar_sit_or_get_up sit_down get_up
  index-avatar_sit_or_get_up = grind context_rules

  pub index-host_change : index (host_change c w).0 ≡ index w
  unfolding host_change sound_if
  index-host_change = grind context_rules

  pub index-host_sex_change : index (host_sex_change c w).0 ≡ index w
  unfolding host_sex_change change_sex operate_machine
  index-host_sex_change = grind context_rules
