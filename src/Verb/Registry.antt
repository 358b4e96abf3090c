-- ===== src/Verb/Registry.antt =====
-- The registry of behaviors/index.js, for the verbs that are modelled.
use neohabitat.Prelude.{String, Option, none, some, List, [], ◌∷◌, str_eq, if◌then◌else◌}
use neohabitat.Verb.Context.{Verb}
use neohabitat.Verb.Basic.{
  illegal, no_effect, generic_cease, generic_depends, generic_go_to, generic_go_to_cursor,
  generic_go_to_or_pass_through, avatar_go, sky_go, wall_go, trap_go, trap_put, generic_broadcast,
  transit_region,
}
use neohabitat.Verb.Carrying.{
  generic_go_to_and_get, generic_go_to_and_drop_at, generic_throw, avatar_get, avatar_put, head_get,
}
use neohabitat.Verb.Openables.{
  generic_adjacent_open_close, generic_adjacent_open_close_container, generic_go_to_and_pick_from,
  generic_go_to_and_pick_from_if_open, generic_go_to_and_pick_from_or_get,
  generic_go_to_and_drop_into, generic_go_to_and_drop_into_if_open,
}
use neohabitat.Verb.Things.{
  key_do, tokens_do, paper_do, head_do, head_talk, game_piece_do, telekenesis_get, avatar_do,
  generic_go_to_furniture, generic_go_to_and_fill, die_do,
}
use neohabitat.Verb.Held.{
  generic_switch, flashlight_do, floor_lamp_do, generic_read, plaque_do, book_do, generic_get_mass,
  bottle_rdo, drugs_do, windup_toy_do, gun_do, tokens_rdo,
}
use neohabitat.Verb.Magic.{
  generic_do_magic, generic_do_magic_if_magic, generic_rdo_magic, generic_rdo_magic_if_magic,
  generic_adjacent_do_magic, generic_strike, generic_shoot, sensor_do, garbage_can_do, spray_can_do,
  shovel_rdo, hole_do, changomatic_rdo, stun_gun_rdo, mailbox_get, generic_enter_or_exit,
  generic_test,
}
use neohabitat.Verb.Machines.{
  generic_coin_op, vendo_do, magic_lamp_do, sex_changer_do, escape_device_do, grenade_do,
  fake_gun_do, fake_gun_rdo, pawn_machine_do,
}
use neohabitat.Verb.Payments.{
  coke_machine_put, fortune_machine_put, jukebox_put, vendo_put, teleport_put, teleport_talk,
  elevator_talk, stereo_put, stereo_get, atm_do, atm_get, atm_put, jukebox_do,
}

unfoldable pub walking_verbs : List (String × Verb)
walking_verbs =
    ("illegal", illegal)
    ∷ ("noEffect", no_effect)
    ∷ ("unimplemented", illegal)
    ∷ ("BOING", illegal)
    ∷ ("boing", illegal)
    ∷ ("generic_destroy", no_effect)
    ∷ ("generic_cease", generic_cease)
    ∷ ("generic_depends", generic_depends)
    ∷ ("generic_goTo", generic_go_to)
    ∷ ("generic_goToCursor", generic_go_to_cursor)
    ∷ ("generic_goToOrPassThrough", generic_go_to_or_pass_through)
    ∷ ("avatar_go", avatar_go)
    ∷ ("sky_go", sky_go)
    ∷ ("wall_go", wall_go)
    ∷ ("trap_go", trap_go)
    ∷ ("trap_put", trap_put)
    ∷ ("generic_broadcast", generic_broadcast)
    ∷ ("avatar_talk", generic_broadcast)
    ∷ ("jukebox_talk", generic_broadcast)
    ∷ ("GoToNewRegion", transit_region)
    ∷ ("transit_region", transit_region)
    ∷ ("sex_changer_go", generic_go_to)
    ∷ []

unfoldable pub carrying_verbs : List (String × Verb)
carrying_verbs =
    ("generic_goToAndGet", generic_go_to_and_get)
    ∷ ("generic_goToAndDropAt", generic_go_to_and_drop_at)
    ∷ ("generic_throw", generic_throw)
    ∷ ("avatar_get", avatar_get)
    ∷ ("avatar_put", avatar_put)
    ∷ ("head_get", head_get)
    ∷ ("generic_adjacentOpenClose", generic_adjacent_open_close)
    ∷ ("generic_adjacentOpenCloseContainer", generic_adjacent_open_close_container)
    ∷ ("generic_goToAndPickFrom", generic_go_to_and_pick_from)
    ∷ ("generic_goToAndPickFromIfOpen", generic_go_to_and_pick_from_if_open)
    ∷ ("generic_goToAndPickFromOrGet", generic_go_to_and_pick_from_or_get)
    ∷ ("generic_goToAndDropInto", generic_go_to_and_drop_into)
    ∷ ("generic_goToAndDropIntoIfOpen", generic_go_to_and_drop_into_if_open)
    ∷ []

unfoldable pub thing_verbs : List (String × Verb)
thing_verbs =
    ("key_do", key_do)
    ∷ ("tokens_do", tokens_do)
    ∷ ("paper_do", paper_do)
    ∷ ("head_do", head_do)
    ∷ ("head_talk", head_talk)
    ∷ ("game_piece_do", game_piece_do)
    ∷ ("telekenesis_get", telekenesis_get)
    ∷ ("avatar_do", avatar_do)
    ∷ ("generic_goToFurniture", generic_go_to_furniture)
    ∷ ("generic_goToAndFill", generic_go_to_and_fill)
    ∷ ("die_do", die_do)
    ∷ ("generic_switch", generic_switch)
    ∷ ("flashlight_do", flashlight_do)
    ∷ ("floor_lamp_do", floor_lamp_do)
    ∷ ("generic_read", generic_read)
    ∷ ("plaque_do", plaque_do)
    ∷ ("book_do", book_do)
    ∷ ("generic_getMass", generic_get_mass)
    ∷ ("bottle_rdo", bottle_rdo)
    ∷ ("drugs_do", drugs_do)
    ∷ ("windup_toy_do", windup_toy_do)
    ∷ ("gun_do", gun_do)
    ∷ ("tokens_rdo", tokens_rdo)
    ∷ []

unfoldable pub gadget_verbs : List (String × Verb)
gadget_verbs =
    ("generic_doMagic", generic_do_magic)
    ∷ ("generic_doMagicIfMagic", generic_do_magic_if_magic)
    ∷ ("generic_rdoMagic", generic_rdo_magic)
    ∷ ("generic_rdoMagicIfMagic", generic_rdo_magic_if_magic)
    ∷ ("generic_adjacentDoMagic", generic_adjacent_do_magic)
    ∷ ("generic_strike", generic_strike)
    ∷ ("generic_shoot", generic_shoot)
    ∷ ("sensor_do", sensor_do)
    ∷ ("garbage_can_do", garbage_can_do)
    ∷ ("spray_can_do", spray_can_do)
    ∷ ("shovel_rdo", shovel_rdo)
    ∷ ("hole_do", hole_do)
    ∷ ("changomatic_rdo", changomatic_rdo)
    ∷ ("stun_gun_rdo", stun_gun_rdo)
    ∷ ("mailbox_get", mailbox_get)
    ∷ ("generic_enterOrExit", generic_enter_or_exit)
    ∷ ("generic_test", generic_test)
    ∷ []

unfoldable pub machine_verbs : List (String × Verb)
machine_verbs =
    ("generic_coinOp", generic_coin_op)
    ∷ ("vendo_do", vendo_do)
    ∷ ("magic_lamp_do", magic_lamp_do)
    ∷ ("sex_changer_do", sex_changer_do)
    ∷ ("escape_device_do", escape_device_do)
    ∷ ("grenade_do", grenade_do)
    ∷ ("fake_gun_do", fake_gun_do)
    ∷ ("fake_gun_rdo", fake_gun_rdo)
    ∷ ("pawn_machine_do", pawn_machine_do)
    ∷ ("coke_machine_put", coke_machine_put)
    ∷ ("fortune_machine_put", fortune_machine_put)
    ∷ ("jukebox_put", jukebox_put)
    ∷ ("vendo_put", vendo_put)
    ∷ ("teleport_put", teleport_put)
    ∷ ("teleport_talk", teleport_talk)
    ∷ ("elevator_talk", elevator_talk)
    ∷ ("stereo_put", stereo_put)
    ∷ ("stereo_get", stereo_get)
    ∷ ("atm_do", atm_do)
    ∷ ("atm_get", atm_get)
    ∷ ("atm_put", atm_put)
    ∷ ("jukebox_do", jukebox_do)
    ∷ []

unfoldable pub find_verb : String → List (String × Verb) → Option Verb
find_verb name [] = none
find_verb name ((n, v) ∷ l) = if str_eq n name then some v else find_verb name l
