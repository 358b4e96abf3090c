-- ===== src/Host/Dispatch.antt =====
-- dispatch_host.js: which behavior a message runs, on which object. The class table of the generated
-- classes.js is a parameter, and so are the behaviors that are not modelled.
use neohabitat.Prelude.{
  ℕ, String, Bool, Option, none, some, List, [], ◌∷◌, ◌==◌, str_eq, if◌then◌else◌, is_some, any,
}
use neohabitat.World.Object.{Object, World, the_region, empty_mod}
use neohabitat.World.Table.{get, me}
use neohabitat.Host.Message.{Msg, Outcome, fail}
use neohabitat.Host.Context.{Ctx, Handler}
use neohabitat.Host.Doors.{avatar_open, avatar_close, avatar_open_container, avatar_close_container}
use neohabitat.Host.Inventory.{
  avatar_getm, avatar_putm, avatar_grab_from, avatar_throw, avatar_wear, avatar_remove,
}
use neohabitat.Host.Motion.{avatar_walk, avatar_posture}
use neohabitat.Host.State.{
  host_fiddle, region_change_light, region_go_away, region_change_containers, bottle_fill,
  bottle_pour, avatar_sit_or_get_up, host_change, host_sex_change,
}
use neohabitat.Host.Choreography.{
  generic_play, avatar_attack, avatar_bash, generic_speak, generic_object_speak, avatar_dig,
  avatar_take, avatar_bugout, region_appearing, region_wait_for, sound_source_record,
}
use neohabitat.Host.Devices.{
  generic_on, generic_off, generic_onlight, generic_offlight, generic_change_state,
  button_change_state, sensor_scan, garbage_can_flush, spray_can_spray,
}
use neohabitat.Host.Machines.{
  generic_pay, teleport_pay, vendo_select, vendo_sell, magic_lamp_rub, grenade_explode,
  fake_gun_fakeshoot, fake_gun_reset, pawn_machine_munch, windup_toy_wind,
}

-- the behaviors by name
pub data Behavior : Type 0 where
  b_open b_close b_open_container b_close_container : Behavior
  b_getm b_putm b_grab_from b_throw b_wear b_remove : Behavior
  b_walk b_posture b_sit_or_get_up : Behavior
  b_fiddle b_change_light b_go_away b_change_containers b_change b_sex_change : Behavior
  b_fill b_pour : Behavior
  b_play b_attack b_bash b_speak b_object_speak b_dig b_take b_bugout b_appearing b_wait_for :
      Behavior
  b_on b_off b_onlight b_offlight b_change_state b_button b_scan b_flush b_spray : Behavior
  b_pay b_teleport_pay b_select b_sell b_rub b_explode b_fakeshoot b_reset b_munch b_wind : Behavior
  unmodelled : String → Behavior

-- HOST_FIXED_BEHAVIORS
unfoldable pub fixed_behavior : String → Option Behavior
fixed_behavior op =
    if str_eq op "DIG$"
    then some b_dig
    else if str_eq op "TAKE$"
    then some b_take
    else if str_eq op "BUGOUT$"
    then some b_bugout
    else if str_eq op "OBJECTSPEAK_$"
    then some b_object_speak
    else if str_eq op "APPEARING_$"
    then some b_appearing
    else if str_eq op "WAITFOR_$"
    then some b_wait_for
    else if str_eq op "FIDDLE_$"
    then some b_fiddle
    else if str_eq op "CHANGELIGHT_$"
    then some b_change_light
    else if str_eq op "GOAWAY_$"
    then some b_go_away
    else if str_eq op "CHANGE_CONTAINERS_$"
    then some b_change_containers
    else if str_eq op "CHANGE$"
    then some b_change
    else if str_eq op "SEXCHANGE$"
    then some b_sex_change
    else none

-- the messages whose noid may be left out: they are about the region
unfoldable pub defaults_to_region : String → Bool
defaults_to_region op = any (str_eq op) (
    "OBJECTSPEAK_$" ∷ "APPEARING_$" ∷ "WAITFOR_$" ∷ "FIDDLE_$" ∷ "CHANGELIGHT_$" ∷ "GOAWAY_$"
    ∷ "CHANGE_CONTAINERS_$" ∷ [])

-- HOST_OP_SLOTS
abbrev pub host_op_slots : List (String × ℕ)
host_op_slots =
    ("WALK$", 8)
    ∷ ("POSTURE$", 20)
    ∷ ("GET$", 15)
    ∷ ("GRABFROM$", 17)
    ∷ ("PUT$", 22)
    ∷ ("THROW$", 24)
    ∷ ("WEAR$", 28)
    ∷ ("REMOVE$", 29)
    ∷ ("CLOSE$", 12)
    ∷ ("OPEN$", 18)
    ∷ ("OPENCONTAINER$", 19)
    ∷ ("CLOSECONTAINER$", 13)
    ∷ ("FLUSH$", 8)
    ∷ ("FAKESHOOT$", 8)
    ∷ ("RUB$", 9)
    ∷ ("ZAPTO$", 10)
    ∷ ("SCAN$", 8)
    ∷ ("SPRAY$", 8)
    ∷ ("MUNCH$", 8)
    ∷ ("RESET$", 9)
    ∷ ("WIND$", 8)
    ∷ ("EXPLODE$", 8)
    ∷ ("VSELECT$", 8)
    ∷ ("SELL$", 9)
    ∷ ("PAYTO$", 8)
    ∷ ("PAID$", 30)
    ∷ ("PAY$", 8)
    ∷ ("ATTACK$", 9)
    ∷ ("BASH$", 10)
    ∷ ("SPEAK$", 14)
    ∷ ("WISH$", 8)
    ∷ ("ROLL$", 8)
    ∷ ("FILL$", 8)
    ∷ ("POUR$", 9)
    ∷ ("OFF$", 8)
    ∷ ("ON$", 9)
    ∷ ("SIT$", 16)
    ∷ ("CHANGESTATE$", 8)
    ∷ []

abbrev pub migrated_ops : List String
migrated_ops =
    "WALK$" ∷ "POSTURE$" ∷ "GET$" ∷ "PUT$" ∷ "GRABFROM$" ∷ "THROW$" ∷ "WEAR$" ∷ "REMOVE$" ∷ "OPEN$"
    ∷ "CLOSE$" ∷ "OPENCONTAINER$" ∷ "CLOSECONTAINER$" ∷ "FLUSH$" ∷ "FAKESHOOT$" ∷ "RUB$" ∷ "ZAPTO$"
    ∷ "SCAN$" ∷ "SPRAY$" ∷ "MUNCH$" ∷ "RESET$" ∷ "WIND$" ∷ "EXPLODE$" ∷ "VSELECT$" ∷ "SELL$"
    ∷ "PAYTO$" ∷ "PAID$" ∷ "PAY$" ∷ "ATTACK$" ∷ "BASH$" ∷ "SPEAK$" ∷ "PLAY_$" ∷ "OBJECTSPEAK_$"
    ∷ "WISH$" ∷ "DIG$" ∷ "TAKE$" ∷ "BUGOUT$" ∷ "APPEARING_$" ∷ "WAITFOR_$" ∷ "FIDDLE_$"
    ∷ "CHANGELIGHT_$" ∷ "GOAWAY_$" ∷ "CHANGE_CONTAINERS_$" ∷ "CHANGE$" ∷ "SEXCHANGE$" ∷ "ROLL$"
    ∷ "FILL$" ∷ "POUR$" ∷ "ON$" ∷ "OFF$" ∷ "SIT$" ∷ "CHANGESTATE$" ∷ []

unfoldable pub is_migrated : String → Bool
is_migrated op = any (str_eq op) migrated_ops

unfoldable pub slot_of : String → List (String × ℕ) → Option ℕ
slot_of op [] = none
slot_of op ((o, n) ∷ l) = if str_eq o op then some n else slot_of op l

-- what `resolveHostDispatch` returns
pub data Spec : Type 0 where
  by_behavior : ℕ → Behavior → Spec
  by_slot : ℕ → ℕ → Spec

unfoldable pub with_behavior : Behavior → Option ℕ → Option Spec
with_behavior b none = none
with_behavior b (some noid) = some (by_behavior noid b)

unfoldable pub with_slot : Option ℕ → Option ℕ → Option Spec
with_slot none noid = none
with_slot (some slot) none = none
with_slot (some slot) (some noid) = some (by_slot noid slot)

-- the noid of a fixed behavior
unfoldable pub fixed_noid : Msg → Option ℕ
fixed_noid m = elim m.noid [
  | none ↦ if defaults_to_region m.op then some the_region else none
  | some noid ↦ some noid
]

unfoldable pub resolve_host_dispatch : Msg → Option Spec
resolve_host_dispatch m =
    if is_migrated m.op
    then if str_eq m.op "PLAY_$"
      then with_behavior b_play (if is_some m.from_noid then m.from_noid else m.noid)
      else elim (fixed_behavior m.op) [
        | some b ↦ with_behavior b (fixed_noid m)
        | none ↦ with_slot (slot_of m.op host_op_slots) m.noid
      ]
    else none

abbrev pub host_stub : ℕ → Object
host_stub noid = record {
  life = 0;
  noid = noid;
  ref = "";
  name = "";
  type = "HostStub";
  mod_ = empty_mod;
  container_ref = "";
}

abbrev pub region_stub_at : Object
region_stub_at = record {
  life = 0;
  noid = the_region;
  ref = "";
  name = "";
  type = "Region";
  mod_ = empty_mod;
  container_ref = "";
}

-- what stands in for a pointed object that the table does not have
unfoldable pub stub_for : World → ℕ → Behavior → Option Object
stub_for w noid b_change = some (host_stub noid)
stub_for w noid b_sex_change = some (host_stub noid)
stub_for w noid b_play = sound_source_record w noid
stub_for w noid b_object_speak = sound_source_record w noid
stub_for w noid b_appearing = sound_source_record w noid
stub_for w noid b_wait_for = sound_source_record w noid
stub_for w noid b_fiddle = sound_source_record w noid
stub_for w noid b_change_light = sound_source_record w noid
stub_for w noid b_go_away = sound_source_record w noid
stub_for w noid b_change_containers = sound_source_record w noid
stub_for w noid b = if noid == the_region then some region_stub_at else none

unfoldable pub pointed_for_host_dispatch : World → Spec → Option Object
pointed_for_host_dispatch w (by_behavior noid b) = elim (get w noid) [
  | none ↦ stub_for w noid b
  | some rec ↦ some rec
]
pointed_for_host_dispatch w (by_slot noid slot) = elim (get w noid) [
  | none ↦ if noid == the_region then some region_stub_at else none
  | some rec ↦ some rec
]

-- The parts that are not modelled: the class table and its sounds, and the other behaviors.
pub record Classes : Type 0 where
  pub behavior_at : String → ℕ → Option Behavior
  pub sounds_of : String → List String
  pub others : String → Handler

module _ (t : Classes) where
  unfoldable pub behavior_name_for : Object → Spec → Option Behavior
  behavior_name_for pointed (by_behavior noid b) = some b
  behavior_name_for pointed (by_slot noid slot) = t.behavior_at pointed.type slot

  unfoldable pub run_behavior : Behavior → Handler
  run_behavior b_open = avatar_open
  run_behavior b_close = avatar_close
  run_behavior b_open_container = avatar_open_container
  run_behavior b_close_container = avatar_close_container
  run_behavior b_getm = avatar_getm
  run_behavior b_putm = avatar_putm
  run_behavior b_grab_from = avatar_grab_from
  run_behavior b_throw = avatar_throw
  run_behavior b_wear = avatar_wear
  run_behavior b_remove = avatar_remove
  run_behavior b_walk = avatar_walk
  run_behavior b_posture = avatar_posture
  run_behavior b_sit_or_get_up = avatar_sit_or_get_up
  run_behavior b_fiddle = host_fiddle
  run_behavior b_change_light = region_change_light
  run_behavior b_go_away = region_go_away
  run_behavior b_change_containers = region_change_containers
  run_behavior b_change = host_change
  run_behavior b_sex_change = host_sex_change
  run_behavior b_fill = bottle_fill
  run_behavior b_pour = bottle_pour
  run_behavior b_play = generic_play t.sounds_of
  run_behavior b_attack = avatar_attack
  run_behavior b_bash = avatar_bash
  run_behavior b_speak = generic_speak
  run_behavior b_object_speak = generic_object_speak
  run_behavior b_dig = avatar_dig
  run_behavior b_take = avatar_take
  run_behavior b_bugout = avatar_bugout
  run_behavior b_appearing = region_appearing
  run_behavior b_wait_for = region_wait_for
  run_behavior b_on = generic_on
  run_behavior b_off = generic_off
  run_behavior b_onlight = generic_onlight
  run_behavior b_offlight = generic_offlight
  run_behavior b_change_state = generic_change_state
  run_behavior b_button = button_change_state
  run_behavior b_scan = sensor_scan
  run_behavior b_flush = garbage_can_flush
  run_behavior b_spray = spray_can_spray
  run_behavior b_pay = generic_pay
  run_behavior b_teleport_pay = teleport_pay
  run_behavior b_select = vendo_select
  run_behavior b_sell = vendo_sell
  run_behavior b_rub = magic_lamp_rub
  run_behavior b_explode = grenade_explode
  run_behavior b_fakeshoot = fake_gun_fakeshoot
  run_behavior b_reset = fake_gun_reset
  run_behavior b_munch = pawn_machine_munch
  run_behavior b_wind = windup_toy_wind
  run_behavior (unmodelled name) = t.others name

  -- the context: the pointed object, the actor's noid and the message
  unfoldable pub context_for : Object → Msg → World → Ctx
  context_for pointed m w = record {
    pointed = pointed;
    actor = elim (me w) [ none ↦ none | some r ↦ some r.noid ];
    args = m;
  }

  unfoldable pub dispatch_to : Spec → Msg → World → World × Outcome
  dispatch_to spec m w = elim (pointed_for_host_dispatch w spec) [
    | none ↦ (w, fail "no-pointed-object")
    | some pointed ↦ elim (behavior_name_for pointed spec) [
      | none ↦ (w, fail "no-such-slot")
      | some b ↦ run_behavior b (context_for pointed m w) w
    ]
  ]

  unfoldable pub dispatch_host_sync : Msg → World → World × Outcome
  dispatch_host_sync m w = elim (resolve_host_dispatch m) [
    | none ↦ (w, fail "unresolved-host-op")
    | some spec ↦ dispatch_to spec m w
  ]
