-- ===== src/Host/Cases.antt =====
-- The effects of single messages, at messages in the plaza of World/Examples.
use neohabitat.Prelude.{
  ℕ, ◌-◌, ◌≡◌, ◌≢◌, refl, true, false, none, some, [], ◌∷◌, ◌==◌, if◌then◌else◌, arith, is_some,
  find, select,
}
use neohabitat.World.Object.{Object, empty_mod, World, hands}
use neohabitat.World.Table.{find_object, get}
use neohabitat.World.Contents.{contents, contents_of, holding}
use neohabitat.World.Tables.{map_object, with_mod}
use neohabitat.World.Effects.{placed, arrived, destination}
use neohabitat.World.Examples.{randy, bag, key, chair, plaza, plaza_rank, plaza-IsRanked}
use neohabitat.Host.Message.{Msg, no_msg, ok, bytes}
use neohabitat.Host.Context.{Ctx}
use neohabitat.Host.Inventory.{avatar_getm, avatar_putm, avatar_throw, avatar_grab_from}
use neohabitat.Host.Doors.{avatar_open, avatar_close, avatar_open_container, avatar_close_container}
use neohabitat.Host.State.{avatar_sit_or_get_up, host_sex_change}
use neohabitat.Host.Machines.{denomination, debit}
use neohabitat.Host.Motion.{chore_name_for_posture}
use neohabitat.Host.Dispatch.{resolve_host_dispatch, is_migrated}
use neohabitat.Host.Handling.{
  avatar_getm-carried, avatar_throw-landed, avatar_grab_from-carried, avatar_putm-put, turned,
  facing_front,
}
use neohabitat.Host.Openables.{Flagged, openables-Flagged, avatar_close_container-empties}
use neohabitat.Host.Seats.{
  pose_for, with_activity, in_front, avatar_sit_or_get_up-seated, avatar_sit_or_get_up-stands,
}
use neohabitat.Host.Fields.{denomination-debit, host_sex_change-flips, Flipped}
use neohabitat.Host.Resolved.{
  resolve_host_dispatch-migrated, IsPlayable, chore_name_for_posture-IsPlayable,
}

abbrev about : Msg → Ctx
about m = record { pointed = randy; actor = none; args = m }

abbrev take_key : Msg
take_key = record no_msg { op = "GET$"; noid = some 10; target = some 12; how = some 0 }

avatar_getm-carried_example :
    get (avatar_getm (about take_key) plaza).0 12
    ≡ (if 12 == 12 then some (placed "user-randy" (some 0) (some hands) key) else get plaza 12)
unfolding get find_object
avatar_getm-carried_example =
    avatar_getm-carried (about take_key) plaza 12 10 key randy refl refl (λ e. omega (arith, e))
      refl refl 12

abbrev throw_key : Msg
throw_key = record no_msg {
  op = "THROW$";
  noid = some 10;
  obj = some 12;
  x = some 100;
  y = some 140;
}

avatar_throw-landed_example : get (avatar_throw (about throw_key) plaza).0 12 ≡ (
    if 12 == 12
    then some (placed "context-plaza" (some 100) (some 140) (facing_front key))
    else get plaza 12)
unfolding get find_object
avatar_throw-landed_example = avatar_throw-landed (about throw_key) plaza 12 key refl refl 12

abbrev put_key : Msg
put_key = record no_msg {
  op = "PUT$";
  noid = some 10;
  obj = some 12;
  cont = some 13;
  x = some 0;
  y = some 1;
  how = some 1;
  orient = some 2;
}

avatar_putm-put_example : get (avatar_putm (about put_key) plaza).0 12 ≡ (
    if 12 == 12
    then some
        (arrived (destination plaza (some 13)) (some 0) (some 1) (with_mod (turned (some 2)) key))
    else get plaza 12)
unfolding get find_object
avatar_putm-put_example = avatar_putm-put (about put_key) plaza 12 key refl refl 12

-- Randy with a token purse in his hands, and a thief
abbrev purse : Object
purse = record {
  life = 5;
  noid = 14;
  ref = "item-purse";
  name = "Tokens";
  type = "Tokens";
  mod_ = record empty_mod { x = some 0; y = some 5; denom_lo = some 44; denom_hi = some 1 };
  container_ref = "user-randy";
}

abbrev thief : Object
thief = record {
  life = 6;
  noid = 15;
  ref = "user-thief";
  name = "Thief";
  type = "Avatar";
  mod_ = record empty_mod { x = some 20; y = some 150 };
  container_ref = "context-plaza";
}

abbrev alley : World
alley = record plaza {
  objects = randy ∷ purse ∷ thief ∷ [];
  refs = ("user-randy", 10) ∷ ("item-purse", 14) ∷ ("user-thief", 15) ∷ [];
}

abbrev grab_purse : Msg
grab_purse = record no_msg { op = "GRABFROM$"; noid = some 15; avatar_noid = some 10 }

avatar_grab_from-carried_example : get (avatar_grab_from (about grab_purse) alley).0 14 ≡ (
    if 14 == 14
    then map_object (placed "user-thief" (some 0) (some hands)) (get alley 14)
    else get alley 14)
unfolding get find_object holding contents_of contents find select
avatar_grab_from-carried_example =
    avatar_grab_from-carried (about grab_purse) alley 10 15 purse thief refl refl
      (λ e. omega (arith, e)) refl refl 14

abbrev open_bag : Msg
open_bag = record no_msg {
  op = "OPENCONTAINER$";
  noid = some 10;
  cont = some 11;
  target = some 11;
  open_flags = some 2;
}

openables-Flagged_example :
    ((about open_bag).args.target ≡ some 11
      → Flagged 11 3 plaza (avatar_open (about open_bag) plaza).0)
    × ((about open_bag).args.target ≡ some 11
        → Flagged 11 2 plaza (avatar_close (about open_bag) plaza).0)
    × ((about open_bag).args.cont ≡ some 11
        → Flagged 11 3 plaza (avatar_open_container (about open_bag) plaza).0)
unfolding get find_object
openables-Flagged_example = openables-Flagged (about open_bag) plaza 11 bag refl

avatar_close_container-empties_example :
    ((avatar_close_container (about open_bag) plaza).1 ≡ ok)
    × ((k : ℕ) (o : Object)
        → get (avatar_close_container (about open_bag) plaza).0 k ≡ some o
        → o.container_ref ≢ "item-bag")
unfolding get find_object
avatar_close_container-empties_example =
    avatar_close_container-empties (about open_bag) plaza 11 bag plaza_rank plaza-IsRanked refl refl

abbrev sit_msg : ℕ → Msg
sit_msg up = record no_msg {
  op = "SIT$";
  noid = some 10;
  cont = some 13;
  slot = some 1;
  up_or_down = some up;
}

avatar_sit_or_get_up-seated_example : get (avatar_sit_or_get_up (about (sit_msg 1)) plaza).0 10 ≡ (
    if 10 == 10
    then some (with_activity (pose_for 1) (placed "item-chair" (some 0) (some 1) randy))
    else get plaza 10)
unfolding get find_object
avatar_sit_or_get_up-seated_example =
    avatar_sit_or_get_up-seated (about (sit_msg 1)) plaza 10 13 randy chair refl refl refl
      (λ e. omega (arith, e)) (λ e. omega (arith, e)) refl refl 10

avatar_sit_or_get_up-stands_example : get (avatar_sit_or_get_up (about (sit_msg 0)) plaza).0 10 ≡ (
    if 10 == 10
    then some (with_activity 129 (placed "context-plaza" (some 60) (some (in_front 20)) randy))
    else get plaza 10)
unfolding get find_object
avatar_sit_or_get_up-stands_example =
    avatar_sit_or_get_up-stands (about (sit_msg 0)) plaza 10 13 randy chair refl refl refl refl refl
      10

abbrev turn_key : Msg
turn_key = record no_msg {
  op = "FIDDLE_$";
  target = some 12;
  offset = some 9;
  value = bytes (128 ∷ []);
}

abbrev change_randy : Msg
change_randy = record no_msg { op = "SEXCHANGE$"; sex_avatar_noid = some 10 }

host_sex_change-flips_example :
    (plaza.me_noid ≡ some 10
      → (k : ℕ) → get (host_sex_change (about change_randy) plaza).0 k ≡ get plaza k)
    × (plaza.me_noid ≢ some 10
        → Flipped 10 randy plaza (host_sex_change (about change_randy) plaza).0)
unfolding get find_object
host_sex_change-flips_example = host_sex_change-flips (about change_randy) plaza 10 randy refl refl

denomination-debit_example : denomination (debit 50 purse.mod_) ≡ denomination purse.mod_ - 50
unfolding denomination
denomination-debit_example = denomination-debit 50 purse.mod_ (omega arith)

abbrev appear_randy : Msg
appear_randy = record no_msg { op = "APPEARING_$"; appearing = some 10 }

resolve_host_dispatch-migrated_example :
    (is_migrated "SIT$" ≡ false → resolve_host_dispatch (sit_msg 1) ≡ none)
    × (is_migrated "SIT$" ≡ true → true ≡ true → is_some (resolve_host_dispatch (sit_msg 1)) ≡ true)
resolve_host_dispatch-migrated_example = resolve_host_dispatch-migrated (sit_msg 1)

chore_name_for_posture-IsPlayable_example : IsPlayable (chore_name_for_posture 141)
chore_name_for_posture-IsPlayable_example = chore_name_for_posture-IsPlayable 141
