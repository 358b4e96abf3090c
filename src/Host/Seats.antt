-- ===== src/Host/Seats.antt =====
-- SIT$: the avatar is in the seat, or stands in the region again.
use neohabitat.Prelude.{
  ℕ, ◌+◌, ◌*◌, ◌/◌, ◌%◌, arith, ◌≡◌, ◌≢◌, true, false, some, ◌==◌, ==_iff, if◌then◌else◌, or_zero,
  truthy,
}
use neohabitat.World.Object.{Object, World, the_region}
use neohabitat.World.Table.{get, get?}
use neohabitat.World.Tables.{noid-get, map_object, with_mod}
use neohabitat.World.Effects.{placed, arrived, destination}
use neohabitat.Host.Context.{Ctx}
use neohabitat.Host.Shown.{shown_rules}
use neohabitat.Host.State.{
  avatar_sit_or_get_up, sit_down, get_up, set_activity, sit_pose, stand_x, stand_y, raise,
}

-- the activity 133 for a seat whose style is odd, and 157 for another
unfoldable pub pose_for : ℕ → ℕ
pose_for style = if style % 2 == 1 then 133 else 157

-- the object with another activity
unfoldable pub with_activity : ℕ → Object → Object
with_activity n o = record o { mod_ = record o.mod_ { activity = some n } }

poses : (seat : Object) → sit_pose (some seat) ≡ pose_for (or_zero seat.mod_.style)
unfolding sit_pose pose_for
poses seat = ground arith

-- y with bit 0x80 set
unfoldable pub in_front : ℕ → ℕ
in_front y = y / 256 * 256 + 128 + y % 128

raises : (y : ℕ) → raise y ≡ in_front y
unfolding raise in_front
raises y = ground arith

-- A message SIT$ that seats an avatar that is there in a seat that is there, another object than
-- the avatar and not under the region's noid: afterwards the avatar is in the seat, at its slot, in
-- the pose for the seat (activity 133 for an odd style, else 157), and every other object is as it
-- was.
pub avatar_sit_or_get_up-seated :
    (c : Ctx) (w : World) (a s : ℕ) (avatar seat : Object)
    → c.args.noid ≡ some a
    → c.args.cont ≡ some s
    → truthy c.args.up_or_down ≡ true
    → s ≢ the_region
    → s ≢ a
    → get w a ≡ some avatar
    → get w s ≡ some seat
    → (k : ℕ)
    → get (avatar_sit_or_get_up c w).0 k ≡ (
        if a == k
        then some (
            with_activity
              (pose_for (or_zero seat.mod_.style))
              (placed seat.ref (some 0) (some (or_zero c.args.slot)) avatar))
        else get w k)
unfolding avatar_sit_or_get_up sit_down get? map_object arrived destination with_activity with_mod
    set_activity
avatar_sit_or_get_up-seated c w a s avatar seat ha hs up r ne ga gs k =
    grind (shown_rules, ==_iff, noid-get w a avatar ga, poses seat)

-- A message SIT$ that lets an avatar get up that is there, from a seat that is there: afterwards it
-- stands, in the region, in front of the seat (the seat's x, its y with bit 0x80 set, in activity
-- 129), and every other object is as it was.
pub avatar_sit_or_get_up-stands :
    (c : Ctx) (w : World) (a s : ℕ) (avatar seat : Object)
    → c.args.noid ≡ some a
    → c.args.cont ≡ some s
    → truthy c.args.up_or_down ≡ false
    → get w a ≡ some avatar
    → get w s ≡ some seat
    → (k : ℕ)
    → get (avatar_sit_or_get_up c w).0 k ≡ (
        if a == k
        then some (
            with_activity 129
              (placed w.region.ref seat.mod_.x (some (in_front (or_zero seat.mod_.y))) avatar))
        else get w k)
unfolding avatar_sit_or_get_up get_up get? map_object arrived destination stand_x stand_y
    with_activity with_mod set_activity
avatar_sit_or_get_up-stands c w a s avatar seat ha hs up ga gs k =
    grind (shown_rules, ==_iff, noid-get w a avatar ga, raises (or_zero seat.mod_.y))
