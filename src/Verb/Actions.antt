-- ===== src/Verb/Actions.antt =====
-- actions.js: the actions of bots by name. Their replies are read without the objects that they may
-- bring.
use neohabitat.Prelude.{
  ℕ, suc, ◌==◌, ◌*◌, ◌/◌, String, Option, none, some, ◌∷◌, ◌++◌, str_eq, if◌then◌else◌, get_or,
  or_zero, length,
}
use neohabitat.World.Object.{Object, World, open_unlocked, set_open_flags, the_region}
use neohabitat.World.Table.{get?, me}
use neohabitat.World.Contents.{holding}
use neohabitat.Kernel.Walk.{find_goto_coords, find_throw_surface}
use neohabitat.Verb.Pause.{Place, walk_wait_millis}
use neohabitat.Verb.Program.{
  Reply, Arrival, Result, good, refused, send, walk, wait, Act, ◌>>=◌, ◌>>◌, give, look, given,
  fail_hard, request, write, carry, skip,
}
use neohabitat.Verb.Context.{Setting, Args, mod_now, now, is_success, message, num, put_into}
use neohabitat.Verb.Program.{field}
use neohabitat.Verb.Carrying.{clamp_x}
use neohabitat.Verb.Dispatch.{Actions, dispatch, plain_ctx}

abbrev pub option : String → Args → Option ℕ
option k a = field k a.fields

-- `arrived && arrived.x !== undefined ? arrived : spot`
unfoldable pub landed : Option Arrival → Place → Place
landed none spot = spot
landed (some a) spot = elim a.x [ none ↦ spot | some x ↦ record { x = some x; y = a.y } ]

unfoldable pub place_of : Option Object → World → Option Place
place_of none w = none
place_of (some a) w = some (record { x = (now a w).mod_.x; y = (now a w).mod_.y })

-- `goTo`: without a check, and with a wait of any length
unfoldable pub go_to_place : Place → Act (Unit {0})
go_to_place spot = do
  actor ← look me
  from ← look (place_of actor)
  arrived ← request (walk spot.x spot.y)
  given actor skip
      λ a. write a (λ m. record m { x = (landed arrived spot).x; y = (landed arrived spot).y })
  request (wait (walk_wait_millis from (landed arrived spot)))

-- a plain `beep` is told as a refusal of the server
unfoldable pub name_beep : Result → Result
name_beep (refused r) = refused (if str_eq r "beep" then "server-denied" else r)
name_beep r = r

-- what is done with the held item, by an avatar that is in the region
unfoldable pub with_held : (Object → Object → Act Result) → Act Result
with_held k = do
  actor ← look me
  given actor (give (refused "not-in-region")) λ a. do
    held ← look (λ w. holding w a.noid)
    given held (give (refused "hands-empty")) λ item. k a item

unfoldable pub perform_put : Setting → Args → Act Result
perform_put env opts = with_held λ a item. do
  go_to_place (record { x = option "x" opts; y = option "y" opts })
  result ← put_into (plain_ctx env a) the_region (option "x" opts) (option "y" opts) none
  give (name_beep result)

-- where a throw is aimed: at a target that is there, or at the coordinates
unfoldable pub aim : Args → World → Place
aim opts w =
    let here : Place = record {
      x = some (get_or (option "x" opts) 80);
      y = some (get_or (option "y" opts) 144);
    } in
    if or_zero (option "noid" opts) == 0 then here else elim (get? w (option "noid" opts)) [
      | none ↦ here
      | some o ↦ record { x = o.mod_.x; y = o.mod_.y }
    ]

-- a coordinate that is missing is not a number, also after the clamp
unfoldable pub clamp_aim : Option ℕ → Option ℕ
clamp_aim none = none
clamp_aim (some x) = some (clamp_x x)

unfoldable pub is_granted : Option Reply → Act Result → Act Result
is_granted reply k = if is_success reply then k else give (refused "server-denied")

unfoldable pub perform_throw : Args → Act Result
perform_throw opts = with_held λ a item. do
  at ← look (aim opts)
  surface ← look find_throw_surface
  given surface (give (refused "no-surface")) λ s. do
    reply ← request (
        send (record (message "THROW" item.ref) {
          fields = ("target", s.noid) ∷ (num "x" (clamp_aim at.x) ++ num "y" at.y);
        }))
    is_granted reply do carry (some item.noid) (some the_region) (clamp_aim at.x) at.y; give good

-- walk up to an object, ask, and set its flags
unfoldable pub walk_near : Setting → ℕ → Act (Unit {0})
walk_near env noid = do
  spot ← look (λ w. find_goto_coords env.offsets_of (suc (length w.objects)) w noid)
  given spot skip λ p. go_to_place (record { x = some p.x; y = some p.y })

unfoldable pub perform_flags : String → (ℕ → ℕ) → Setting → Args → Act Result
perform_flags op flags env opts = do
  actor ← look me
  given actor (give (refused "not-in-region")) λ a. do
    target ← look (λ w. get? w (option "noid" opts))
    given target (give (refused "no-such-object")) λ o. do
      walk_near env o.noid
      reply ← request (send (message op o.ref))
      is_granted reply
          do m ← mod_now o; write o (set_open_flags (flags (or_zero m.open_flags))); give good

-- `flags & ~OPEN_BIT`
unfoldable pub shut : ℕ → ℕ
shut flags = flags / 2 * 2

unfoldable pub perform_hand : Actions → Setting → Args → Act Result
perform_hand t env opts = do
  recipient ← look (λ w. get? w (option "noid" opts))
  given recipient (give (refused "no-such-avatar")) λ r.
      if str_eq r.type "Avatar"
      then dispatch t env 5 r.noid opts
      else give (refused "no-such-avatar")

-- the actions by name; a name that is not there throws. A GET without a noid is one at 0, the
-- region, which is no object of the table.
unfoldable pub perform : Actions → String → Setting → Args → Act Result
perform t verb env opts =
    if str_eq verb "GET"
    then dispatch t env 4 (or_zero (option "noid" opts)) opts
    else if str_eq verb "HAND"
    then perform_hand t env opts
    else if str_eq verb "PUT"
    then perform_put env opts
    else if str_eq verb "THROW"
    then perform_throw opts
    else if str_eq verb "OPEN"
    then perform_flags "OPEN" (λ f. open_unlocked) env opts
    else if str_eq verb "CLOSE"
    then perform_flags "CLOSE" shut env opts
    else fail_hard
