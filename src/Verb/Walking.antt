-- ===== src/Verb/Walking.antt =====
-- `makeCtx` of kernel.js for walking: what stops a walk, the walk, the wait for it, and the places.
use neohabitat.Prelude.{
  ℕ, suc, Bool, false, not, ◌&&◌, ◌||◌, Option, none, some, ◌==◌, str_eq, if◌then◌else◌, leb,
  get_or, is_num, length,
}
use neohabitat.World.Object.{World, moved, start_walk, beep}
use neohabitat.World.Contents.{am_ghost}
use neohabitat.Kernel.Walk.{Point, find_goto_coords, cursor_go_xy}
use neohabitat.Verb.Pause.{Place, walk_wait_millis, distance}
use neohabitat.Verb.Program.{
  Arrival, Result, refused, walk, wait, Act, ◌>>=◌, ◌>>◌, look, given, request, show, write, skip,
  get_millis, set_millis,
}
use neohabitat.Verb.Context.{arg, now, beeps, or_else, Ctx}

-- `me.containerRef && me.containerRef !== world.region.ref`
unfoldable pub is_seated : Ctx → World → Bool
is_seated c w = elim c.actor [
  | none ↦ false
  | some a ↦
      not (str_eq (now a w).container_ref "") && not (str_eq (now a w).container_ref w.region.ref)
]

-- `{ x: me.mod.x, y: me.mod.y }`, if there is an x
unfoldable pub standing : Ctx → World → Option Place
standing c w = elim c.actor [
  | none ↦ none
  | some a ↦ elim (now a w).mod_.x [
    | none ↦ none
    | some x ↦ some (record { x = some x; y = (now a w).mod_.y })
  ]
]

-- `start_walk`: the avatar is at the destination at once
unfoldable pub arrive : Ctx → Place → ℕ → Act (Unit {0})
arrive c to how = given c.actor skip λ a. do
  show (start_walk a.noid to.x to.y (some how))
  write a (λ m. record m { x = to.x; y = to.y })
  show (moved a.noid)

-- `x <= 80 ? 0 : 1`
unfoldable pub side_of : Option ℕ → ℕ
side_of none = 1
side_of (some x) = if leb x 80 then 0 else 1

unfoldable pub destination_of : Option Arrival → Option ℕ → Option ℕ → Place
destination_of none x y = record { x = x; y = y }
destination_of (some a) x y = record { x = or_else a.x x; y = or_else a.y y }

unfoldable pub way_of : Option Arrival → Option ℕ → ℕ
way_of none x = side_of x
way_of (some a) x = get_or a.how (side_of x)

unfoldable pub walked : Ctx → Option Place → Place → ℕ → Act (Unit {0})
walked c from to how =
    if is_num to.y 0
    then show (beep "walk-failed")
    else do arrive c to how; set_millis (some (walk_wait_millis from to))

-- `ctx.walkTo`; every caller drops what it returns
unfoldable pub walk_to : Ctx → Option ℕ → Option ℕ → Act (Unit {0})
walk_to c x y = do
  ghost ← look am_ghost
  seated ← look (is_seated c)
  if ghost || seated then skip else do
    from ← look (standing c)
    arrived ← request (walk x y)
    walked c from (destination_of arrived x y) (way_of arrived x)

-- `waitWalkAnimation`
unfoldable pub pause : ℕ → Act (Unit {0})
pause ms = if ms == 0 then skip else request (wait ms)

unfoldable pub wait_walk : Act (Unit {0})
wait_walk = do ms ← get_millis; set_millis none; pause (get_or ms 1000)

-- `gotoCoords` and `adjacentCoords`, which are the same
unfoldable pub goto_spot : Ctx → ℕ → World → Option Point
goto_spot c noid w = find_goto_coords c.setting.offsets_of (suc (length w.objects)) w noid

unfoldable pub cursor_coords : Ctx → World → Point
cursor_coords c w =
    let m = (now c.pointed w).mod_ in
    cursor_go_xy w (get_or (or_else (arg "x" c) m.x) 80) (get_or (or_else (arg "y" c) m.y) 144)

unfoldable pub is_near : Option ℕ → ℕ → ℕ → Bool
is_near none b far = false
is_near (some a) b far = leb (distance a b) far

unfoldable pub is_adjacent : Ctx → ℕ → World → Bool
is_adjacent c noid w = elim c.actor [
  | none ↦ false
  | some a ↦ elim (goto_spot c noid w) [
    | none ↦ false
    | some spot ↦ is_near (now a w).mod_.x spot.x 32 && is_near (now a w).mod_.y spot.y 16
  ]
]

-- `if (!go.ok) return ctx.beep(go.reason)`, and what follows
unfoldable pub if_ok : Result → Act Result → Act Result
if_ok (refused r) k = beeps r
if_ok r k = k

-- `doAction(ACTION_GO)`, its check, and `waitWalkAnimation`
unfoldable pub go_then : Ctx → Act Result → Act Result
go_then c k = do went ← c.do_action 2 c.args; if_ok went (wait_walk >> k)
