-- ===== src/Kernel/Walk.antt =====
-- `cursorGoXY`, `getObjectWalkXY`, `findGotoCoords`, `findThrowSurface` and `succeeded` of kernel.js.
-- The offsets of an object's class and style (walk_offsets.js, a table) are a parameter.
use neohabitat.Prelude.{
  ℕ, zero, suc, ◌+◌, ◌-◌, ◌*◌, ◌/◌, ◌%◌, ℤ, pos, negsuc, ◌+ℤ◌, Bool, true, false, not, ◌||◌, ◌&&◌,
  Option, none, some, ◌==◌, str_eq, if◌then◌else◌, ltb, leb, or_zero, get_or, truthy, is_num, find,
}
use neohabitat.World.Object.{Object, World}
use neohabitat.World.Table.{get, get_by_ref, me}

pub record Point : Type 0 where
  pub x : ℕ
  pub y : ℕ

pub record Offsets : Type 0 where
  pub x_left : ℤ
  pub x_right : ℤ
  pub y_delta : ℤ

-- `world.region.depth || DEFAULT_REGION_DEPTH`
unfoldable pub region_depth : World → ℕ
region_depth w = if w.region.depth == 0 then 32 else w.region.depth

-- `n & 0xFC`
unfoldable pub grid : ℕ → ℕ
grid n = n % 256 / 4 * 4

unfoldable pub cursor_go_xy : World → ℕ → ℕ → Point
cursor_go_xy w x y =
    let depth = (if ltb (region_depth w) (y % 128) then region_depth w else y % 128) in
    record { x = grid x; y = 128 + depth }

-- `-n`, and `n & 0xFF`
unfoldable pub negate : ℤ → ℤ
negate (pos zero) = pos 0
negate (pos (suc n)) = negsuc n
negate (negsuc n) = pos (suc n)

unfoldable pub low_byte : ℤ → ℕ
low_byte (pos n) = n % 256
low_byte (negsuc n) = 255 - n % 256

-- a depth, clamped to the band
unfoldable pub clamp : ℕ → ℤ → ℕ
clamp top (negsuc n) = 0
clamp top (pos n) = if ltb top n then top else n

unfoldable pub walk_y : World → Object → Offsets → ℕ
walk_y w o f = 128 + clamp (region_depth w) (pos (or_zero o.mod_.y % 128) +ℤ f.y_delta)

unfoldable pub is_flipped : Object → Bool
is_flipped o = not (or_zero o.mod_.orientation % 2 == 0)

-- the x of one pass; `right` is the side
unfoldable pub side_x : Object → Offsets → Bool → ℕ
side_x o f right =
    let offset =
      (if is_flipped o
        then (if right then f.x_left else f.x_right)
        else (if right then f.x_right else f.x_left)) in
    grid (low_byte (pos (or_zero o.mod_.x) +ℤ (if is_flipped o then negate offset else offset)))

-- the side of the first pass: `avatarX <= objX ? 0 : 1`
unfoldable pub first_side : World → Object → Bool
first_side w o = elim (me w) [
  | none ↦ not (leb 80 (or_zero o.mod_.x))
  | some m ↦ elim m.mod_.x [ none ↦ true | some x ↦ not (leb x (or_zero o.mod_.x)) ]
]

unfoldable pub walk_x : Object → Offsets → Bool → ℕ
walk_x o f side =
    let x = side_x o f side in
    let x' = side_x o f (not side) in
    if ltb x 156 then x else if ltb x' 156 then x' else if leb 208 x' then 8 else 156

abbrev pub door_sized : Offsets
door_sized = record { x_left = pos 0; x_right = pos 32; y_delta = pos 0 }

unfoldable pub get_object_walk_xy : (Object → Option Offsets) → World → Object → Point
get_object_walk_xy offsets_of w o =
    let f = get_or (offsets_of o) door_sized in
    record { x = walk_x o f (first_side w o); y = walk_y w o f }

-- the loop of `findGotoCoords`, up the containers; on fuel, `false` when it runs out
unfoldable pub climb : ℕ → World → Object → Object × Bool
climb zero w o = (o, false)
climb (suc f) w o =
    if str_eq o.container_ref "" || str_eq o.container_ref w.region.ref
    then (o, true)
    else elim (get_by_ref w o.container_ref) [ none ↦ (o, true) | some outer ↦ climb f w outer ]

unfoldable pub find_goto_coords : (Object → Option Offsets) → ℕ → World → ℕ → Option Point
find_goto_coords offsets_of fuel w noid = elim (get w noid) [
  | none ↦ none
  | some o ↦
      let (outer, done) = climb fuel w o in
      elim outer.mod_.x [ none ↦ none | some x ↦ some (get_object_walk_xy offsets_of w outer) ]
]

unfoldable pub is_ground : Object → Bool
is_ground o =
    (str_eq o.type "Street" || str_eq o.type "Ground")
    || (str_eq o.type "Flat" || str_eq o.type "Trapezoid" || str_eq o.type "Super_trapezoid")
      && is_num o.mod_.flat_type 2

unfoldable pub find_throw_surface : World → Option Object
find_throw_surface w = find (λ o. str_eq o.container_ref w.region.ref && is_ground o) w.objects

-- `!!(reply && reply.err)`; no reply is `none` too
unfoldable pub succeeded : Option ℕ → Bool
succeeded err = truthy err
