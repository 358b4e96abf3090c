-- ===== src/Kernel/Bounds.antt =====
-- Walk targets lie on the grid, in the screen and in the region's band.
use neohabitat.Prelude.{
  ℕ, ◌+◌, ◌%◌, ◌≤◌, ◌<◌, ◌≡◌, refl, ℤ, pos, negsuc, ◌+ℤ◌, Bool, true, false, not, Option, some,
  ◌&&◌, str_eq, if◌then◌else◌, arith, ltb, leb, ap, get_or, or_zero, List, [], ◌∷◌, find,
  Bool-cases, inl, inr,
}
use neohabitat.World.Object.{Object, World}
use neohabitat.Kernel.Walk.{
  Point, Offsets, region_depth, grid, cursor_go_xy, clamp, walk_y, side_x, walk_x,
  get_object_walk_xy, first_side, is_ground, find_throw_surface, door_sized,
}

-- a place where an avatar can stand: on the 4-pixel grid, in the foreground, in the band
pub record IsStandable (w : World) (p : Point) : Type 0 where
  pub on_grid : p.x % 4 ≡ 0
  pub on_screen : p.x ≤ 252
  pub in_front : 128 ≤ p.y
  pub in_band : p.y ≤ 128 + region_depth w

clamp_le : (top : ℕ) (z : ℤ) → clamp top z ≤ top
unfolding clamp
clamp_le top (pos n) = ground arith
clamp_le top (negsuc n) = omega arith

grid_mod : (n : ℕ) → grid n % 4 ≡ 0
unfolding grid
grid_mod n = omega arith

again :
    (w : World) (x y : ℕ)
    → region_depth w < 128
    → cursor_go_xy w (cursor_go_xy w x y).x (cursor_go_xy w x y).y ≡ cursor_go_xy w x y
unfolding cursor_go_xy grid
again w x y h = point_eq (omega arith) (ap (λ n. 128 + n) (settled (region_depth w) (y % 128) h))
  where
    point_eq : {p q : Point} → p.x ≡ q.x → p.y ≡ q.y → p ≡ q
    point_eq a b = cc (a, b)

    settled :
        (t d : ℕ)
        → t < 128
        → (if ltb t ((128 + (if ltb t d then t else d)) % 128)
            then t
            else (128 + (if ltb t d then t else d)) % 128)
          ≡ (if ltb t d then t else d)
    settled t d b = ground arith

-- The cursor's coordinates are standable in a region of any depth; and taking the cursor there again
-- changes nothing, in a region of a depth below 128.
pub cursor_go_xy-IsStandable :
    (w : World) (x y : ℕ)
    → IsStandable w (cursor_go_xy w x y)
      × (region_depth w < 128
          → cursor_go_xy w (cursor_go_xy w x y).x (cursor_go_xy w x y).y ≡ cursor_go_xy w x y)
unfolding cursor_go_xy grid
cursor_go_xy-IsStandable w x y = (
  record {
    on_grid = omega arith;
    on_screen = omega arith;
    in_front = omega arith;
    in_band = ground arith;
  },
  λ h. again w x y h,
)

if_grid : (b : Bool) (m n : ℕ) → m % 4 ≡ 0 → n % 4 ≡ 0 → (if b then m else n) % 4 ≡ 0
if_grid true m n h g = h
if_grid false m n h g = g

walk_x_grid : (o : Object) (f : Offsets) (s : Bool) → walk_x o f s % 4 ≡ 0
unfolding walk_x side_x
walk_x_grid o f s = if_grid (ltb (side_x o f s) 156) _ _ (grid_mod _) (
    if_grid (ltb (side_x o f (not s)) 156) _ _ (grid_mod _)
      (if_grid (leb 208 (side_x o f (not s))) 8 156 refl refl))

walk_x_le : (o : Object) (f : Offsets) (s : Bool) → walk_x o f s ≤ 156
unfolding walk_x
walk_x_le o f s = ground arith

-- The coordinates beside an object are standable, whatever its class's offsets are, and at most 156
-- from the left.
pub get_object_walk_xy-IsStandable :
    (offsets_of : Object → Option Offsets) (w : World) (o : Object)
    → IsStandable w (get_object_walk_xy offsets_of w o)
      × ((get_object_walk_xy offsets_of w o).x ≤ 156)
unfolding get_object_walk_xy walk_y
get_object_walk_xy-IsStandable offsets_of w o =
    let f = get_or (offsets_of o) door_sized in
    let c = clamp_le (region_depth w) (pos (or_zero o.mod_.y % 128) +ℤ f.y_delta) in
    let e : walk_x o f (first_side w o) ≤ 156 = walk_x_le o f (first_side w o) in
    (
      record {
        on_grid = walk_x_grid o f (first_side w o);
        on_screen = omega (arith, e);
        in_front = omega arith;
        in_band = omega (arith, c);
      },
      e,
    )

find_sound : (p : Object → Bool) (l : List Object) (o : Object) → find p l ≡ some o → p o ≡ true
unfolding find
find_sound p [] o h = cc
find_sound p (i ∷ l) o h = elim (Bool-cases (p i)) [
  | inl e ↦ ground arith
  | inr e ↦ find_sound p l o (rw e at h)
]

-- A throw surface that is found stands in the region itself, and is ground to throw on.
pub find_throw_surface-is_ground :
    (w : World) (o : Object)
    → find_throw_surface w ≡ some o
    → (str_eq o.container_ref w.region.ref ≡ true) × (is_ground o ≡ true)
unfolding find_throw_surface
find_throw_surface-is_ground w o h =
    let t = find_sound (λ i. str_eq i.container_ref w.region.ref && is_ground i) w.objects o h in
    (ground arith, ground arith)
