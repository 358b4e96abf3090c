-- ===== src/World/Contents.antt =====
-- Containment: the queries of world.js that follow `containerRef`, and `_changeContainers`.
use neohabitat.Prelude.{
  ℕ, String, Bool, true, false, ◌||◌, Option, none, some, List, [], str_eq, if◌then◌else◌, find,
  select, is_num,
}
use neohabitat.World.Object.{
  Object, World, container_changed, state_changed, hands, ghost_noid, the_region,
}
use neohabitat.World.Table.{modify_mod, move_to, get, get?, get_by_ref, emit, update, me}

-- the objects whose `containerRef` is `ref`, in the order of the map
unfoldable pub contents : String → List Object → List Object
contents ref l = select (λ o. str_eq o.container_ref ref) l

unfoldable pub contents_of : World → ℕ → List Object
contents_of w noid = elim (get w noid) [ none ↦ [] | some c ↦ contents c.ref w.objects ]

unfoldable pub container_of : World → ℕ → Option Object
container_of w noid = elim (get w noid) [
  | none ↦ none
  | some o ↦
      if str_eq o.container_ref "" || str_eq o.container_ref w.region.ref
      then none
      else get_by_ref w o.container_ref
]

unfoldable pub in_region : World → ℕ → Bool
in_region w noid = elim (get w noid) [ none ↦ false | some o ↦ str_eq o.container_ref w.region.ref ]

unfoldable pub avatars : World → List Object
avatars w = select (λ o. str_eq o.type "Avatar") w.objects

-- `inventory` is `contentsOf`
unfoldable pub holding : World → ℕ → Option Object
holding w avatar = find (λ o. is_num o.mod_.y hands) (contents_of w avatar)

unfoldable pub am_ghost : World → Bool
am_ghost w =
    if is_num w.me_noid ghost_noid
    then true
    else elim (me w) [ none ↦ false | some r ↦ str_eq r.type "Ghost" || r.mod_.am_a_ghost ]

-- `setMeByNoid`
unfoldable pub set_me_by_noid : ℕ → World → World
set_me_by_noid noid w =
    let w1 = record w { me_noid = some noid } in
    elim (get w1 noid) [ none ↦ w1 | some rec ↦ emit (state_changed noid) w1 ]

-- the end of `_changeContainers`, once the new `containerRef` is known
unfoldable pub place : ℕ → String → Option ℕ → Option ℕ → World → World
place item ref x y w = emit (container_changed item) (record w {
  objects = modify_mod item (λ m. record m { x = x; y = y }) (move_to item ref w.objects);
})

unfoldable pub change_containers : Option ℕ → Option ℕ → Option ℕ → Option ℕ → World → World
unfolding place
change_containers item container x y w = elim (get? w item) [
  | none ↦ w
  | some i ↦
      if is_num container the_region
      then place i.noid w.region.ref x y w
      else elim (get? w container) [ none ↦ w | some c ↦ place i.noid c.ref x y w ]
]

-- `_changeState`
unfoldable pub change_state : Option ℕ → Option ℕ → World → World
change_state noid state w = elim (get? w noid) [
  | none ↦ w
  | some o ↦ emit (state_changed o.noid) (update o.noid (λ m. record m { gr_state = state }) w)
]
