-- ===== src/World/Effects.antt =====
-- What the writes of world.js do to the object at each noid.
use neohabitat.Prelude.{
  ℕ, ◌≡◌, refl, String, Bool, true, false, Option, none, some, List, ◌==◌, ==_iff, if◌then◌else◌,
  arith, is_num, inl, inr, Bool-cases, ◌∙◌,
}
use neohabitat.World.Object.{Object, Mod, World, Event, the_region}
use neohabitat.World.Table.{find_object, get, get?, emit, update, move_to}
use neohabitat.World.Contents.{place, change_containers, change_state}
use neohabitat.World.Tables.{
  noid-get, find_object-modify_mod, find_object-move_to, map_object, with_mod, with_container,
}

pub get-emit : (e : Event) (w : World) (k : ℕ) → get (emit e w) k ≡ get w k
unfolding get emit
get-emit e w k = refl

pub get-update :
    (n : ℕ) (f : Mod → Mod) (w : World) (k : ℕ)
    → get (update n f w) k ≡ (if n == k then map_object (with_mod f) (get w k) else get w k)
unfolding get update
get-update n f w k = find_object-modify_mod k n f w.objects

pub ruleset get_rules = (arith, get-emit, get-update)

-- the object that `place` leaves at its noid
unfoldable pub placed : String → Option ℕ → Option ℕ → Object → Object
placed ref x y o = record o { container_ref = ref; mod_ = record o.mod_ { x = x; y = y } }

placed_twice :
    (ref : String) (x y : Option ℕ) (o : Option Object)
    → map_object (with_mod (λ m. record m { x = x; y = y })) (map_object (with_container ref) o)
      ≡ map_object (placed ref x y) o
unfolding map_object with_mod with_container placed
placed_twice ref x y none = refl
placed_twice ref x y (some o) = refl

placed_if :
    (b : Bool) (ref : String) (x y : Option ℕ) (o : Option Object)
    → (if b
        then map_object
            (with_mod (λ m. record m { x = x; y = y }))
            (if b then map_object (with_container ref) o else o)
        else (if b then map_object (with_container ref) o else o))
      ≡ (if b then map_object (placed ref x y) o else o)
placed_if true ref x y o = placed_twice ref x y o
placed_if false ref x y o = refl

pub get-place :
    (n : ℕ) (ref : String) (x y : Option ℕ) (w : World) (k : ℕ)
    → get (place n ref x y w) k
      ≡ (if n == k then map_object (placed ref x y) (get w k) else get w k)
unfolding get place emit
get-place n ref x y w k =
    rw
      (
        find_object-modify_mod k n (λ m. record m { x = x; y = y }) (move_to n ref w.objects),
        find_object-move_to k n ref w.objects,
      )
      (placed_if (n == k) ref x y (find_object k w.objects))

pub get-change_state :
    (n : ℕ) (s : Option ℕ) (w : World) (k : ℕ)
    → get (change_state (some n) s w) k ≡ (
        if n == k
        then map_object (with_mod (λ m. record m { gr_state = s })) (get w k)
        else get w k)
unfolding change_state get? map_object
get-change_state n s w k = grind (get_rules, noid-get, ==_iff)

-- the `containerRef` that a change of containers leads to, if the container is there
unfoldable pub destination : World → Option ℕ → Option String
destination w container =
    if is_num container the_region
    then some w.region.ref
    else elim (get? w container) [ none ↦ none | some c ↦ some c.ref ]

unfoldable pub arrived : Option String → Option ℕ → Option ℕ → Object → Object
arrived none x y o = o
arrived (some ref) x y o = placed ref x y o

-- Only the item changes: it lies in the container at the position, or stays if there is no container.
pub get-change_containers :
    (i : ℕ) (c x y : Option ℕ) (w : World) (k : ℕ)
    → get (change_containers (some i) c x y w) k
      ≡ (if i == k then map_object (arrived (destination w c) x y) (get w k) else get w k)
unfolding change_containers get? map_object arrived destination
get-change_containers i c x y w k = grind (get_rules, get-place, noid-get, ==_iff)

pub destination-update :
    (i : ℕ) (f : Mod → Mod) (w : World) (c : Option ℕ)
    → destination (update i f w) c ≡ destination w c
unfolding destination get? map_object with_mod
destination-update i f w none = refl
destination-update i f w (some n) = grind (get_rules, region-update i f w)
  where
    region-update : (j : ℕ) (g : Mod → Mod) (v : World) → (update j g v).region ≡ v.region
    region-update j g v = unfold update in refl
