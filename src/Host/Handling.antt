-- ===== src/Host/Handling.antt =====
-- Where the messages about things in hand leave the thing, and that they leave the rest alone.
use neohabitat.Prelude.{
  ℕ, ◌-◌, ◌*◌, ◌/◌, ◌%◌, sym, ◌≡◌, ◌≢◌, refl, ap, String, Option, none, some, ◌==◌, ==_iff,
  if◌then◌else◌, arith, or_zero, ◌∙◌,
}
use neohabitat.World.Object.{Object, Mod, World, hands, the_region}
use neohabitat.World.Table.{get, get?, update}
use neohabitat.World.Contents.{change_containers, holding}
use neohabitat.World.Tables.{noid-get, map_object, with_mod}
use neohabitat.World.Effects.{
  destination-update, get_rules, placed, arrived, destination, get-change_containers,
}
use neohabitat.Host.Context.{Ctx, chore_here}
use neohabitat.Host.Shown.{
  shown_rules, chore_here-Same, get-reach_out, reach_out-Same, destination-Same, get-chore_here,
  destination-chore_here, get-reach_back,
}
use neohabitat.Host.Inventory.{
  avatar_getm, avatar_throw, avatar_putm, avatar_grab_from, face_front, reach_back, reach_out,
  holding?, set_orientation,
}

destination-region : (w : World) → destination w (some the_region) ≡ some w.region.ref
unfolding destination
destination-region w = refl

-- the orientation that a message gives, if it gives one
unfoldable pub turned : Option ℕ → Mod → Mod
turned none m = m
turned (some o) m = record m { orientation = some o }

-- GET$ of an object that is there, by an avatar that is there under a noid other than the region's:
-- afterwards the object is in the
-- avatar, at the slot of the hands, and every other object is as it was.
pub avatar_getm-carried :
    (c : Ctx) (w : World) (t n : ℕ) (item avatar : Object)
    → c.args.target ≡ some t
    → c.args.noid ≡ some n
    → n ≢ the_region
    → get w t ≡ some item
    → get w n ≡ some avatar
    → (k : ℕ)
    → get (avatar_getm c w).0 k
      ≡ (if t == k then some (placed avatar.ref (some 0) (some hands) item) else get w k)
unfolding avatar_getm destination get? map_object arrived
avatar_getm-carried c w t n item avatar ht hn hr hi ha k =
    grind (shown_rules, ==_iff, destination-chore_here)

-- where a change to an object and then its move leave the objects
get-turn_and_move :
    (i : ℕ) (f : Mod → Mod) (o x y : Option ℕ) (v w : World) (item : Object)
    → ((k : ℕ) → get v k ≡ get w k)
    → get w i ≡ some item
    → (k : ℕ)
    → get (change_containers (some i) o x y (update i f v)) k ≡ (
        if i == k
        then some (arrived (destination (update i f v) o) x y (with_mod f item))
        else get w k)
unfolding map_object
get-turn_and_move i f o x y v w item e h k = grind (get_rules, get-change_containers, ==_iff)

landing :
    (a : String) (i : ℕ) (f : Mod → Mod) (c : Ctx) (w : World) (x y : Option ℕ) (o : Object)
    → arrived (destination (update i f (chore_here a c w)) (some the_region)) x y o
      ≡ placed w.region.ref x y o
unfolding destination arrived update
landing a i f c w x y o = grind (arith, (chore_here-Same a c w).region)

-- the orientation with bit 0 cleared: the even number at or below it
unfoldable pub even_below : Option ℕ → Option ℕ
even_below none = none
even_below (some n) = some (n - n % 2)

-- the object, turned to the front
unfoldable pub facing_front : Object → Object
facing_front o = record o { mod_ = record o.mod_ { orientation = even_below o.mod_.orientation } }

clears_bit : (n : ℕ) → n / 2 * 2 ≡ n - n % 2
clears_bit n = omega arith

-- what `face_front` does, by cases on the orientation
front_of :
    (p : Option ℕ) (m : Mod)
    → p ≡ m.orientation
    → ◌≡◌ {A = Mod}
        (elim p [ none ↦ m | some o ↦ record m { orientation = some (o / 2 * 2) } ])
        (record m { orientation = even_below p })
unfolding even_below
front_of none m e = ap (λ q. record m { orientation = q }) (sym e)
front_of (some n) m e = ap (λ q. record m { orientation = some q }) (clears_bit n)

faces_front : (o : Object) → with_mod face_front o ≡ facing_front o
unfolding with_mod facing_front face_front
faces_front o = ap (λ m. record o { mod_ = m }) (front_of o.mod_.orientation o.mod_ refl)

throw_run :
    (c : Ctx) (w : World) (i : ℕ) (item : Object)
    → c.args.obj ≡ some i
    → get w i ≡ some item
    → (avatar_throw c w).0
      ≡ chore_here "hand_back" c (
          change_containers
            (some i)
            (some the_region)
            c.args.x
            c.args.y
            (update i face_front (chore_here "throw" c w)))
unfolding avatar_throw get?
throw_run c w i item ho hi = grind (arith, noid-get w i item hi)

-- THROW$ of an object that is there: it lies in the region, at the position of the message, turned
-- to the front (its orientation, if it has one, is the even number at or below it), and every other
-- object is as it was.
pub avatar_throw-landed :
    (c : Ctx) (w : World) (i : ℕ) (item : Object)
    → c.args.obj ≡ some i
    → get w i ≡ some item
    → (k : ℕ)
    → get (avatar_throw c w).0 k ≡ (
        if i == k
        then some (placed w.region.ref c.args.x c.args.y (facing_front item))
        else get w k)
avatar_throw-landed c w i item ho hi k =
    ap (λ v. get v k) (throw_run c w i item ho hi)
    ∙ get-chore_here "hand_back" c _ k
    ∙ get-turn_and_move i face_front (some the_region) c.args.x c.args.y (chore_here "throw" c w) w
        item (get-chore_here "throw" c w) hi k
    ∙ simp (landing "throw" i face_front c w c.args.x c.args.y, faces_front item)

-- GRABFROM$ by an avatar that is there, under a noid other than the region's, from an avatar that
-- holds something: the thing goes into the hands of the first one, and every other object is as it
-- was.
pub avatar_grab_from-carried :
    (c : Ctx) (w : World) (v n : ℕ) (item avatar : Object)
    → c.args.avatar_noid ≡ some v
    → c.args.noid ≡ some n
    → n ≢ the_region
    → holding w v ≡ some item
    → get w n ≡ some avatar
    → (k : ℕ)
    → get (avatar_grab_from c w).0 k ≡ (
        if item.noid == k
        then map_object (placed avatar.ref (some 0) (some hands)) (get w k)
        else get w k)
unfolding avatar_grab_from holding? destination get? map_object arrived
avatar_grab_from-carried c w v n item avatar hv hn hr hi ha k =
    grind (shown_rules, ==_iff, destination-chore_here)

put_run :
    (c : Ctx) (w : World) (i : ℕ) (item : Object)
    → c.args.obj ≡ some i
    → get w i ≡ some item
    → (avatar_putm c w).0
      ≡ reach_back (or_zero c.args.how) c (
          change_containers
            (some i)
            c.args.cont
            c.args.x
            c.args.y
            (set_orientation c.args.orient i (reach_out (or_zero c.args.how) c w)))
unfolding avatar_putm get?
put_run c w i item ho hi = grind (arith, noid-get w i item hi)

get-set_orientation :
    (o : Option ℕ) (i : ℕ) (w : World) (k : ℕ)
    → get (set_orientation o i w) k
      ≡ (if i == k then map_object (with_mod (turned o)) (get w k) else get w k)
unfolding set_orientation turned map_object with_mod
get-set_orientation o i w k = grind get_rules

destination_of_put :
    (o : Option ℕ) (i h : ℕ) (c : Ctx) (w : World) (n : Option ℕ)
    → destination (set_orientation o i (reach_out h c w)) n ≡ destination w n
unfolding set_orientation
destination_of_put none i h c w n = destination-Same _ w (reach_out-Same h c w) n
destination_of_put (some o) i h c w n =
    destination-update i (λ m. record m { orientation = some o }) _ n
    ∙ destination-Same _ w (reach_out-Same h c w) n

-- PUT$ leaves the item at the message's position in the container, or where it was if the container
-- is missing; the orientation is the message's if it has one; every other object is as it was.
pub avatar_putm-put :
    (c : Ctx) (w : World) (i : ℕ) (item : Object)
    → c.args.obj ≡ some i
    → get w i ≡ some item
    → (k : ℕ)
    → get (avatar_putm c w).0 k ≡ (
        if i == k
        then some (
            arrived
              (destination w c.args.cont)
              c.args.x
              c.args.y
              (with_mod (turned c.args.orient) item))
        else get w k)
unfolding map_object
avatar_putm-put c w i item ho hi k =
    ap (λ v. get v k) (put_run c w i item ho hi)
    ∙ get-reach_back (or_zero c.args.how) c _ k
    ∙ get-change_containers i c.args.cont c.args.x c.args.y _ k
    ∙ grind (
      get_rules,
      destination_of_put c.args.orient i (or_zero c.args.how) c w c.args.cont,
      hi,
      ==_iff,
      get-set_orientation c.args.orient i (reach_out (or_zero c.args.how) c w) k,
      get-reach_out (or_zero c.args.how) c w k,
    )
