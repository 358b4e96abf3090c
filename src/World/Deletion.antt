-- ===== src/World/Deletion.antt =====
-- The contract of `_deleteByNoid`.
use neohabitat.Prelude.{
  ℕ, suc, ◌≡◌, ◌≢◌, refl, Option, none, some, true, false, length, ==_iff, arith,
}
use neohabitat.World.Object.{Object, World, the_region}
use neohabitat.World.Table.{get, get?}
use neohabitat.World.Delete.{delete_on, delete_by_noid}
use neohabitat.World.Contents.{change_containers}
use neohabitat.World.Tables.{map_object}
use neohabitat.World.Effects.{placed, arrived, destination, get-change_containers}
use neohabitat.World.Depth.{IsRanked}
use neohabitat.World.Ranks.{delete_by_noid-done}
use neohabitat.World.Removal.{delete_on-gone}
use neohabitat.World.Orphans.{NoOrphans, no_orphans}
use neohabitat.World.Untouched.{Within, delete_on-untouched, delete_on_cyclic}

-- In a world whose containment is not cyclic (each object ranks below its container), a deletion
-- finishes; the object is gone; no object that is left stands in one that was removed; and each
-- object that is neither the deleted one nor within it is as it was.
pub delete_by_noid-exact :
    (rank : ℕ → ℕ) (n : ℕ) (w : World)
    → IsRanked rank w
    → ((delete_by_noid n w).1 ≡ true)
      × (get (delete_by_noid n w).0 n ≡ none)
      × NoOrphans w (delete_by_noid n w).0
      × ((k : ℕ) (o : Object)
          → get w k ≡ some o
          → ¬ Within w n k
          → get (delete_by_noid n w).0 k ≡ some o)
unfolding delete_by_noid
delete_by_noid-exact rank n w h =
    let f = suc (length w.objects) in
    let done : (delete_on f n w).1 ≡ true =
      unfold delete_by_noid in delete_by_noid-done rank n w h in
    (
      done,
      delete_on-gone f n w done,
      no_orphans f n w done,
      λ k o e. delete_on-untouched k o f n w e,
    )

-- `_changeContainers` lets an object into itself (only the region's noid is excluded), and from then
-- on no stack is deep enough for its deletion.
pub delete_on-change_containers :
    (f i : ℕ) (x y : Option ℕ) (w : World) (o : Object)
    → i ≢ the_region
    → get w i ≡ some o
    → (delete_on f i (change_containers (some i) (some i) x y w)).1 ≡ false
unfolding destination get? arrived placed map_object
delete_on-change_containers f i x y w o z h =
    delete_on_cyclic f i (change_containers (some i) (some i) x y w) (placed o.ref x y o)
      (grind (arith, get-change_containers i (some i) x y w i, h, ==_iff)) refl
