-- ===== src/World/Examples.antt =====
-- A region with an avatar, a bag, a key in the bag and a chair: the theorems at concrete worlds.
use mathlib.Core.Path.{subst}
use neohabitat.Prelude.{
  ℕ, ◌<◌, ◌≡◌, ◌≢◌, refl, String, true, false, none, some, [], ◌∷◌, ◌==◌, if◌then◌else◌, arith, inl,
  inr, ◌∙◌, Bool-cases, ==_iff, str_eq, eq_iff, any,
}
use neohabitat.World.Object.{Object, empty_mod, World, no_region}
use neohabitat.World.Table.{find_object, get}
use neohabitat.World.Contents.{change_containers}
use neohabitat.World.Delete.{delete_on, delete_by_noid}
use neohabitat.World.Make.{reconcile_seating}
use neohabitat.World.Tables.{map_object}
use neohabitat.World.Effects.{placed, arrived, destination, get-change_containers}
use neohabitat.World.Orphans.{NoOrphans}
use neohabitat.World.Untouched.{Within}
use neohabitat.World.Depth.{IsRanked}
use neohabitat.World.Deletion.{delete_by_noid-exact, delete_on-change_containers}
use neohabitat.World.Seating.{posed, InSeat, reconcile_seating-avatar, reconcile_seating-seat}

abbrev pub randy : Object
randy = record {
  life = 1;
  noid = 10;
  ref = "user-randy";
  name = "Randy";
  type = "Avatar";
  mod_ = record empty_mod {
    x = some 80;
    y = some 144;
    orientation = some 1;
    gr_state = some 64;
    sitting_in = some 13;
    sitting_slot = some 1;
    sitting_action = some 157;
  };
  container_ref = "context-plaza";
}

abbrev pub bag : Object
bag = record {
  life = 2;
  noid = 11;
  ref = "item-bag";
  name = "Bag";
  type = "Bag";
  mod_ = record empty_mod { x = some 40; y = some 150 };
  container_ref = "context-plaza";
}

abbrev pub key : Object
key = record {
  life = 3;
  noid = 12;
  ref = "item-key";
  name = "Key";
  type = "Key";
  mod_ = record empty_mod { x = some 0; y = some 0; orientation = some 3 };
  container_ref = "item-bag";
}

abbrev pub chair : Object
chair = record {
  life = 4;
  noid = 13;
  ref = "item-chair";
  name = "Chair";
  type = "Chair";
  mod_ = record empty_mod {
    x = some 60;
    y = some 20;
    style = some 1;
    sitters = some (0 ∷ 10 ∷ []);
  };
  container_ref = "context-plaza";
}

abbrev pub plaza : World
plaza = record {
  objects = randy ∷ bag ∷ key ∷ chair ∷ [];
  lives = 4;
  lost = [];
  refs = ("user-randy", 10) ∷ ("item-bag", 11) ∷ ("item-key", 12) ∷ ("item-chair", 13) ∷ [];
  region = record no_region { ref = "context-plaza"; depth = 32 };
  me_noid = none;
  events = [];
}

-- the key ranks below everything else
abbrev pub plaza_rank : ℕ → ℕ
plaza_rank n = if n == 12 then 0 else 1

-- no object has the region's ref
not_plaza : (n : ℕ) (c : Object) → get plaza n ≡ some c → "context-plaza" ≢ c.ref
unfolding get find_object
not_plaza n c h e = elim (Bool-cases (10 == n)) [
  | inl a ↦ clash c.ref "user-randy" e (cc (rw a at h)) refl
  | inr a ↦ elim (Bool-cases (11 == n)) [
    | inl b ↦ clash c.ref "item-bag" e (cc (rw (a, b) at h)) refl
    | inr b ↦ elim (Bool-cases (12 == n)) [
      | inl d ↦ clash c.ref "item-key" e (cc (rw (a, b, d) at h)) refl
      | inr d ↦ elim (Bool-cases (13 == n)) [
        | inl f ↦ clash c.ref "item-chair" e (cc (rw (a, b, d, f) at h)) refl
        | inr f ↦ cc (rw (a, b, d, f) at h)
      ]
    ]
  ]
]
  where
    clash : (r s : String) → "context-plaza" ≡ r → r ≡ s → str_eq "context-plaza" s ≡ false → ⊥
    clash r s p q z = cc ((eq_iff "context-plaza" s).1 (p ∙ q), z)

below_bag :
    (n : ℕ) (c : Object) → get plaza n ≡ some c → "item-bag" ≡ c.ref → plaza_rank 12 < plaza_rank n
unfolding get find_object
below_bag n c h e = elim (Bool-cases (n == 12)) [
  | inl a ↦ absurd (clash (subst (λ k. get plaza k ≡ some c) ((==_iff n 12).0 a) h))
  | inr a ↦ rw a (omega arith)
]
  where
    clash : get plaza 12 ≡ some c → ⊥
    clash q = let r : c.ref ≡ "item-key" = cc q in cc ((eq_iff "item-bag" "item-key").1 (e ∙ r))

pub plaza-IsRanked : IsRanked plaza_rank plaza
plaza-IsRanked = record {
  all_below = (
    λ n c h e. absurd (not_plaza n c h e),
    (
      λ n c h e. absurd (not_plaza n c h e),
      (below_bag, (λ n c h e. absurd (not_plaza n c h e), tt)),
    ),
  );
}

delete_by_noid-exact_example :
    ((delete_by_noid 11 plaza).1 ≡ true)
    × (get (delete_by_noid 11 plaza).0 11 ≡ none)
    × NoOrphans plaza (delete_by_noid 11 plaza).0
    × ((k : ℕ) (o : Object)
        → get plaza k ≡ some o
        → ¬ Within plaza 11 k
        → get (delete_by_noid 11 plaza).0 k ≡ some o)
delete_by_noid-exact_example = delete_by_noid-exact plaza_rank 11 plaza plaza-IsRanked

delete_on-change_containers_example :
    (delete_on 1000 11 (change_containers (some 11) (some 11) (some 0) (some 0) plaza)).1 ≡ false
unfolding get find_object
delete_on-change_containers_example =
    delete_on-change_containers 1000 11 (some 0) (some 0) plaza bag (λ e. omega (arith, e)) refl

get-change_containers_example :
    get (change_containers (some 12) (some 13) (some 0) (some 2) plaza) 12 ≡ (
      if 12 == 12
      then map_object (arrived (destination plaza (some 13)) (some 0) (some 2)) (get plaza 12)
      else get plaza 12)
get-change_containers_example = get-change_containers 12 (some 13) (some 0) (some 2) plaza 12

reconcile_seating-avatar_example : get (reconcile_seating randy plaza) 10 ≡ (
    if 10 == 10 then some (placed "item-chair" (some 0) (some 1) (posed randy)) else get plaza 10)
unfolding get find_object
reconcile_seating-avatar_example =
    reconcile_seating-avatar randy chair plaza 13 refl refl (λ e. omega (arith, e))
      (λ e. omega (arith, e)) refl refl 10

reconcile_seating-seat_example : InSeat 10 chair (reconcile_seating chair plaza)
unfolding get find_object any
reconcile_seating-seat_example =
    reconcile_seating-seat chair randy plaza (0 ∷ 10 ∷ []) 10 refl refl (λ e. omega (arith, e)) refl
      (λ e. omega (arith, e)) refl refl refl
