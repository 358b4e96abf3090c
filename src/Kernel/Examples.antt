-- ===== src/Kernel/Examples.antt =====
-- The walk targets at a closet with a bag and a key in the bag.
use mathlib.Core.Path.{subst}
use neohabitat.Prelude.{
  ℕ, ◌⊎◌, ◌<◌, ◌≤◌, ◌≡◌, ◌≢◌, refl, sym, ap, ◌∙◌, String, true, Option, some, [], ◌∷◌, ◌==◌, ==_iff,
  str_eq, eq_iff, arith, Bool-cases, inl, inr, negsuc, pos,
}
use neohabitat.World.Object.{Object, World, empty_mod}
use neohabitat.World.Table.{find_object, find_ref, get, get?, get_by_ref}
use neohabitat.World.Depth.{IsRanked}
use neohabitat.World.Lookup.{FindsByRef}
use neohabitat.World.Examples.{bag, key, plaza, plaza_rank}
use neohabitat.Kernel.Walk.{Offsets, region_depth, cursor_go_xy, get_object_walk_xy, climb}
use neohabitat.Kernel.Bounds.{IsStandable, cursor_go_xy-IsStandable, get_object_walk_xy-IsStandable}
use neohabitat.Kernel.Climb.{IsOutermost, climb-ends}

cursor_go_xy-IsStandable_example :
    IsStandable plaza (cursor_go_xy plaza 77 250)
    × (region_depth plaza < 128
        → cursor_go_xy plaza (cursor_go_xy plaza 77 250).x (cursor_go_xy plaza 77 250).y
          ≡ cursor_go_xy plaza 77 250)
cursor_go_xy-IsStandable_example = cursor_go_xy-IsStandable plaza 77 250

abbrev safe_offsets : Object → Option Offsets
safe_offsets o = some (record { x_left = negsuc 15; x_right = pos 28; y_delta = negsuc 0 })

get_object_walk_xy-IsStandable_example :
    IsStandable plaza (get_object_walk_xy safe_offsets plaza bag)
    × ((get_object_walk_xy safe_offsets plaza bag).x ≤ 156)
get_object_walk_xy-IsStandable_example = get_object_walk_xy-IsStandable safe_offsets plaza bag

abbrev street : Object
street = record {
  life = 1;
  noid = 2;
  ref = "item-street";
  name = "Street";
  type = "Street";
  mod_ = empty_mod;
  container_ref = "context-plaza";
}

abbrev road : World
road = record plaza { objects = key ∷ street ∷ [] }

abbrev closet : World
closet = record plaza { objects = bag ∷ key ∷ []; refs = ("item-bag", 11) ∷ ("item-key", 12) ∷ [] }

closet_cases :
    (n : ℕ) (c : Object) → get closet n ≡ some c → ((n ≡ 11) × (bag ≡ c)) ⊎ ((n ≡ 12) × (key ≡ c))
unfolding get find_object
closet_cases n c h = elim (Bool-cases (11 == n)) [
  | inl a ↦ inl (sym ((==_iff 11 n).0 a), cc (rw a at h))
  | inr a ↦ elim (Bool-cases (12 == n)) [
    | inl b ↦ inr (sym ((==_iff 12 n).0 b), cc (rw (a, b) at h))
    | inr b ↦ cc (rw (a, b) at h)
  ]
]

closet-FindsByRef : FindsByRef closet
unfolding get_by_ref get? get find_object find_ref
closet-FindsByRef = (by_noid, by_ref)
  where
    by_noid : (k : ℕ) (o : Object) → get closet k ≡ some o → get_by_ref closet o.ref ≡ some o
    by_noid k o h = elim (closet_cases k o h) [
      | inl (a, e) ↦ subst (λ c. get_by_ref closet c.ref ≡ some c) e refl
      | inr (a, e) ↦ subst (λ c. get_by_ref closet c.ref ≡ some c) e refl
    ]

    by_ref :
        (r : String) (o : Object)
        → get_by_ref closet r ≡ some o
        → (o.ref ≡ r) × (get closet o.noid ≡ some o)
    by_ref r o h = elim (Bool-cases (str_eq "item-bag" r)) [
      | inl a ↦
          let e : bag ≡ o = cc (rw a at h) in
          subst (λ c. (c.ref ≡ r) × (get closet c.noid ≡ some c)) e
            ((eq_iff "item-bag" r).0 a, refl)
      | inr a ↦ elim (Bool-cases (str_eq "item-key" r)) [
        | inl b ↦
            let e : key ≡ o = cc (rw (a, b) at h) in
            subst (λ c. (c.ref ≡ r) × (get closet c.noid ≡ some c)) e
              ((eq_iff "item-key" r).0 b, refl)
        | inr b ↦ cc (rw (a, b) at h)
      ]
    ]

closet-IsRanked : IsRanked plaza_rank closet
closet-IsRanked = record { all_below = (λ n c h e. absurd (outside n c h e), (inside, tt)) }
  where
    outside : (n : ℕ) (c : Object) → get closet n ≡ some c → "context-plaza" ≢ c.ref
    outside n c h e = elim (closet_cases n c h) [
      | inl (a, q) ↦ cc ((eq_iff "context-plaza" "item-bag").1 (e ∙ sym (ap (λ o. o.ref) q)))
      | inr (a, q) ↦ cc ((eq_iff "context-plaza" "item-key").1 (e ∙ sym (ap (λ o. o.ref) q)))
    ]

    inside :
        (n : ℕ) (c : Object)
        → get closet n ≡ some c
        → "item-bag" ≡ c.ref
        → plaza_rank 12 < plaza_rank n
    inside n c h e = elim (closet_cases n c h) [
      | inl (a, q) ↦ rw a (omega arith)
      | inr (a, q) ↦ cc ((eq_iff "item-bag" "item-key").1 (e ∙ sym (ap (λ o. o.ref) q)))
    ]

rank_lt : (n : ℕ) → plaza_rank n < 2
rank_lt n = ground arith

climb-ends_example :
    ((climb 2 closet key).1 ≡ true)
    × IsOutermost closet (climb 2 closet key).0
    × (get closet (climb 2 closet key).0.noid ≡ some (climb 2 closet key).0)
unfolding get find_object
climb-ends_example =
    climb-ends plaza_rank closet 2 closet-IsRanked closet-FindsByRef rank_lt 2 key refl
      (omega arith)
