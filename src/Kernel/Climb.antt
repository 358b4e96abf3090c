-- ===== src/Kernel/Climb.antt =====
-- `findGotoCoords` climbs to the outermost object that is physically in the region.
use mathlib.Core.Path.{subst}
use neohabitat.Prelude.{
  ℕ, zero, suc, ◌+◌, ◌⊎◌, ◌<◌, ◌≤◌, ◌≡◌, refl, sym, true, ◌||◌, none, some, List, [], ◌∷◌, ◌==◌,
  str_eq, arith, All, Bool-cases, Option-cases, inl, inr,
}
use neohabitat.World.Object.{Object, World}
use neohabitat.World.Table.{find_object, get, get_by_ref}
use neohabitat.World.Depth.{Below, IsRanked}
use neohabitat.World.Lookup.{FindsByRef}
use neohabitat.Kernel.Walk.{climb}

All-find_object :
    (P : Object → Type 0) (k : ℕ) (o : Object) (l : List Object)
    → All P l
    → find_object k l ≡ some o
    → P o
unfolding find_object
All-find_object P k o [] t h = cc
All-find_object P k o (i ∷ l) (p, t) h = elim (Bool-cases (i.noid == k)) [
  | inl e ↦ subst P (cc (rw e at h)) p
  | inr e ↦ All-find_object P k o l t (rw e at h)
]

-- the container of an object of the table ranks above it
ranks_above :
    (rank : ℕ → ℕ) (w : World)
    → IsRanked rank w
    → FindsByRef w
    → (k : ℕ) (o outer : Object) → get w k ≡ some o
    → get_by_ref w o.container_ref ≡ some outer
    → rank o.noid < rank outer.noid
ranks_above rank w h f k o outer ho hc =
    let (r, g) = f.1 o.container_ref outer hc in
    All-find_object (Below rank w) k o w.objects h.all_below (unfold get in ho) outer.noid outer g
      (sym r)

-- where a climb ends
abbrev pub IsOutermost : World → Object → Type 0
IsOutermost w o =
    ((str_eq o.container_ref "" || str_eq o.container_ref w.region.ref) ≡ true)
    ⊎ (get_by_ref w o.container_ref ≡ none)

-- In an indexed world whose containment is not cyclic (each object ranks below its container, all
-- ranks below a bound), the climb from an object of the table ends, with as many steps as the bound
-- exceeds its rank, at an object of the table that stands in the region, or in nothing that
-- is there.
pub climb-ends :
    (rank : ℕ → ℕ) (w : World) (top : ℕ)
    → IsRanked rank w
    → FindsByRef w
    → ((n : ℕ) → rank n < top)
    → (f : ℕ) (o : Object) → get w o.noid ≡ some o
    → top ≤ rank o.noid + f
    → ((climb f w o).1 ≡ true)
      × IsOutermost w (climb f w o).0
      × (get w (climb f w o).0.noid ≡ some (climb f w o).0)
unfolding climb
climb-ends rank w top h g b zero o ho l = absurd (omega (arith, b o.noid))
climb-ends rank w top h g b (suc f) o ho l =
    elim (Bool-cases (str_eq o.container_ref "" || str_eq o.container_ref w.region.ref)) [
      | inl e ↦ rw (e, climb) (refl, inl e, ho)
      | inr e ↦ elim (Option-cases (get_by_ref w o.container_ref)) [
        | inl q ↦ rw (e, q, climb) (refl, inr q, ho)
        | inr (outer, q) ↦
            let up : rank o.noid < rank outer.noid = ranks_above rank w h g o.noid o outer ho q in
            rw (e, q, climb)
              (climb-ends rank w top h g b f outer (g.1 o.container_ref outer q).1 (omega arith))
      ]
    ]
