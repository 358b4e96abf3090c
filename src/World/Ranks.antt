-- ===== src/World/Ranks.antt =====
-- `_deleteByNoid` in a world whose containment is not cyclic: the call stack is never deeper than
-- the number of objects.
use neohabitat.Prelude.{
  ℕ, suc, ◌+◌, ◌<◌, ◌≤◌, ◌≡◌, refl, true, Option, none, some, List, [], ◌∷◌, ◌==◌, ltb,
  if◌then◌else◌, arith, inl, inr, Bool-cases, length, All,
}
use neohabitat.World.Object.{Object, Mod, World, Event}
use neohabitat.World.Table.{get, find_object, modify_mod, update, emit}
use neohabitat.World.Delete.{delete_all, delete_by_noid}
use neohabitat.World.Depth.{Below, IsRanked, drop_record-IsRanked, delete_on-total}
use neohabitat.World.Removal.{delete_on-Keeps}
use neohabitat.World.Tables.{find_object-modify_mod, map_object, with_mod}

module _ (rank : ℕ → ℕ) where
  -- how many of the objects rank below a bound
  count_below : ℕ → List Object → ℕ
  count_below b [] = 0
  count_below b (o ∷ l) = (if ltb (rank o.noid) b then 1 else 0) + count_below b l

  count_below-length : (b : ℕ) (l : List Object) → count_below b l ≤ length l
  unfolding count_below
  count_below-length b [] = omega arith
  count_below-length b (o ∷ l) = ground (arith, count_below-length b l)

  count_below_mono : (a b : ℕ) (l : List Object) → a ≤ b → count_below a l ≤ count_below b l
  unfolding count_below
  count_below_mono a b [] h = omega arith
  count_below_mono a b (o ∷ l) h = ground (arith, count_below_mono a b l h)

  -- an object that ranks below the greater bound only makes the difference
  count_below-strict :
      (b : ℕ) (l : List Object)
      → All (λ o. rank o.noid < b → count_below (rank o.noid) l < count_below b l) l
  unfolding count_below
  count_below-strict b [] = tt
  count_below-strict b (o ∷ l) = (
    λ h. ground (arith, count_below_mono (rank o.noid) b l (omega arith)),
    go l (count_below-strict b l),
  )
    where
      go :
          (k : List Object)
          → All (λ i. rank i.noid < b → count_below (rank i.noid) l < count_below b l) k
          → All (λ i. rank i.noid < b → count_below (rank i.noid) (o ∷ l) < count_below b (o ∷ l)) k
      go [] t = tt
      go (i ∷ k) (h, t) = (λ x. ground (arith, h x), go k t)

  -- the number of objects that rank below is itself a rank
  counts : World → ℕ → ℕ
  counts w n = count_below (rank n) w.objects

  counts-IsRanked : (w : World) → IsRanked rank w → IsRanked (counts w) w
  unfolding counts
  counts-IsRanked w h = record {
    all_below = go w.objects h.all_below (λ b. count_below-strict b w.objects);
  }
    where
      go :
          (l : List Object)
          → All (Below rank w) l
          → ((b : ℕ)
              → All
                  (λ o.
                    rank o.noid < b → count_below (rank o.noid) w.objects < count_below b w.objects)
                  l)
          → All (Below (counts w) w) l
      go [] t s = tt
      go (o ∷ l) (h, t) s = (λ n c hc e. (s (rank n)).0 (h n c hc e), go l t (λ b. (s b).1))

  counts-length : (w : World) (n : ℕ) → counts w n ≤ length w.objects
  unfolding counts
  counts-length w n = count_below-length (rank n) w.objects

  -- A deletion finishes when the containment is not cyclic.
  pub delete_by_noid-done : (n : ℕ) (w : World) → IsRanked rank w → (delete_by_noid n w).1 ≡ true
  unfolding delete_by_noid
  delete_by_noid-done n w h =
      let b : counts w n ≤ length w.objects = counts-length w n in
      delete_on-total (counts w) (suc (length w.objects)) n w (counts-IsRanked w h) (omega arith)

  pub delete_by_noid-IsRanked :
      (n : ℕ) (w : World) → IsRanked rank w → IsRanked rank (delete_by_noid n w).0
  unfolding delete_by_noid
  delete_by_noid-IsRanked n w h =
      delete_on-Keeps (IsRanked rank) (drop_record-IsRanked rank) _ n w h

  pub delete_each-done :
      (is : List Object) (w : World) → IsRanked rank w → (delete_all delete_by_noid is w).1 ≡ true
  unfolding delete_all
  delete_each-done [] w h = refl
  delete_each-done (i ∷ is) w h =
      rw (delete_by_noid-done i.noid w h, delete_all)
        (delete_each-done is (delete_by_noid i.noid w).0 (delete_by_noid-IsRanked i.noid w h))

  pub emit-IsRanked : (e : Event) (w : World) → IsRanked rank w → IsRanked rank (emit e w)
  unfolding emit get
  emit-IsRanked e w h = record { all_below = h.all_below }

  -- the object before an update
  before :
      (o : Option Object) (f : Mod → Mod) (c : Object)
      → map_object (with_mod f) o ≡ some c
      → (b : Object) × (o ≡ some b) × (c.ref ≡ b.ref)
  unfolding map_object with_mod
  before none f c h = cc
  before (some b) f c h = (b, refl, cc)

  Below-update :
      (k : ℕ) (f : Mod → Mod) (w : World) (o : Object)
      → Below rank w o
      → Below rank (update k f w) o
  unfolding update get
  Below-update k f w o h n c hc e = elim (Bool-cases (k == n)) [
    | inl q ↦
        let (b, hb, r) =
          before (find_object n w.objects) f c
            (rw (find_object-modify_mod n k f w.objects, q) at hc) in
        h n b hb (cc (e, r))
    | inr q ↦ h n c (rw (find_object-modify_mod n k f w.objects, q) at hc) e
  ]

  pub update-IsRanked :
      (k : ℕ) (f : Mod → Mod) (w : World) → IsRanked rank w → IsRanked rank (update k f w)
  unfolding update modify_mod
  update-IsRanked k f w h = record { all_below = go w.objects h.all_below }
    where
      go :
          (l : List Object)
          → All (Below rank w) l
          → All (Below rank (update k f w)) (modify_mod k f l)
      go [] t = tt
      go (o ∷ l) (b, t) = elim (Bool-cases (o.noid == k)) [
        | inl q ↦ rw q (Below-update k f w o b, go l t)
        | inr q ↦ rw q (Below-update k f w o b, go l t)
      ]
