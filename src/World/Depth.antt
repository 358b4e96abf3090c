-- ===== src/World/Depth.antt =====
-- How deep the call stack of `_deleteByNoid` gets: the containment must not be cyclic.
use neohabitat.Prelude.{
  ℕ, zero, suc, ◌<◌, ◌≤◌, ◌≡◌, refl, Bool, true, false, some, List, [], ◌∷◌, ◌==◌, str_eq, eq_iff,
  arith, inl, inr, select, Bool-cases, Option-cases, All,
}
use neohabitat.World.Object.{Object, World}
use neohabitat.World.Table.{get, emit, erase_object}
use neohabitat.World.Contents.{contents, contents_of}
use neohabitat.World.Delete.{delete_all, drop_record, after_cascade, delete_on}
use neohabitat.World.Removal.{get-drop_record, delete_on-Keeps}

-- `o` ranks below its container
abbrev pub Below : (ℕ → ℕ) → World → Object → Type 0
Below rank w o =
    (n : ℕ) (c : Object) → get w n ≡ some c → o.container_ref ≡ c.ref → rank o.noid < rank n

-- Containment is not cyclic: what is inside an object ranks below it.
pub record IsRanked (rank : ℕ → ℕ) (w : World) : Type 0 where
  pub all_below : All (Below rank w) w.objects

module _ (rank : ℕ → ℕ) (r : Object) (w : World) where
  Below-drop_record : (o : Object) → Below rank w o → Below rank (drop_record r w) o
  Below-drop_record o h n c hc e = h n c (ground (arith, get-drop_record r w n)) e

  All-erase_object :
      (l : List Object)
      → All (Below rank w) l
      → All (Below rank (drop_record r w)) (erase_object r.noid l)
  unfolding erase_object
  All-erase_object [] h = tt
  All-erase_object (o ∷ l) (h, t) = elim (Bool-cases (o.noid == r.noid)) [
    | inl e ↦ rw e (All-erase_object l t)
    | inr e ↦ rw e (Below-drop_record o h, All-erase_object l t)
  ]

  pub drop_record-IsRanked : IsRanked rank w → IsRanked rank (drop_record r w)
  drop_record-IsRanked h = record {
    all_below = unfold drop_record emit in All-erase_object w.objects h.all_below;
  }

contents-Below :
    (rank : ℕ → ℕ) (w : World) (n : ℕ) (c : Object)
    → get w n ≡ some c
    → (l : List Object) → All (Below rank w) l
    → All (λ i. rank i.noid < rank n) (contents c.ref l)
unfolding contents select
contents-Below rank w n c hc [] h = tt
contents-Below rank w n c hc (i ∷ l) (h, t) = elim (Bool-cases (str_eq i.container_ref c.ref)) [
  | inl e ↦ rw e (h n c hc ((eq_iff i.container_ref c.ref).0 e), contents-Below rank w n c hc l t)
  | inr e ↦ rw e (contents-Below rank w n c hc l t)
]

delete_all-total :
    (rank : ℕ → ℕ) (f : ℕ)
    → ((n : ℕ) (w : World) → IsRanked rank w → rank n < f → (delete_on f n w).1 ≡ true)
    → (is : List Object) (w : World) → IsRanked rank w
    → All (λ i. rank i.noid < f) is
    → (delete_all (delete_on f) is w).1 ≡ true
unfolding delete_all
delete_all-total rank f total [] w h t = refl
delete_all-total rank f total (i ∷ is) w h (b, t) =
    rw (total i.noid w h b, delete_all)
      (delete_all-total rank f total is (delete_on f i.noid w).0
        (delete_on-Keeps (IsRanked rank) (drop_record-IsRanked rank) f i.noid w h) t)

weaken :
    (rank : ℕ → ℕ) (a b : ℕ) (is : List Object)
    → a ≤ b
    → All (λ i. rank i.noid < a) is
    → All (λ i. rank i.noid < b) is
weaken rank a b [] h t = tt
weaken rank a b (i ∷ is) h (x, t) = (omega arith, weaken rank a b is h t)

after_cascade-done : (r : Object) (p : World × Bool) → p.1 ≡ true → (after_cascade r p).1 ≡ true
unfolding after_cascade
after_cascade-done r (v, true) h = refl
after_cascade-done r (v, false) h = h

-- With a stack deeper than the rank of the object the deletion finishes.
pub delete_on-total :
    (rank : ℕ → ℕ) (f n : ℕ) (w : World) → IsRanked rank w → rank n < f → (delete_on f n w).1 ≡ true
unfolding delete_on contents_of
delete_on-total rank zero n w h b = absurd (omega arith)
delete_on-total rank (suc f) n w h b = elim (Option-cases (get w n)) [
  | inl e ↦ rw (e, delete_on)
  | inr (r, e) ↦
      rw (e, delete_on)
        (after_cascade-done r _ (
          delete_all-total rank f (delete_on-total rank f) (contents_of w n) w h (
            weaken rank (rank n) f (contents_of w n) (omega arith)
              (rw (e, contents_of) (contents-Below rank w n r e w.objects h.all_below)))))
]
