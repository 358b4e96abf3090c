-- ===== src/World/Removal.antt =====
-- What `_deleteByNoid` removes: the object, everything inside it, and nothing else.
use mathlib.Core.Path.{subst}
use neohabitat.Prelude.{
  ◌≢◌, ℕ, zero, suc, ◌≡◌, refl, String, Bool, true, false, none, some, List, [], ◌∷◌, ◌==◌, eq_iff,
  if◌then◌else◌, arith, ◌⊎◌, inl, inr, select, Bool-cases, Option-cases,
}
use neohabitat.World.Object.{Object, World}
use neohabitat.World.Table.{find_object, erase_object, get, emit}
use neohabitat.World.Contents.{contents, contents_of}
use neohabitat.World.Delete.{delete_all, drop_record, after_cascade, delete_on}
use neohabitat.World.Tables.{noid-get, find_object-erase_object}

-- the noids of a list of objects
abbrev pub Has : ℕ → List Object → Type 0
Has k [] = ⊥
Has k (o ∷ l) = (o.noid ≡ k) ⊎ Has k l

-- every object of the first world stands unchanged in the second, and so does every containment
pub record Sub (v w : World) : Type 0 where
  pub found : (k : ℕ) (o : Object) → get v k ≡ some o → get w k ≡ some o
  pub held :
      (ref : String) (k : ℕ) → Has k (contents ref v.objects) → Has k (contents ref w.objects)

pub Sub-refl : (w : World) → Sub w w
Sub-refl w = record { found = λ k o h. h; held = λ ref k h. h }

pub Sub-trans : {u v w : World} → Sub u v → Sub v w → Sub u w
Sub-trans p q = record {
  found = λ k o h. q.found k o (p.found k o h);
  held = λ ref k h. q.held ref k (p.held ref k h);
}

pub none_of_Sub : {v w : World} (k : ℕ) → Sub v w → get w k ≡ none → get v k ≡ none
none_of_Sub {v} k s h = elim (Option-cases (get v k)) [
  | inl e ↦ e
  | inr (o, e) ↦ cc (s.found k o e)
]

pub get-drop_record :
    (r : Object) (w : World) (k : ℕ)
    → get (drop_record r w) k ≡ (if r.noid == k then none else get w k)
unfolding get drop_record emit
get-drop_record r w k = find_object-erase_object k r.noid w.objects

Has-erase_object :
    (n : ℕ) (ref : String) (k : ℕ) (l : List Object)
    → Has k (contents ref (erase_object n l))
    → Has k (contents ref l)
unfolding contents select erase_object
Has-erase_object n ref k [] h = h
Has-erase_object n ref k (o ∷ l) h = ground (arith, Has-erase_object n ref k l)

pub drop_record-Sub : (r : Object) (w : World) → Sub (drop_record r w) w
drop_record-Sub r w = record {
  found = λ k o h. ground (arith, get-drop_record r w k);
  held = λ ref k h. Has-erase_object r.noid ref k w.objects (unfold drop_record emit in h);
}

-- What every `drop_record` keeps, a deletion keeps, finished or not.
module _ {ℓ} (P : World → Type ℓ)
    (step : (r : Object) (w : World) → P w → P (drop_record r w)) where
  after_cascade-Keeps : (r : Object) (p : World × Bool) → P p.0 → P (after_cascade r p).0
  unfolding after_cascade
  after_cascade-Keeps r (v, true) h = step r v h
  after_cascade-Keeps r (v, false) h = h

  delete_all-Keeps :
      (del : ℕ → World → World × Bool)
      → ((n : ℕ) (w : World) → P w → P (del n w).0)
      → (is : List Object) (w : World) → P w
      → P (delete_all del is w).0
  unfolding delete_all
  delete_all-Keeps del keep [] w h = h
  delete_all-Keeps del keep (i ∷ is) w h = elim (Bool-cases (del i.noid w).1) [
    | inl e ↦ rw (e, delete_all) (delete_all-Keeps del keep is (del i.noid w).0 (keep i.noid w h))
    | inr e ↦ rw (e, delete_all) (keep i.noid w h)
  ]

  pub delete_on-Keeps : (f n : ℕ) (w : World) → P w → P (delete_on f n w).0
  unfolding delete_on
  delete_on-Keeps zero n w h = h
  delete_on-Keeps (suc f) n w h = elim (Option-cases (get w n)) [
    | inl e ↦ rw (e, delete_on) h
    | inr (r, e) ↦
        rw (e, delete_on)
          (after_cascade-Keeps r _
            (delete_all-Keeps (delete_on f) (delete_on-Keeps f) (contents_of w n) w h))
  ]

still_Sub : (w : World) (r : Object) (v : World) → Sub v w → Sub (drop_record r v) w
still_Sub w r v s = Sub-trans (drop_record-Sub r v) s

pub delete_on-Sub : (f n : ℕ) (w : World) → Sub (delete_on f n w).0 w
delete_on-Sub f n w = delete_on-Keeps (λ v. Sub v w) (still_Sub w) f n w (Sub-refl w)

module _ (del : ℕ → World → World × Bool) (del_sub : (n : ℕ) (w : World) → Sub (del n w).0 w) where
  pub delete_all-Sub : (is : List Object) (w : World) → Sub (delete_all del is w).0 w
  delete_all-Sub is w =
      delete_all-Keeps (λ v. Sub v w) (still_Sub w) del (λ n v s. Sub-trans (del_sub n v) s) is w
        (Sub-refl w)

Has-contents :
    (k : ℕ) (ref : String) (l : List Object) (o : Object)
    → find_object k l ≡ some o
    → o.container_ref ≡ ref
    → Has k (contents ref l)
unfolding contents select find_object
Has-contents k ref [] o h e = cc
Has-contents k ref (i ∷ l) o h e = elim (Bool-cases (i.noid == k)) [
  | inl here ↦ ground (arith, eq_iff i.container_ref ref)
  | inr there ↦ ground (arith, eq_iff i.container_ref ref, Has-contents k ref l o)
]

pub Has-contents_of :
    (w : World) (n k : ℕ) (c o : Object)
    → get w n ≡ some c
    → get w k ≡ some o
    → o.container_ref ≡ c.ref
    → Has k (contents_of w n)
unfolding contents_of get
Has-contents_of w n k c o hc ho e = rw (hc, contents_of) (Has-contents k c.ref w.objects o ho e)

module _ (del : ℕ → World → World × Bool) (del_sub : (n : ℕ) (w : World) → Sub (del n w).0 w)
    (del_gone : (n : ℕ) (w : World) → (del n w).1 ≡ true → get (del n w).0 n ≡ none) where
  pub delete_all-gone :
      (is : List Object) (w : World) (k : ℕ)
      → (delete_all del is w).1 ≡ true
      → Has k is
      → get (delete_all del is w).0 k ≡ none
  unfolding delete_all
  delete_all-gone [] w k h m = absurd m
  delete_all-gone (i ∷ is) w k h (inl e) = elim (Bool-cases (del i.noid w).1) [
    | inl d ↦
        rw (d, delete_all)
          (none_of_Sub k (delete_all-Sub del del_sub is (del i.noid w).0)
            (subst (λ j. get (del i.noid w).0 j ≡ none) e (del_gone i.noid w d)))
    | inr d ↦ cc (rw (d, delete_all) at h)
  ]
  delete_all-gone (i ∷ is) w k h (inr m) = elim (Bool-cases (del i.noid w).1) [
    | inl d ↦ rw (d, delete_all) (delete_all-gone is (del i.noid w).0 k (rw (d, delete_all) at h) m)
    | inr d ↦ cc (rw (d, delete_all) at h)
  ]

after_cascade-gone :
    (r : Object) (p : World × Bool)
    → (after_cascade r p).1 ≡ true
    → get (after_cascade r p).0 r.noid ≡ none
unfolding after_cascade
after_cascade-gone r (v, true) h = ground (arith, get-drop_record r v r.noid)
after_cascade-gone r (v, false) h = cc

pub cascade_done : (r : Object) (p : World × Bool) → (after_cascade r p).1 ≡ true → p.1 ≡ true
unfolding after_cascade
cascade_done r (v, true) h = refl
cascade_done r (v, false) h = h

-- A finished deletion leaves no object at the noid.
pub delete_on-gone :
    (f n : ℕ) (w : World) → (delete_on f n w).1 ≡ true → get (delete_on f n w).0 n ≡ none
unfolding delete_on
delete_on-gone zero n w h = cc
delete_on-gone (suc f) n w h = elim (Option-cases (get w n)) [
  | inl e ↦ rw (e, delete_on) e
  | inr (r, e) ↦
      let p = delete_all (delete_on f) (contents_of w n) w in
      rw (e, delete_on)
        (subst (λ k. get (after_cascade r p).0 k ≡ none) (noid-get w n r e)
          (after_cascade-gone r p (rw (e, delete_on) at h)))
]

-- The cascade of a finished deletion is finished, and it ends in a smaller world.
pub delete_on-contents :
    (f n : ℕ) (w : World) (c : Object)
    → get w n ≡ some c
    → (delete_on f n w).1 ≡ true
    → (k : ℕ) (o : Object) → get (delete_on f n w).0 k ≡ some o
    → o.container_ref ≢ c.ref
unfolding delete_on
delete_on-contents zero n w c hc h k o ho e = cc
delete_on-contents (suc f) n w c hc h k o ho e =
    let p = delete_all (delete_on f) (contents_of w n) w in
    let done : p.1 ≡ true = cascade_done c p (rw (hc, delete_on) at h) in
    let gone : get p.0 k ≡ none =
      delete_all-gone (delete_on f) (delete_on-Sub f) (delete_on-gone f) (contents_of w n) w k done
        (Has-contents_of w n k c o hc ((delete_on-Sub (suc f) n w).found k o ho) e) in
    cc (
      none_of_Sub k (after_cascade-Keeps (λ v. Sub v p.0) (still_Sub p.0) c p (Sub-refl p.0)) gone,
      rw (hc, delete_on) at ho,
    )
