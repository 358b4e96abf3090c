-- ===== src/World/Index.antt =====
-- `objects` and `refs` are one index: a ref leads to a noid exactly when the object there has it.
use neohabitat.Prelude.{
  ℕ, zero, suc, ◌≡◌, refl, ◌∙◌, ◌+◌, String, Bool, true, false, Option, none, some, List, [], ◌∷◌,
  ◌&&◌, ◌==◌, str_eq, eq_iff, if◌then◌else◌, arith, inl, inr, Bool-cases, Option-cases,
}
use neohabitat.World.Object.{Object, World}
use neohabitat.World.Table.{find_object, put_object, erase_object, find_ref, get, emit}
use neohabitat.World.Delete.{drop_record, after_cascade, delete_all, delete_on}
use neohabitat.World.Make.{
  ObjectSpec, ModSpec, insert_record, reconcile_seating, add_record, make_spec, make_object,
  seat_avatar, seat_sitter, seat_sitters, describe_region, record_of,
}
use neohabitat.World.Contents.{contents_of}
use neohabitat.World.Identity.{idents, index, index_rules, index-emit}
use neohabitat.World.Removal.{Sub, Sub-refl, Sub-trans, drop_record-Sub}
use neohabitat.World.Tables.{noid-get, find_ref-put_ref, find_ref-erase_ref}

-- the ref of the object at a noid
unfoldable pub ref_in : ℕ → List (ℕ × String) → Option String
ref_in k [] = none
ref_in k ((n, r) ∷ l) = if n == k then some r else ref_in k l

abbrev pub ref_of : World → ℕ → Option String
ref_of w k = ref_in k (index w).0

pub record IsIndexed (w : World) : Type 0 where
  pub by_ref :
      (k : ℕ) (r : String) → ref_in k (index w).0 ≡ some r → find_ref r (index w).1 ≡ some k
  pub by_noid :
      (k : ℕ) (r : String) → find_ref r (index w).1 ≡ some k → ref_in k (index w).0 ≡ some r

pub IsIndexed-of_index : (v w : World) → index v ≡ index w → IsIndexed w → IsIndexed v
IsIndexed-of_index v w e h = record {
  by_ref = λ k r. rw e (h.by_ref k r);
  by_noid = λ k r. rw e (h.by_noid k r);
}

ref_in-put_object :
    (k : ℕ) (r : Object) (l : List Object)
    → ref_in k (idents (put_object r l)) ≡ (if r.noid == k then some r.ref else ref_in k (idents l))
unfolding ref_in idents put_object
ref_in-put_object k r [] = refl
ref_in-put_object k r (o ∷ l) = ground (arith, ref_in-put_object k r l)

ref_in-erase_object :
    (k n : ℕ) (l : List Object)
    → ref_in k (idents (erase_object n l)) ≡ (if n == k then none else ref_in k (idents l))
unfolding ref_in idents erase_object
ref_in-erase_object k n [] = ground arith
ref_in-erase_object k n (o ∷ l) = ground (arith, ref_in-erase_object k n l)

-- A new record takes a noid and a ref that are both free, or that belong together already.
pub record IsFresh (r : Object) (w : World) : Type 0 where
  pub noid_free : (s : String) → ref_in r.noid (index w).0 ≡ some s → s ≡ r.ref
  pub ref_free : (k : ℕ) → find_ref r.ref (index w).1 ≡ some k → k ≡ r.noid

insert_record-IsIndexed :
    (r : Object) (is_me : Bool) (w : World)
    → IsFresh r w
    → IsIndexed w
    → IsIndexed (insert_record r is_me w)
unfolding insert_record index
insert_record-IsIndexed r is_me w f h = record {
  by_ref = λ k s. ground (
    arith,
    ref_in-put_object k r w.objects,
    find_ref-put_ref s r.ref r.noid w.refs,
    h.by_ref k s,
    f.ref_free k,
    eq_iff r.ref s,
  );
  by_noid = λ k s. ground (
    arith,
    ref_in-put_object k r w.objects,
    find_ref-put_ref s r.ref r.noid w.refs,
    h.by_noid k s,
    f.noid_free s,
    eq_iff r.ref s,
  );
}

-- In an index that has the record, or has lost it already, dropping it leaves an index.
drop_record-IsIndexed :
    (r : Object) (w : World)
    → ((s : String) → ref_in r.noid (index w).0 ≡ some s → s ≡ r.ref)
    → ((k : ℕ) → find_ref r.ref (index w).1 ≡ some k → k ≡ r.noid)
    → IsIndexed w
    → IsIndexed (drop_record r w)
unfolding drop_record emit index
drop_record-IsIndexed r w f g h = record {
  by_ref = λ k s. ground (
    arith,
    ref_in-erase_object k r.noid w.objects,
    find_ref-erase_ref s r.ref w.refs,
    h.by_ref k s,
    g k,
    eq_iff r.ref s,
  );
  by_noid = λ k s. ground (
    arith,
    ref_in-erase_object k r.noid w.objects,
    find_ref-erase_ref s r.ref w.refs,
    h.by_noid k s,
    f s,
    eq_iff r.ref s,
  );
}

-- What the deletion of records of `w` keeps, a deletion in `w` keeps.
module _ {ℓ} (w : World) (P : World → Type ℓ)
    (step : (r : Object) (v : World) → get w r.noid ≡ some r → P v → P (drop_record r v)) where
  record At (v : World) : Type ℓ where
    sub : Sub v w
    holds : P v

  after_cascade-At :
      (r : Object) (p : World × Bool) → get w r.noid ≡ some r → At p.0 → At (after_cascade r p).0
  unfolding after_cascade
  after_cascade-At r (v, true) e h = record {
    sub = Sub-trans (drop_record-Sub r v) h.sub;
    holds = step r v e h.holds;
  }
  after_cascade-At r (v, false) e h = h

  delete_all-At :
      (del : ℕ → World → World × Bool)
      → ((n : ℕ) (v : World) → At v → At (del n v).0)
      → (is : List Object) (v : World) → At v
      → At (delete_all del is v).0
  unfolding delete_all
  delete_all-At del keep [] v h = h
  delete_all-At del keep (i ∷ is) v h = elim (Bool-cases (del i.noid v).1) [
    | inl e ↦ rw (e, delete_all) (delete_all-At del keep is (del i.noid v).0 (keep i.noid v h))
    | inr e ↦ rw (e, delete_all) (keep i.noid v h)
  ]

  delete_on-At : (f n : ℕ) (v : World) → At v → At (delete_on f n v).0
  unfolding delete_on
  delete_on-At zero n v h = h
  delete_on-At (suc f) n v h = elim (Option-cases (get v n)) [
    | inl e ↦ rw (e, delete_on) h
    | inr (r, e) ↦
        rw (e, delete_on)
          (after_cascade-At r _ (cc (noid-get v n r e, h.sub.found n r e))
            (delete_all-At (delete_on f) (delete_on-At f) (contents_of v n) v h))
  ]

  delete_on-holds : (f n : ℕ) → P w → P (delete_on f n w).0
  delete_on-holds f n h = (delete_on-At f n w (record { sub = Sub-refl w; holds = h })).holds

pub ref_in-get :
    (w : World) (k : ℕ) (o : Object) → get w k ≡ some o → ref_in k (index w).0 ≡ some o.ref
unfolding get index find_object ref_in idents
ref_in-get w k o h = go w.objects h
  where
    go : (l : List Object) → find_object k l ≡ some o → ref_in k (idents l) ≡ some o.ref
    go [] e = cc
    go (i ∷ l) e = ground (arith, go l)

-- `v` is an index all of whose entries are entries of `w`
record IsPart (w v : World) : Type 0 where
  indexed : IsIndexed v
  noids : (k : ℕ) (s : String) → ref_in k (index v).0 ≡ some s → ref_in k (index w).0 ≡ some s
  refs : (k : ℕ) (s : String) → find_ref s (index v).1 ≡ some k → find_ref s (index w).1 ≡ some k

drop_record-IsPart :
    (w : World)
    → IsIndexed w
    → (r : Object) (v : World) → get w r.noid ≡ some r
    → IsPart w v
    → IsPart w (drop_record r v)
unfolding drop_record emit index
drop_record-IsPart w h r v e p = record {
  indexed =
      drop_record-IsIndexed r v (λ s q. cc (p.noids r.noid s q, ref_in-get w r.noid r e))
        (λ k q. cc (p.refs k r.ref q, h.by_ref r.noid r.ref (ref_in-get w r.noid r e))) p.indexed;
  noids = λ k s. ground (arith, ref_in-erase_object k r.noid v.objects, p.noids k s);
  refs = λ k s. ground (arith, find_ref-erase_ref s r.ref v.refs, p.refs k s);
}

-- A deletion keeps the index, also one that the stack cuts short.
pub delete_on-IsIndexed : (f n : ℕ) (w : World) → IsIndexed w → IsIndexed (delete_on f n w).0
delete_on-IsIndexed f n w h =
    (delete_on-holds w (IsPart w) (drop_record-IsPart w h) f n
      (record { indexed = h; noids = λ k s q. q; refs = λ k s q. q })).indexed

index-seat_avatar : (r : Object) (w : World) → index (seat_avatar r w) ≡ index w
unfolding seat_avatar
index-seat_avatar r w = grind index_rules

index-seat_sitter :
    (seat : Object) (sitter slot : ℕ) (w : World) → index (seat_sitter seat sitter slot w) ≡ index w
unfolding seat_sitter
index-seat_sitter seat sitter slot w = grind index_rules

index-seat_sitters :
    (seat : Object) (l : List ℕ) (slot : ℕ) (w : World)
    → index (seat_sitters seat l slot w) ≡ index w
unfolding seat_sitters
index-seat_sitters seat [] slot w = refl
index-seat_sitters seat (s ∷ l) slot w =
    index-seat_sitters seat l (slot + 1) (seat_sitter seat s slot w)
    ∙ index-seat_sitter seat s slot w

index-reconcile_seating : (r : Object) (w : World) → index (reconcile_seating r w) ≡ index w
unfolding reconcile_seating
index-reconcile_seating r w = grind (arith, index-seat_avatar, index-seat_sitters)

index-describe_region :
    (o : ObjectSpec) (m : ModSpec) (w : World) → index (describe_region o m w) ≡ index w
unfolding describe_region index emit
index-describe_region o m w = refl

index-add_record :
    (r : Object) (is_me : Bool) (w : World)
    → index (add_record r is_me w) ≡ index (insert_record r is_me w)
unfolding add_record
index-add_record r is_me w = grind (arith, index-emit, index-reconcile_seating)

-- the object that a `make` brings is fresh, if it brings a record at all
abbrev pub MakesFresh : ObjectSpec → String → World → Type 0
MakesFresh obj to w =
    (m : ModSpec) → obj.mod0 ≡ some m → IsFresh (record_of (suc w.lives) obj m to) w

make_spec-IsIndexed :
    (obj : ObjectSpec) (m : ModSpec) (to : String) (is_me : Bool) (w : World)
    → IsFresh (record_of (suc w.lives) obj m to) w
    → IsIndexed w
    → IsIndexed (make_spec obj m to is_me w)
unfolding make_spec
make_spec-IsIndexed obj m to is_me w f h = elim (Bool-cases (str_eq m.type "Region")) [
  | inl e ↦ rw (e, make_spec) (IsIndexed-of_index _ w (index-describe_region obj m w) h)
  | inr e ↦ elim (Bool-cases (is_me && str_eq m.type "Avatar" && m.fields.am_a_ghost)) [
    | inl g ↦ rw (e, g, make_spec) (IsIndexed-of_index _ w (unfold index in refl) h)
    | inr g ↦
        rw (e, g, make_spec)
          (IsIndexed-of_index _ _ (index-add_record (record_of (suc w.lives) obj m to) is_me w)
            (insert_record-IsIndexed (record_of (suc w.lives) obj m to) is_me w f h))
  ]
]

-- A `make` keeps the index when what it brings is fresh.
pub make_object-IsIndexed :
    (obj : ObjectSpec) (to : String) (is_me : Bool) (w : World)
    → MakesFresh obj to w
    → IsIndexed w
    → IsIndexed (make_object obj to is_me w)
unfolding make_object
make_object-IsIndexed obj to is_me w f h = elim (Option-cases obj.mod0) [
  | inl e ↦ rw (e, make_object) h
  | inr (m, e) ↦ rw (e, make_object) (make_spec-IsIndexed obj m to is_me w (f m e) h)
]
