-- ===== src/World/Orphans.antt =====
-- After a finished deletion nothing that is left stands in something that was removed.
use neohabitat.Prelude.{
  ℕ, zero, suc, ◌≡◌, ◌≢◌, Bool, true, false, none, some, List, [], ◌∷◌, ◌==◌, ==_iff, inl, inr,
  Bool-cases, Option-cases,
}
use neohabitat.World.Object.{Object, World}
use neohabitat.World.Table.{get}
use neohabitat.World.Contents.{contents_of}
use neohabitat.World.Delete.{delete_all, drop_record, after_cascade, delete_on}
use neohabitat.World.Removal.{
  Sub, Sub-refl, Sub-trans, get-drop_record, drop_record-Sub, delete_on-Sub, delete_on-contents,
  cascade_done,
}
use neohabitat.World.Tables.{noid-get}

-- No object of `v` stands in an object of `w` that `v` has lost.
pub record NoOrphans (w v : World) : Type 0 where
  pub none_lost :
      (k m : ℕ) (o c : Object)
      → get v k ≡ some o
      → get w m ≡ some c
      → get v m ≡ none
      → o.container_ref ≢ c.ref

module _ (w : World) where
  -- `del` keeps the property when it finishes
  abbrev Tidy : (ℕ → World → World × Bool) → Type 0
  Tidy del =
      (n : ℕ) (v : World) → Sub v w → NoOrphans w v → (del n v).1 ≡ true → NoOrphans w (del n v).0

  delete_all-NoOrphans :
      (del : ℕ → World → World × Bool)
      → ((n : ℕ) (v : World) → Sub (del n v).0 v)
      → Tidy del
      → (is : List Object) (v : World) → Sub v w
      → NoOrphans w v
      → (delete_all del is v).1 ≡ true
      → NoOrphans w (delete_all del is v).0
  unfolding delete_all
  delete_all-NoOrphans del sub tidy [] v s h e = h
  delete_all-NoOrphans del sub tidy (i ∷ is) v s h e = elim (Bool-cases (del i.noid v).1) [
    | inl d ↦
        rw (d, delete_all)
          (delete_all-NoOrphans del sub tidy is (del i.noid v).0 (Sub-trans (sub i.noid v) s)
            (tidy i.noid v s h d) (rw (d, delete_all) at e))
    | inr d ↦ cc (rw (d, delete_all) at e)
  ]

  -- dropping a record keeps the property when nothing is left in it
  drop_record-NoOrphans :
      (r : Object) (v : World)
      → NoOrphans w v
      → get w r.noid ≡ some r
      → ((k : ℕ) (o : Object) → get (drop_record r v) k ≡ some o → o.container_ref ≢ r.ref)
      → NoOrphans w (drop_record r v)
  drop_record-NoOrphans r v h e left = record {
    none_lost = λ k m o c ho hc lost. elim (Bool-cases (r.noid == m)) [
      | inl same ↦
          let q : some c ≡ some r = cc ((==_iff r.noid m).0 same, hc, e) in
          λ x. left k o ho (cc (x, q))
      | inr other ↦
          h.none_lost k m o c ((drop_record-Sub r v).found k o ho) hc
            (rw (get-drop_record r v m, other) at lost)
    ];
  }

  after_cascade-NoOrphans :
      (r : Object) (p : World × Bool)
      → NoOrphans w p.0
      → get w r.noid ≡ some r
      → (after_cascade r p).1 ≡ true
      → ((k : ℕ) (o : Object) → get (after_cascade r p).0 k ≡ some o → o.container_ref ≢ r.ref)
      → NoOrphans w (after_cascade r p).0
  unfolding after_cascade
  after_cascade-NoOrphans r (v, true) h e d left = drop_record-NoOrphans r v h e left
  after_cascade-NoOrphans r (v, false) h e d left = cc

  delete_on-NoOrphans : (f : ℕ) → Tidy (delete_on f)
  unfolding delete_on
  delete_on-NoOrphans zero n v s h e = cc
  delete_on-NoOrphans (suc f) n v s h e = elim (Option-cases (get v n)) [
    | inl miss ↦ rw (miss, delete_on) h
    | inr (r, hr) ↦
        let p = delete_all (delete_on f) (contents_of v n) v in
        let e' : (after_cascade r p).1 ≡ true = rw (hr, delete_on) at e in
        rw (hr, delete_on)
          (after_cascade-NoOrphans r p
            (delete_all-NoOrphans (delete_on f) (delete_on-Sub f) (delete_on-NoOrphans f)
              (contents_of v n) v s h (cascade_done r p e'))
            (cc (noid-get v n r hr, s.found n r hr)) e'
            (λ k o ho. delete_on-contents (suc f) n v r hr e k o (rw (hr, delete_on) ho)))
  ]

-- Whatever a finished deletion removes, it removes with all its contents.
pub no_orphans :
    (f n : ℕ) (w : World) → (delete_on f n w).1 ≡ true → NoOrphans w (delete_on f n w).0
no_orphans f n w e =
    delete_on-NoOrphans w f n w (Sub-refl w)
      (record { none_lost = λ k m o c ho hc lost. cc (hc, lost) }) e
