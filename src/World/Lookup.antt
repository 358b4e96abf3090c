-- ===== src/World/Lookup.antt =====
-- `getByRef` and `get` in an indexed world, and what a `make` leaves in it.
use neohabitat.Prelude.{
  ℕ, ◌≡◌, String, some, List, [], ◌∷◌, ◌==◌, arith, inl, inr, Bool-cases, Option-cases,
}
use neohabitat.World.Object.{Object, World}
use neohabitat.World.Table.{get, get?, get_by_ref, find_object, find_ref}
use neohabitat.World.Identity.{index, idents}
use neohabitat.World.Index.{IsIndexed, ref_in, ref_in-get}
use neohabitat.World.Tables.{noid-get}

get-ref_in :
    (w : World) (k : ℕ) (r : String)
    → ref_in k (index w).0 ≡ some r
    → (o : Object) × (get w k ≡ some o) × (o.ref ≡ r)
unfolding get index find_object ref_in idents
get-ref_in w k r h = go w.objects h
  where
    go :
        (l : List Object)
        → ref_in k (idents l) ≡ some r
        → (o : Object) × (find_object k l ≡ some o) × (o.ref ≡ r)
    go [] e = cc
    go (i ∷ l) e = elim (Bool-cases (i.noid == k)) [
      | inl q ↦ (i, ground arith, ground arith)
      | inr q ↦ let (o, f, s) = go l (rw q at e) in (o, ground arith, s)
    ]

-- two of the laws of an index of the objects: by its ref each object is found, and nothing else
abbrev pub FindsByRef : World → Type 0
FindsByRef w =
    ((k : ℕ) (o : Object) → get w k ≡ some o → get_by_ref w o.ref ≡ some o)
    × ((r : String) (o : Object) → get_by_ref w r ≡ some o → (o.ref ≡ r) × (get w o.noid ≡ some o))

pub IsIndexed-FindsByRef : (w : World) → IsIndexed w → FindsByRef w
unfolding get_by_ref get? index
IsIndexed-FindsByRef w h = (λ k o e. rw (h.by_ref k o.ref (ref_in-get w k o e), get_by_ref) e, back)
  where
    back :
        (r : String) (o : Object)
        → get? w (find_ref r w.refs) ≡ some o
        → (o.ref ≡ r) × (get w o.noid ≡ some o)
    back r o e = elim (Option-cases (find_ref r w.refs)) [
      | inl q ↦ cc (rw (q, get?) at e)
      | inr (k, q) ↦
          let (o', f, s) = get-ref_in w k r (h.by_noid k r q) in
          let e' : get w k ≡ some o = rw (q, get?) at e in
          (cc (e', f, s), cc (e', noid-get w k o e'))
    ]
