-- ===== src/World/Untouched.antt =====
-- What `_deleteByNoid` leaves alone, and an object that it can never delete.
use mathlib.Core.Path.{subst}
use neohabitat.Prelude.{
  ℕ, zero, suc, ◌≡◌, ◌≢◌, refl, sym, ◌∙◌, Bool, true, false, none, some, List, [], ◌∷◌, ◌==◌,
  ==_iff, arith, inl, inr, Bool-cases, Option-cases, All,
}
use neohabitat.World.Object.{Object, World}
use neohabitat.World.Table.{get}
use neohabitat.World.Contents.{contents, contents_of}
use neohabitat.World.Delete.{delete_all, after_cascade, delete_on}
use neohabitat.World.Removal.{
  Sub, get-drop_record, delete_on-Sub, delete_on-gone, delete_all-gone, Has, Has-contents_of,
  cascade_done,
}
use neohabitat.World.Tables.{noid-get}

some_injective : {a b : Object} → some a ≡ some b → a ≡ b
some_injective e = cc

-- `after_cascade` removes one noid at most
get-after_cascade :
    (r : Object) (p : World × Bool) (k : ℕ) → r.noid ≢ k → get (after_cascade r p).0 k ≡ get p.0 k
unfolding after_cascade
get-after_cascade r (v, true) k h = ground (arith, get-drop_record r v k)
get-after_cascade r (v, false) k h = refl

module _ (n : ℕ) (r : Object) where
  -- the object at `n` is `r`, and a deletion that finishes leaves it there
  abbrev Survives : (ℕ → World → World × Bool) → Type 0
  Survives del =
      (m : ℕ) (w : World) → get w n ≡ some r → (del m w).1 ≡ true → get (del m w).0 n ≡ some r

  delete_all-Survives :
      (del : ℕ → World → World × Bool)
      → Survives del
      → (is : List Object) (w : World) → get w n ≡ some r
      → (delete_all del is w).1 ≡ true
      → get (delete_all del is w).0 n ≡ some r
  unfolding delete_all
  delete_all-Survives del s [] w e h = e
  delete_all-Survives del s (i ∷ is) w e h = elim (Bool-cases (del i.noid w).1) [
    | inl d ↦
        rw (d, delete_all)
          (delete_all-Survives del s is (del i.noid w).0 (s i.noid w e d) (rw (d, delete_all) at h))
    | inr d ↦ cc (rw (d, delete_all) at h)
  ]

  module _ (cyclic : r.container_ref ≡ r.ref) where
    delete_on-Survives : (f : ℕ) → Survives (delete_on f)
    unfolding delete_on
    delete_on-Survives zero m w e h = cc
    delete_on-Survives (suc f) m w e h = elim (Option-cases (get w m)) [
      | inl miss ↦ rw (miss, delete_on) e
      | inr (c, hc) ↦
          let p = delete_all (delete_on f) (contents_of w m) w in
          let h' : (after_cascade c p).1 ≡ true = rw (hc, delete_on) at h in
          let done : p.1 ≡ true = cascade_done c p h' in
          let kept : get p.0 n ≡ some r =
            delete_all-Survives (delete_on f) (delete_on-Survives f) (contents_of w m) w e done in
          elim (Bool-cases (m == n)) [
            | inl same ↦
                let mn : m ≡ n = (==_iff m n).0 same in
                let inside : Has n (contents_of w m) =
                  Has-contents_of w m n r r (subst (λ k. get w k ≡ some r) (sym mn) e) e cyclic in
                let gone : get p.0 n ≡ none =
                  delete_all-gone (delete_on f) (delete_on-Sub f) (delete_on-gone f)
                    (contents_of w m) w n done inside in
                cc (kept, gone)
            | inr other ↦
                rw (hc, delete_on)
                  (get-after_cascade c p n
                      (λ q. cc (other, (==_iff m n).1 (sym (noid-get w m c hc) ∙ q)))
                    ∙ kept)
          ]
    ]

-- An object that contains itself is never deleted: the recursion overflows every stack.
pub delete_on_cyclic :
    (f n : ℕ) (w : World) (r : Object)
    → get w n ≡ some r
    → r.container_ref ≡ r.ref
    → (delete_on f n w).1 ≡ false
delete_on_cyclic f n w r e c = elim (Bool-cases (delete_on f n w).1) [
  | inl h ↦ cc (delete_on-gone f n w h, delete_on-Survives n r c f n w e h)
  | inr h ↦ h
]

-- `k` is `n`, or the noid of something that stands in an object within `n`.
pub data Within (w : World) (n : ℕ) : ℕ → Type 0 where
  itself : Within w n n
  inside :
      (m k : ℕ) (c : Object)
      → get w m ≡ some c
      → Has k (contents c.ref w.objects)
      → Within w n m
      → Within w n k

Within-Sub : {v w : World} {n k : ℕ} → Sub v w → Within v n k → Within w n k
Within-Sub s itself = itself
Within-Sub s (inside m k c hc h x) =
    inside m k c (s.found m c hc) (s.held c.ref k h) (Within-Sub s x)

Within-trans : {w : World} {n m k : ℕ} → Within w n m → Within w m k → Within w n k
Within-trans p itself = p
Within-trans p (inside m k c hc h x) = inside m k c hc h (Within-trans p x)

-- the contents of the object at `n` are within it, so what is not within `n` is not within them
outside :
    (w : World) (n k : ℕ) (c : Object)
    → get w n ≡ some c
    → ¬ Within w n k
    → (l : List Object) → ((m : ℕ) → Has m l → Has m (contents c.ref w.objects))
    → All (λ i. ¬ Within w i.noid k) l
outside w n k c hc h [] f = tt
outside w n k c hc h (i ∷ l) f = (
  λ x. h (Within-trans (inside n i.noid c hc (f i.noid (inl refl)) itself) x),
  outside w n k c hc h l (λ m y. f m (inr y)),
)

module _ (k : ℕ) (o : Object) where
  delete_all-untouched :
      (del : ℕ → World → World × Bool)
      → ((m : ℕ) (w : World) → Sub (del m w).0 w)
      → ((m : ℕ) (w : World) → get w k ≡ some o → ¬ Within w m k → get (del m w).0 k ≡ some o)
      → (is : List Object) (w : World) → get w k ≡ some o
      → All (λ i. ¬ Within w i.noid k) is
      → get (delete_all del is w).0 k ≡ some o
  unfolding delete_all
  delete_all-untouched del sub keep [] w e a = e
  delete_all-untouched del sub keep (i ∷ is) w e (a, as_) = elim (Bool-cases (del i.noid w).1) [
    | inl d ↦
        rw (d, delete_all)
          (delete_all-untouched del sub keep is (del i.noid w).0 (keep i.noid w e a)
            (shrink is as_))
    | inr d ↦ rw (d, delete_all) (keep i.noid w e a)
  ]
    where
      shrink :
          (l : List Object)
          → All (λ j. ¬ Within w j.noid k) l
          → All (λ j. ¬ Within (del i.noid w).0 j.noid k) l
      shrink [] t = tt
      shrink (j ∷ l) (h, t) = (λ x. h (Within-Sub (sub i.noid w) x), shrink l t)

  -- A deletion, finished or not, leaves alone what is neither the object nor within it.
  pub delete_on-untouched :
      (f n : ℕ) (w : World) → get w k ≡ some o → ¬ Within w n k → get (delete_on f n w).0 k ≡ some o
  unfolding delete_on contents_of
  delete_on-untouched zero n w e h = e
  delete_on-untouched (suc f) n w e h = elim (Option-cases (get w n)) [
    | inl miss ↦ rw (miss, delete_on) e
    | inr (c, hc) ↦
        rw (hc, delete_on)
          (get-after_cascade c _ k (λ q.
              h (subst (λ j. Within w j k) (noid-get w n c hc) (subst (Within w c.noid) q itself)))
            ∙ delete_all-untouched (delete_on f) (delete_on-Sub f) (delete_on-untouched f)
                (contents_of w n) w e
                (rw (hc, contents_of) (outside w n k c hc h (contents c.ref w.objects) (λ m y. y))))
  ]
