-- ===== src/Codec/Bodies.antt =====
-- What a decoded body refers to: its actions to its choreographies, its limbs to their cels.
use mathlib.Core.Path.{subst}
use neohabitat.Prelude.{
  ℕ, zero, suc, ◌+◌, ◌*◌, ◌<◌, ◌≤◌, ◌≡◌, refl, sym, ap, ◌∙◌, String, some, List, [], ◌∷◌, ◌++◌,
  ◌==◌, arith, length, All, Bool-cases, Option-cases, inl, inr, get_elem?,
}
use neohabitat.Codec.Props.{drop}
use neohabitat.Codec.Limb.{word_at, decode_limb}
use neohabitat.Codec.Limbs.{IsComplete, decode_limb-IsComplete, reads-some, some_inj}
use neohabitat.Codec.Body.{
  chore_names, BodyLimb, Pose, Chores, Body, read_bytes, read_limbs, choreography_from, find_known,
  new_chore, old_chore, add_action, add_actions, read_chores, decode_body,
}

abbrev pub names : List (String × ℕ) → List String
names [] = []
names ((a, k) ∷ l) = a ∷ names l

-- the index of an entry is that of a choreography
abbrev pub Indexes : {A : Type 0} → ℕ → List (A × ℕ) → Type 0
Indexes n l = All (λ e. e.1 < n) l

pub record IsClosed (s : Chores) : Type 0 where
  pub known_in : Indexes (length s.choreography) s.known
  pub actions_in : Indexes (length s.choreography) s.actions

pub record IsDrawable (b : Body) : Type 0 where
  pub six_limbs : length b.limbs ≡ 6
  pub limbs_complete : All (λ l. IsComplete l.limb) b.limbs
  pub all_actions : names b.chores.actions ≡ chore_names
  pub actions_closed : Indexes (length b.chores.choreography) b.chores.actions

module _ {A : Type 0} where
  Indexes-mono : (n m : ℕ) (l : List (A × ℕ)) → n ≤ m → Indexes n l → Indexes m l
  Indexes-mono n m [] h t = tt
  Indexes-mono n m (e ∷ l) h (p, t) = (omega arith, Indexes-mono n m l h t)

  Indexes-append :
      (n : ℕ) (l : List (A × ℕ)) (a : A) (k : ℕ)
      → Indexes n l
      → k < n
      → Indexes n (l ++ ((a, k) ∷ []))
  Indexes-append n [] a k t h = (h, tt)
  Indexes-append n (e ∷ l) a k (p, t) h = (p, Indexes-append n l a k t h)

  length-snoc : (l : List A) (a : A) → length (l ++ (a ∷ [])) ≡ suc (length l)
  length-snoc [] a = refl
  length-snoc (x ∷ l) a = ap suc (length-snoc l a)

append_assoc : {A : Type 0} (a : List A) (x : A) (b : List A) → (a ++ (x ∷ [])) ++ b ≡ a ++ (x ∷ b)
append_assoc [] x b = refl
append_assoc (y ∷ a) x b = ap (λ l. y ∷ l) (append_assoc a x b)

append_nil : {A : Type 0} (a : List A) → a ++ [] ≡ a
append_nil [] = refl
append_nil (y ∷ a) = ap (λ l. y ∷ l) (append_nil a)

names-append :
    (l : List (String × ℕ)) (a : String) (k : ℕ) → names (l ++ ((a, k) ∷ [])) ≡ names l ++ (a ∷ [])
names-append [] a k = refl
names-append ((b, j) ∷ l) a k = ap (λ t. b ∷ t) (names-append l a k)

find_known-lt : (n i k : ℕ) (l : List (ℕ × ℕ)) → Indexes n l → find_known i l ≡ some k → k < n
unfolding find_known
find_known-lt n i k [] t h = cc
find_known-lt n i k ((j, m) ∷ l) (p, t) h = elim (Bool-cases (j == i)) [
  | inl e ↦ let q : m ≡ k = some_inj (rw e at h) in omega (arith, p, q)
  | inr e ↦ find_known-lt n i k l t (rw e at h)
]

-- one more action, and the entries stay closed
record Extends (action : String) (s t : Chores) : Type 0 where
  pub still_closed : IsClosed t
  pub one_more : names t.actions ≡ names s.actions ++ (action ∷ [])

new_chore-Extends :
    (action : String) (i : ℕ) (c : List Pose) (s : Chores)
    → IsClosed s
    → Extends action s (new_chore action i c s)
unfolding new_chore
new_chore-Extends action i c s h =
    let e : length (s.choreography ++ (c ∷ [])) ≡ suc (length s.choreography) =
      length-snoc s.choreography c in
    let n = length (s.choreography ++ (c ∷ [])) in
    record {
      still_closed = record {
        known_in = (
          omega (arith, e),
          Indexes-mono (length s.choreography) n s.known (omega (arith, e)) h.known_in,
        );
        actions_in =
            Indexes-append n s.actions action (length s.choreography)
              (Indexes-mono (length s.choreography) n s.actions (omega (arith, e)) h.actions_in)
              (omega (arith, e));
      };
      one_more = names-append s.actions action (length s.choreography);
    }

old_chore-Extends :
    (action : String) (k : ℕ) (s : Chores)
    → IsClosed s
    → k < length s.choreography
    → Extends action s (old_chore action k s)
unfolding old_chore
old_chore-Extends action k s h lt = record {
  still_closed = record {
    known_in = h.known_in;
    actions_in = Indexes-append (length s.choreography) s.actions action k h.actions_in lt;
  };
  one_more = names-append s.actions action k;
}

add_action-Extends :
    (input : List ℕ) (table : ℕ) (action : String) (i : ℕ) (s t : Chores)
    → IsClosed s
    → add_action input table action i s ≡ some t
    → Extends action s t
unfolding add_action
add_action-Extends input table action i s t h e = elim (Option-cases (find_known i s.known)) [
  | inl n ↦
      let (c, e1, e2) =
        reads-some (choreography_from (drop (table + i) input)) _ t (rw (n, add_action) at e) in
      subst (Extends action s) (some_inj e2) (new_chore-Extends action i c s h)
  | inr (k, q) ↦ subst (Extends action s) (some_inj (rw (q, add_action) at e)) (
      old_chore-Extends action k s h
        (find_known-lt (length s.choreography) i k s.known h.known_in q))
]

add_actions-Extends :
    (actions : List String) (off table : ℕ) (input : List ℕ) (s t : Chores)
    → IsClosed s
    → add_actions actions off table input s ≡ some t
    → IsClosed t × (names t.actions ≡ names s.actions ++ actions)
unfolding add_actions
add_actions-Extends [] off table input s t h e =
    subst (λ u. IsClosed u × (names u.actions ≡ names s.actions ++ [])) (some_inj e)
      (h, sym (append_nil (names s.actions)))
add_actions-Extends (action ∷ rest) off table input s t h e =
    let (i, e1, h1) = reads-some (get_elem? input off) _ t e in
    let (u, e2, h2) = reads-some (add_action input table action i s) _ t h1 in
    let x = add_action-Extends input table action i s u h e2 in
    let (closed, all) = add_actions-Extends rest (off + 1) table input u t x.still_closed h2 in
    (closed, all ∙ ap (λ l. l ++ rest) x.one_more ∙ append_assoc (names s.actions) action rest)

read_chores-IsClosed :
    (input : List ℕ) (t : Chores)
    → read_chores input ≡ some t
    → IsClosed t × (names t.actions ≡ chore_names)
unfolding read_chores
read_chores-IsClosed input t h =
    let (off, e, h1) = reads-some (word_at input 0) _ t h in
    let (table, e1, h2) = reads-some (word_at input 2) _ t h1 in
    add_actions-Extends chore_names off table input _ t (record { known_in = tt; actions_in = tt })
      h2

read_limbs-IsComplete :
    (n i : ℕ) (input : List ℕ) (l : List BodyLimb)
    → read_limbs n i input ≡ some l
    → (length l ≡ n) × All (λ b. IsComplete b.limb) l
unfolding read_limbs
read_limbs-IsComplete zero i input l h =
    subst (λ l. (length l ≡ 0) × All (λ b. IsComplete b.limb) l) (some_inj h) (refl, tt)
read_limbs-IsComplete (suc n) i input l h =
    let (p, e1, h1) = reads-some (get_elem? input (21 + i)) _ l h in
    let (a, e2, h2) = reads-some (get_elem? input (39 + i)) _ l h1 in
    let (off, e3, h3) = reads-some (word_at input (7 + i * 2)) _ l h2 in
    let (limb, e4, h4) = reads-some (decode_limb (drop off input)) _ l h3 in
    let (k, e5, h5) = reads-some (read_limbs n (i + 1) input) _ l h4 in
    let (len, all) = read_limbs-IsComplete n (i + 1) input k e5 in
    subst (λ l. (length l ≡ suc n) × All (λ b. IsComplete b.limb) l) (some_inj h5)
      (ap suc len, (decode_limb-IsComplete (drop off input) limb e4, all))

-- A body that is decoded has six limbs, the frames and the animations of each refer to what the
-- limb has, and every choreography action, in the order of the list, is given the index of one of
-- the choreographies of the body.
pub decode_body-IsDrawable : (input : List ℕ) (b : Body) → decode_body input ≡ some b → IsDrawable b
unfolding decode_body
decode_body-IsDrawable input b h =
    let (head, e1, h1) = reads-some (get_elem? input 19) _ b h in
    let (frozen, e2, h2) = reads-some (get_elem? input 20) _ b h1 in
    let (front, e3, h3) = reads-some (read_bytes 6 27 input) _ b h2 in
    let (back, e4, h4) = reads-some (read_bytes 6 33 input) _ b h3 in
    let (limbs, e5, h5) = reads-some (read_limbs 6 0 input) _ b h4 in
    let (chores, e6, h6) = reads-some (read_chores input) _ b h5 in
    let (len, all) = read_limbs-IsComplete 6 0 input limbs e5 in
    let (closed, actions) = read_chores-IsClosed input chores e6 in
    subst IsDrawable (some_inj h6) (record {
      six_limbs = len;
      limbs_complete = all;
      all_actions = actions;
      actions_closed = closed.actions_in;
    })
