-- ===== src/World/Identity.antt =====
-- What the two maps of a world say about identities, which only `make` and the deletions change.
use neohabitat.Prelude.{
  ℕ, ◌≡◌, refl, ap, String, Option, none, some, List, [], ◌∷◌, ◌==◌, str_eq, eq_iff, if◌then◌else◌,
  arith, ◌↔◌,
}
use neohabitat.World.Object.{Object, Mod, World, Event}
use neohabitat.World.Table.{modify_mod, modify_life, update_life, move_to, emit, update}
use neohabitat.World.Contents.{place, change_containers, change_state}

unfoldable pub idents : List Object → List (ℕ × String)
idents [] = []
idents (o ∷ l) = (o.noid, o.ref) ∷ idents l

abbrev pub Index : Type 0
Index = List (ℕ × String) × List (String × ℕ)

unfoldable pub index : World → Index
index w = (idents w.objects, w.refs)

pub idents-modify_mod :
    (k : ℕ) (f : Mod → Mod) (l : List Object) → idents (modify_mod k f l) ≡ idents l
unfolding idents modify_mod
idents-modify_mod k f [] = refl
idents-modify_mod k f (o ∷ l) = ground (arith, idents-modify_mod k f l)

pub idents-modify_life :
    (k : ℕ) (f : Mod → Mod) (l : List Object) → idents (modify_life k f l) ≡ idents l
unfolding idents modify_life
idents-modify_life k f [] = refl
idents-modify_life k f (o ∷ l) = ground (arith, idents-modify_life k f l)

pub idents-move_to : (k : ℕ) (r : String) (l : List Object) → idents (move_to k r l) ≡ idents l
unfolding idents move_to
idents-move_to k r [] = refl
idents-move_to k r (o ∷ l) = ground (arith, idents-move_to k r l)

pub index-emit : (e : Event) (w : World) → index (emit e w) ≡ index w
unfolding index emit
index-emit e w = refl

pub index-update : (k : ℕ) (f : Mod → Mod) (w : World) → index (update k f w) ≡ index w
unfolding index update
index-update k f w = simp idents-modify_mod

pub index-update_life : (k : ℕ) (f : Mod → Mod) (w : World) → index (update_life k f w) ≡ index w
unfolding index update_life
index-update_life k f w = simp idents-modify_life

pub index-place :
    (k : ℕ) (r : String) (x y : Option ℕ) (w : World) → index (place k r x y w) ≡ index w
unfolding index place emit
index-place k r x y w = simp (idents-modify_mod, idents-move_to)

pub index-change_containers :
    (i c x y : Option ℕ) (w : World) → index (change_containers i c x y w) ≡ index w
unfolding change_containers
index-change_containers i c x y w = grind (arith, index-place)

pub index-change_state : (k s : Option ℕ) (w : World) → index (change_state k s w) ≡ index w
unfolding change_state
index-change_state k s w = grind (arith, index-emit, index-update)

pub ruleset index_rules =
    (arith, index-emit, index-update, index-change_containers, index-change_state)
