-- ===== src/World/Tables.antt =====
-- Laws of the two maps, each as one equation that covers every key.
use neohabitat.Prelude.{
  ℕ, ◌≡◌, refl, String, Option, none, some, List, [], ◌∷◌, ◌==◌, str_eq, eq_iff, if◌then◌else◌,
  arith,
}
use neohabitat.World.Object.{Object, Mod, World}
use neohabitat.World.Table.{
  find_object, put_object, erase_object, modify_mod, move_to, find_ref, put_ref, erase_ref, get,
}

pub noid-find_object :
    (k : ℕ) (l : List Object) (o : Object) → find_object k l ≡ some o → o.noid ≡ k
unfolding find_object
noid-find_object k [] o h = cc
noid-find_object k (i ∷ l) o h = ground (arith, noid-find_object k l o)

pub noid-get : (w : World) (k : ℕ) (o : Object) → get w k ≡ some o → o.noid ≡ k
unfolding get
noid-get w k o h = noid-find_object k w.objects o h

pub find_object-erase_object :
    (k n : ℕ) (l : List Object)
    → find_object k (erase_object n l) ≡ (if n == k then none else find_object k l)
unfolding find_object erase_object
find_object-erase_object k n [] = ground arith
find_object-erase_object k n (o ∷ l) = ground (arith, find_object-erase_object k n l)

pub find_object-put_object :
    (k : ℕ) (r : Object) (l : List Object)
    → find_object k (put_object r l) ≡ (if r.noid == k then some r else find_object k l)
unfolding find_object put_object
find_object-put_object k r [] = ground arith
find_object-put_object k r (o ∷ l) = ground (arith, find_object-put_object k r l)

unfoldable pub with_mod : (Mod → Mod) → Object → Object
with_mod f o = record o { mod_ = f o.mod_ }

unfoldable pub with_container : String → Object → Object
with_container r o = record o { container_ref = r }

unfoldable pub map_object : (Object → Object) → Option Object → Option Object
map_object f none = none
map_object f (some o) = some (f o)

pub find_object-modify_mod :
    (k n : ℕ) (f : Mod → Mod) (l : List Object)
    → find_object k (modify_mod n f l)
      ≡ (if n == k then map_object (with_mod f) (find_object k l) else find_object k l)
unfolding find_object modify_mod with_mod map_object
find_object-modify_mod k n f [] = ground arith
find_object-modify_mod k n f (o ∷ l) = ground (arith, find_object-modify_mod k n f l)

pub find_object-move_to :
    (k n : ℕ) (r : String) (l : List Object)
    → find_object k (move_to n r l)
      ≡ (if n == k then map_object (with_container r) (find_object k l) else find_object k l)
unfolding find_object move_to with_container map_object
find_object-move_to k n r [] = ground arith
find_object-move_to k n r (o ∷ l) = ground (arith, find_object-move_to k n r l)

pub find_ref-put_ref :
    (s r : String) (n : ℕ) (l : List (String × ℕ))
    → find_ref s (put_ref r n l) ≡ (if str_eq r s then some n else find_ref s l)
unfolding find_ref put_ref
find_ref-put_ref s r n [] = refl
find_ref-put_ref s r n ((t, m) ∷ l) =
    ground (arith, eq_iff t r, eq_iff t s, eq_iff r s, find_ref-put_ref s r n l)

pub find_ref-erase_ref :
    (s r : String) (l : List (String × ℕ))
    → find_ref s (erase_ref r l) ≡ (if str_eq r s then none else find_ref s l)
unfolding find_ref erase_ref
find_ref-erase_ref s r [] = ground arith
find_ref-erase_ref s r ((t, m) ∷ l) =
    ground (arith, eq_iff t r, eq_iff t s, eq_iff r s, find_ref-erase_ref s r l)
