-- ===== src/World/Table.antt =====
-- The two `Map`s of world.js. `objects` is keyed by the record's own noid, which never changes, and
-- iterates in the order of insertion; `refs` maps a ref to a noid.
use neohabitat.Prelude.{ℕ, String, Option, none, some, List, [], ◌∷◌, ◌==◌, str_eq, if◌then◌else◌}
use neohabitat.World.Object.{Object, Mod, World, Event}

-- `objects.get`
unfoldable pub find_object : ℕ → List Object → Option Object
find_object k [] = none
find_object k (o ∷ l) = if o.noid == k then some o else find_object k l

-- `objects.set`: in place if the key is there, else behind the others
unfoldable pub put_object : Object → List Object → List Object
put_object r [] = r ∷ []
put_object r (o ∷ l) = let rest = put_object r l in if o.noid == r.noid then r ∷ l else o ∷ rest

-- `objects.delete`
unfoldable pub erase_object : ℕ → List Object → List Object
erase_object k [] = []
erase_object k (o ∷ l) = let rest = erase_object k l in if o.noid == k then rest else o ∷ rest

-- a write to the fields of a record that the map holds
unfoldable pub modify_mod : ℕ → (Mod → Mod) → List Object → List Object
modify_mod k f [] = []
modify_mod k f (o ∷ l) =
    (if o.noid == k then record o { mod_ = f o.mod_ } else o) ∷ modify_mod k f l

-- a write through a reference to a record, and a look at it
unfoldable pub modify_life : ℕ → (Mod → Mod) → List Object → List Object
modify_life k f [] = []
modify_life k f (o ∷ l) =
    (if o.life == k then record o { mod_ = f o.mod_ } else o) ∷ modify_life k f l

unfoldable pub find_life : ℕ → List Object → Option Object
find_life k [] = none
find_life k (o ∷ l) = if o.life == k then some o else find_life k l

unfoldable pub move_to : ℕ → String → List Object → List Object
move_to k ref [] = []
move_to k ref (o ∷ l) =
    (if o.noid == k then record o { container_ref = ref } else o) ∷ move_to k ref l

-- `refs.get`, `refs.set`, `refs.delete`
unfoldable pub find_ref : String → List (String × ℕ) → Option ℕ
find_ref r [] = none
find_ref r ((s, n) ∷ l) = if str_eq s r then some n else find_ref r l

unfoldable pub put_ref : String → ℕ → List (String × ℕ) → List (String × ℕ)
put_ref r n [] = (r, n) ∷ []
put_ref r n ((s, m) ∷ l) =
    let rest = put_ref r n l in if str_eq s r then (r, n) ∷ l else (s, m) ∷ rest

unfoldable pub erase_ref : String → List (String × ℕ) → List (String × ℕ)
erase_ref r [] = []
erase_ref r ((s, m) ∷ l) = let rest = erase_ref r l in if str_eq s r then rest else (s, m) ∷ rest

-- `world.get`, for a noid that a message may leave out
unfoldable pub get : World → ℕ → Option Object
get w k = find_object k w.objects

unfoldable pub get? : World → Option ℕ → Option Object
get? w none = none
get? w (some k) = get w k

unfoldable pub get_by_ref : World → String → Option Object
get_by_ref w r = get? w (find_ref r w.refs)

unfoldable pub emit : Event → World → World
emit e w = record w { events = e ∷ w.events }

unfoldable pub update : ℕ → (Mod → Mod) → World → World
update k f w = record w { objects = modify_mod k f w.objects }

-- the record is written in the table, or where it is lost
unfoldable pub update_life : ℕ → (Mod → Mod) → World → World
update_life k f w = record w { objects = modify_life k f w.objects; lost = modify_life k f w.lost }

-- the record of a noid leaves the table
unfoldable pub lose : ℕ → World → List Object
lose k w = elim (get w k) [ none ↦ w.lost | some o ↦ o ∷ w.lost ]

-- the getter `me`
unfoldable pub me : World → Option Object
me w = get? w w.me_noid
