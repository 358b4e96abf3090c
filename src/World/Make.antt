-- ===== src/World/Make.antt =====
-- `clear`, `_makeObject` and `_reconcileSeating`.
use neohabitat.Prelude.{
  ℕ, suc, ◌++◌, ◌+◌, ℤ, pos, String, Bool, ◌&&◌, not, Option, none, some, List, [], ◌∷◌, ◌==◌,
  str_eq, if◌then◌else◌, or_zero, get_or, truthy, is_num,
}
use neohabitat.World.Object.{
  Object, Mod, World, added, state_changed, region_described, ghost_noid, no_region,
}
use neohabitat.World.Table.{get, get?, put_object, put_ref, emit, update, lose}
use neohabitat.World.Contents.{change_containers}

-- an object of a `make`: `obj.ref`, `obj.name`, and what is read of `obj.mods[0]`, if it is there
pub record ModSpec : Type 0 where
  pub type : String
  pub noid : ℕ
  pub fields : Mod
  pub neighbors : Option (List String)
  pub lighting : Option ℤ
  pub realm : Option String
  pub depth : Option ℕ

pub record ObjectSpec : Type 0 where
  pub ref : String
  pub name : Option String
  pub mod0 : Option ModSpec

abbrev pub clear : World → World
clear w = record {
  objects = [];
  lives = w.lives;
  lost = w.objects ++ w.lost;
  refs = [];
  region = no_region;
  me_noid = none;
  events = w.events;
}

-- `s || d` for a text
abbrev or_text : Option String → String → String
or_text none d = d
or_text (some s) d = if str_eq s "" then d else s

-- `if (mod.sittingAction) mod.activity = mod.sittingAction`
unfoldable pub adopt_sitting_action : Mod → Mod
adopt_sitting_action m =
    if truthy m.sitting_action then record m { activity = m.sitting_action } else m

-- one step of `mod.sitters.forEach`
unfoldable pub seat_sitter : Object → ℕ → ℕ → World → World
unfolding adopt_sitting_action
seat_sitter seat sitter slot w = if sitter == 0 then w else elim (get w sitter) [
  | none ↦ w
  | some s ↦
      if str_eq s.type "Avatar" && not (str_eq s.container_ref seat.ref)
      then change_containers (some sitter) (some seat.noid) (some 0) (some slot)
          (update sitter adopt_sitting_action w)
      else w
]

unfoldable pub seat_sitters : Object → List ℕ → ℕ → World → World
unfolding seat_sitter
seat_sitters seat [] slot w = w
seat_sitters seat (s ∷ rest) slot w = seat_sitters seat rest (slot + 1) (seat_sitter seat s slot w)

-- the branch for a seated avatar
unfoldable pub seat_avatar : Object → World → World
unfolding adopt_sitting_action
seat_avatar r w =
    let w1 = update r.noid adopt_sitting_action w in
    elim (get? w1 r.mod_.sitting_in) [
      | none ↦ w1
      | some seat ↦
          change_containers (some r.noid) r.mod_.sitting_in (some 0)
            (some (or_zero r.mod_.sitting_slot)) w1
    ]

unfoldable pub reconcile_seating : Object → World → World
reconcile_seating r w =
    if str_eq r.type "Avatar" && truthy r.mod_.sitting_in
    then seat_avatar r w
    else elim r.mod_.sitters [ none ↦ w | some sitters ↦ seat_sitters r sitters 0 w ]

-- the branch for `mod.type === 'Region'`
unfoldable pub describe_region : ObjectSpec → ModSpec → World → World
describe_region obj m w = emit region_described (record w {
  region = record {
    ref = obj.ref;
    name = or_text obj.name obj.ref;
    orientation = or_zero m.fields.orientation;
    neighbors = get_or m.neighbors no_region.neighbors;
    lighting = get_or m.lighting (pos 0);
    realm = or_text m.realm "";
    depth = or_zero m.depth;
  };
})

-- the record that goes into the table, the next one made
abbrev pub record_of : ℕ → ObjectSpec → ModSpec → String → Object
record_of life obj m to = record {
  life = life;
  noid = m.noid;
  ref = obj.ref;
  name = or_text obj.name m.type;
  type = m.type;
  mod_ = m.fields;
  container_ref = to;
}

-- both maps and, for our own object, the identity
unfoldable pub insert_record : Object → Bool → World → World
insert_record r is_me w = record w {
  objects = put_object r w.objects;
  lives = suc w.lives;
  lost = lose r.noid w;
  refs = put_ref r.ref r.noid w.refs;
  me_noid = if is_me then some r.noid else w.me_noid;
}

unfoldable pub add_record : Object → Bool → World → World
add_record r is_me w =
    let w1 = reconcile_seating r (emit (added r.noid) (insert_record r is_me w)) in
    if is_num w1.me_noid r.noid then emit (state_changed r.noid) w1 else w1

unfoldable pub make_spec : ObjectSpec → ModSpec → String → Bool → World → World
make_spec obj m to is_me w =
    if str_eq m.type "Region"
    then describe_region obj m w
    else if is_me && str_eq m.type "Avatar" && m.fields.am_a_ghost
    then record w { me_noid = some ghost_noid }
    else add_record (record_of (suc w.lives) obj m to) is_me w

unfoldable pub make_object : ObjectSpec → String → Bool → World → World
make_object obj to is_me w = elim obj.mod0 [ none ↦ w | some m ↦ make_spec obj m to is_me w ]
