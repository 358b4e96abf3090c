-- ===== src/Host/Examples.antt =====
-- The theorems about messages, at messages in the plaza of World/Examples.
use neohabitat.Prelude.{◌≡◌, refl, true, none, some, List, [], ◌∷◌}
use neohabitat.World.Object.{Object, World}
use neohabitat.World.Table.{find_ref, put_object, put_ref, emit}
use neohabitat.World.Make.{
  ObjectSpec, make_object, make_spec, add_record, insert_record, reconcile_seating,
}
use neohabitat.World.Identity.{index, idents}
use neohabitat.World.Index.{ref_in}
use neohabitat.World.Lookup.{FindsByRef}
use neohabitat.World.Examples.{bag, key, plaza, plaza_rank, plaza-IsRanked}
use neohabitat.Host.Message.{Msg, no_msg, fail}
use neohabitat.Host.Dispatch.{Classes}
use neohabitat.Host.Indexed.{BringsFresh, OthersKeep}
use neohabitat.Host.Returns.{OthersReturn, apply_returns}
use neohabitat.Host.Sessions.{AllFresh, apply_all-FindsByRef}
use neohabitat.Host.Apply.{apply, apply_all, did_throw, make_from}

-- a class table without entries, whose other behaviors refuse
abbrev pub no_classes : Classes
no_classes = record {
  behavior_at = λ type slot. none;
  sounds_of = λ type. [];
  others = λ name c w. (w, fail name);
}

pub no_classes-OthersKeep : OthersKeep no_classes
no_classes-OthersKeep = record { keeps = λ name c w h. h }

no_classes-OthersReturn : OthersReturn no_classes
unfolding did_throw
no_classes-OthersReturn = record { returns = λ name c w. refl }

abbrev pub no_objects : World
no_objects = record plaza { objects = []; refs = [] }

abbrev pub spec_of : Object → ObjectSpec
spec_of o = record {
  ref = o.ref;
  name = some o.name;
  mod0 = some (record {
    type = o.type;
    noid = o.noid;
    fields = o.mod_;
    neighbors = none;
    lighting = none;
    realm = none;
    depth = none;
  });
}

abbrev pub make_msg : Object → Msg
make_msg o = record no_msg { op = "make"; to = some o.container_ref; made = some (spec_of o) }

abbrev pub delete_msg : Msg
delete_msg = record no_msg { op = "delete"; to = some "item-bag" }

-- what a `make` of an object brings is fresh, where its noid and its ref are free
pub make_msg-BringsFresh :
    (o : Object) (w : World)
    → ref_in o.noid (index w).0 ≡ none
    → find_ref o.ref (index w).1 ≡ none
    → BringsFresh (make_msg o) w
make_msg-BringsFresh o w hn hr = record {
  made_fresh =
      λ s to e m f. record { noid_free = λ r g. cc (e, f, g, hn); ref_free = λ k g. cc (e, g, hr) };
  object_fresh = λ s to e. cc;
}

pub delete_msg-BringsFresh : (w : World) → BringsFresh delete_msg w
delete_msg-BringsFresh w = record { made_fresh = λ s to e. cc; object_fresh = λ s to e. cc }

abbrev session : List Msg
session = make_msg bag ∷ make_msg key ∷ delete_msg ∷ []

session-AllFresh : AllFresh no_classes session no_objects
unfolding apply make_from make_object make_spec add_record insert_record reconcile_seating
    put_object put_ref emit index idents ref_in find_ref
session-AllFresh = (
  make_msg-BringsFresh bag no_objects refl refl,
  (
    make_msg-BringsFresh key (apply no_classes (make_msg bag) no_objects).0 refl refl,
    (delete_msg-BringsFresh _, tt),
  ),
)

apply_all-FindsByRef_example : FindsByRef (apply_all no_classes session no_objects)
apply_all-FindsByRef_example =
    apply_all-FindsByRef no_classes session no_objects no_classes-OthersKeep refl refl
      session-AllFresh

apply_returns_example : (apply no_classes delete_msg plaza).1 ≡ true
apply_returns_example =
    apply_returns no_classes no_classes-OthersReturn plaza_rank delete_msg plaza plaza-IsRanked
