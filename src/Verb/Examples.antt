-- ===== src/Verb/Examples.antt =====
-- The theorems about verbs, in the plaza of World/Examples.
use neohabitat.Prelude.{
  ℕ, str_eq, if◌then◌else◌, select, find, ◌≡◌, refl, true, false, none, some, String, List, [], ◌∷◌,
  arith, ◌≤◌, ◌<◌, ◌*◌,
}
use neohabitat.World.Object.{Object, World, empty_mod}
use neohabitat.Kernel.Walk.{find_goto_coords, climb, get_object_walk_xy}
use neohabitat.World.Table.{
  get_by_ref, find_ref, find_object, put_object, put_ref, emit, get, get?, me, update, modify_mod,
  modify_life, update_life, find_life, lose, erase_object, erase_ref,
}
use neohabitat.World.Contents.{am_ghost, holding, contents_of, contents}
use neohabitat.World.Make.{
  make_object, make_spec, add_record, insert_record, reconcile_seating, seat_avatar,
}
use neohabitat.World.Identity.{index, idents}
use neohabitat.World.Delete.{
  delete_by_ref, delete_by_noid, delete_on, drop_record, delete_all, after_cascade,
}
use neohabitat.Host.Indexed.{BringsFresh}
use neohabitat.World.Index.{ref_in, MakesFresh}
use neohabitat.World.Lookup.{FindsByRef}
use neohabitat.World.Examples.{randy, bag, key, plaza}
use neohabitat.Host.Message.{Msg}
use neohabitat.Host.Dispatch.{is_migrated}
use neohabitat.Host.Apply.{apply, apply_all, make_from, finish_delete}
use neohabitat.Host.Examples.{
  no_classes, no_objects, spec_of, make_msg, delete_msg, no_classes-OthersKeep,
  make_msg-BringsFresh, delete_msg-BringsFresh,
}
use neohabitat.Verb.Pause.{squared, walk_millis}
use neohabitat.Verb.Program.{
  Reply, field, give, Request, send, walk, wait, pick, show_pages, type_amount, transit, Answer,
  good, State, look, ◌>>=◌, then_do, given, write, change, show, request,
}
use neohabitat.Verb.Context.{
  Setting, Ctx, no_args, now, strike_posture, if_granted, is_success, reply_field, send_message,
}
use neohabitat.Verb.Dispatch.{sits_in, actions_for, Actions, plain_ctx, dispatch, perform_gesture}
use neohabitat.Verb.Basic.{do_gesture}
use neohabitat.Verb.Carrying.{generic_go_to_and_get}
use neohabitat.Verb.Openables.{is_open, is_unlocked, fits, same_num, toggle_door, toggle_container}
use neohabitat.Verb.Ends.{Ends, AlwaysEnds, IfGood}
use neohabitat.Verb.Outcomes.{InHands, generic_go_to_and_get-InHands}
use neohabitat.Verb.Doors.{locked_up, lock_of, IsTurned, toggle_door-IsTurned}
use neohabitat.Verb.Containers.{IsSwung, toggle_container-IsSwung}
use neohabitat.Verb.Alone.{Comes, Grants}
use neohabitat.Verb.Granted.{Granted, dispatch-Granted}
use neohabitat.Verb.Strides.{walk_millis-least}
use neohabitat.Verb.Sessions.{Action, gesture, Meanwhile, FairLife, live, live-FindsByRef, start}

abbrev bare : Setting
bare = record {
  offsets_of = λ o. none;
  has_transit = false;
  has_picker = false;
  has_reader = false;
  has_typing = false;
}

abbrev no_types : Actions
no_types = record { of_type = λ type. none; other_verbs = [] }

-- the plaza, as Randy sees it
abbrev mine : State
mine = record { world = record plaza { me_noid = some 10 }; millis = none }

-- Randy, pointing at the bag
abbrev at_bag : Ctx
at_bag = record (plain_ctx bare randy) { pointed = bag }

generic_go_to_and_get-InHands_example :
    AlwaysEnds (IfGood (InHands 11 10)) (generic_go_to_and_get at_bag)
unfolding plain_ctx
generic_go_to_and_get-InHands_example =
    generic_go_to_and_get-InHands at_bag randy refl (λ e. ground arith)

-- Randy with the key in his hands; the bag is locked, and the key fits
abbrev my_key : Object
my_key = record key { container_ref = "user-randy"; mod_ = record empty_mod { y = some 5 } }

abbrev handed : State
handed = record {
  world = record plaza { objects = randy ∷ bag ∷ my_key ∷ []; me_noid = some 10 };
  millis = none;
}

toggle_door-IsTurned_example :
    Ends (IfGood (IsTurned bag true locked_up)) (toggle_door (some my_key) at_bag handed)
unfolding plain_ctx now find_life get find_object lock_of is_open is_unlocked fits same_num
toggle_door-IsTurned_example = toggle_door-IsTurned (some my_key) at_bag handed

toggle_container-IsSwung_example :
    Ends (IfGood (IsSwung bag true locked_up)) (toggle_container at_bag handed)
unfolding plain_ctx now find_life get find_object lock_of is_open is_unlocked fits same_num holding
    find contents_of contents select
toggle_container-IsSwung_example = toggle_container-IsSwung at_bag handed

walk_millis-least_example :
    (walk_millis 80 144 76 147 ≤ 8000)
    × (walk_millis 80 144 76 147 < 8000
        → 2500 * squared 80 144 76 147 ≤ walk_millis 80 144 76 147 * walk_millis 80 144 76 147)
    × ((j : ℕ) → j < walk_millis 80 144 76 147 → j * j < 2500 * squared 80 144 76 147)
walk_millis-least_example = walk_millis-least 80 144 76 147

-- Randy waves; the bag goes while the server is asked, and its reply brings a key.
abbrev hello : List Msg
hello = record (make_msg randy) { you = true } ∷ make_msg bag ∷ []

abbrev granted : Reply
granted = record {
  fields = ("err", 1) ∷ [];
  text = none;
  ascii = none;
  object = some (spec_of key);
}

abbrev answers : (q : Request) → Answer q
answers (send m) = some granted
answers (walk x y) = none
answers (wait ms) = tt
answers (pick n) = none
answers (show_pages n e) = good
answers (type_amount n) = []
answers (transit d n) = good

abbrev meanwhile : Meanwhile
meanwhile = record { inbox = λ n. delete_msg ∷ []; answer = λ n q w. answers q }

abbrev waves : List (List Msg × Action × Meanwhile)
waves = (hello, gesture bare 141, meanwhile) ∷ []

you_msg-BringsFresh :
    (o : Object) (w : World)
    → ref_in o.noid (index w).0 ≡ none
    → find_ref o.ref (index w).1 ≡ none
    → BringsFresh (record (make_msg o) { you = true }) w
you_msg-BringsFresh o w hn hr = record {
  made_fresh =
      λ s to e m f. record { noid_free = λ r g. cc (e, f, g, hn); ref_free = λ k g. cc (e, g, hr) };
  object_fresh = λ s to e. cc;
}

key-MakesFresh :
    (to : String) (w : World)
    → ref_in 12 (index w).0 ≡ none
    → find_ref "item-key" (index w).1 ≡ none
    → MakesFresh (spec_of key) to w
key-MakesFresh to w hn hr m f = record {
  noid_free = λ r g. cc (f, g, hn);
  ref_free = λ k g. cc (f, g, hr);
}

waves-FairLife : FairLife no_classes no_types waves no_objects
unfolding start perform_gesture plain_ctx look ◌>>=◌ then_do me get? get find_object am_ghost given
    do_gesture write change update modify_mod update_life modify_life lose show emit send_message
    request apply make_from make_object make_spec add_record insert_record reconcile_seating
    seat_avatar put_object put_ref index idents ref_in find_ref apply_all is_migrated finish_delete
    delete_by_ref delete_by_noid delete_on give if_granted is_success reply_field field drop_record
    delete_all after_cascade erase_object erase_ref strike_posture select contents_of contents
waves-FairLife = (
  (
    you_msg-BringsFresh randy no_objects refl refl,
    (
      make_msg-BringsFresh bag
          (apply no_classes (record (make_msg randy) { you = true }) no_objects).0 refl refl,
      tt,
    ),
  ),
  ((delete_msg-BringsFresh _, tt), key-MakesFresh _ _ refl refl, tt),
  tt,
)

live-FindsByRef_example : FindsByRef (live no_classes no_types waves no_objects)
live-FindsByRef_example =
    live-FindsByRef no_classes no_types waves no_objects no_classes-OthersKeep tt refl refl
      waves-FairLife

answers-Grants : Grants (λ q w. answers q) true
unfolding is_success reply_field field
answers-Grants m w = refl

-- a row of classes.js
abbrev amulet_actions : List String
amulet_actions =
    "generic_doMagic" ∷ "generic_rdoMagic" ∷ "generic_goTo" ∷ "generic_cease" ∷ "generic_goToAndGet"
    ∷ "noEffect" ∷ "generic_broadcast" ∷ "generic_destroy" ∷ []

abbrev jewels : Actions
jewels = record {
  of_type = λ type. if str_eq type "Amulet" then some amulet_actions else none;
  other_verbs = [];
}

abbrev amulet : Object
amulet = record {
  life = 5;
  noid = 16;
  ref = "item-amulet";
  name = "Amulet";
  type = "Amulet";
  mod_ = record empty_mod { x = some 40; y = some 150 };
  container_ref = "context-plaza";
}

-- Randy beside an amulet
abbrev by_amulet : State
by_amulet = record {
  world = record plaza { objects = randy ∷ amulet ∷ []; me_noid = some 10 };
  millis = none;
}

-- Randy gets the amulet
dispatch-Granted_example :
    Comes (λ q w. answers q) (Granted true) (dispatch jewels bare 4 16 no_args by_amulet)
unfolding me get? get find_object am_ghost sits_in holding contents_of contents select
    find_goto_coords climb get_by_ref find_ref get_object_walk_xy find actions_for
dispatch-Granted_example =
    dispatch-Granted (λ q w. answers q) true answers-Grants jewels bare 16 amulet randy no_args
      by_amulet _ refl refl refl refl refl (refl, refl) refl
