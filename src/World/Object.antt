-- ===== src/World/Object.antt =====
-- The data of world.js: object records with their `mod` field store, the region, and what the
-- client gets to see (emitted events and presentation calls), in order, newest first.
use neohabitat.Prelude.{
  ℕ, ◌%◌, ℤ, pos, String, Bool, false, Option, none, some, List, [], ◌∷◌, or_zero, ◌==◌,
  if◌then◌else◌,
}

-- constants.js
abbrev pub mail_slot : ℕ
mail_slot = 4

abbrev pub hands : ℕ
hands = 5

abbrev pub head : ℕ
head = 6

abbrev pub the_region : ℕ
the_region = 0

abbrev pub ghost_noid : ℕ
ghost_noid = 255

-- OPEN_BIT | UNLOCKED_BIT
abbrev pub open_unlocked : ℕ
open_unlocked = 3

-- The fields of a `mod` that the modelled code reads or writes; a missing field is `none`, and so
-- is a text in a field of numbers.
pub record Mod : Type 0 where
  pub x : Option ℕ
  pub y : Option ℕ
  pub orientation : Option ℕ
  pub gr_state : Option ℕ
  pub open_flags : Option ℕ
  pub activity : Option ℕ
  pub style : Option ℕ
  pub filled : Option ℕ
  pub denom_lo : Option ℕ
  pub denom_hi : Option ℕ
  pub custom : Option (List (Option ℕ))
  pub ascii : Option (List ℕ)
  pub text : Option (List ℕ)
  pub on : Option ℕ
  pub state : Option ℕ
  pub wind_level : Option ℕ
  pub display_item : Option ℕ
  pub item_price : Option ℕ
  pub flat_type : Option ℕ
  pub sitting_in : Option ℕ
  pub sitting_slot : Option ℕ
  pub sitting_action : Option ℕ
  pub sitters : Option (List ℕ)
  pub key_number_hi : Option ℕ
  pub key_number_lo : Option ℕ
  pub key_hi : Option ℕ
  pub key_lo : Option ℕ
  pub mass : Option ℕ
  pub count : Option ℕ
  pub safety_on : Option ℕ
  pub pin_pulled : Option ℕ
  pub current_page : Option ℕ
  pub bank_balance : Option ℤ
  pub trapezoid_type : Option ℕ
  pub is_magic : Option ℕ
  pub magic_type : Option ℕ
  pub mail_arrived : Option ℕ
  pub tape : Option ℕ
  pub am_a_ghost : Bool

abbrev pub empty_mod : Mod
empty_mod = record {
  x = none;
  y = none;
  orientation = none;
  gr_state = none;
  open_flags = none;
  activity = none;
  style = none;
  filled = none;
  denom_lo = none;
  denom_hi = none;
  custom = none;
  ascii = none;
  text = none;
  on = none;
  state = none;
  wind_level = none;
  display_item = none;
  item_price = none;
  flat_type = none;
  sitting_in = none;
  sitting_slot = none;
  sitting_action = none;
  sitters = none;
  key_number_hi = none;
  key_number_lo = none;
  key_hi = none;
  key_lo = none;
  mass = none;
  count = none;
  safety_on = none;
  pin_pulled = none;
  current_page = none;
  bank_balance = none;
  trapezoid_type = none;
  is_magic = none;
  magic_type = none;
  mail_arrived = none;
  tape = none;
  am_a_ghost = false;
}

-- `life` tells the records apart that are made for one noid after another: the source has it in the
-- identity of the JavaScript object. It is the number of the record in the order of making; 0 is
-- that of a stand-in.
pub record Object : Type 0 where
  pub life : ℕ
  pub noid : ℕ
  pub ref : String
  pub name : String
  pub type : String
  pub mod_ : Mod
  pub container_ref : String

pub record Region : Type 0 where
  pub ref : String
  pub name : String
  pub orientation : ℕ
  pub neighbors : List String
  pub lighting : ℤ
  pub realm : String
  pub depth : ℕ

-- `emit` and the callbacks of the client.
pub data Event : Type 0 where
  region_changed : String → Event
  region_described : Event
  added removed container_changed state_changed moved : ℕ → Event
  field_changed : ℕ → Option ℕ → Event
  lighting : ℤ → Event
  op : String → Event
  chore : String → ℕ → Option ℕ → Event
  sound : String → Option ℕ → Event
  new_image : ℕ → Option ℕ → Event
  named_image : ℕ → String → Event
  price_balloon : ℕ → Event
  change_light : ℤ → Event
  start_walk : ℕ → Option ℕ → Option ℕ → Option ℕ → Event
  balloon : String → Option ℕ → Event
  number_balloon : String → ℕ → Event
  page_balloon : List ℕ → Event
  balance_balloon : ℤ → Event
  posture : ℕ → ℕ → Event
  face : Event
  beep boing : String → Event

-- `lives` counts the records made so far; `lost` holds those that the table has no more, which a
-- behavior that waits may still hold.
pub record World : Type 0 where
  pub objects : List Object
  pub lives : ℕ
  pub lost : List Object
  pub refs : List (String × ℕ)
  pub region : Region
  pub me_noid : Option ℕ
  pub events : List Event

abbrev pub no_region : Region
no_region = record {
  ref = "";
  name = "";
  orientation = 0;
  neighbors = "" ∷ "" ∷ "" ∷ "" ∷ [];
  lighting = pos 0;
  realm = "";
  depth = 0;
}

-- `syncOpenableGrState` and `setOpenFlags` of openable.js
pub sync_openable_gr_state : Mod → Mod
sync_openable_gr_state m = record m {
  gr_state = some (if or_zero m.open_flags % 2 == 0 then 0 else 1);
}

unfoldable pub set_open_flags : ℕ → Mod → Mod
unfolding sync_openable_gr_state
set_open_flags open_flags m = sync_openable_gr_state (record m { open_flags = some open_flags })
