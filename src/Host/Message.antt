-- ===== src/Host/Message.antt =====
-- A parsed message of the server, as far as the modelled handlers read it. A field that the
-- message leaves out is `none`; numbers on the wire are not negative, but for `adjustment`. Fields
-- that different messages spell differently share a field here: `buyer` is BUYER of PAY$ and `buyer`
-- of SELL$, `price_lo` is also `item_price_lo`, `made` is `obj` of a make.
use neohabitat.Prelude.{ℕ, ℤ, String, Bool, false, Option, none, List, []}
use neohabitat.World.Make.{ObjectSpec}

-- `value` of FIDDLE_$: an array, a number, or a text
pub data FiddleValue : Type 0 where
  bytes : List ℕ → FiddleValue
  number : ℕ → FiddleValue
  characters : List ℕ → FiddleValue

pub record Msg : Type 0 where
  pub op : String
  pub type : String
  pub context : String
  pub to : Option String
  pub container : Option String
  pub you : Bool
  pub made : Option ObjectSpec
  pub object : Option ObjectSpec
  pub noid : Option ℕ
  pub target : Option ℕ
  pub obj : Option ℕ
  pub cont : Option ℕ
  pub x : Option ℕ
  pub y : Option ℕ
  pub how : Option ℕ
  pub orient : Option ℕ
  pub open_flags : Option ℕ
  pub avatar_noid : Option ℕ
  pub new_posture : Option ℕ
  pub offset : Option ℕ
  pub value : FiddleValue
  pub adjustment : Option ℤ
  pub object_noid : Option ℕ
  pub container_noid : Option ℕ
  pub up_or_down : Option ℕ
  pub slot : Option ℕ
  pub change_target : Option ℕ
  pub change_new_orientation : Option ℕ
  pub sex_avatar_noid : Option ℕ
  pub attack_damage : Option ℕ
  pub attack_target : Option ℕ
  pub text : Option String
  pub from_noid : Option ℕ
  pub sfx_number : Option ℕ
  pub speaker : Option ℕ
  pub appearing : Option ℕ
  pub state : Option ℕ
  pub new_state : Option ℕ
  pub switcher : Option ℕ
  pub scan_type : Option ℕ
  pub err : Option ℕ
  pub sprayee : Option ℕ
  pub customize_0 : Option ℕ
  pub customize_1 : Option ℕ
  pub display_item : Option ℕ
  pub price_lo : Option ℕ
  pub price_hi : Option ℕ
  pub buyer : Option ℕ
  pub payer : Option ℕ
  pub cost : Option ℕ
  pub amount_lo : Option ℕ
  pub amount_hi : Option ℕ
  pub rub_message : Option String
  pub blast_target : Option ℕ

abbrev pub no_msg : Msg
no_msg = record {
  op = "";
  type = "";
  context = "";
  to = none;
  container = none;
  you = false;
  made = none;
  object = none;
  noid = none;
  target = none;
  obj = none;
  cont = none;
  x = none;
  y = none;
  how = none;
  orient = none;
  open_flags = none;
  avatar_noid = none;
  new_posture = none;
  offset = none;
  value = bytes [];
  adjustment = none;
  object_noid = none;
  container_noid = none;
  up_or_down = none;
  slot = none;
  change_target = none;
  change_new_orientation = none;
  sex_avatar_noid = none;
  attack_damage = none;
  attack_target = none;
  text = none;
  from_noid = none;
  sfx_number = none;
  speaker = none;
  appearing = none;
  state = none;
  new_state = none;
  switcher = none;
  scan_type = none;
  err = none;
  sprayee = none;
  customize_0 = none;
  customize_1 = none;
  display_item = none;
  price_lo = none;
  price_hi = none;
  buyer = none;
  payer = none;
  cost = none;
  amount_lo = none;
  amount_hi = none;
  rub_message = none;
  blast_target = none;
}

-- What a behavior returns: `{ ok: true }`, `{ ok: false, reason }`, or the throw of an overflowed
-- stack.
pub data Outcome : Type 0 where
  ok : Outcome
  fail : String → Outcome
  threw : Outcome
