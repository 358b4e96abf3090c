-- ===== src/Verb/Machines.antt =====
-- The verbs of machines.js.
use neohabitat.Prelude.{
  ℕ, ◌+◌, ◌*◌, String, Option, none, some, ◌==◌, str_eq, if◌then◌else◌, or_zero, truthy, is_num,
  is_some,
}
use neohabitat.World.Object.{Object, Mod, World, state_changed, price_balloon}
use neohabitat.World.Table.{get_by_ref}
use neohabitat.Host.State.{flip_sex_bit}
use neohabitat.Host.Machines.{debit_by_noid, swap_display, set_display}
use neohabitat.Verb.Program.{
  Reply, Result, good, with_number, said, Act, ◌>>=◌, ◌>>◌, give, look, given, fail_hard, change,
  show, write, skip,
}
use neohabitat.Verb.Context.{
  Ctx, Verb, now, mod_now, in_hand, beeps, boings, play_sound, noid_of, play_chore, redraws,
  redraws_state, says, reply_field, is_success, send_message, message,
}
use neohabitat.Verb.Walking.{is_adjacent, go_then}
use neohabitat.Verb.Basic.{reply_text}
use neohabitat.Verb.Openables.{empty_out}
use neohabitat.Verb.Things.{held_or_depends}

-- what is done with tokens in hand
unfoldable pub with_tokens : Ctx → Act Result → Act Result
with_tokens c k = do
  held ← in_hand c
  given held (beeps "hands-empty")
      λ item. if str_eq item.type "Tokens" then k else beeps "not-tokens"

-- `(lo || 0) + (hi || 0) * 256`
unfoldable pub two_bytes : String → String → Option Reply → ℕ
two_bytes lo hi r = or_zero (reply_field lo r) + or_zero (reply_field hi r) * 256

unfoldable pub rejected : Ctx → Act Result
rejected c = do play_sound "COIN_REJECTED" c.pointed.noid; beeps "payment-rejected"

unfoldable pub feed_coins : Ctx → Act Result
feed_coins c = do
  play_chore "operate" c
  play_sound "COIN_DEPOSITED" c.pointed.noid
  reply ← send_message (message "PAY" c.pointed.ref)
  play_chore "hand_back" c
  if is_success reply
      then (do
        play_sound "COIN_ACCEPTED" c.pointed.noid
        change (debit_by_noid (noid_of c.actor) (two_bytes "amount_lo" "amount_hi" reply))
        give (said (reply_text reply)))
      else rejected c

unfoldable pub generic_coin_op : Verb
generic_coin_op c = go_then c (with_tokens c (feed_coins c))

-- the display window shows another item
unfoldable pub show_display : Ctx → ℕ → World → World
show_display c item w = elim (get_by_ref w (now c.pointed w).container_ref) [
  | none ↦ w
  | some inside ↦ swap_display (now c.pointed w) inside item w
]

unfoldable pub displayed : ℕ → ℕ → Ctx → Act Result
displayed item price c = if item == 255 then boings "vendo-empty" else do
  play_sound "VENDO_CHANGING" c.pointed.noid
  change (show_display c item)
  write c.pointed (set_display item price)
  show (price_balloon price)
  give (with_number item)

unfoldable pub cycle_display : Ctx → Act Result
cycle_display c = do
  play_chore "operate" c
  reply ← send_message (message "VSELECT" c.pointed.ref)
  play_chore "stand" c
  given (reply_field "display_item" reply) (boings "vendo-empty")
      λ item. displayed item (two_bytes "price_lo" "price_hi" reply) c

unfoldable pub vendo_do : Verb
vendo_do c =
    go_then c
      do near ← look (is_adjacent c c.pointed.noid); if near then cycle_display c else c.depends

unfoldable pub set_image_state : ℕ → Ctx → Act (Unit {0})
set_image_state n c = do
  write c.pointed (λ m. record m { gr_state = some n })
  redraws c.pointed.noid

unfoldable pub rub : Ctx → Act Result
rub c = do
  reply ← send_message (message "RUB" c.pointed.ref)
  if truthy (reply_field "RUB_SUCCESS" reply)
      then (do
        set_image_state 1 c
        play_sound "GENIE_APPEARS" c.pointed.noid
        says (reply_text reply) (some c.pointed.noid)
        give (said (reply_text reply)))
      else beeps "server-denied"

unfoldable pub magic_lamp_do : Verb
magic_lamp_do c =
    held_or_depends c
      do m ← mod_now c.pointed; if truthy m.gr_state then beeps "genie-already-out" else rub c

-- our own sex bit, if we have an orientation
unfoldable pub swap_sex : Mod → Mod
swap_sex m = elim m.orientation [
  | none ↦ m
  | some o ↦ record m { orientation = some (flip_sex_bit o) }
]

unfoldable pub change_own_sex : Object → Act (Unit {0})
change_own_sex a = do
  m ← mod_now a
  if is_some m.orientation then (do write a swap_sex; show (state_changed a.noid)) else skip

-- the reply is not read
unfoldable pub operate_changer : Ctx → Act Result
operate_changer c = do
  play_chore "operate" c
  redraws_state c.pointed.noid 1
  send_message (message "SEXCHANGE" c.pointed.ref)
  given c.actor skip change_own_sex
  play_chore "hand_back" c
  play_sound "SEX_CHANGER" c.pointed.noid
  redraws_state c.pointed.noid 0
  play_chore "get_shot" c
  give good

unfoldable pub sex_changer_do : Verb
sex_changer_do c = do
  near ← look (is_adjacent c c.pointed.noid)
  if near then operate_changer c else c.depends

unfoldable pub escape : Ctx → Act Result
escape c = do
  play_sound "ESCAPE_DEVICE_ACTIVATES" c.pointed.noid
  reply ← send_message (message "BUGOUT" c.pointed.ref)
  if is_success reply then give good else boings "server-denied"

unfoldable pub escape_device_do : Verb
escape_device_do c = held_or_depends c (escape c)

-- a request whose reply has a success field of its own; a reply that is not there throws
unfoldable pub ask_for : String → String → Ctx → Act Result → Act Result
ask_for op success c k = do
  reply ← send_message (message op c.pointed.ref)
  given reply fail_hard
      λ r. if is_num (reply_field success reply) 1 then k else beeps "server-denied"

unfoldable pub grenade_do : Verb
grenade_do c = held_or_depends c do
  m ← mod_now c.pointed
  if truthy m.pin_pulled
      then beeps "pin-already-pulled"
      else ask_for "PULLPIN" "PULLPIN_SUCCESS" c
          do write c.pointed (λ f. record f { pin_pulled = some 1 }); give good

unfoldable pub fake_gun_do : Verb
fake_gun_do c = held_or_depends c do
  m ← mod_now c.pointed
  if truthy m.gr_state
      then (ask_for "RESET" "RESET_SUCCESS" c do set_image_state 0 c; give good)
      else beeps "not-fired"

unfoldable pub fake_gun_rdo : Verb
fake_gun_rdo c = do
  play_chore "shoot1" c
  reply ← send_message (message "FAKESHOOT" c.pointed.ref)
  play_chore "shoot2" c
  given reply fail_hard λ r.
      if is_num (reply_field "FAKESHOOT_SUCCESS" reply) 1
      then (do play_sound "JOKE_GUNSHOT" c.pointed.noid; set_image_state 1 c; give good)
      else beeps "server-denied"

unfoldable pub munch : Ctx → Act Result
munch c = do
  play_chore "operate" c
  play_sound "PAWN_MUNCH" c.pointed.noid
  redraws_state c.pointed.noid 1
  reply ← send_message (message "MUNCH" c.pointed.ref)
  redraws_state c.pointed.noid 0
  play_chore "stand" c
  given reply fail_hard λ r.
      if is_num (reply_field "MUNCH_SUCCESS" reply) 1
      then (do empty_out c.pointed.noid; give good)
      else beeps "server-denied"

unfoldable pub pawn_machine_do : Verb
pawn_machine_do c = go_then c (munch c)
