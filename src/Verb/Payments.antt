-- ===== src/Verb/Payments.antt =====
-- The verbs of machines2.js: payments, teleports, elevators, stereos and banks.
use neohabitat.Prelude.{
  ℕ, ◌+◌, ◌/◌, ◌%◌, ℤ, pos, ◌+ℤ◌, Bool, true, false, not, ◌&&◌, Option, none, some, [], ◌∷◌, ◌==◌,
  str_eq, if◌then◌else◌, leb, or_zero, get_or, truthy, is_num, is_some, find,
}
use neohabitat.World.Object.{Object, World, balance_balloon, the_region}
use neohabitat.World.Table.{get?}
use neohabitat.World.Contents.{contents_of}
use neohabitat.Kernel.Walk.{negate}
use neohabitat.Host.Machines.{denomination, set_denomination, debit}
use neohabitat.Verb.Program.{
  Reply, Result, good, with_number, said, refused, Act, ◌>>=◌, ◌>>◌, give, look, given, fail_hard,
  show, write, carry, skip, delete,
}
use neohabitat.Verb.Context.{
  Ctx, Verb, now, mod_now, in_hand, beeps, boings, play_sound, noid_of, play_chore, says,
  reply_field, is_success, send_message, message, put_into, if_granted,
}
use neohabitat.Verb.Walking.{is_adjacent, wait_walk, go_then}
use neohabitat.Verb.Basic.{reply_text}
use neohabitat.Verb.Carrying.{bend_and_get}
use neohabitat.Verb.Openables.{holds_type}
use neohabitat.Verb.Things.{choose_amount}
use neohabitat.Verb.Machines.{with_tokens, two_bytes, rejected}

unfoldable pub is_good : Result → Bool
is_good (refused r) = false
is_good r = true

unfoldable pub coke_machine_put : Verb
coke_machine_put c = do
  paid ← c.do_action 9 c.args
  if is_good paid then play_sound "STINGY_COKE_MACHINE" c.pointed.noid else skip
  give paid

unfoldable pub tell_fortune : Result → Ctx → Act (Unit {0})
tell_fortune (said text) c = do
  says text (some c.pointed.noid)
  play_sound "FORTUNE_DISPENSED" c.pointed.noid
tell_fortune (refused r) c = skip
tell_fortune r c = play_sound "FORTUNE_DISPENSED" c.pointed.noid

unfoldable pub fortune_machine_put : Verb
fortune_machine_put c = do paid ← c.do_action 9 c.args; tell_fortune paid c; give paid

unfoldable pub jukebox_put : Verb
jukebox_put c = c.do_action 10 c.args

-- the first token wad on our body
unfoldable pub own_wad : Ctx → World → Option Object
own_wad c w = elim c.actor [
  | none ↦ none
  | some a ↦ find (λ o. str_eq o.type "Tokens") (contents_of w a.noid)
]

unfoldable pub charge : ℕ → Ctx → Act (Unit {0})
charge price c =
    if price == 0
    then skip
    else do wad ← look (own_wad c); given wad skip λ o. write o (debit price)

unfoldable pub vend : Ctx → Act Result
vend c = do
  play_chore "operate" c
  play_sound "COIN_DEPOSITED" c.pointed.noid
  reply ← send_message (message "VEND" c.pointed.ref)
  play_chore "hand_back" c
  if is_success reply
      then (do
        play_sound "COIN_ACCEPTED" c.pointed.noid
        play_sound "VENDO_DISPENSING" c.pointed.noid
        charge (two_bytes "item_price_lo" "item_price_hi" reply) c
        give (with_number (two_bytes "item_price_lo" "item_price_hi" reply)))
      else rejected c

unfoldable pub vendo_put : Verb
vendo_put c = go_then c (with_tokens c (vend c))

unfoldable pub set_booth : ℕ → Ctx → Act (Unit {0})
set_booth n c = write c.pointed (λ m. record m { state = some n })

unfoldable pub teleport_put : Verb
teleport_put c = go_then c do
  m ← mod_now c.pointed
  if truthy m.state then beeps "already-active" else (do
    paid ← c.do_action 11 c.args
    if is_good paid
        then (do play_sound "TELEPORT_ACTIVATES" c.pointed.noid; set_booth 1 c; give good)
        else give paid)

-- spoken to the room
unfoldable pub speak_aloud : Ctx → Act Result
speak_aloud c = given c.actor fail_hard λ a. do
  send_message (record (message "SPEAK" a.ref) {
    fields = ("esp", 0) ∷ [];
    text = some (get_or c.args.text "");
  })
  give good

unfoldable pub zap : Ctx → Act (Option Reply)
zap c =
    send_message (record (message "ZAPTO" c.pointed.ref) { text = some (get_or c.args.text "") })

unfoldable pub teleport_talk : Verb
teleport_talk c = do
  near ← look (is_adjacent c c.pointed.noid)
  if near
      then (do
        reply ← zap c
        if is_success reply
            then (do play_sound "TELEPORT_DEPARTING" c.pointed.noid; set_booth 0 c; give good)
            else (do play_sound "TELEPORT_ACTIVATES" c.pointed.noid; beeps "bad-address"))
      else speak_aloud c

unfoldable pub elevator_talk : Verb
elevator_talk c = do
  near ← look (is_adjacent c c.pointed.noid)
  if near
      then (do
        reply ← zap c
        if is_success reply
            then (do play_sound "ELEVATOR_DEPARTING" c.pointed.noid; give good)
            else (do play_sound "ELEVATOR_CONF_WAIT" c.pointed.noid; beeps "bad-floor"))
      else speak_aloud c

unfoldable pub load_tape : Object → Ctx → Act Result
load_tape tape c = do
  play_chore "bend_over" c
  reply ← send_message (record (message "LOAD" c.pointed.ref) { fields = ("tape", tape.noid) ∷ [] })
  play_chore "bend_back" c
  if_granted reply do
    carry (some tape.noid) (some c.pointed.noid) (some 0) (some 0)
    write c.pointed (λ m. record m { tape = some tape.noid })
    give good

unfoldable pub drop_beside : Ctx → Act Result
drop_beside c = do
  play_chore "bend_over" c
  m ← mod_now c.pointed
  dropped ← put_into c the_region m.x m.y none
  play_chore "bend_back" c
  give dropped

unfoldable pub stereo_put : Verb
stereo_put c = do
  held ← in_hand c
  given held (beeps "hands-empty") λ item. go_then c do
    m ← mod_now c.pointed
    if not (str_eq item.type "Tape")
        then drop_beside c
        else if truthy m.tape
        then beeps "stereo-loaded"
        else load_tape item c

-- the tape lands where we stand
unfoldable pub eject : Option Object → Ctx → Act (Unit {0})
eject tape c =
    given tape skip
      λ t. given c.actor skip λ a. do m ← mod_now a; carry (some t.noid) (some the_region) m.x m.y

unfoldable pub unload : Option ℕ → Ctx → Act Result
unload tape c = do
  found ← look (λ w. get? w tape)
  reply ← send_message (message "UNLOAD" c.pointed.ref)
  if_granted reply do eject found c; write c.pointed (λ m. record m { tape = some 0 }); give good

unfoldable pub stereo_get : Verb
stereo_get c = do
  held ← in_hand c
  m ← mod_now c.pointed
  given held (go_then c (bend_and_get c.pointed c)) λ item.
      if item.noid == c.pointed.noid && truthy m.tape then unload m.tape c else beeps "hands-full"

-- the bank; a balance may go below 0
unfoldable pub balance_of : Ctx → World → ℤ
balance_of c w = elim c.actor [ none ↦ pos 0 | some a ↦ get_or (now a w).mod_.bank_balance (pos 0) ]

unfoldable pub atm_do : Verb
atm_do c = do b ← look (balance_of c); show (balance_balloon b); give good

unfoldable pub bank : ℤ → Ctx → Act (Unit {0})
bank n c =
    given c.actor skip
      λ a. write a (λ m. record m { bank_balance = some (get_or m.bank_balance (pos 0) +ℤ n) })

unfoldable pub enrich : Option Object → ℕ → Act (Unit {0})
enrich held n = given held skip λ o.
    if str_eq o.type "Tokens" then write o (λ m. set_denomination (denomination m + n) m) else skip

unfoldable pub withdrawn : Option Object → Option Reply → Ctx → Act Result
withdrawn held reply c =
    if is_num (reply_field "result_code" reply) 1
    then (do
      bank (negate (pos (two_bytes "amount_lo" "amount_hi" reply))) c
      enrich held (two_bytes "amount_lo" "amount_hi" reply)
      give (with_number (two_bytes "amount_lo" "amount_hi" reply)))
    else if leb 2 (or_zero (reply_field "result_code" reply))
    then boings "atm"
    else beeps "atm"

unfoldable pub withdraw : Option Object → ℕ → Ctx → Act Result
withdraw held amount c = do
  play_chore "operate" c
  play_sound "ATM_THINKING" c.pointed.noid
  reply ← send_message (record (message "WITHDRAW" c.pointed.ref) {
    fields = ("amount_lo", amount % 256) ∷ ("amount_hi", amount / 256 % 256) ∷ [];
  })
  play_sound "MONEY_OUT_OF_ATM" c.pointed.noid
  play_chore "hand_back" c
  withdrawn held reply c

unfoldable pub atm_get : Verb
atm_get c = do
  held ← in_hand c
  if is_some held && not (holds_type "Tokens" held)
      then beeps "hands-full"
      else go_then c do
        b ← look (balance_of c)
        amount ← choose_amount b c
        if amount == 0 then beeps "no-amount" else withdraw held amount c

unfoldable pub deposit : Object → Ctx → Act Result
deposit wad c = do
  play_chore "operate" c
  play_sound "ATM_THINKING" c.pointed.noid
  wait_walk
  reply ←
      send_message
        (record (message "DEPOSIT" c.pointed.ref) { fields = ("token_noid", wad.noid) ∷ [] })
  play_chore "hand_back" c
  if_granted reply do
    play_sound "MONEY_INTO_ATM" c.pointed.noid
    m ← mod_now wad
    bank (pos (denomination m)) c
    delete wad.noid
    give (with_number (denomination m))

unfoldable pub atm_put : Verb
atm_put c = do
  held ← in_hand c
  given held (beeps "not-tokens")
      λ wad. if str_eq wad.type "Tokens" then go_then c (deposit wad c) else beeps "not-tokens"

unfoldable pub jukebox_do : Verb
jukebox_do c = go_then c do
  reply ← send_message (message "CATALOG" c.pointed.ref)
  says (reply_text reply) (noid_of c.actor)
  give (said (reply_text reply))
