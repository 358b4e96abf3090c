-- ===== src/Verb/Things.antt =====
-- The verbs of items.js, furniture.js and die_do.js.
use neohabitat.Prelude.{
  ℕ, ℤ, pos, ◌+◌, ◌*◌, ◌/◌, ◌%◌, Bool, true, false, not, ◌&&◌, ◌||◌, Option, none, some, List, [],
  ◌∷◌, ◌==◌, str_eq, if◌then◌else◌, leb, or_zero, truthy, is_num, is_some,
}
use neohabitat.World.Object.{Object, Mod, World, state_changed, number_balloon, hands, the_region}
use neohabitat.World.Table.{get_by_ref}
use neohabitat.World.Contents.{holding}
use neohabitat.Host.Machines.{denomination}
use neohabitat.Verb.Pause.{Place}
use neohabitat.Verb.Program.{
  Reply, Result, good, standing_as, with_number, said, type_amount, show_pages, Act, ◌>>=◌, ◌>>◌,
  give, look, given, fail_hard, request, show, write, carry,
}
use neohabitat.Verb.Context.{
  Ctx, Verb, arg, no_args, mod_now, now, in_hand, beeps, play_sound, noid_of, play_chore,
  strike_posture, redraws, redraws_state, says, changes_state, reply_field, send_message, message,
  if_granted,
}
use neohabitat.Verb.Walking.{goto_spot, is_adjacent, is_seated, if_ok, wait_walk, go_then}
use neohabitat.Verb.Basic.{generic_broadcast, walk_up_to}
use neohabitat.Verb.Carrying.{take_up}

-- `inHand && inHand.noid === pointed.noid`
unfoldable pub holds_pointed : Option Object → Ctx → Bool
holds_pointed held c = is_num (noid_of held) c.pointed.noid

-- what is done with the pointed object when it is in our hands; otherwise `depends`
unfoldable pub held_or_depends : Ctx → Act Result → Act Result
held_or_depends c k = do held ← in_hand c; if holds_pointed held c then k else c.depends

unfoldable pub key_do : Verb
key_do c = do
  held ← in_hand c
  m ← mod_now c.pointed
  if holds_pointed held c
      then (do
        show (
            number_balloon "Key number: " (or_zero m.key_number_hi * 256 + or_zero m.key_number_lo))
        give (with_number (or_zero m.key_number_hi * 256 + or_zero m.key_number_lo)))
      else beeps "not-holding"

-- `parseInt(typed, 10)` of the codes of a line: blanks, then digits; a sign or any other code first
-- gives no amount
unfoldable pub digits : ℕ → List ℕ → ℕ
digits n [] = n
digits n (d ∷ l) =
    let rest = digits (n * 10 + (d % 48)) l in if leb 48 d && leb d 57 then rest else n

unfoldable pub parse_amount : List ℕ → ℕ
parse_amount [] = 0
parse_amount (d ∷ l) = let rest = parse_amount l in if d == 32 then rest else digits 0 (d ∷ l)

-- the amount of `args`, or one that is typed; 0 is none
unfoldable pub choose_amount : ℤ → Ctx → Act ℕ
choose_amount available c =
    given (arg "amount" c)
      (if c.setting.has_typing
        then (do typed ← request (type_amount available); give (parse_amount typed))
        else give 0)
      λ n. give n

unfoldable pub split_off : ℕ → Ctx → Act Result
split_off amount c = do
  play_chore "unpocket" c
  reply ← send_message (record (message "SPLIT" c.pointed.ref) {
    fields = ("amount_lo", amount % 256) ∷ ("amount_hi", amount / 256 % 256) ∷ [];
  })
  play_chore "stand" c
  if_granted reply (give good)

unfoldable pub tokens_do : Verb
tokens_do c = do
  held ← in_hand c
  m ← mod_now c.pointed
  if holds_pointed held c
      then (do
        amount ← choose_amount (pos (denomination m)) c
        if amount == 0 then beeps "no-amount" else split_off amount c)
      else beeps "not-holding"

-- the page of a held paper; a text that is an array is joined by the server's reply type
unfoldable pub read_paper : Ctx → Act Result
read_paper c = do
  reply ← send_message (record (message "READ" c.pointed.ref) { fields = ("page", 0) ∷ [] })
  given reply (beeps "server-denied") λ r. do says r.text (noid_of c.actor); give (said r.text)

unfoldable pub paper_do : Verb
paper_do c =
    held_or_depends c
      (if c.setting.has_reader then request (show_pages c.pointed.noid true) else read_paper c)

-- whether the pointed object is on our body
unfoldable pub on_me : Ctx → World → Bool
on_me c w = elim c.actor [ none ↦ false | some a ↦ str_eq (now c.pointed w).container_ref a.ref ]

-- the avatar that has the head, unless it holds it in its hands
unfoldable pub head_bearer : Ctx → World → Option Object
head_bearer c w = elim (get_by_ref w (now c.pointed w).container_ref) [
  | none ↦ none
  | some k ↦ if is_num (noid_of (holding w k.noid)) c.pointed.noid then none else some k
]

unfoldable pub head_do : Verb
head_do c = do
  mine ← look (on_me c)
  bearer ← look (head_bearer c)
  if mine then (given bearer (beeps "head-in-hand") λ k. c.do_action_on 0 k c.args) else c.depends

unfoldable pub head_talk : Verb
head_talk c = do
  mine ← look (on_me c)
  if mine
      then (given c.actor (generic_broadcast c) λ a. c.do_action_on 6 a c.args)
      else generic_broadcast c

unfoldable pub game_piece_do : Verb
game_piece_do c = do
  reply ← send_message (message "KING" c.pointed.ref)
  given (reply_field "state" reply) (beeps "server-denied") λ st. do
    write c.pointed (λ m. record m { gr_state = some st })
    redraws c.pointed.noid
    give (with_number st)

unfoldable pub telekenesis_get : Verb
telekenesis_get c = do
  held ← in_hand c
  if is_some held then beeps "hands-full" else (do
    play_chore "hand_out" c
    reply ← send_message (message "GET" c.pointed.ref)
    play_chore "hand_back" c
    if_granted reply do take_up c.pointed.noid hands c; give good)

unfoldable pub touch : Ctx → Act Result
touch c = do
  held ← in_hand c
  near ← look (is_adjacent c c.pointed.noid)
  if is_some held || not near then c.depends else (do
    play_chore "hand_out" c
    send_message (record (message "TOUCH" "ME") { fields = ("target", c.pointed.noid) ∷ [] })
    give good)

unfoldable pub avatar_do : Verb
avatar_do c = given c.actor (beeps "not-in-region") λ a.
    if c.pointed.noid == a.noid
    then (do
      held ← in_hand c
      given held (beeps "nothing-to-do") λ item. c.do_action_on 0 item c.args)
    else touch c

-- furniture.js
unfoldable pub get_up_at : Ctx → World → Place
get_up_at c w = elim (goto_spot c c.pointed.noid w) [
  | none ↦ record { x = (now c.pointed w).mod_.x; y = (now c.pointed w).mod_.y }
  | some p ↦ record { x = some p.x; y = some p.y }
]

-- `y | 0x80`
unfoldable pub raised : Option ℕ → Option ℕ
raised none = some 128
raised (some y) = some (if y / 128 % 2 == 0 then y + 128 else y)

unfoldable pub settle : Object → ℕ → Ctx → Act (Unit {0})
settle me p c = do
  write me (λ m. record m { activity = some p })
  strike_posture p c
  show (state_changed me.noid)

unfoldable pub sit_or_stand : ℕ → Ctx → Act (Option Reply)
sit_or_stand up c = send_message (record (message "SITORSTAND" "ME") {
  fields = ("up_or_down", up) ∷ ("seat_id", c.pointed.noid) ∷ [];
})

unfoldable pub stand_up : Object → Ctx → Act Result
stand_up a c = do
  reply ← sit_or_stand 0 c
  if_granted reply do
    p ← look (get_up_at c)
    carry (some a.noid) (some the_region) p.x (raised p.y)
    settle a 129 c
    give (standing_as "standing")

-- the pose for the style of the seat
unfoldable pub pose_on : Mod → ℕ
pose_on m = if or_zero m.style % 2 == 0 then 157 else 133

unfoldable pub sit_in : Object → Ctx → Act Result
sit_in a c = do
  reply ← sit_or_stand 1 c
  if_granted reply do
    carry (some a.noid) (some c.pointed.noid) (some 0) (some (or_zero (reply_field "slot" reply)))
    m ← mod_now c.pointed
    settle a (pose_on m) c
    give (standing_as "sitting")

unfoldable pub approach_seat : Object → Ctx → Act Result
approach_seat a c = do
  went ← c.do_action 2 (record no_args { fields = ("goOnly", 1) ∷ [] })
  if_ok went do
    wait_walk
    if is_some (arg "up_or_down" c) then sit_in a c else give (standing_as "walking")

-- `up_or_down` tells what to do; without it, whether we sit
unfoldable pub gets_up : Ctx → World → Bool
gets_up c w = elim (arg "up_or_down" c) [ none ↦ is_seated c w | some n ↦ n == 0 ]

unfoldable pub generic_go_to_furniture : Verb
generic_go_to_furniture c = given c.actor (beeps "not-in-region") λ a.
    if truthy (arg "goOnly" c) then walk_up_to c c.pointed.noid else do
      up ← look (gets_up c)
      near ← look (is_adjacent c c.pointed.noid)
      if up then stand_up a c else if near then sit_in a c else approach_seat a c

unfoldable pub generic_go_to_and_fill : Verb
generic_go_to_and_fill c = do
  held ← in_hand c
  given held (beeps "not-holding-bottle") λ bottle.
      if str_eq bottle.type "Bottle"
      then go_then c (do
        play_chore "bend_over" c
        reply ← send_message (message "FILL" bottle.ref)
        play_chore "bend_back" c
        if_granted reply
            do write bottle (λ m. record m { filled = some 1 }); redraws bottle.noid; give good)
      else beeps "not-holding-bottle"

-- die_do.js: a reply that is not there throws
unfoldable pub die_do : Verb
die_do c = do
  redraws_state c.pointed.noid 0
  play_sound "MAGIC" c.pointed.noid
  reply ← send_message (message "ROLL" c.pointed.ref)
  given reply fail_hard λ r.
      given (reply_field "ROLL_STATE" (some r)) (beeps "server-denied")
        λ v. do changes_state c.pointed.noid v; give (with_number v)
