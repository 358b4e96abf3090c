-- ===== src/Verb/Carrying.antt =====
-- The verbs that move things between hands, pockets, heads and the ground: generic_goToAndGet.js,
-- generic_goToAndDropAt.js, generic_throw.js, avatar_get.js, avatar_put.js and head_get.js.
use neohabitat.Prelude.{
  ℕ, Bool, not, ◌&&◌, Option, none, some, [], ◌∷◌, ◌==◌, str_eq, if◌then◌else◌, ltb, get_or, truthy,
  is_num, is_some, find,
}
use neohabitat.World.Object.{Object, World, named_image, hands, head, the_region}
use neohabitat.World.Table.{get, get?, get_by_ref}
use neohabitat.World.Contents.{contents_of, holding}
use neohabitat.Host.Inventory.{face_front}
use neohabitat.Verb.Program.{
  Result, good, refused, pick, Act, ◌>>=◌, ◌>>◌, give, look, given, fail_hard, request, show, write,
  carry,
}
use neohabitat.Verb.Context.{
  Ctx, Verb, arg, now, in_hand, beeps, play_sound, noid_of, play_chore, reply_field, is_success,
  send_message, message, put_into, or_else, if_granted,
}
use neohabitat.Verb.Walking.{go_then}
use neohabitat.Verb.Basic.{drop_at_cursor}

-- `ctx.changeContainers(item.noid, ctx.actor.noid, 0, slot)`
unfoldable pub take_up : ℕ → ℕ → Ctx → Act (Unit {0})
take_up item slot c =
    given c.actor fail_hard λ a. carry (some item) (some a.noid) (some 0) (some slot)

-- bend over, ask for the item, and take it when the server grants it
unfoldable pub bend_and_get : Object → Ctx → Act Result
bend_and_get item c = do
  play_chore "bend_over" c
  reply ← send_message (message "GET" item.ref)
  play_chore "bend_back" c
  if_granted reply do take_up item.noid hands c; give good

-- here the chore follows the change of containers
unfoldable pub generic_go_to_and_get : Verb
generic_go_to_and_get c = do
  held ← in_hand c
  if is_some held
      then beeps "hands-full"
      else go_then c do
        play_chore "bend_over" c
        reply ← send_message (message "GET" c.pointed.ref)
        if is_success reply
            then (do take_up c.pointed.noid hands c; play_chore "bend_back" c; give good)
            else do play_chore "bend_back" c; beeps "server-denied"

unfoldable pub generic_go_to_and_drop_at : Verb
generic_go_to_and_drop_at c = do
  held ← in_hand c
  given held (beeps "hands-empty") λ item.
      if item.noid == c.pointed.noid then beeps "drop-onto-self" else go_then c (drop_at_cursor c)

-- `Math.max(8, Math.min(152, x))`
unfoldable pub clamp_x : ℕ → ℕ
clamp_x x = if ltb x 8 then 8 else if ltb 152 x then 152 else x

-- the throw itself, at a surface
unfoldable pub throw_at : ℕ → Ctx → Act Result
throw_at surface c = do
  let x = clamp_x (get_or (arg "x" c) 80)
  let y = get_or (arg "y" c) 144
  play_chore "throw" c
  reply ← send_message (record (message "THROW" c.pointed.ref) {
    fields = ("target", surface) ∷ ("x", x) ∷ ("y", y) ∷ [];
  })
  if_granted reply do
    carry (some c.pointed.noid) (some the_region) (or_else (reply_field "x" reply) (some x))
        (or_else (reply_field "y" reply) (some y))
    write c.pointed face_front
    play_chore "hand_back" c
    give good

unfoldable pub generic_throw : Verb
generic_throw c = do
  held ← in_hand c
  if is_num (noid_of held) c.pointed.noid
      then (given (or_else (arg "target" c) (noid_of c.subject)) (beeps "no-surface")
          λ surface. throw_at surface c)
      else beeps "hands-empty"

-- avatar_get.js. Our own pocket: the item that is named, or that the picker gives.
unfoldable pub named_item : Ctx → World → Option Object
named_item c w = get? w (arg "item" c)

unfoldable pub in_pocket : Object → Object → World → Bool
in_pocket item a w =
    str_eq (now item w).container_ref a.ref
    && not (is_num (now item w).mod_.y hands)
    && not (is_num (now item w).mod_.y head)

unfoldable pub unpocket : Object → Object → Ctx → Act Result
unpocket a item c = do
  mine ← look (in_pocket item a)
  if mine
      then (do
        play_chore "unpocket" c
        reply ← send_message (message "GET" item.ref)
        if_granted reply do
          carry (some item.noid) (some a.noid) (some 0) (some hands)
          play_chore "stand" c
          give good)
      else beeps "not-in-my-pocket"

unfoldable pub pick_and_unpocket : Object → Ctx → Act Result
pick_and_unpocket a c =
    if c.setting.has_picker
    then (do
      picked ← request (pick a.noid)
      given picked (give (refused "cancelled")) λ n. do
        item ← look (λ w. get w n)
        given item (beeps "no-such-pocket-item") λ i. unpocket a i c)
    else beeps "no-such-pocket-item"

unfoldable pub worn_head : Object → World → Option Object
worn_head a w = find (λ o. is_num o.mod_.y head) (contents_of w a.noid)

unfoldable pub choose_and_unpocket : Object → Ctx → Act Result
choose_and_unpocket a c = do
  item ← look (named_item c)
  given item (pick_and_unpocket a c) λ i. unpocket a i c

unfoldable pub get_from_self : Object → Ctx → Act Result
get_from_self a c = do
  held ← in_hand c
  worn ← look (worn_head a)
  if is_some held
      then beeps "hands-full"
      else if is_num (arg "pointedAtLimb" c) 3
      then (given worn (choose_and_unpocket a c) λ h. c.do_action_on 4 h c.args)
      else choose_and_unpocket a c

-- `!reply || !reply.item_noid`
unfoldable pub grab : Ctx → Act Result
grab c = do
  play_chore "hand_out" c
  reply ← send_message (message "GRAB" c.pointed.ref)
  play_chore "hand_back" c
  if truthy (reply_field "item_noid" reply)
      then (do take_up (get_or (reply_field "item_noid" reply) 0) hands c; give good)
      else beeps "server-denied"

unfoldable pub get_from_other : Ctx → Act Result
get_from_other c = do
  held ← in_hand c
  theirs ← look (λ w. holding w c.pointed.noid)
  if is_some held
      then beeps "hands-full"
      else given theirs (beeps "their-hands-empty") λ item. go_then c (grab c)

unfoldable pub avatar_get : Verb
avatar_get c =
    given c.actor (get_from_other c)
      λ a. if c.pointed.noid == a.noid then get_from_self a c else get_from_other c

-- avatar_put.js. Onto ourselves: drop into a named container, wear a head, or pocket.
unfoldable pub pocket : Object → Ctx → Act Result
pocket a c = do play_chore "unpocket" c; put_into c a.noid (some 0) (some 0) none

unfoldable pub wear_or_pocket : Object → Object → Ctx → Act Result
wear_or_pocket a item c = do
  worn ← look (worn_head a)
  if str_eq item.type "Head" && not (is_some worn)
      then (do
        play_chore "unpocket" c
        reply ← send_message (message "WEAR" item.ref)
        if is_success reply
            then (do
              play_sound "CLOTHES_DONNED" a.noid
              carry (some item.noid) (some a.noid) (some 0) (some head)
              give good)
            else pocket a c)
      else pocket a c

unfoldable pub put_on_self : Object → Object → Ctx → Act Result
put_on_self a item c = given (arg "containerNoid" c) (wear_or_pocket a item c) λ container. do
  play_chore "bend_over" c
  result ←
      put_into c container (some (get_or (arg "x" c) 0)) (some (get_or (arg "y" c) 0))
        (arg "orientation" c)
  play_chore "bend_back" c
  give result

unfoldable pub hand_over : Object → Ctx → Act Result
hand_over item c = go_then c (
    if str_eq item.type "Tokens" then c.depends else do
      play_chore "hand_out" c
      reply ← send_message (message "HAND" c.pointed.ref)
      play_chore "hand_back" c
      if_granted reply
          do carry (some item.noid) (some c.pointed.noid) (some 0) (some hands); give good)

unfoldable pub avatar_put : Verb
avatar_put c = do
  held ← in_hand c
  given held (beeps "hands-empty") λ item.
      given c.actor (hand_over item c)
        λ a. if c.pointed.noid == a.noid then put_on_self a item c else hand_over item c

-- head_get.js
unfoldable pub doff : Object → Ctx → Act Result
doff a c = do
  reply ← send_message (message "REMOVE" c.pointed.ref)
  if_granted reply do
    play_sound "CLOTHES_DOFFED" a.noid
    play_chore "stand" c
    show (named_image c.pointed.noid "HEAD_OFF")
    carry (some c.pointed.noid) (some a.noid) (some 0) (some hands)
    give good

unfoldable pub is_contained : Object → World → Bool
is_contained o w =
    not (str_eq (now o w).container_ref "") && not (str_eq (now o w).container_ref w.region.ref)

-- our own avatar, if it wears the head
unfoldable pub wearer : Ctx → World → Option Object
wearer c w = elim (get_by_ref w (now c.pointed w).container_ref) [
  | none ↦ none
  | some k ↦
      if str_eq k.type "Avatar"
        && is_num (noid_of c.actor) k.noid
        && is_num (now c.pointed w).mod_.y head
      then some k
      else none
]

unfoldable pub head_get : Verb
head_get c = do
  contained ← look (is_contained c.pointed)
  by ← look (wearer c)
  held ← in_hand c
  if contained
      then (if is_some held
          then beeps "head-not-takeable"
          else given by (beeps "head-not-takeable") λ a. doff a c)
      else if is_some held
      then beeps "hands-full"
      else go_then c (bend_and_get c.pointed c)
