-- ===== src/Verb/Openables.antt =====
-- generic_adjacentOpenClose.js and containers.js: opening, closing, picking from and dropping into.
use neohabitat.Prelude.{
  ℕ, ◌+◌, ◌*◌, ◌/◌, ◌%◌, String, Bool, true, false, not, ◌&&◌, ◌||◌, Option, none, some, List, [],
  ◌∷◌, ◌==◌, str_eq, if◌then◌else◌, or_zero, is_some, find,
}
use neohabitat.World.Object.{Object, Mod, field_changed, face, hands, open_unlocked, set_open_flags}
use neohabitat.World.Contents.{contents_of}
use neohabitat.Host.Doors.{purge}
use neohabitat.Verb.Program.{
  Result, good, refused, pick, Act, ◌>>=◌, ◌>>◌, give, look, given, request, show, write,
  after_delete,
}
use neohabitat.Verb.Context.{
  Ctx, Verb, arg, mod_now, in_hand, beeps, boings, play_sound, play_chore, redraws, says_line,
  is_success, send_message, message, put_into, if_granted,
}
use neohabitat.Verb.Walking.{is_adjacent, go_then}
use neohabitat.Verb.Carrying.{take_up, is_contained}

-- `a === b` for numbers that may be missing
unfoldable pub same_num : Option ℕ → Option ℕ → Bool
same_num none none = true
same_num none (some b) = false
same_num (some a) none = false
same_num (some a) (some b) = a == b

-- `flags & OPEN_BIT` and `flags & UNLOCKED_BIT`
unfoldable pub is_open : ℕ → Bool
is_open flags = not (flags % 2 == 0)

unfoldable pub is_unlocked : ℕ → Bool
is_unlocked flags = not (flags / 2 % 2 == 0)

-- the flags of what is closed: locked with the key, else unlocked
unfoldable pub closed_flags : Bool → ℕ → ℕ
closed_flags key flags = if key then flags / 4 * 4 else flags / 4 * 4 + 2

unfoldable pub fits : Option Object → Mod → Mod → Bool
fits none k m = false
fits (some item) k m =
    str_eq item.type "Key" && same_num k.key_number_hi m.key_hi && same_num k.key_number_lo m.key_lo

-- whether what is held is the key of the pointed object
unfoldable pub have_key : Option Object → Ctx → Act Bool
have_key held c = do
  m ← mod_now c.pointed
  given held (give false) λ item. do k ← mod_now item; give (fits held k m)

unfoldable pub put_flags : Object → ℕ → Act (Unit {0})
put_flags o flags = do
  write o (set_open_flags flags)
  show (field_changed o.noid none)
  redraws o.noid

unfoldable pub close_door : Bool → ℕ → Ctx → Act Result
close_door key flags c = do
  play_chore "hand_out" c
  reply ← send_message (message "CLOSE" c.pointed.ref)
  play_chore "hand_back" c
  if is_success reply
      then (do
        play_sound "EXIT_CLOSING" c.pointed.noid
        put_flags c.pointed (closed_flags key flags)
        give good)
      else boings "server-denied"

unfoldable pub open_door : Ctx → Act Result
open_door c = do
  play_chore "hand_out" c
  reply ← send_message (message "OPEN" c.pointed.ref)
  play_chore "hand_back" c
  if_granted reply
      do play_sound "EXIT_OPENING" c.pointed.noid; put_flags c.pointed open_unlocked; give good

unfoldable pub locked : Ctx → Act Result
locked c = do says_line "It's locked." c; give (refused "locked")

unfoldable pub toggle_door : Option Object → Ctx → Act Result
toggle_door held c = do
  show face
  key ← have_key held c
  m ← mod_now c.pointed
  if is_open (or_zero m.open_flags)
      then close_door key (or_zero m.open_flags) c
      else if is_unlocked (or_zero m.open_flags) || key
      then open_door c
      else locked c

unfoldable pub holds_type : String → Option Object → Bool
holds_type t none = false
holds_type t (some o) = str_eq o.type t

unfoldable pub generic_adjacent_open_close : Verb
generic_adjacent_open_close c = do
  held ← in_hand c
  if holds_type "Changomatic" held
      then c.depends
      else go_then c do
        near ← look (is_adjacent c c.pointed.noid)
        if near then toggle_door held c else c.depends

-- `forEach((o) => _deleteByNoid(o.noid))` over the contents
unfoldable pub empty_out : ℕ → Act (Unit {0})
unfolding after_delete
empty_out noid s = after_delete s.millis (purge noid s.world)

unfoldable pub close_container : Bool → ℕ → Ctx → Act Result
close_container key flags c = do
  play_chore "bend_over" c
  reply ← send_message (message "CLOSECONTAINER" c.pointed.ref)
  play_chore "bend_back" c
  if_granted reply do
    play_sound "CONTAINER_CLOSING" c.pointed.noid
    put_flags c.pointed (closed_flags key flags)
    empty_out c.pointed.noid
    give good

unfoldable pub open_container : Ctx → Act Result
open_container c = do
  play_chore "bend_over" c
  reply ← send_message (message "OPENCONTAINER" c.pointed.ref)
  play_chore "bend_back" c
  if_granted reply
      do play_sound "CONTAINER_OPENING" c.pointed.noid; put_flags c.pointed open_unlocked; give good

unfoldable pub toggle_container : Ctx → Act Result
toggle_container c = do
  held ← in_hand c
  key ← have_key held c
  m ← mod_now c.pointed
  if is_open (or_zero m.open_flags)
      then close_container key (or_zero m.open_flags) c
      else if is_unlocked (or_zero m.open_flags) || key
      then open_container c
      else locked c

unfoldable pub generic_adjacent_open_close_container : Verb
generic_adjacent_open_close_container c = do
  contained ← look (is_contained c.pointed)
  near ← look (is_adjacent c c.pointed.noid)
  if contained then beeps "not-in-region" else if near then toggle_container c else c.depends

-- `pickFromContainer`: the item that is named, or picked, or the first
unfoldable pub with_noid : ℕ → List Object → Option Object
with_noid n l = find (λ o. o.noid == n) l

unfoldable pub first : List Object → Option Object
first [] = none
first (o ∷ l) = some o

unfoldable pub choose : List Object → Ctx → Act (Option Object)
choose l c =
    given (arg "itemNoid" c)
      (if c.setting.has_picker
        then (do
          picked ← request (pick c.pointed.noid)
          given picked (give none) λ n. give (with_noid n l))
        else give (first l))
      λ n. give (with_noid n l)

unfoldable pub pick_from_container : Ctx → Act (Option Object)
pick_from_container c = do
  l ← look (λ w. contents_of w c.pointed.noid)
  given (first l) (give none) λ o. choose l c

unfoldable pub get_target : Object → Ctx → Act Result
get_target target c = do
  reply ← send_message (message "GET" target.ref)
  play_chore "bend_back" c
  if_granted reply do take_up target.noid hands c; give good

-- an empty container, or a choice that was called off
unfoldable pub nothing_picked : Ctx → Act Result
nothing_picked c = do
  play_chore "bend_back" c
  l ← look (λ w. contents_of w c.pointed.noid)
  if is_some (first l) then give (refused "cancelled") else beeps "container-empty"

unfoldable pub pick_target : Bool → Ctx → Act Result
pick_target whole c = do
  play_chore "bend_over" c
  if whole
      then get_target c.pointed c
      else (do item ← pick_from_container c; given item (nothing_picked c) λ t. get_target t c)

unfoldable pub pick_from : Bool → Bool → Verb
pick_from require_open or_get c = do
  held ← in_hand c
  if is_some held
      then beeps "hands-full"
      else go_then c do
        m ← mod_now c.pointed
        if require_open && not (is_open (or_zero m.open_flags))
            then beeps "container-closed"
            else pick_target (or_get && not (is_open (or_zero m.open_flags))) c

unfoldable pub generic_go_to_and_pick_from : Verb
generic_go_to_and_pick_from = pick_from false false

unfoldable pub generic_go_to_and_pick_from_if_open : Verb
generic_go_to_and_pick_from_if_open = pick_from true false

unfoldable pub generic_go_to_and_pick_from_or_get : Verb
generic_go_to_and_pick_from_or_get = pick_from false true

unfoldable pub drop_in : Ctx → Act Result
drop_in c = do
  play_chore "bend_over" c
  result ← put_into c c.pointed.noid (some 0) (some 0) none
  play_chore "bend_back" c
  give result

unfoldable pub drop_into : Bool → Verb
drop_into require_open c = do
  held ← in_hand c
  given held (beeps "hands-empty") λ item.
      if item.noid == c.pointed.noid
      then beeps "drop-onto-self"
      else go_then c do
        m ← mod_now c.pointed
        if require_open && not (is_open (or_zero m.open_flags))
            then beeps "container-closed"
            else drop_in c

unfoldable pub generic_go_to_and_drop_into : Verb
generic_go_to_and_drop_into = drop_into false

unfoldable pub generic_go_to_and_drop_into_if_open : Verb
generic_go_to_and_drop_into_if_open = drop_into true
