-- ===== src/Verb/Basic.antt =====
-- The verbs of behaviors/index.js: refusals, walking, transit, posture, function keys and talk.
use neohabitat.Prelude.{
  ℕ, pos, ◌+◌, String, Bool, ◌||◌, Option, none, some, [], ◌∷◌, ◌==◌, str_eq, if◌then◌else◌, get_or,
  truthy, is_num,
}
use neohabitat.World.Object.{Object, World, chore, state_changed, face, the_region, ghost_noid}
use neohabitat.World.Table.{get, me}
use neohabitat.World.Contents.{am_ghost, set_me_by_noid}
use neohabitat.Verb.Program.{
  Reply, Out, Result, good, refused, Act, ◌>>=◌, ◌>>◌, give, look, given, change, show, write, skip,
  delete,
}
use neohabitat.Verb.Context.{
  Ctx, Verb, arg, mod_now, in_hand, beeps, boings, play_chore, strike_posture, says, reply_field,
  is_success, send_message, message, put_into, change_region, or_else, if_granted, now,
}
use neohabitat.Verb.Walking.{walk_to, goto_spot, cursor_coords, go_then}

-- `illegal`, `unimplemented` and `boing`; `noEffect` and `generic_destroy`
unfoldable pub illegal : Verb
illegal c = boings ""

unfoldable pub no_effect : Verb
no_effect c = beeps ""

unfoldable pub generic_cease : Verb
generic_cease c = give good

unfoldable pub generic_depends : Verb
generic_depends c = c.depends

-- walk to a place of our own choosing; a walk that fails has no effect on the result
unfoldable pub walk_up_to : Ctx → ℕ → Act Result
walk_up_to c noid = do
  spot ← look (goto_spot c noid)
  given spot (beeps "no-walk-target") λ p. do walk_to c (some p.x) (some p.y); give good

unfoldable pub generic_go_to : Verb
generic_go_to c = walk_up_to c c.pointed.noid

unfoldable pub generic_go_to_cursor : Verb
generic_go_to_cursor c = do p ← look (cursor_coords c); walk_to c (some p.x) (some p.y); give good

unfoldable pub generic_go_to_or_pass_through : Verb
generic_go_to_or_pass_through c =
    if truthy (arg "passThrough" c)
    then (do m ← mod_now c.pointed; walk_to c m.x m.y; change_region c "up")
    else walk_up_to c c.pointed.noid

unfoldable pub sits : Option ℕ → Bool
sits p = is_num p 132 || is_num p 133 || is_num p 157

-- the announcement of a posture of ours, when the server takes it
unfoldable pub take_posture : Ctx → Object → ℕ → Act Result
take_posture c a p = do
  reply ← send_message (record (message "POSTURE" a.ref) { fields = ("pose", p) ∷ [] })
  if_granted reply do
    write a (λ m. record m { activity = some p })
    strike_posture p c
    show (state_changed a.noid)
    give good

unfoldable pub avatar_go : Verb
avatar_go c = given c.actor (walk_up_to c c.pointed.noid) λ a.
    if c.pointed.noid == a.noid
    then (do m ← mod_now a; take_posture c a (if sits m.activity then 129 else 132))
    else walk_up_to c c.pointed.noid

-- GESTURE_CHORE
unfoldable pub gesture_chore : ℕ → String
gesture_chore g =
    if g == 141
    then "wave"
    else if g == 136
    then "point"
    else if g == 148
    then "gimme"
    else if g == 139
    then "jump"
    else if g == 146
    then "stand_front"
    else if g == 143
    then "stand_back"
    else if g == 134
    then "bend_over"
    else if g == 135
    then "bend_back"
    else if g == 140
    then "punch"
    else if g == 142
    then "frown"
    else "undefined"

-- The pose is taken before the server is asked.
unfoldable pub do_gesture : ℕ → Verb
do_gesture g c = given c.actor (give (refused "no-actor")) λ a. do
  write a (λ m. record m { activity = some g })
  if g == 146 || g == 143
      then strike_posture g c
      else show (chore (gesture_chore g) a.noid (some g))
  show (state_changed a.noid)
  reply ← send_message (record (message "POSTURE" a.ref) { fields = ("pose", g) ∷ [] })
  if_granted reply (give good)

unfoldable pub fn_key_pressed : ℕ → ℕ → Verb
fn_key_pressed key target c = given c.actor (give (refused "no-actor")) λ a. do
  reply ←
      send_message
        (record (message "FNKEY" a.ref) { fields = ("key", key) ∷ ("target", target) ∷ [] })
  if is_success reply then give good else boings "fnkey-failed"

unfoldable pub reply_text : Option Reply → Option String
reply_text none = none
reply_text (some r) = r.text

unfoldable pub ask_for_help : Option Object → Act Result
ask_for_help target = given target (give (refused "no-target")) λ o. do
  reply ← send_message (message "HELP" o.ref)
  says (reply_text reply) (some o.noid)
  give good

-- who leaves the table when our body changes
unfoldable pub shed_body : ℕ → ℕ → Option ℕ → Act (Unit {0})
shed_body old success new =
    if is_num new ghost_noid then delete old else if success == 3 then delete ghost_noid else skip

unfoldable pub take_identity : Option ℕ → Act (Unit {0})
take_identity new = given new skip λ n. change (set_me_by_noid n)

unfoldable pub note_balance : Option ℕ → Act (Unit {0})
note_balance balance = do
  m ← look me
  given balance skip λ b. given m skip λ o. write o (λ f. record f { bank_balance = some (pos b) })

unfoldable pub change_body : ℕ → Option Reply → Act Result
change_body old reply =
    if truthy (reply_field "success" reply)
    then (do
      shed_body old (get_or (reply_field "success" reply) 0) (reply_field "newNoid" reply)
      take_identity (reply_field "newNoid" reply)
      note_balance (reply_field "balance" reply)
      give good)
    else boings "corporeality-denied"

unfoldable pub toggle_ghost_mode : Verb
toggle_ghost_mode c = given c.actor (give (refused "no-actor")) λ a. do
  ghostly ← look am_ghost
  ghost ← look (λ w. get w ghost_noid)
  if ghostly
      then (given ghost (boings "no-ghost-object")
          λ g. do reply ← send_message (message "CORPORATE" g.ref); change_body a.noid reply)
      else do reply ← send_message (message "DISCORPORATE" a.ref); change_body a.noid reply

unfoldable pub sky_go : Verb
sky_go c = do p ← look (cursor_coords c); walk_to c (some p.x) (some p.y); change_region c "up"

-- `args.x`, or where the actor is
unfoldable pub wall_x : Ctx → World → Option ℕ
wall_x c w = or_else (arg "x" c) (elim c.actor [ none ↦ some 80 | some a ↦ (now a w).mod_.x ])

unfoldable pub wall_go : Verb
wall_go c = do x ← look (wall_x c); m ← mod_now c.pointed; walk_to c x m.y; give good

unfoldable pub trap_go : Verb
trap_go c = do
  m ← mod_now c.pointed
  c.do_action (8 + get_or (or_else m.flat_type m.trapezoid_type) 0) c.args

-- bend over, put the held thing at the cursor, bend back
unfoldable pub drop_at_cursor : Ctx → Act Result
drop_at_cursor c = do
  show face
  play_chore "bend_over" c
  p ← look (cursor_coords c)
  result ← put_into c the_region (some p.x) (some p.y) none
  play_chore "bend_back" c
  give result

unfoldable pub trap_put : Verb
trap_put c = do
  held ← in_hand c
  m ← mod_now c.pointed
  given held (beeps "hands-empty") λ item.
      if item.noid == c.pointed.noid
      then beeps "drop-onto-self"
      else if is_num m.flat_type 2
      then go_then c (drop_at_cursor c)
      else beeps "not-ground"

-- what `args.text` says, if it says anything
unfoldable pub spoken : Ctx → Option String
spoken c = elim c.args.text [ none ↦ none | some t ↦ if str_eq t "" then none else some t ]

unfoldable pub speech : String → Out
speech t = record (message "SPEAK" "ME") { fields = ("esp", 0) ∷ []; text = some t }

-- `generic_broadcast`, `avatar_talk` and `jukebox_talk`
unfoldable pub generic_broadcast : Verb
generic_broadcast c =
    given (spoken c) (beeps "nothing-to-say") λ t. do send_message (speech t); give good

-- `GoToNewRegion` and `transit_region`
unfoldable pub transit_region : Verb
transit_region c = change_region c (get_or c.args.direction "up")
