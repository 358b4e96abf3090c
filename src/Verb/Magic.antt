-- ===== src/Verb/Magic.antt =====
-- The verbs of magic.js and gadgets.js.
use neohabitat.Prelude.{
  ℕ, ◌+◌, Bool, ◌||◌, Option, none, some, [], ◌∷◌, if◌then◌else◌, get_or, truthy, is_num, is_some,
}
use neohabitat.World.Object.{Object, Mod, World, field_changed}
use neohabitat.World.Table.{get}
use neohabitat.Host.Devices.{set_custom}
use neohabitat.Verb.Program.{
  Reply, Result, good, with_number, said, Act, ◌>>=◌, ◌>>◌, give, look, given, fail_hard, show,
  write, skip, delete,
}
use neohabitat.Verb.Context.{
  Ctx, Verb, arg, mod_now, in_hand, beeps, boings, play_sound, noid_of, play_chore, redraws,
  redraws_state, reply_field, is_success, send_message, message, or_else, if_granted,
}
use neohabitat.Verb.Walking.{walk_to, goto_spot, is_adjacent, go_then}
use neohabitat.Verb.Openables.{empty_out, holds_type}
use neohabitat.Verb.Things.{holds_pointed, held_or_depends}
use neohabitat.Verb.Held.{aimed_at, walk_to_target}

-- `args.target`, or the actor
unfoldable pub magic_target : Ctx → Option ℕ
magic_target c = or_else (arg "target" c) (noid_of c.actor)

unfoldable pub send_magic : ℕ → Ctx → Act (Unit {0})
send_magic target c = do
  send_message (record (message "MAGIC" c.pointed.ref) { fields = ("target", target) ∷ [] })
  skip

unfoldable pub cast : Ctx → Act Result
cast c = do
  play_sound "MAGIC" c.pointed.noid
  given (magic_target c) fail_hard λ t. do send_magic t c; give good

unfoldable pub is_magical : Mod → Bool
is_magical m = truthy m.is_magic || truthy m.magic_type

unfoldable pub generic_do_magic : Verb
generic_do_magic c = held_or_depends c (cast c)

unfoldable pub generic_do_magic_if_magic : Verb
generic_do_magic_if_magic c =
    held_or_depends c do m ← mod_now c.pointed; if is_magical m then cast c else beeps "not-magic"

-- at the subject, or at ourselves
unfoldable pub cast_at : Ctx → Act Result
cast_at c = do
  subject ← look (aimed_at c)
  play_chore "point" c
  play_sound "MAGIC" c.pointed.noid
  send_magic (get_or (noid_of subject) (get_or (noid_of c.actor) 0)) c
  give good

unfoldable pub generic_rdo_magic : Verb
generic_rdo_magic = cast_at

unfoldable pub generic_rdo_magic_if_magic : Verb
generic_rdo_magic_if_magic c = do
  m ← mod_now c.pointed
  if is_magical m then cast_at c else beeps "not-magic"

unfoldable pub generic_adjacent_do_magic : Verb
generic_adjacent_do_magic c = go_then c do
  play_chore "operate" c
  given (magic_target c) fail_hard λ t. do
    send_magic t c
    play_sound "MAGIC" c.pointed.noid
    redraws c.pointed.noid
    play_chore "hand_back" c
    give good

-- `resolveAttack`
unfoldable pub resolve_attack : Object → Option Reply → Act Result
resolve_attack victim reply =
    if truthy (reply_field "ATTACK_result" reply)
    then if is_num (reply_field "ATTACK_result" reply) 1
      then (do delete victim.noid; give (said (some "destroyed")))
      else (do
        redraws (get_or (reply_field "ATTACK_target" reply) victim.noid)
        give (
            said (some (if is_num (reply_field "ATTACK_result" reply) 3 then "killed" else "hit"))))
    else boings "missed"

unfoldable pub attacked : Ctx → World → Option Object
attacked c w = elim (arg "pointed_noid" c) [ none ↦ c.subject | some n ↦ get w n ]

unfoldable pub attack : Object → Ctx → Act Result
attack victim c = do
  reply ←
      send_message
        (record (message "ATTACK" c.pointed.ref) { fields = ("pointed_noid", victim.noid) ∷ [] })
  resolve_attack victim reply

unfoldable pub generic_strike : Verb
generic_strike c = do
  victim ← look (attacked c)
  given victim (beeps "no-target") λ v. do
    near ← look (is_adjacent c v.noid)
    if near then (do play_chore "knife" c; attack v c) else beeps "not-adjacent"

unfoldable pub generic_shoot : Verb
generic_shoot c = do
  victim ← look (attacked c)
  given victim (beeps "no-target") λ v. do
    play_chore "shoot1" c
    play_sound "GUNSHOT" c.pointed.noid
    play_chore "shoot2" c
    attack v c

-- gadgets.js
unfoldable pub scan : Ctx → Act Result
scan c = do
  play_sound "SENSOR_SCANNING" c.pointed.noid
  redraws_state c.pointed.noid 1
  reply ← send_message (message "SCAN" c.pointed.ref)
  play_sound (if is_success reply then "SENSOR_FOUND_IT" else "SENSOR_DIDNT_FIND_IT") c.pointed.noid
  redraws_state c.pointed.noid (if is_success reply then 2 else 0)
  give (with_number (if is_success reply then 1 else 0))

unfoldable pub sensor_do : Verb
sensor_do c = held_or_depends c (scan c)

unfoldable pub garbage_can_do : Verb
garbage_can_do c = do
  near ← look (is_adjacent c c.pointed.noid)
  if near
      then (do
        play_sound "GARBAGE_FLUSH" c.pointed.noid
        send_message (message "FLUSH" c.pointed.ref)
        empty_out c.pointed.noid
        give good)
      else c.depends

-- the two bytes of a coloured body, if it has such bytes
unfoldable pub recolor : Option ℕ → Option ℕ → Object → Act (Unit {0})
recolor c0 c1 a = do
  m ← mod_now a
  given m.custom skip λ l. do
    write a (λ f. record f { custom = some (set_custom c1 1 (set_custom c0 0 l)) })
    show (field_changed a.noid none)
    redraws a.noid

unfoldable pub spray : Ctx → Act Result
spray c = do
  play_sound "SPRAY" c.pointed.noid
  reply ←
      send_message
        (record (message "SPRAY" c.pointed.ref) { fields = ("limb", get_or (arg "limb" c) 0) ∷ [] })
  given reply fail_hard λ r.
      if is_num (or_else (reply_field "SPRAY_SUCCESS" reply) (reply_field "success" reply)) 1
      then (do
        given c.actor skip λ a.
            recolor (or_else (reply_field "SPRAY_CUSTOMIZE_0" reply) (reply_field "custom_1" reply))
              (or_else (reply_field "SPRAY_CUSTOMIZE_1" reply) (reply_field "custom_2" reply)) a
        give good)
      else beeps "spray-failed"

unfoldable pub spray_can_do : Verb
spray_can_do c = do held ← in_hand c; if holds_pointed held c then spray c else beeps "not-holding"

unfoldable pub shovel_rdo : Verb
shovel_rdo c = do
  target ← look (aimed_at c)
  walk_to_target target c
  play_chore "bend_over" c
  play_sound "DIGGING" c.pointed.noid
  send_message (message "DIG" c.pointed.ref)
  play_chore "bend_back" c
  give good

unfoldable pub hole_do : Verb
hole_do c = do
  held ← in_hand c
  if holds_type "Shovel" held then go_then c (c.do_action 8 c.args) else c.depends

unfoldable pub turned : Option ℕ → Mod → Mod
turned none m = m
turned (some o) m = record m { orientation = some o }

unfoldable pub changomatic_rdo : Verb
changomatic_rdo c = given c.subject (beeps "no-target") λ target. do
  play_chore "shoot1" c
  play_sound "CHANGOMATIC" c.pointed.noid
  reply ←
      send_message
        (record (message "CHANGE" c.pointed.ref) { fields = ("targetNoid", target.noid) ∷ [] })
  play_chore "shoot2" c
  if_granted reply do
    write target (turned (reply_field "CHANGE_NEW_ORIENTATION" reply))
    redraws target.noid
    give good

unfoldable pub stun : Object → Ctx → Act Result
stun victim c = do
  reply ←
      send_message (record (message "STUN" c.pointed.ref) { fields = ("target", victim.noid) ∷ [] })
  if is_success reply
      then (do play_sound "STUN_GUN_HIT" c.pointed.noid; redraws victim.noid; give good)
      else (do play_sound "STUN_GUN_MISS" c.pointed.noid; beeps "missed")

unfoldable pub stun_gun_rdo : Verb
stun_gun_rdo c = do
  victim ← look (aimed_at c)
  play_chore "shoot1" c
  play_sound "STUN_GUN_FIRE" c.pointed.noid
  play_chore "shoot2" c
  if holds_type "Avatar" victim
      then (given victim (beeps "no-such-avatar") λ v. stun v c)
      else (do play_sound "STUN_GUN_MISS" c.pointed.noid; beeps "no-such-avatar")

unfoldable pub read_mail : Ctx → Act Result
read_mail c = do
  play_chore "hand_out" c
  reply ← send_message (message "READMAIL" c.pointed.ref)
  play_chore "hand_back" c
  write c.pointed (λ m. record m {
    mail_arrived = some (if truthy (reply_field "moremail" reply) then 1 else 0);
  })
  redraws c.pointed.noid
  if is_success reply
      then (do
        play_sound "MAIL_OUT_OF_MAILBOX" c.pointed.noid
        give (with_number (if truthy (reply_field "moremail" reply) then 1 else 0)))
      else beeps "no-mail"

unfoldable pub mailbox_get : Verb
mailbox_get c = do
  held ← in_hand c
  if is_some held then beeps "hands-full" else go_then c (read_mail c)

-- `x + 8` and `y + 2` of a coordinate that may be missing
unfoldable pub shifted : ℕ → Option ℕ → Option ℕ
shifted n none = none
shifted n (some x) = some (x + n)

unfoldable pub generic_enter_or_exit : Verb
generic_enter_or_exit c = do
  spot ← look (goto_spot c c.pointed.noid)
  m ← mod_now c.pointed
  given spot (walk_to c (shifted 8 m.x) (shifted 2 m.y)) λ p. walk_to c (some p.x) (some p.y)
  give good

unfoldable pub generic_test : Verb
generic_test c = beeps "debug-hook-not-ported"
