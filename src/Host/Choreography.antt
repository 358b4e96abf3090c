-- ===== src/Host/Choreography.antt =====
-- avatar_choreography_host.js: messages that only play chores, sounds and balloons, and the
-- APPEARING_$ that shows an avatar.
use neohabitat.Prelude.{
  ℕ, ◌+◌, ◌-◌, ◌/◌, ◌%◌, String, Bool, ◌||◌, not, Option, none, some, List, [], ◌∷◌, ◌==◌, str_eq,
  if◌then◌else◌, or_zero, get_or, truthy, is_some, get_elem?, leb,
}
use neohabitat.World.Object.{Object, Mod, World, balloon, state_changed, the_region, empty_mod}
use neohabitat.World.Table.{get, get?, update, emit}
use neohabitat.World.Contents.{holding}
use neohabitat.Host.Message.{ok}
use neohabitat.Host.Context.{Ctx, Handler, chore_at, sound_at}

-- the sounds of a class, from the generated table of classes.js
module _ (class_sounds : String → List String) where
  -- with a `sfx_number` of 128 and more the next entry, its pulse-width track, is played too
  unfoldable pub sound_keys_at : List String → ℕ → List String
  sound_keys_at table n = elim (get_elem? table (n % 128)) [
    | none ↦ []
    | some key ↦
        if leb 128 n
        then elim (get_elem? table (n % 128 + 1)) [ none ↦ key ∷ [] | some pw ↦ key ∷ pw ∷ [] ]
        else key ∷ []
  ]

  unfoldable pub sound_keys_for_sfx : Option Object → Option ℕ → List String
  sound_keys_for_sfx none n = []
  sound_keys_for_sfx (some rec) none = []
  sound_keys_for_sfx (some rec) (some n) = sound_keys_at (class_sounds rec.type) n

  unfoldable pub play_all : List String → ℕ → World → World
  play_all [] noid w = w
  play_all (k ∷ ks) noid w = play_all ks noid (sound_at k noid w)

-- the record that stands for the region, which is not in the table
abbrev pub region_stub : Object
region_stub = record {
  life = 0;
  noid = the_region;
  ref = "";
  name = "";
  type = "Region";
  mod_ = empty_mod;
  container_ref = "";
}

unfoldable pub sound_source_record : World → ℕ → Option Object
sound_source_record w noid = if noid == the_region then some region_stub else get w noid

unfoldable pub generic_play : (String → List String) → Handler
generic_play class_sounds c w =
    let source_noid = get_or c.args.from_noid c.pointed.noid in
    let keys =
      sound_keys_for_sfx class_sounds (sound_source_record w source_noid) c.args.sfx_number in
    (play_all class_sounds keys source_noid w, ok)

pub data WeaponChore : Type 0 where
  shoot knife punch : WeaponChore

unfoldable pub weapon_chore_kind : Option Object → WeaponChore
weapon_chore_kind none = punch
weapon_chore_kind (some o) =
    if str_eq o.type "Gun" || str_eq o.type "Stun_gun" || str_eq o.type "Fake_gun"
    then shoot
    else if str_eq o.type "Knife" || str_eq o.type "Club"
    then knife
    else punch

unfoldable pub play_weapon : WeaponChore → ℕ → World → World
play_weapon shoot a w = chore_at "shoot2" a none (sound_at "GUNSHOT" a (chore_at "shoot1" a none w))
play_weapon knife a w = chore_at "knife" a none w
play_weapon punch a w = chore_at "punch" a none w

unfoldable pub play_attack_chore : ℕ → World → World
play_attack_chore attacker w = play_weapon (weapon_chore_kind (holding w attacker)) attacker w

-- `msg.noid ?? ctx.pointed.noid`
unfoldable pub actor_noid : Ctx → ℕ
actor_noid c = get_or c.args.noid c.pointed.noid

unfoldable pub react_to_hit : Option Object → World → World
react_to_hit none w = w
react_to_hit (some t) w = if str_eq t.type "Avatar" then chore_at "get_shot" t.noid none w else w

unfoldable pub avatar_attack : Handler
avatar_attack c w =
    let w1 = play_attack_chore (actor_noid c) w in
    (if truthy c.args.attack_damage then react_to_hit (get? w1 c.args.attack_target) w1 else w1, ok)

unfoldable pub avatar_bash : Handler
avatar_bash c w = (play_attack_chore (actor_noid c) w, ok)

-- `if (text) ctx.balloon(text, …)`
unfoldable pub say : Option String → Option ℕ → World → World
say none speaker w = w
say (some t) speaker w = if str_eq t "" then w else emit (balloon t speaker) w

unfoldable pub generic_speak : Handler
generic_speak c w = (say c.args.text (some c.pointed.noid) w, ok)

-- a balloon without a speaker is the actor's
unfoldable pub generic_object_speak : Handler
generic_object_speak c w =
    (say c.args.text (if is_some c.args.speaker then c.args.speaker else c.actor) w, ok)

unfoldable pub avatar_dig : Handler
avatar_dig c w =
    let a = actor_noid c in
    (chore_at "bend_back" a none (sound_at "DIGGING" a (chore_at "bend_over" a none w)), ok)

unfoldable pub avatar_take : Handler
avatar_take c w =
    let a = actor_noid c in (chore_at "hand_back" a none (chore_at "hand_out" a none w), ok)

-- the sound comes from the escape device, where the avatar holds one
unfoldable pub bugout_noid : Option Object → ℕ → ℕ
bugout_noid none a = a
bugout_noid (some d) a = if str_eq d.type "Escape_device" then d.noid else a

unfoldable pub avatar_bugout : Handler
avatar_bugout c w =
    let a = actor_noid c in (sound_at "ESCAPE_DEVICE_ACTIVATES" (bugout_noid (holding w a) a) w, ok)

-- bit 0x40 of `gr_state`, AVATAR_INVISIBLE
unfoldable pub is_held : Object → Bool
is_held o = not (or_zero o.mod_.gr_state / 64 % 2 == 0)

unfoldable pub show : Mod → Mod
show m = record m { gr_state = some (or_zero m.gr_state - 64) }

unfoldable pub region_appearing : Handler
region_appearing c w = elim (get? w c.args.appearing) [
  | none ↦ (w, ok)
  | some av ↦
      if is_held av then (emit (state_changed av.noid) (update av.noid show w), ok) else (w, ok)
]

unfoldable pub region_wait_for : Handler
region_wait_for c w = (w, ok)
