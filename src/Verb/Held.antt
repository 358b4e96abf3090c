-- ===== src/Verb/Held.antt =====
-- The verbs of devices.js and consumables.js: switches, reading, heavy things, bottles, drugs, toys,
-- guns and payments.
use neohabitat.Prelude.{
  ℕ, ◌+◌, ◌-◌, ◌/◌, ◌%◌, pos, negsuc, String, Bool, true, false, not, ◌&&◌, ◌||◌, Option, none,
  some, List, [], ◌∷◌, ◌==◌, str_eq, if◌then◌else◌, leb, ltb, or_zero, or_num, get_or, truthy,
  is_num, is_some,
}
use neohabitat.World.Object.{Object, Mod, World, named_image}
use neohabitat.World.Table.{get}
use neohabitat.World.Contents.{holding}
use neohabitat.Host.Machines.{denomination}
use neohabitat.Verb.Program.{
  Reply, Result, good, with_number, with_text, said, show_pages, Act, ◌>>=◌, ◌>>◌, give, look,
  given, fail_hard, request, show, write, skip, delete,
}
use neohabitat.Verb.Context.{
  Ctx, Verb, arg, mod_now, in_hand, beeps, play_sound, noid_of, play_chore, redraws, says,
  shows_page, changes_light, reply_field, send_message, message, if_granted,
}
use neohabitat.Verb.Walking.{walk_to, goto_spot, is_adjacent, wait_walk, go_then}
use neohabitat.Verb.Carrying.{bend_and_get}
use neohabitat.Verb.Things.{holds_pointed, held_or_depends, choose_amount}

-- `switchToggle`
unfoldable pub light_of : Bool → ℕ → Act (Unit {0})
light_of lights on = if lights then changes_light (if on == 0 then negsuc 0 else pos 1) else skip

unfoldable pub switch_to : ℕ → Bool → Ctx → Act Result
switch_to on lights c = do
  play_sound (if on == 0 then "SWITCHED_OFF" else "SWITCHED_ON") c.pointed.noid
  reply ← send_message (message (if on == 0 then "OFF" else "ON") c.pointed.ref)
  if_granted reply do
    write c.pointed (λ m. record m { on = some on })
    redraws c.pointed.noid
    light_of lights on
    give good

unfoldable pub switch_toggle : Bool → Ctx → Act Result
switch_toggle lights c = do
  m ← mod_now c.pointed
  switch_to (if or_zero m.on == 0 then 1 else 0) lights c

unfoldable pub generic_switch : Verb
generic_switch c = held_or_depends c (switch_toggle false c)

unfoldable pub click_and_toggle : Ctx → Act Result
click_and_toggle c = do play_sound "SWITCH_CLICK" c.pointed.noid; switch_toggle true c

unfoldable pub flashlight_do : Verb
flashlight_do c = held_or_depends c (click_and_toggle c)

unfoldable pub floor_lamp_do : Verb
floor_lamp_do c =
    go_then c
      do near ← look (is_adjacent c c.pointed.noid); if near then click_and_toggle c else c.depends

-- `decodeRead`: the codes of a page, blanks before a line's end and at the page's end cut off
unfoldable pub printable : ℕ → ℕ
printable b = if leb 32 b && leb b 127 then b else if b == 10 then 10 else 32

unfoldable pub ends_line : List ℕ → Bool
ends_line [] = false
ends_line (b ∷ l) = b == 10

unfoldable pub cut_lines : List ℕ → List ℕ
cut_lines [] = []
cut_lines (b ∷ l) =
    let rest = cut_lines l in
    if printable b == 32 && ends_line rest then rest else printable b ∷ rest

unfoldable pub is_blank : ℕ → Bool
is_blank b = b == 32 || b == 10

unfoldable pub cut_end : List ℕ → List ℕ
cut_end [] = []
cut_end (b ∷ l) = elim (cut_end l) [
  | [] ↦ if is_blank b then [] else b ∷ []
  | (d ∷ rest) ↦ b ∷ d ∷ rest
]

unfoldable pub decode_bytes : List ℕ → List ℕ
decode_bytes bytes = cut_end (cut_lines bytes)

-- shown, and given back
unfoldable pub show_bytes : List ℕ → Act Result
show_bytes bytes = do shows_page (decode_bytes bytes); give (with_text (decode_bytes bytes))

unfoldable pub show_text : Option String → Ctx → Act Result
show_text none c = show_bytes []
show_text (some t) c = do says (some t) (noid_of c.actor); give (said (some t))

-- the codes, if there are any, else the text
unfoldable pub show_ascii : List ℕ → Reply → Ctx → Act Result
show_ascii [] r c = show_text r.text c
show_ascii (b ∷ l) r c = show_bytes (b ∷ l)

unfoldable pub show_read : Reply → Ctx → Act Result
show_read r c = show_ascii (get_or r.ascii []) r c

unfoldable pub read_once : Ctx → Act Result
read_once c = do
  reply ← send_message (message "READ" c.pointed.ref)
  given reply (beeps "server-denied") λ r. show_read r c

unfoldable pub generic_read : Verb
generic_read c =
    held_or_depends c
      (if c.setting.has_reader then request (show_pages c.pointed.noid false) else read_once c)

unfoldable pub next_page : Ctx → Mod → ℕ
next_page c m = get_or (arg "page" c) (elim m.current_page [ none ↦ 1 | some p ↦ p + 1 ])

unfoldable pub read_page : Ctx → Act Result
read_page c = do
  m ← mod_now c.pointed
  reply ←
      send_message (record (message "READ" c.pointed.ref) { fields = ("page", next_page c m) ∷ [] })
  given reply (beeps "server-denied") λ r. do
    write c.pointed (λ f. record f {
      current_page = some (get_or (reply_field "nextpage" reply) (next_page c m));
    })
    show_read r c

unfoldable pub plaque_do : Verb
plaque_do c =
    if c.setting.has_reader then request (show_pages c.pointed.noid false) else read_page c

unfoldable pub book_do : Verb
book_do c = held_or_depends c (plaque_do c)

unfoldable pub generic_get_mass : Verb
generic_get_mass c = do
  held ← in_hand c
  if is_some held
      then beeps "hands-full"
      else go_then c do
        m ← mod_now c.pointed
        if truthy m.mass then beeps "too-heavy" else bend_and_get c.pointed c

-- consumables.js: walk to what is aimed at, if there is a way
unfoldable pub aimed_at : Ctx → World → Option Object
aimed_at c w = elim (arg "target" c) [ none ↦ c.subject | some n ↦ get w n ]

unfoldable pub walk_to_target : Option Object → Ctx → Act (Unit {0})
walk_to_target target c = given target skip λ o. do
  spot ← look (goto_spot c o.noid)
  given spot skip λ p. do walk_to c (some p.x) (some p.y); wait_walk

unfoldable pub pour : Ctx → Act Result
pour c = do
  play_chore "hand_out" c
  reply ← send_message (message "POUR" c.pointed.ref)
  play_chore "hand_back" c
  if_granted reply
      do write c.pointed (λ m. record m { filled = some 0 }); redraws c.pointed.noid; give good

unfoldable pub bottle_rdo : Verb
bottle_rdo c = do
  held ← in_hand c
  if holds_pointed held c
      then (do
        target ← look (aimed_at c)
        walk_to_target target c
        m ← mod_now c.pointed
        if truthy m.filled then pour c else beeps "bottle-empty")
      else beeps "hands-empty"

-- one dose less, and the empties go
unfoldable pub use_dose : Object → ℕ → Act (Unit {0})
use_dose o left = if left == 0 then delete o.noid else write o (λ m. record m { count = some left })

unfoldable pub take_dose : Ctx → Act Result
take_dose c = do
  reply ← send_message (message "TAKE" c.pointed.ref)
  given reply fail_hard λ r.
      if is_num (reply_field "TAKE_SUCCESS" reply) 1
      then (do m ← mod_now c.pointed; use_dose c.pointed (or_num m.count 1 - 1); give good)
      else beeps "server-denied"

unfoldable pub drugs_do : Verb
drugs_do c = held_or_depends c (take_dose c)

unfoldable pub wind : ℕ → ℕ
wind n = if ltb n 4 then n + 1 else 4

-- the reply is not read
unfoldable pub wind_up : Ctx → Act Result
wind_up c = do
  send_message (message "WIND" c.pointed.ref)
  write c.pointed (λ m. record m { wind_level = some (wind (or_zero m.wind_level)) })
  show (named_image c.pointed.noid "WOUND")
  give good

unfoldable pub windup_toy_do : Verb
windup_toy_do c = held_or_depends c (wind_up c)

unfoldable pub set_safety : ℕ → Ctx → Act Result
set_safety on c = do
  write c.pointed (λ m. record m { safety_on = some on })
  play_sound (if on == 0 then "GUN_SAFETY_OFF" else "GUN_SAFETY_ON") c.pointed.noid
  give (with_number on)

unfoldable pub gun_do : Verb
gun_do c =
    held_or_depends c do m ← mod_now c.pointed; set_safety (if truthy m.safety_on then 0 else 1) c

unfoldable pub pay_to : ℕ → Object → Ctx → Act Result
pay_to amount recipient c = do
  play_chore "hand_out" c
  reply ← send_message (record (message "PAYTO" c.pointed.ref) {
    fields =
        ("target_id", recipient.noid)
        ∷ ("amount_lo", amount % 256)
        ∷ ("amount_hi", amount / 256 % 256)
        ∷ [];
  })
  play_chore "hand_back" c
  if_granted reply (give good)

unfoldable pub choose_and_pay : Object → Ctx → Act Result
choose_and_pay recipient c = do
  m ← mod_now c.pointed
  amount ← choose_amount (pos (denomination m)) c
  if amount == 0 then beeps "no-amount" else pay_to amount recipient c

unfoldable pub tokens_rdo : Verb
tokens_rdo c = given c.subject (beeps "no-such-avatar") λ recipient. do
  near ← look (is_adjacent c recipient.noid)
  theirs ← look (λ w. holding w recipient.noid)
  if not (str_eq recipient.type "Avatar")
      then beeps "no-such-avatar"
      else if not near
      then beeps "not-adjacent"
      else if is_some theirs
      then beeps "their-hands-full"
      else choose_and_pay recipient c
