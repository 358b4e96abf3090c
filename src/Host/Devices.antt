-- ===== src/Host/Devices.antt =====
-- The host messages of devices.js and gadgets.js: switches, lights, sensors, cans.
use neohabitat.Prelude.{
  ℕ, ℤ, pos, negsuc, Bool, true, false, ◌||◌, Option, none, some, List, [], ◌∷◌, zero, suc, str_eq,
  if◌then◌else◌, truthy, is_some,
}
use neohabitat.World.Object.{Object, Mod, World}
use neohabitat.World.Table.{get, get?, update}
use neohabitat.Host.Message.{Outcome, ok, threw}
use neohabitat.Host.Context.{
  Handler, chore_at, sound_at, redraw, redraw_state, change_light_by, field_change,
}
use neohabitat.Host.Doors.{purge}

unfoldable pub set_on : ℕ → Mod → Mod
set_on n m = record m { on = some n }

unfoldable pub set_gr_state : Option ℕ → Mod → Mod
set_gr_state s m = record m { gr_state = s }

unfoldable pub gives_light : Object → Bool
gives_light o = str_eq o.type "Flashlight" || str_eq o.type "Floor_lamp"

unfoldable pub light_up : Object → ℕ → ℤ → World → World
light_up o n d w =
    if gives_light o then change_light_by d (update o.noid (set_gr_state (some n)) w) else w

unfoldable pub generic_on : Handler
generic_on c w =
    let o = c.pointed in
    let w1 = light_up o 1 (pos 1) (update o.noid (set_on 1) w) in
    (sound_at "SWITCHED_ON" o.noid (redraw o.noid (field_change o.noid w1)), ok)

unfoldable pub generic_off : Handler
generic_off c w =
    let o = c.pointed in
    let w1 = light_up o 0 (negsuc 0) (update o.noid (set_on 0) w) in
    (sound_at "SWITCHED_OFF" o.noid (redraw o.noid (field_change o.noid w1)), ok)

-- the shared body of `generic_ONLIGHT` and `generic_OFFLIGHT`
unfoldable pub switch_light : ℕ → ℤ → Handler
switch_light n d c w =
    let o = c.pointed in
    let w1 =
      update o.noid (set_gr_state (some n))
        (update o.noid (set_on n) (sound_at "SWITCH_CLICK" o.noid w)) in
    (redraw o.noid (field_change o.noid (change_light_by d w1)), ok)

unfoldable pub generic_onlight : Handler
generic_onlight = switch_light 1 (pos 1)

unfoldable pub generic_offlight : Handler
generic_offlight = switch_light 0 (negsuc 0)

-- `a ?? b` for a number that may be missing
unfoldable pub first_some : Option ℕ → Option ℕ → Option ℕ
first_some none b = b
first_some (some n) b = some n

-- the `gr_state` of the pointed object, as it is now
unfoldable pub gr_state_now : Object → World → Option ℕ
gr_state_now o w = elim (get w o.noid) [ none ↦ o.mod_.gr_state | some r ↦ r.mod_.gr_state ]

unfoldable pub set_state_if : Option ℕ → ℕ → World → World
set_state_if none noid w = w
set_state_if (some s) noid w = field_change noid (update noid (set_gr_state (some s)) w)

unfoldable pub generic_change_state : Handler
generic_change_state c w =
    let o = c.pointed in
    let w1 = set_state_if (first_some c.args.state c.args.new_state) o.noid w in
    (redraw_state o.noid (gr_state_now o w1) w1, ok)

-- magic.js; the three spellings of each field are one here
unfoldable pub button_change_state : Handler
button_change_state c w =
    let o = c.pointed in
    let state = first_some c.args.new_state c.args.state in
    let w1 : World = elim c.args.switcher [ none ↦ w | some s ↦ chore_at "operate" s none w ] in
    (redraw_state o.noid state (set_state_if state o.noid (sound_at "MAGIC" o.noid w1)), ok)

unfoldable pub sensor_scan : Handler
sensor_scan c w =
    let o = c.pointed in
    let detected =
      (if is_some c.args.scan_type then truthy c.args.scan_type else truthy c.args.err) in
    let w1 = set_state_if c.args.scan_type o.noid w in
    (
      redraw o.noid
          (sound_at (if detected then "SENSOR_FOUND_IT" else "SENSOR_DIDNT_FIND_IT") o.noid w1),
      ok,
    )

unfoldable pub after_flush : World × Bool → World × Outcome
after_flush (w, true) = (w, ok)
after_flush (w, false) = (w, threw)

unfoldable pub garbage_can_flush : Handler
garbage_can_flush c w =
    after_flush (purge c.pointed.noid (sound_at "GARBAGE_FLUSH" c.pointed.noid w))

-- `a[i] = v`: a write behind the end extends the array, with holes in between
unfoldable pub put_at : ℕ → ℕ → List (Option ℕ) → List (Option ℕ)
put_at zero v [] = some v ∷ []
put_at zero v (x ∷ l) = some v ∷ l
put_at (suc i) v [] = none ∷ put_at i v []
put_at (suc i) v (x ∷ l) = x ∷ put_at i v l

-- `if (v !== undefined) custom[i] = v`
unfoldable pub set_custom : Option ℕ → ℕ → List (Option ℕ) → List (Option ℕ)
set_custom none i l = l
set_custom (some v) i l = put_at i v l

unfoldable pub respray : Option ℕ → Option ℕ → Mod → Mod
respray c0 c1 m = elim m.custom [
  | none ↦ m
  | some l ↦ record m { custom = some (set_custom c1 1 (set_custom c0 0 l)) }
]

unfoldable pub spray_can_spray : Handler
spray_can_spray c w =
    let w1 = sound_at "SPRAY" c.pointed.noid w in
    elim (get? w1 c.args.sprayee) [
      | none ↦ (w1, ok)
      | some s ↦
          if is_some s.mod_.custom
          then (
            redraw s.noid (
                field_change s.noid
                  (update s.noid (respray c.args.customize_0 c.args.customize_1) w1)),
            ok,
          )
          else (w1, ok)
    ]
