-- ===== src/Host/State.antt =====
-- state_host.js: the messages about the region and about single fields of objects.
use neohabitat.Prelude.{
  ℕ, zero, map, ◌+◌, ◌-◌, ◌/◌, ◌%◌, pos, ◌+ℤ◌, String, Bool, true, ◌||◌, Option, none, some, List,
  [], ◌∷◌, ◌==◌, str_eq, if◌then◌else◌, or_zero, or_num, get_or, truthy, is_num, is_some, get_elem?,
}
use neohabitat.World.Object.{Object, Mod, World, lighting, field_changed, state_changed, the_region}
use neohabitat.World.Table.{get?, update, emit}
use neohabitat.World.Contents.{change_containers}
use neohabitat.World.Delete.{delete_by_noid}
use neohabitat.Host.Message.{FiddleValue, bytes, number, characters, Msg, ok, fail}
use neohabitat.Host.Context.{Handler, chore_at, sound_at, redraw, then_ok, field_change}

-- `values`; a text is one value, that is no number
unfoldable pub values_of : FiddleValue → List (Option ℕ)
values_of (bytes l) = map some l
values_of (number n) = some n ∷ []
values_of (characters l) = none ∷ []

-- `values[i]`, for a field of numbers: a value that is not there, or that is a text, is no number
unfoldable pub value_at : ℕ → List (Option ℕ) → Option ℕ
value_at i l = elim (get_elem? l i) [ none ↦ none | some v ↦ v ]

-- `values[i] || 0`; a text that is not empty stays, and is no number
unfoldable pub denom_value : ℕ → FiddleValue → Option ℕ
denom_value i (bytes l) = some (or_zero (get_elem? l i))
denom_value i (number n) = some (or_zero (get_elem? (n ∷ []) i))
denom_value zero (characters (a ∷ l)) = none
denom_value i (characters l) = some 0

-- the text of a poster, as the codes of its characters
unfoldable pub text_of : FiddleValue → List ℕ
text_of (bytes l) = l
text_of (number n) = n ∷ []
text_of (characters l) = l

unfoldable pub is_poster : Object → Bool
is_poster o = str_eq o.type "Sign" || str_eq o.type "Short_sign"

unfoldable pub set_text : List ℕ → Mod → Mod
set_text t m = record m { ascii = some t; text = some t }

unfoldable pub set_denom : FiddleValue → Mod → Mod
set_denom v m = record m { denom_lo = denom_value 0 v; denom_hi = denom_value 1 v }

-- FIDDLE_FIELDS: offsets 7 to 10
unfoldable pub set_field : ℕ → Option ℕ → Mod → Mod
set_field offset v m =
    if offset == 7
    then record m { x = v }
    else if offset == 8
    then record m { y = v }
    else if offset == 9
    then record m { orientation = v }
    else if offset == 10
    then record m { gr_state = v }
    else m

unfoldable pub fiddle_at : ℕ → Msg → Object → World → World
unfolding set_text set_denom denom_value set_field values_of value_at text_of is_poster
fiddle_at offset m o w =
    if offset == 15
    then if is_poster o
      then update o.noid (set_text (text_of m.value)) w
      else update o.noid (set_denom m.value) w
    else if offset == 26
    then update o.noid (λ f. record f { custom = some (values_of m.value) }) w
    else if offset == 11
    then change_containers m.target (value_at 0 (values_of m.value)) o.mod_.x o.mod_.y w
    else update o.noid (set_field offset (value_at 0 (values_of m.value))) w

unfoldable pub host_fiddle : Handler
host_fiddle c w = elim (get? w c.args.target) [
  | none ↦ (w, fail "no-target")
  | some o ↦
      let w1 : World = elim c.args.offset [
        | none ↦ w
        | some offset ↦ fiddle_at offset c.args o w
      ] in
      (emit (field_changed o.noid c.args.offset) w1, ok)
]

unfoldable pub region_change_light : Handler
region_change_light c w =
    let level = w.region.lighting +ℤ get_or c.args.adjustment (pos 0) in
    (emit (lighting level) (record w { region = record w.region { lighting = level } }), ok)

unfoldable pub delete_by_noid? : Option ℕ → World → World × Bool
delete_by_noid? none w = (w, true)
delete_by_noid? (some noid) w = delete_by_noid noid w

unfoldable pub region_go_away : Handler
region_go_away c w = then_ok (delete_by_noid? c.args.target w)

unfoldable pub region_change_containers : Handler
region_change_containers c w =
    (change_containers c.args.object_noid c.args.container_noid c.args.x c.args.y w, ok)

unfoldable pub set_filled : ℕ → Mod → Mod
set_filled n m = record m { filled = some n; gr_state = some n }

unfoldable pub bottle_fill : Handler
bottle_fill c w = (field_change c.pointed.noid (update c.pointed.noid (set_filled 1) w), ok)

unfoldable pub bottle_pour : Handler
bottle_pour c w = (field_change c.pointed.noid (update c.pointed.noid (set_filled 0) w), ok)

unfoldable pub set_activity : ℕ → Mod → Mod
set_activity a m = record m { activity = some a }

-- `y | 0x80`
unfoldable pub raise : ℕ → ℕ
raise y = if y / 128 % 2 == 0 then y + 128 else y

-- AV_ACT_sit_chair or AV_ACT_sit_front, from the seat's style bit
unfoldable pub sit_pose : Option Object → ℕ
sit_pose none = 157
sit_pose (some seat) = if or_zero seat.mod_.style % 2 == 0 then 157 else 133

unfoldable pub sit_down : Object → Msg → World → World
sit_down avatar m w =
    let w1 = change_containers m.noid m.cont (some 0) (some (or_zero m.slot)) w in
    update avatar.noid (set_activity (sit_pose (get? w1 m.cont))) w1

-- where an avatar stands that gets up
unfoldable pub stand_x : Option Object → Object → Option ℕ
stand_x none avatar = some (or_num avatar.mod_.x 80)
stand_x (some seat) avatar = seat.mod_.x

unfoldable pub stand_y : Option Object → Option ℕ
stand_y none = some 144
stand_y (some seat) = some (raise (or_zero seat.mod_.y))

unfoldable pub get_up : Object → Msg → World → World
get_up avatar m w =
    let seat = get? w m.cont in
    update avatar.noid (set_activity 129)
      (change_containers m.noid (some the_region) (stand_x seat avatar) (stand_y seat) w)

unfoldable pub avatar_sit_or_get_up : Handler
avatar_sit_or_get_up c w = elim (get? w c.args.noid) [
  | none ↦ (w, fail "no-avatar")
  | some avatar ↦ (
    emit (state_changed avatar.noid)
        (if truthy c.args.up_or_down then sit_down avatar c.args w else get_up avatar c.args w),
    ok,
  )
]

unfoldable pub set_orientation_to : Option ℕ → Mod → Mod
set_orientation_to o m = record m { orientation = o }

-- `if (wand) ctx.sound(…)`
unfoldable pub sound_if : String → Option Object → World → World
sound_if name none w = w
sound_if name (some o) w = sound_at name o.noid w

unfoldable pub host_change : Handler
host_change c w =
    let w1 : World = elim (get? w c.args.change_target) [
      | none ↦ w
      | some t ↦
          if is_some c.args.change_new_orientation
          then redraw t.noid (
              field_change t.noid
                (update t.noid (set_orientation_to c.args.change_new_orientation) w))
          else w
    ] in
    (sound_if "CHANGOMATIC" (get? w1 c.args.noid) w1, ok)

-- `(orientation || 0) ^ 0x80`
unfoldable pub flip_sex_bit : ℕ → ℕ
flip_sex_bit o = if o / 128 % 2 == 0 then o + 128 else o - 128

unfoldable pub flip_sex : Mod → Mod
flip_sex m = record m { orientation = some (flip_sex_bit (or_zero m.orientation)) }

-- the change of the announced avatar, if it is not our own
unfoldable pub change_sex : Object → World → World
change_sex t w =
    if is_num w.me_noid t.noid
    then w
    else field_change t.noid (
        chore_at "get_shot" t.noid none (
          chore_at "hand_back" t.noid none
            (chore_at "operate" t.noid none (update t.noid flip_sex w))))

unfoldable pub operate_machine : Option Object → World → World
operate_machine none w = w
operate_machine (some m) w = redraw m.noid (sound_at "SEX_CHANGER" m.noid w)

unfoldable pub host_sex_change : Handler
host_sex_change c w =
    let w1 : World = elim (get? w c.args.sex_avatar_noid) [ none ↦ w | some t ↦ change_sex t w ] in
    (operate_machine (get? w1 c.args.noid) w1, ok)
