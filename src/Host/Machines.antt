-- ===== src/Host/Machines.antt =====
-- The host messages of machines.js and consumables.js: payments, vending machines, toys, guns.
use neohabitat.Prelude.{
  ℕ, ◌+◌, ◌-◌, ◌*◌, ◌/◌, ◌%◌, false, not, Option, none, some, ◌==◌, str_eq, if◌then◌else◌, or_zero,
  is_some, is_num, find, leb,
}
use neohabitat.World.Object.{Object, Mod, World, named_image, price_balloon}
use neohabitat.World.Table.{get_by_ref, update, emit}
use neohabitat.World.Contents.{contents_of, change_containers}
use neohabitat.World.Make.{make_object}
use neohabitat.Host.Message.{Msg, ok}
use neohabitat.Host.Context.{Handler, sound_at, redraw, redraw_state, field_change}
use neohabitat.Host.Choreography.{say}
use neohabitat.Host.Devices.{set_gr_state}
use neohabitat.Host.Inventory.{holding?}

-- `denom_hi * 256 + denom_lo`
unfoldable pub denomination : Mod → ℕ
denomination m = or_zero m.denom_hi * 256 + or_zero m.denom_lo

unfoldable pub set_denomination : ℕ → Mod → Mod
set_denomination n m = record m { denom_lo = some (n % 256); denom_hi = some (n / 256 % 256) }

-- `Math.max(0, denom - amount)`
unfoldable pub debit : ℕ → Mod → Mod
debit amount m = set_denomination (denomination m - amount) m

unfoldable pub debit_by_noid : Option ℕ → ℕ → World → World
debit_by_noid avatar amount w = if amount == 0 then w else elim (holding? w avatar) [
  | none ↦ w
  | some wad ↦ if str_eq wad.type "Tokens" then update wad.noid (debit amount) w else w
]

unfoldable pub pay_amount : Msg → ℕ
pay_amount m = elim m.cost [ none ↦ or_zero m.amount_lo + or_zero m.amount_hi * 256 | some n ↦ n ]

unfoldable pub payer_noid : Msg → Option ℕ
payer_noid m = elim m.payer [ none ↦ m.buyer | some n ↦ some n ]

unfoldable pub generic_pay : Handler
generic_pay c w =
    let noid = c.pointed.noid in
    let w1 = debit_by_noid (payer_noid c.args) (pay_amount c.args) w in
    (
      if not (is_some c.args.payer)
          then if str_eq c.pointed.type "Coke_machine"
            then sound_at "STINGY_COKE_MACHINE" noid
                (sound_at "COIN_ACCEPTED" noid (sound_at "COIN_DEPOSITED" noid w1))
            else w1
          else w1,
      ok,
    )

unfoldable pub teleport_pay : Handler
teleport_pay c w =
    let booth = c.pointed.noid in
    let w1 =
      update booth (λ m. record m { state = some 1 }) (sound_at "TELEPORT_ACTIVATES" booth w) in
    (
      debit_by_noid (payer_noid c.args) (pay_amount c.args) (field_change booth (redraw booth w1)),
      ok,
    )

-- the object in a slot of a container, `inventory(noid).find((o) => o.mod.y === slot)`
unfoldable pub in_slot : World → ℕ → ℕ → Option Object
in_slot w noid slot = find (λ o. is_num o.mod_.y slot) (contents_of w noid)

unfoldable pub move_found : Option Object → ℕ → ℕ → World → World
move_found none to slot w = w
move_found (some o) to slot w = change_containers (some o.noid) (some to) (some 0) (some slot) w

-- the two moves of a VSELECT: the old display item goes back, the new one comes into slot 1
unfoldable pub swap_display : Object → Object → ℕ → World → World
swap_display front inside item w =
    let w1 = move_found (in_slot w inside.noid 1) front.noid (or_zero front.mod_.display_item) w in
    redraw inside.noid (move_found (in_slot w1 front.noid item) inside.noid 1 w1)

unfoldable pub set_display : ℕ → ℕ → Mod → Mod
set_display item price m = record m { display_item = some item; item_price = some price }

-- `((price_hi || 0) << 8) | (price_lo & 0xff)`
unfoldable pub price_of : Msg → ℕ
price_of m = or_zero m.price_hi * 256 + or_zero m.price_lo % 256

unfoldable pub vendo_select : Handler
vendo_select c w = elim c.args.display_item [
  | none ↦ (w, ok)
  | some item ↦
      if item == 255
      then (w, ok)
      else let front = c.pointed in
        let w1 = sound_at "VENDO_CHANGING" front.noid w in
        let w2 : World = elim (get_by_ref w1 front.container_ref) [
          | none ↦ w1
          | some inside ↦ swap_display front inside item w1
        ] in
        let w3 =
          field_change front.noid (update front.noid (set_display item (price_of c.args)) w2) in
        (emit (price_balloon (price_of c.args)) w3, ok)
]

unfoldable pub vendo_sell : Handler
vendo_sell c w =
    let price = or_zero c.args.price_lo + or_zero c.args.price_hi * 256 in
    let w1 = debit_by_noid c.args.buyer price (sound_at "VENDO_DISPENSING" c.pointed.noid w) in
    (elim c.args.object [ none ↦ w1 | some o ↦ make_object o w1.region.ref false w1 ], ok)

unfoldable pub magic_lamp_rub : Handler
magic_lamp_rub c w =
    let lamp = c.pointed.noid in
    let w1 = redraw lamp (update lamp (set_gr_state (some 1)) (sound_at "GENIE_APPEARS" lamp w)) in
    (say (elim c.args.rub_message [ none ↦ c.args.text | some t ↦ some t ]) c.actor w1, ok)

unfoldable pub grenade_explode : Handler
grenade_explode c w = (redraw c.pointed.noid (sound_at "EXPLOSION" c.pointed.noid w), ok)

unfoldable pub fake_gun_fakeshoot : Handler
fake_gun_fakeshoot c w =
    let gun = c.pointed.noid in
    (redraw gun (update gun (set_gr_state (some 1)) (sound_at "JOKE_GUNSHOT" gun w)), ok)

unfoldable pub fake_gun_reset : Handler
fake_gun_reset c w = (redraw c.pointed.noid (update c.pointed.noid (set_gr_state (some 0)) w), ok)

unfoldable pub pawn_machine_munch : Handler
pawn_machine_munch c w =
    (redraw_state c.pointed.noid (some 1) (sound_at "PAWN_MUNCH" c.pointed.noid w), ok)

-- `Math.min(4, (wind_level || 0) + 1)`
unfoldable pub wind : Mod → Mod
wind m =
    let n = or_zero m.wind_level + 1 in record m { wind_level = some (if leb 4 n then 4 else n) }

unfoldable pub windup_toy_wind : Handler
windup_toy_wind c w =
    let toy = c.pointed.noid in
    (emit (named_image toy "WOUND") (field_change toy (update toy wind w)), ok)
