-- ===== src/Host/Inventory.antt =====
-- avatar_inventory_host.js: a neighbor picks up, drops, grabs, throws, dons or doffs something.
use neohabitat.Prelude.{ℕ, ◌/◌, ◌*◌, Option, none, some, ◌==◌, if◌then◌else◌, or_zero}
use neohabitat.World.Object.{Object, Mod, World, named_image, hands, head, the_region}
use neohabitat.World.Table.{get?, update, emit}
use neohabitat.World.Contents.{holding, change_containers}
use neohabitat.Host.Message.{ok, fail}
use neohabitat.Host.Context.{Ctx, Handler, chore_here, inbound_sound, redraw_state}

unfoldable pub holding? : World → Option ℕ → Option Object
holding? w none = none
holding? w (some avatar) = holding w avatar

-- the two chores around a pick-up or a drop
unfoldable pub reach_out : ℕ → Ctx → World → World
reach_out how c w = if how == 0 then chore_here "bend_over" c w else chore_here "unpocket" c w

unfoldable pub reach_back : ℕ → Ctx → World → World
reach_back how c w = if how == 0 then chore_here "bend_back" c w else chore_here "stand" c w

unfoldable pub avatar_getm : Handler
avatar_getm c w =
    let how = or_zero c.args.how in
    let w1 =
      (if how == 0
        then chore_here "bend_over" c w
        else if how == 1
        then chore_here "unpocket" c w
        else w) in
    (reach_back how c (change_containers c.args.target c.args.noid (some 0) (some hands) w1), ok)

-- `if (msg.orient !== undefined) item.mod.orientation = msg.orient`
unfoldable pub set_orientation : Option ℕ → ℕ → World → World
set_orientation none item w = w
set_orientation (some o) item w = update item (λ m. record m { orientation = some o }) w

unfoldable pub avatar_putm : Handler
avatar_putm c w = elim (get? w c.args.obj) [
  | none ↦ (w, fail "no-item")
  | some item ↦
      let how = or_zero c.args.how in
      let w1 = set_orientation c.args.orient item.noid (reach_out how c w) in
      (reach_back how c (change_containers c.args.obj c.args.cont c.args.x c.args.y w1), ok)
]

unfoldable pub avatar_grab_from : Handler
avatar_grab_from c w = elim (holding? w c.args.avatar_noid) [
  | none ↦ (w, fail "nothing-to-grab")
  | some item ↦
      let w1 =
        change_containers (some item.noid) c.args.noid (some 0) (some hands)
          (chore_here "hand_out" c w) in
      (chore_here "hand_back" c w1, ok)
]

-- `orientation & ~1`, where there is an orientation
unfoldable pub face_front : Mod → Mod
face_front m = elim m.orientation [
  | none ↦ m
  | some o ↦ record m { orientation = some (o / 2 * 2) }
]

unfoldable pub avatar_throw : Handler
avatar_throw c w = elim (get? w c.args.obj) [
  | none ↦ (w, fail "no-item")
  | some item ↦
      let w1 = update item.noid face_front (chore_here "throw" c w) in
      let w2 = change_containers c.args.obj (some the_region) c.args.x c.args.y w1 in
      (chore_here "hand_back" c w2, ok)
]

unfoldable pub avatar_wear : Handler
avatar_wear c w = elim (holding? w c.args.noid) [
  | none ↦ (w, fail "hands-empty")
  | some item ↦
      let w1 = inbound_sound "CLOTHES_DONNED" c.args.noid c.args w in
      let w2 = redraw_state item.noid (some 0) (chore_here "stand" c w1) in
      (change_containers (some item.noid) c.args.noid (some 0) (some head) w2, ok)
]

unfoldable pub avatar_remove : Handler
avatar_remove c w = elim (get? w c.args.target) [
  | none ↦ (w, fail "no-head")
  | some item ↦
      let w1 = inbound_sound "CLOTHES_DOFFED" c.args.noid c.args w in
      let w2 = emit (named_image item.noid "HEAD_OFF") (chore_here "stand" c w1) in
      (change_containers c.args.target c.args.noid (some 0) (some hands) w2, ok)
]
