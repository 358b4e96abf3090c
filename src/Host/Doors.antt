-- ===== src/Host/Doors.antt =====
-- avatar_door_host.js and avatar_container_host.js: a neighbor opens or closes something.
use neohabitat.Prelude.{ℕ, String, Bool, true, false, none, some, or_zero}
use neohabitat.World.Object.{World, open_unlocked, set_open_flags}
use neohabitat.World.Table.{get?, update}
use neohabitat.World.Contents.{contents_of}
use neohabitat.World.Delete.{delete_all, delete_by_noid}
use neohabitat.Host.Message.{Msg, Outcome, ok, fail, threw}
use neohabitat.Host.Context.{Handler, chore_here, inbound_sound, redraw, field_change}

-- `setOpenFlags` on an object of the table, and the event
unfoldable pub set_flags : ℕ → ℕ → World → World
set_flags noid flags w = field_change noid (update noid (set_open_flags flags) w)

unfoldable pub avatar_open : Handler
avatar_open c w = elim (get? w c.args.target) [
  | none ↦ (w, fail "no-door")
  | some door ↦
      let w1 = set_flags door.noid open_unlocked (chore_here "hand_out" c w) in
      let w2 = inbound_sound "EXIT_OPENING" (some door.noid) c.args w1 in
      (chore_here "hand_back" c (redraw door.noid w2), ok)
]

unfoldable pub avatar_close : Handler
avatar_close c w = elim (get? w c.args.target) [
  | none ↦ (w, fail "no-door")
  | some door ↦
      let w1 = set_flags door.noid (or_zero c.args.open_flags) (chore_here "hand_out" c w) in
      let w2 = inbound_sound "EXIT_CLOSING" (some door.noid) c.args w1 in
      (chore_here "hand_back" c (redraw door.noid w2), ok)
]

unfoldable pub avatar_open_container : Handler
avatar_open_container c w = elim (get? w c.args.cont) [
  | none ↦ (w, fail "no-container")
  | some cont ↦
      let w1 = set_flags cont.noid open_unlocked w in
      (redraw cont.noid (inbound_sound "CONTAINER_OPENING" (some cont.noid) c.args w1), ok)
]

-- what follows the purge of the contents
unfoldable pub after_purge : ℕ → String → Msg → World × Bool → World × Outcome
after_purge cont name m (w, true) = (redraw cont (inbound_sound name (some cont) m w), ok)
after_purge cont name m (w, false) = (w, threw)

-- `contentsOf(noid).forEach((item) => _deleteByNoid(item.noid))`
unfoldable pub purge : ℕ → World → World × Bool
purge noid w = delete_all delete_by_noid (contents_of w noid) w

unfoldable pub avatar_close_container : Handler
avatar_close_container c w = elim (get? w c.args.cont) [
  | none ↦ (w, fail "no-container")
  | some cont ↦
      after_purge cont.noid "CONTAINER_CLOSING" c.args
        (purge cont.noid (set_flags cont.noid (or_zero c.args.open_flags) w))
]
