-- ===== src/Host/Context.antt =====
-- habiworld/lib/behaviors/kernel.js: the context that a host behavior gets, and its presentation
-- calls. The client's callbacks are all there, and their calls are recorded as events.
use neohabitat.Prelude.{
  ℕ, ℤ, ◌+ℤ◌, String, Bool, true, false, Option, none, some, str_eq, if◌then◌else◌, is_num, is_some,
}
use neohabitat.World.Object.{
  Object, World, chore, sound, new_image, state_changed, field_changed, change_light,
}
use neohabitat.World.Table.{get, emit, update, me}
use neohabitat.Host.Message.{Msg, Outcome, ok, threw}

-- `actor` is captured when the context is built; only its noid is read here.
pub record Ctx : Type 0 where
  pub pointed : Object
  pub actor : Option ℕ
  pub args : Msg

abbrev pub Handler : Type 0
Handler = Ctx → World → World × Outcome

-- `ctx.chore(act)`: on the pointed object if it is an avatar, else on our own
pub chore_target : Ctx → Option ℕ
chore_target c = if str_eq c.pointed.type "Avatar" then some c.pointed.noid else c.actor

unfoldable pub chore_here : String → Ctx → World → World
unfolding chore_target
chore_here act c w = elim (chore_target c) [ none ↦ w | some t ↦ emit (chore act t none) w ]

-- `ctx.chore(act, noid, hold)`
unfoldable pub chore_at : String → ℕ → Option ℕ → World → World
chore_at act noid hold w = emit (chore act noid hold) w

unfoldable pub sound_at : String → ℕ → World → World
sound_at name noid w = emit (sound name (some noid)) w

-- `ctx.newImage(noid)` and `ctx.newImage(noid, state)`
unfoldable pub redraw : ℕ → World → World
redraw noid w = emit (new_image noid none) w

unfoldable pub redraw_state : ℕ → Option ℕ → World → World
redraw_state noid state w =
    let shown =
      (if is_some state
        then elim (get w noid) [
          | none ↦ w
          | some o ↦
              emit (state_changed o.noid) (update noid (λ m. record m { gr_state = state }) w)
        ]
        else w) in
    emit (new_image noid state) shown

-- `ctx.changeLight`
unfoldable pub change_light_by : ℤ → World → World
change_light_by n w =
    emit (change_light n)
      (record w { region = record w.region { lighting = w.region.lighting +ℤ n } })

-- `!!(world.me && msg.noid != null && msg.noid === world.me.noid)`
unfoldable pub skip_inbound_sound : World → Msg → Bool
skip_inbound_sound w m = elim (me w) [ none ↦ false | some r ↦ is_num m.noid r.noid ]

unfoldable pub inbound_sound : String → Option ℕ → Msg → World → World
inbound_sound name noid m w = if skip_inbound_sound w m then w else emit (sound name noid) w

-- a deletion inside a handler: its throw ends the handler
unfoldable pub then_ok : World × Bool → World × Outcome
then_ok (w, true) = (w, ok)
then_ok (w, false) = (w, threw)

unfoldable pub field_change : ℕ → World → World
field_change noid w = emit (field_changed noid none) w
