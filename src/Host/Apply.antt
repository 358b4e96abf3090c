-- ===== src/Host/Apply.antt =====
-- `HabitatWorld.apply`: the single entry of the server's messages. The result says whether the
-- call threw; the event `op` comes last, unless it did.
use neohabitat.Prelude.{
  String, Bool, true, false, Option, none, some, List, [], ◌∷◌, str_eq, if◌then◌else◌, get_or,
}
use neohabitat.World.Object.{World, op, region_changed}
use neohabitat.World.Table.{emit}
use neohabitat.World.Delete.{delete_by_ref}
use neohabitat.World.Make.{ObjectSpec, make_object, clear}
use neohabitat.Host.Message.{Msg, no_msg, Outcome, ok, fail, threw}
use neohabitat.Host.Dispatch.{Classes, dispatch_host_sync, is_migrated}

unfoldable pub did_throw : Outcome → Bool
did_throw threw = true
did_throw ok = false
did_throw (fail r) = false

-- `this.emit('op', msg)`, which a throw skips
unfoldable pub finish : Msg → World × Outcome → World × Bool
finish m (w, o) = if did_throw o then (w, false) else (emit (op m.op) w, true)

unfoldable pub finish_delete : Msg → World × Bool → World × Bool
finish_delete m (w, true) = (emit (op m.op) w, true)
finish_delete m (w, false) = (w, false)

-- the container of a HEREIS_$: `msg.container ?? msg.to`
unfoldable pub here_is_container : Msg → String
here_is_container m = get_or m.container (get_or m.to "")

unfoldable pub make_from : Option ObjectSpec → String → Msg → World → World
make_from none to m w = w
make_from (some o) to m w = make_object o to m.you w

-- 'changeposture' in the form of a POSTURE$
unfoldable pub posture_msg : Msg → Msg
posture_msg m = record no_msg { op = "POSTURE$"; noid = m.noid; new_posture = m.new_posture }

unfoldable pub apply : Classes → Msg → World → World × Bool
apply t m w =
    if str_eq m.type "changeContext"
    then (emit (op m.op) (emit (region_changed m.context) (clear w)), true)
    else if str_eq m.op "make"
    then (emit (op m.op) (make_from m.made (get_or m.to "") m w), true)
    else if str_eq m.op "HEREIS_$"
    then (emit (op m.op) (make_from m.object (here_is_container m) m w), true)
    else if str_eq m.op "delete"
    then finish_delete m (delete_by_ref (get_or m.to "") w)
    else if str_eq m.op "changeposture"
    then finish m (dispatch_host_sync t (posture_msg m) w)
    else if is_migrated m.op
    then finish m (dispatch_host_sync t m w)
    else (emit (op m.op) w, true)

-- a session: messages in order; a throw ends its own message only
unfoldable pub apply_all : Classes → List Msg → World → World
apply_all t [] w = w
apply_all t (m ∷ ms) w = apply_all t ms (apply t m w).0
