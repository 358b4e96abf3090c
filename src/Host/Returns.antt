-- ===== src/Host/Returns.antt =====
-- When `apply` returns: what can make it throw is the overflow of the stack in a deletion.
use neohabitat.Prelude.{
  ℕ, ◌≡◌, refl, String, Bool, true, false, Option, none, some, inl, inr, str_eq, if◌then◌else◌,
  Option-cases, arith,
}
use neohabitat.World.Object.{World, set_open_flags}
use neohabitat.World.Table.{get?, find_ref}
use neohabitat.World.Contents.{contents_of}
use neohabitat.World.Depth.{IsRanked}
use neohabitat.World.Ranks.{delete_by_noid-done, delete_each-done, emit-IsRanked, update-IsRanked}
use neohabitat.World.Delete.{delete_by_ref}
use neohabitat.Host.Message.{Msg, Outcome}
use neohabitat.Host.Context.{Ctx, Handler, then_ok, sound_at, field_change}
use neohabitat.Host.Doors.{
  avatar_open, avatar_close, avatar_open_container, avatar_close_container, purge, after_purge,
  set_flags,
}
use neohabitat.Host.Inventory.{
  avatar_getm, avatar_putm, avatar_grab_from, avatar_throw, avatar_wear, avatar_remove,
}
use neohabitat.Host.Motion.{avatar_walk, avatar_posture}
use neohabitat.Host.State.{
  host_fiddle, region_change_light, region_change_containers, bottle_fill, bottle_pour,
  avatar_sit_or_get_up, host_change, host_sex_change, delete_by_noid?, region_go_away,
}
use neohabitat.Host.Choreography.{
  generic_play, avatar_attack, avatar_bash, generic_speak, generic_object_speak, avatar_dig,
  avatar_take, avatar_bugout, region_appearing, region_wait_for,
}
use neohabitat.Host.Devices.{
  generic_on, generic_off, switch_light, generic_onlight, generic_offlight, generic_change_state,
  button_change_state, sensor_scan, spray_can_spray, garbage_can_flush, after_flush,
}
use neohabitat.Host.Machines.{
  generic_pay, teleport_pay, vendo_select, vendo_sell, magic_lamp_rub, grenade_explode,
  fake_gun_fakeshoot, fake_gun_reset, pawn_machine_munch, windup_toy_wind,
}
use neohabitat.Host.Dispatch.{
  Classes, Behavior, is_migrated, run_behavior, dispatch_to, dispatch_host_sync,
}
use neohabitat.Host.Apply.{did_throw, finish, finish_delete, posture_msg, apply}

after_purge-returns :
    (n : ℕ) (s : String) (m : Msg) (p : World × Bool)
    → p.1 ≡ true
    → did_throw (after_purge n s m p).1 ≡ false
unfolding after_purge did_throw
after_purge-returns n s m (w, true) h = refl
after_purge-returns n s m (w, false) h = cc

after_flush-returns : (p : World × Bool) → p.1 ≡ true → did_throw (after_flush p).1 ≡ false
unfolding after_flush did_throw
after_flush-returns (w, true) h = refl
after_flush-returns (w, false) h = cc

then_ok-returns : (p : World × Bool) → p.1 ≡ true → did_throw (then_ok p).1 ≡ false
unfolding then_ok did_throw
then_ok-returns (w, true) h = refl
then_ok-returns (w, false) h = cc

pub purge-done : (rank : ℕ → ℕ) (n : ℕ) (w : World) → IsRanked rank w → (purge n w).1 ≡ true
unfolding purge
purge-done rank n w h = delete_each-done rank (contents_of w n) w h

delete_by_noid?-done :
    (rank : ℕ → ℕ) (n : Option ℕ) (w : World) → IsRanked rank w → (delete_by_noid? n w).1 ≡ true
unfolding delete_by_noid?
delete_by_noid?-done rank none w h = refl
delete_by_noid?-done rank (some n) w h = delete_by_noid-done rank n w h

pub set_flags-IsRanked :
    (rank : ℕ → ℕ) (n flags : ℕ) (w : World) → IsRanked rank w → IsRanked rank (set_flags n flags w)
unfolding set_flags field_change
set_flags-IsRanked rank n flags w h =
    emit-IsRanked rank _ _ (update-IsRanked rank n (set_open_flags flags) w h)

module _ (c : Ctx) (w : World) where
  abbrev pub Returns : Handler → Type 0
  Returns h = did_throw (h c w).1 ≡ false

  avatar_open-Returns : Returns avatar_open
  unfolding avatar_open did_throw
  avatar_open-Returns = ground arith

  avatar_close-Returns : Returns avatar_close
  unfolding avatar_close did_throw
  avatar_close-Returns = ground arith

  avatar_open_container-Returns : Returns avatar_open_container
  unfolding avatar_open_container did_throw
  avatar_open_container-Returns = ground arith

  avatar_getm-Returns : Returns avatar_getm
  unfolding avatar_getm did_throw
  avatar_getm-Returns = ground arith

  avatar_putm-Returns : Returns avatar_putm
  unfolding avatar_putm did_throw
  avatar_putm-Returns = ground arith

  avatar_grab_from-Returns : Returns avatar_grab_from
  unfolding avatar_grab_from did_throw
  avatar_grab_from-Returns = ground arith

  avatar_throw-Returns : Returns avatar_throw
  unfolding avatar_throw did_throw
  avatar_throw-Returns = ground arith

  avatar_wear-Returns : Returns avatar_wear
  unfolding avatar_wear did_throw
  avatar_wear-Returns = ground arith

  avatar_remove-Returns : Returns avatar_remove
  unfolding avatar_remove did_throw
  avatar_remove-Returns = ground arith

  avatar_walk-Returns : Returns avatar_walk
  unfolding avatar_walk did_throw
  avatar_walk-Returns = ground arith

  avatar_posture-Returns : Returns avatar_posture
  unfolding avatar_posture did_throw
  avatar_posture-Returns = ground arith

  host_fiddle-Returns : Returns host_fiddle
  unfolding host_fiddle did_throw
  host_fiddle-Returns = ground arith

  avatar_sit_or_get_up-Returns : Returns avatar_sit_or_get_up
  unfolding avatar_sit_or_get_up did_throw
  avatar_sit_or_get_up-Returns = ground arith

  vendo_select-Returns : Returns vendo_select
  unfolding vendo_select did_throw
  vendo_select-Returns = ground arith

  spray_can_spray-Returns : Returns spray_can_spray
  unfolding spray_can_spray did_throw
  spray_can_spray-Returns = ground arith

  region_appearing-Returns : Returns region_appearing
  unfolding region_appearing did_throw
  region_appearing-Returns = ground arith

  avatar_close_container-Returns : (rank : ℕ → ℕ) → IsRanked rank w → Returns avatar_close_container
  unfolding avatar_close_container
  avatar_close_container-Returns rank h = elim (Option-cases (get? w c.args.cont)) [
    | inl e ↦ unfold did_throw in rw (e, avatar_close_container)
    | inr (o, e) ↦
        rw (e, avatar_close_container)
          (after_purge-returns o.noid _ c.args _
            (purge-done rank o.noid _ (set_flags-IsRanked rank o.noid _ w h)))
  ]

  garbage_can_flush-Returns : (rank : ℕ → ℕ) → IsRanked rank w → Returns garbage_can_flush
  unfolding garbage_can_flush sound_at
  garbage_can_flush-Returns rank h =
      after_flush-returns _ (purge-done rank c.pointed.noid _ (emit-IsRanked rank _ w h))

  region_go_away-Returns : (rank : ℕ → ℕ) → IsRanked rank w → Returns region_go_away
  unfolding region_go_away
  region_go_away-Returns rank h = then_ok-returns _ (delete_by_noid?-done rank c.args.target w h)

-- what is not modelled does not throw
pub record OthersReturn (t : Classes) : Type 0 where
  pub returns : (name : String) (c : Ctx) (w : World) → did_throw (t.others name c w).1 ≡ false

module _ (t : Classes) (o : OthersReturn t) (rank : ℕ → ℕ) where
  run_behavior_returns :
      (b : Behavior) (c : Ctx) (w : World)
      → IsRanked rank w
      → did_throw (run_behavior t b c w).1 ≡ false
  unfolding run_behavior did_throw region_change_light region_change_containers host_change
      host_sex_change bottle_fill bottle_pour generic_play avatar_attack avatar_bash generic_speak
      generic_object_speak avatar_dig avatar_take avatar_bugout region_wait_for generic_on
      generic_off generic_onlight generic_offlight generic_change_state button_change_state
      sensor_scan generic_pay teleport_pay vendo_sell magic_lamp_rub grenade_explode
      fake_gun_fakeshoot fake_gun_reset pawn_machine_munch windup_toy_wind switch_light
  run_behavior_returns Behavior.b_open c w h = avatar_open-Returns c w
  run_behavior_returns Behavior.b_close c w h = avatar_close-Returns c w
  run_behavior_returns Behavior.b_open_container c w h = avatar_open_container-Returns c w
  run_behavior_returns Behavior.b_getm c w h = avatar_getm-Returns c w
  run_behavior_returns Behavior.b_putm c w h = avatar_putm-Returns c w
  run_behavior_returns Behavior.b_grab_from c w h = avatar_grab_from-Returns c w
  run_behavior_returns Behavior.b_throw c w h = avatar_throw-Returns c w
  run_behavior_returns Behavior.b_wear c w h = avatar_wear-Returns c w
  run_behavior_returns Behavior.b_remove c w h = avatar_remove-Returns c w
  run_behavior_returns Behavior.b_walk c w h = avatar_walk-Returns c w
  run_behavior_returns Behavior.b_posture c w h = avatar_posture-Returns c w
  run_behavior_returns Behavior.b_fiddle c w h = host_fiddle-Returns c w
  run_behavior_returns Behavior.b_sit_or_get_up c w h = avatar_sit_or_get_up-Returns c w
  run_behavior_returns Behavior.b_select c w h = vendo_select-Returns c w
  run_behavior_returns Behavior.b_spray c w h = spray_can_spray-Returns c w
  run_behavior_returns Behavior.b_appearing c w h = region_appearing-Returns c w
  run_behavior_returns Behavior.b_change_light c w h = refl
  run_behavior_returns Behavior.b_change_containers c w h = refl
  run_behavior_returns Behavior.b_change c w h = refl
  run_behavior_returns Behavior.b_sex_change c w h = refl
  run_behavior_returns Behavior.b_fill c w h = refl
  run_behavior_returns Behavior.b_pour c w h = refl
  run_behavior_returns Behavior.b_play c w h = refl
  run_behavior_returns Behavior.b_attack c w h = refl
  run_behavior_returns Behavior.b_bash c w h = refl
  run_behavior_returns Behavior.b_speak c w h = refl
  run_behavior_returns Behavior.b_object_speak c w h = refl
  run_behavior_returns Behavior.b_dig c w h = refl
  run_behavior_returns Behavior.b_take c w h = refl
  run_behavior_returns Behavior.b_bugout c w h = refl
  run_behavior_returns Behavior.b_wait_for c w h = refl
  run_behavior_returns Behavior.b_on c w h = refl
  run_behavior_returns Behavior.b_off c w h = refl
  run_behavior_returns Behavior.b_onlight c w h = refl
  run_behavior_returns Behavior.b_offlight c w h = refl
  run_behavior_returns Behavior.b_change_state c w h = refl
  run_behavior_returns Behavior.b_button c w h = refl
  run_behavior_returns Behavior.b_scan c w h = refl
  run_behavior_returns Behavior.b_pay c w h = refl
  run_behavior_returns Behavior.b_teleport_pay c w h = refl
  run_behavior_returns Behavior.b_sell c w h = refl
  run_behavior_returns Behavior.b_rub c w h = refl
  run_behavior_returns Behavior.b_explode c w h = refl
  run_behavior_returns Behavior.b_fakeshoot c w h = refl
  run_behavior_returns Behavior.b_reset c w h = refl
  run_behavior_returns Behavior.b_munch c w h = refl
  run_behavior_returns Behavior.b_wind c w h = refl
  run_behavior_returns Behavior.b_close_container c w h = avatar_close_container-Returns c w rank h
  run_behavior_returns Behavior.b_flush c w h = garbage_can_flush-Returns c w rank h
  run_behavior_returns Behavior.b_go_away c w h = region_go_away-Returns c w rank h
  run_behavior_returns (Behavior.unmodelled name) c w h = o.returns name c w

  dispatch_host_sync_returns :
      (m : Msg) (w : World) → IsRanked rank w → did_throw (dispatch_host_sync t m w).1 ≡ false
  unfolding dispatch_host_sync dispatch_to did_throw
  dispatch_host_sync_returns m w h = grind (arith, run_behavior_returns)

  finish_returns : (m : Msg) (p : World × Outcome) → did_throw p.1 ≡ false → (finish m p).1 ≡ true
  unfolding finish
  finish_returns m (w, r) h = rw (h, finish)

  finish_delete_returns : (m : Msg) (p : World × Bool) → p.1 ≡ true → (finish_delete m p).1 ≡ true
  unfolding finish_delete
  finish_delete_returns m (w, true) h = refl
  finish_delete_returns m (w, false) h = cc

  delete_by_ref-done : (r : String) (w : World) → IsRanked rank w → (delete_by_ref r w).1 ≡ true
  unfolding delete_by_ref
  delete_by_ref-done r w h = elim (Option-cases (find_ref r w.refs)) [
    | inl e ↦ rw (e, delete_by_ref)
    | inr (n, e) ↦ rw (e, delete_by_ref) (delete_by_noid-done rank n w h)
  ]

  -- `apply` returns normally, whatever the message, in a world whose containment is not cyclic (each
  -- object ranks below its container), when the behaviors left out of the model do.
  pub apply_returns : (m : Msg) (w : World) → IsRanked rank w → (apply t m w).1 ≡ true
  unfolding apply
  apply_returns m w h = either (str_eq m.type "changeContext") _ _ refl (
      either (str_eq m.op "make") _ _ refl (
        either (str_eq m.op "HEREIS_$") _ _ refl (
          either (str_eq m.op "delete") _ _ (finish_delete_returns m _ (delete_by_ref-done _ w h)) (
            either (str_eq m.op "changeposture") _ _
              (finish_returns m _ (dispatch_host_sync_returns (posture_msg m) w h))
              (either (is_migrated m.op) _ _ (finish_returns m _ (dispatch_host_sync_returns m w h))
                refl)))))
    where
      either :
          (b : Bool) (p q : World × Bool) → p.1 ≡ true → q.1 ≡ true → (if b then p else q).1 ≡ true
      either true p q hp hq = hp
      either false p q hp hq = hq
