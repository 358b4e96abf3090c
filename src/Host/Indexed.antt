-- ===== src/Host/Indexed.antt =====
-- Every message of the server keeps the two maps of the world one index.
use neohabitat.Prelude.{
  ℕ, pos, negsuc, ◌≡◌, refl, ◌∙◌, String, Bool, true, false, Option, none, some, List, [], ◌∷◌, inl,
  inr, str_eq, if◌then◌else◌, Bool-cases, Option-cases,
}
use neohabitat.World.Object.{Object, World}
use neohabitat.World.Table.{get?, find_ref}
use neohabitat.World.Contents.{contents_of}
use neohabitat.World.Delete.{delete_by_noid, delete_by_ref, delete_all}
use neohabitat.World.Make.{ObjectSpec, clear}
use neohabitat.World.Identity.{idents, index, index-emit}
use neohabitat.World.Index.{
  ref_in, IsIndexed, IsIndexed-of_index, MakesFresh, make_object-IsIndexed, delete_on-IsIndexed,
}
use neohabitat.Host.Message.{Msg, Outcome}
use neohabitat.Host.Context.{Ctx, then_ok, sound_at}
use neohabitat.Host.Identity
use neohabitat.Host.Identity.Machines
use neohabitat.Host.Identity.Machines.{index-debit_by_noid}
use neohabitat.Host.Identity.{index-sound_at, index-inbound_sound, index-set_flags, index-redraw}
use neohabitat.Host.Doors.{purge, after_purge, avatar_close_container}
use neohabitat.Host.State.{delete_by_noid?, region_go_away}
use neohabitat.Host.Devices.{after_flush, garbage_can_flush, generic_onlight, generic_offlight}
use neohabitat.Host.Machines.{vendo_sell, debit_by_noid}
use neohabitat.Host.Choreography.{region_wait_for}
use neohabitat.Host.Dispatch.{
  Spec, resolve_host_dispatch, pointed_for_host_dispatch, behavior_name_for, is_migrated, Classes,
  Behavior, run_behavior, context_for, dispatch_to, dispatch_host_sync,
}
use neohabitat.Host.Apply.{did_throw, finish, finish_delete, make_from, posture_msg, apply}

same : (v w : World) → index v ≡ index w → IsIndexed w → IsIndexed v
same = IsIndexed-of_index

delete_by_noid-IsIndexed : (n : ℕ) (w : World) → IsIndexed w → IsIndexed (delete_by_noid n w).0
unfolding delete_by_noid
delete_by_noid-IsIndexed n w = delete_on-IsIndexed _ n w

purge-IsIndexed : (n : ℕ) (w : World) → IsIndexed w → IsIndexed (purge n w).0
unfolding purge delete_all
purge-IsIndexed n w = go (contents_of w n) w
  where
    go : (is : List Object) (v : World) → IsIndexed v → IsIndexed (delete_all delete_by_noid is v).0
    go [] v h = h
    go (i ∷ is) v h = elim (Bool-cases (delete_by_noid i.noid v).1) [
      | inl e ↦
          rw (e, delete_all)
            (go is (delete_by_noid i.noid v).0 (delete_by_noid-IsIndexed i.noid v h))
      | inr e ↦ rw (e, delete_all) (delete_by_noid-IsIndexed i.noid v h)
    ]

after_purge-IsIndexed :
    (n : ℕ) (s : String) (m : Msg) (p : World × Bool)
    → IsIndexed p.0
    → IsIndexed (after_purge n s m p).0
unfolding after_purge
after_purge-IsIndexed n s m (w, true) h =
    same _ w (index-redraw n _ ∙ index-inbound_sound s (some n) m w) h
after_purge-IsIndexed n s m (w, false) h = h

after_flush-IsIndexed : (p : World × Bool) → IsIndexed p.0 → IsIndexed (after_flush p).0
unfolding after_flush
after_flush-IsIndexed (w, true) h = h
after_flush-IsIndexed (w, false) h = h

then_ok-IsIndexed : (p : World × Bool) → IsIndexed p.0 → IsIndexed (then_ok p).0
unfolding then_ok
then_ok-IsIndexed (w, true) h = h
then_ok-IsIndexed (w, false) h = h

module _ (c : Ctx) (w : World) (h : IsIndexed w) where
  avatar_close_container-IsIndexed : IsIndexed (avatar_close_container c w).0
  unfolding avatar_close_container
  avatar_close_container-IsIndexed = elim (Option-cases (get? w c.args.cont)) [
    | inl e ↦ rw (e, avatar_close_container) h
    | inr (o, e) ↦
        rw (e, avatar_close_container)
          (after_purge-IsIndexed o.noid _ c.args _
            (purge-IsIndexed o.noid _ (same _ w (index-set_flags o.noid _ w) h)))
  ]

  garbage_can_flush-IsIndexed : IsIndexed (garbage_can_flush c w).0
  unfolding garbage_can_flush
  garbage_can_flush-IsIndexed =
      after_flush-IsIndexed _ (purge-IsIndexed c.pointed.noid _ (same _ w (index-sound_at _ _ w) h))

  region_go_away-IsIndexed : IsIndexed (region_go_away c w).0
  unfolding region_go_away
  region_go_away-IsIndexed = then_ok-IsIndexed _ (at c.args.target)
    where
      at : (t : Option ℕ) → IsIndexed (delete_by_noid? t w).0
      at none = unfold delete_by_noid? in h
      at (some n) = unfold delete_by_noid? in delete_by_noid-IsIndexed n w h

-- What a message brings, if it brings an object, is fresh.
pub record BringsFresh (m : Msg) (w : World) : Type 0 where
  pub made_fresh : (o : ObjectSpec) (to : String) → m.made ≡ some o → MakesFresh o to w
  pub object_fresh : (o : ObjectSpec) (to : String) → m.object ≡ some o → MakesFresh o to w

MakesFresh-of_index :
    (o : ObjectSpec) (to : String) (v w : World)
    → index v ≡ index w
    → MakesFresh o to w
    → MakesFresh o to v
MakesFresh-of_index o to v w e f m p = record {
  noid_free = λ s. rw e ((f m p).noid_free s);
  ref_free = λ k. rw e ((f m p).ref_free k);
}

vendo_sell-IsIndexed :
    (c : Ctx) (w : World) → BringsFresh c.args w → IsIndexed w → IsIndexed (vendo_sell c w).0
unfolding vendo_sell
vendo_sell-IsIndexed c w f h = elim (Option-cases c.args.object) [
  | inl e ↦ rw (e, vendo_sell) (same _ w (part _ _ _) h)
  | inr (o, e) ↦
      rw (e, vendo_sell)
        (make_object-IsIndexed o _ false _
          (MakesFresh-of_index o _ _ w (part _ _ _) (f.object_fresh o _ e))
          (same _ w (part _ _ _) h))
]
  where
    part :
        (a : Option ℕ) (n : ℕ) (s : String)
        → index (debit_by_noid a n (sound_at s c.pointed.noid w)) ≡ index w
    part a n s = index-debit_by_noid a n _ ∙ index-sound_at s c.pointed.noid w

-- what is not modelled keeps the index too
pub record OthersKeep (t : Classes) : Type 0 where
  pub keeps : (name : String) (c : Ctx) (w : World) → IsIndexed w → IsIndexed (t.others name c w).0

-- Every behavior keeps the index.
run_behavior-IsIndexed :
    (t : Classes)
    → OthersKeep t
    → (b : Behavior) (c : Ctx) (w : World) → BringsFresh c.args w
    → IsIndexed w
    → IsIndexed (run_behavior t b c w).0
unfolding run_behavior
run_behavior-IsIndexed t o Behavior.b_open c w f h = same _ w (Identity.index-avatar_open c w) h
run_behavior-IsIndexed t o Behavior.b_close c w f h = same _ w (Identity.index-avatar_close c w) h
run_behavior-IsIndexed t o Behavior.b_open_container c w f h =
    same _ w (Identity.index-avatar_open_container c w) h
run_behavior-IsIndexed t o Behavior.b_getm c w f h = same _ w (Identity.index-avatar_getm c w) h
run_behavior-IsIndexed t o Behavior.b_putm c w f h = same _ w (Identity.index-avatar_putm c w) h
run_behavior-IsIndexed t o Behavior.b_grab_from c w f h =
    same _ w (Identity.index-avatar_grab_from c w) h
run_behavior-IsIndexed t o Behavior.b_throw c w f h = same _ w (Identity.index-avatar_throw c w) h
run_behavior-IsIndexed t o Behavior.b_wear c w f h = same _ w (Identity.index-avatar_wear c w) h
run_behavior-IsIndexed t o Behavior.b_remove c w f h = same _ w (Identity.index-avatar_remove c w) h
run_behavior-IsIndexed t o Behavior.b_walk c w f h = same _ w (Identity.index-avatar_walk c w) h
run_behavior-IsIndexed t o Behavior.b_posture c w f h =
    same _ w (Identity.index-avatar_posture c w) h
run_behavior-IsIndexed t o Behavior.b_sit_or_get_up c w f h =
    same _ w (Identity.index-avatar_sit_or_get_up c w) h
run_behavior-IsIndexed t o Behavior.b_fiddle c w f h = same _ w (Identity.index-host_fiddle c w) h
run_behavior-IsIndexed t o Behavior.b_change_light c w f h =
    same _ w (Identity.index-region_change_light c w) h
run_behavior-IsIndexed t o Behavior.b_change_containers c w f h =
    same _ w (Identity.index-region_change_containers c w) h
run_behavior-IsIndexed t o Behavior.b_change c w f h = same _ w (Identity.index-host_change c w) h
run_behavior-IsIndexed t o Behavior.b_sex_change c w f h =
    same _ w (Identity.index-host_sex_change c w) h
run_behavior-IsIndexed t o Behavior.b_fill c w f h = same _ w (Identity.index-bottle_fill c w) h
run_behavior-IsIndexed t o Behavior.b_pour c w f h = same _ w (Identity.index-bottle_pour c w) h
run_behavior-IsIndexed t o Behavior.b_attack c w f h = same _ w (Machines.index-avatar_attack c w) h
run_behavior-IsIndexed t o Behavior.b_bash c w f h = same _ w (Machines.index-avatar_bash c w) h
run_behavior-IsIndexed t o Behavior.b_speak c w f h = same _ w (Machines.index-generic_speak c w) h
run_behavior-IsIndexed t o Behavior.b_object_speak c w f h =
    same _ w (Machines.index-generic_object_speak c w) h
run_behavior-IsIndexed t o Behavior.b_dig c w f h = same _ w (Machines.index-avatar_dig c w) h
run_behavior-IsIndexed t o Behavior.b_take c w f h = same _ w (Machines.index-avatar_take c w) h
run_behavior-IsIndexed t o Behavior.b_bugout c w f h = same _ w (Machines.index-avatar_bugout c w) h
run_behavior-IsIndexed t o Behavior.b_appearing c w f h =
    same _ w (Machines.index-region_appearing c w) h
run_behavior-IsIndexed t o Behavior.b_on c w f h = same _ w (Machines.index-generic_on c w) h
run_behavior-IsIndexed t o Behavior.b_off c w f h = same _ w (Machines.index-generic_off c w) h
run_behavior-IsIndexed t o Behavior.b_change_state c w f h =
    same _ w (Machines.index-generic_change_state c w) h
run_behavior-IsIndexed t o Behavior.b_button c w f h =
    same _ w (Machines.index-button_change_state c w) h
run_behavior-IsIndexed t o Behavior.b_scan c w f h = same _ w (Machines.index-sensor_scan c w) h
run_behavior-IsIndexed t o Behavior.b_spray c w f h =
    same _ w (Machines.index-spray_can_spray c w) h
run_behavior-IsIndexed t o Behavior.b_pay c w f h = same _ w (Machines.index-generic_pay c w) h
run_behavior-IsIndexed t o Behavior.b_teleport_pay c w f h =
    same _ w (Machines.index-teleport_pay c w) h
run_behavior-IsIndexed t o Behavior.b_select c w f h = same _ w (Machines.index-vendo_select c w) h
run_behavior-IsIndexed t o Behavior.b_rub c w f h = same _ w (Machines.index-magic_lamp_rub c w) h
run_behavior-IsIndexed t o Behavior.b_explode c w f h =
    same _ w (Machines.index-grenade_explode c w) h
run_behavior-IsIndexed t o Behavior.b_fakeshoot c w f h =
    same _ w (Machines.index-fake_gun_fakeshoot c w) h
run_behavior-IsIndexed t o Behavior.b_reset c w f h = same _ w (Machines.index-fake_gun_reset c w) h
run_behavior-IsIndexed t o Behavior.b_munch c w f h =
    same _ w (Machines.index-pawn_machine_munch c w) h
run_behavior-IsIndexed t o Behavior.b_wind c w f h = same _ w (Machines.index-windup_toy_wind c w) h
run_behavior-IsIndexed t o Behavior.b_play c w f h =
    same _ w (Machines.index-generic_play c w t.sounds_of) h
run_behavior-IsIndexed t o Behavior.b_onlight c w f h =
    same _ w (unfold generic_onlight in Machines.index-switch_light c w 1 (pos 1)) h
run_behavior-IsIndexed t o Behavior.b_offlight c w f h =
    same _ w (unfold generic_offlight in Machines.index-switch_light c w 0 (negsuc 0)) h
run_behavior-IsIndexed t o Behavior.b_wait_for c w f h = same _ w (unfold region_wait_for in refl) h
run_behavior-IsIndexed t o Behavior.b_close_container c w f h =
    avatar_close_container-IsIndexed c w h
run_behavior-IsIndexed t o Behavior.b_flush c w f h = garbage_can_flush-IsIndexed c w h
run_behavior-IsIndexed t o Behavior.b_go_away c w f h = region_go_away-IsIndexed c w h
run_behavior-IsIndexed t o Behavior.b_sell c w f h = vendo_sell-IsIndexed c w f h
run_behavior-IsIndexed t o (Behavior.unmodelled name) c w f h = o.keeps name c w h

module _ (t : Classes) (o : OthersKeep t) where
  dispatch_host_sync-IsIndexed :
      (m : Msg) (w : World) → BringsFresh m w → IsIndexed w → IsIndexed (dispatch_host_sync t m w).0
  unfolding dispatch_host_sync
  dispatch_host_sync-IsIndexed m w f h = elim (Option-cases (resolve_host_dispatch m)) [
    | inl e ↦ rw (e, dispatch_host_sync) h
    | inr (spec, e) ↦ rw (e, dispatch_host_sync) (to_spec spec)
  ]
    where
      to_object :
          (p : Object) (spec : Spec)
          → pointed_for_host_dispatch w spec ≡ some p
          → IsIndexed (dispatch_to t spec m w).0
      to_object p spec e = elim (Option-cases (behavior_name_for t p spec)) [
        | inl n ↦ unfold dispatch_to in rw (e, n, dispatch_to) h
        | inr (b, n) ↦
            unfold dispatch_to in
            rw (e, n, dispatch_to) (run_behavior-IsIndexed t o b _ w (unfold context_for in f) h)
      ]

      to_spec : (spec : Spec) → IsIndexed (dispatch_to t spec m w).0
      to_spec spec = elim (Option-cases (pointed_for_host_dispatch w spec)) [
        | inl e ↦ unfold dispatch_to in rw (e, dispatch_to) h
        | inr (p, e) ↦ to_object p spec e
      ]

  finish-IsIndexed : (m : Msg) (p : World × Outcome) → IsIndexed p.0 → IsIndexed (finish m p).0
  unfolding finish
  finish-IsIndexed m (w, r) h = elim (Bool-cases (did_throw r)) [
    | inl e ↦ rw (e, finish) h
    | inr e ↦ rw (e, finish) (same _ w (index-emit _ w) h)
  ]

  finish_delete-IsIndexed :
      (m : Msg) (p : World × Bool) → IsIndexed p.0 → IsIndexed (finish_delete m p).0
  unfolding finish_delete
  finish_delete-IsIndexed m (w, true) h = same _ w (index-emit _ w) h
  finish_delete-IsIndexed m (w, false) h = h

  make_from-IsIndexed :
      (s : Option ObjectSpec) (to : String) (m : Msg) (w : World)
      → ((x : ObjectSpec) → s ≡ some x → MakesFresh x to w)
      → IsIndexed w
      → IsIndexed (make_from s to m w)
  unfolding make_from
  make_from-IsIndexed none to m w f h = h
  make_from-IsIndexed (some x) to m w f h = make_object-IsIndexed x to m.you w (f x refl) h

  delete_by_ref-IsIndexed : (r : String) (w : World) → IsIndexed w → IsIndexed (delete_by_ref r w).0
  unfolding delete_by_ref
  delete_by_ref-IsIndexed r w h = elim (Option-cases (find_ref r w.refs)) [
    | inl e ↦ rw (e, delete_by_ref) h
    | inr (n, e) ↦ rw (e, delete_by_ref) (delete_by_noid-IsIndexed n w h)
  ]

  clear-IsIndexed : (w : World) → IsIndexed (clear w)
  unfolding index idents ref_in find_ref
  clear-IsIndexed w = record { by_ref = λ k r e. cc; by_noid = λ k r e. cc }

  brings_none : (m : Msg) (w : World) → BringsFresh (posture_msg m) w
  unfolding posture_msg
  brings_none m w = record { made_fresh = λ x to e. cc; object_fresh = λ x to e. cc }

  either-IsIndexed :
      (b : Bool) (p q : World × Bool)
      → IsIndexed p.0
      → IsIndexed q.0
      → IsIndexed (if b then p else q).0
  either-IsIndexed true p q hp hq = hp
  either-IsIndexed false p q hp hq = hq

  -- One message keeps the index, whatever it is, and whether or not it throws.
  pub apply-IsIndexed :
      (m : Msg) (w : World) → BringsFresh m w → IsIndexed w → IsIndexed (apply t m w).0
  unfolding apply
  apply-IsIndexed m w f h =
      either-IsIndexed (str_eq m.type "changeContext") _ _
        (same _ (clear w) (index-emit _ _ ∙ index-emit _ _) (clear-IsIndexed w))
        (either-IsIndexed (str_eq m.op "make") _ _
          (same _ _ (index-emit _ _) (make_from-IsIndexed m.made _ m w (λ x. f.made_fresh x _) h))
          (either-IsIndexed (str_eq m.op "HEREIS_$") _ _
            (same _ _ (index-emit _ _)
              (make_from-IsIndexed m.object _ m w (λ x. f.object_fresh x _) h))
            (either-IsIndexed (str_eq m.op "delete") _ _
              (finish_delete-IsIndexed m _ (delete_by_ref-IsIndexed _ w h))
              (either-IsIndexed (str_eq m.op "changeposture") _ _
                (finish-IsIndexed m _
                  (dispatch_host_sync-IsIndexed (posture_msg m) w (brings_none m w) h))
                (either-IsIndexed (is_migrated m.op) _ _
                  (finish-IsIndexed m _ (dispatch_host_sync-IsIndexed m w f h))
                  (same _ w (index-emit _ w) h))))))
