-- ===== src/Verb/Keeps/Worlds.antt =====
-- What a program does to the world keeps what is stable.
use neohabitat.Prelude.{
  ℕ, ℤ, Bool, true, false, Option, none, some, List, [], ◌∷◌, Bool-cases, Option-cases, inl, inr,
  str_eq, is_some, ◌||◌, ◌==◌,
}
use neohabitat.World.Object.{Object, World}
use neohabitat.World.Table.{get, get?, get_by_ref}
use neohabitat.World.Contents.{contents_of, set_me_by_noid, change_state}
use neohabitat.World.Delete.{delete_by_noid, delete_all}
use neohabitat.Host.Context.{redraw_state, redraw, change_light_by}
use neohabitat.Host.Inventory.{holding?}
use neohabitat.Host.Doors.{purge}
use neohabitat.Host.Machines.{debit_by_noid, swap_display, move_found}
use neohabitat.Verb.Program.{Out, Reply, send, after_delete, request, change, give, ◌>>=◌}
use neohabitat.Verb.Context.{Ctx, Args, now, spawn, send_message}
use neohabitat.Verb.Openables.{empty_out}
use neohabitat.Verb.Machines.{show_display}
use neohabitat.Verb.Keeps.{
  Assumption, Holds, Keeps, IsStable, Keeps-change, Keeps-bind, Keeps-give, program_rules,
}

-- the ways to dispatch again keep it
pub record CtxKeeps (I : World → Type 0) (Fair : Assumption) (c : Ctx) : Type 0 where
  pub acts : (s : ℕ) (a : Args) → Keeps I Fair (c.do_action s a)
  pub acts_on : (s : ℕ) (o : Object) (a : Args) → Keeps I Fair (c.do_action_on s o a)
  pub falls_through : Keeps I Fair c.depends

module _ {I : World → Type 0} {Fair : Assumption} where
  pub do_action-Keeps :
      (c : Ctx) (s : ℕ) (a : Args) → CtxKeeps I Fair c → Keeps I Fair (c.do_action s a)
  do_action-Keeps c s a k = k.acts s a

  pub do_action_on-Keeps :
      (c : Ctx) (s : ℕ) (o : Object) (a : Args)
      → CtxKeeps I Fair c
      → Keeps I Fair (c.do_action_on s o a)
  do_action_on-Keeps c s o a k = k.acts_on s o a

  pub depends-Keeps : (c : Ctx) → CtxKeeps I Fair c → Keeps I Fair c.depends
  depends-Keeps c k = k.falls_through

  module _ (st : IsStable I Fair) where
    spawn-stable :
        (m : Out) (r : Option Reply) (w : World) → Fair (send m) r w → I w → I (spawn r w)
    unfolding spawn
    spawn-stable m none w f h = h
    spawn-stable m (some r) w f h = elim (Option-cases r.object) [
      | inl e ↦ rw (e, spawn) h
      | inr (o, e) ↦ elim (Option-cases o.mod0) [
        | inl e1 ↦ rw (e, e1, spawn) h
        | inr (d, e1) ↦ elim (Bool-cases (str_eq w.region.ref "" || is_some (get w d.noid))) [
          | inl e2 ↦ rw (e, e1, e2, spawn) h
          | inr e2 ↦ rw (e, e1, e2, spawn) (st.spawns m r o w f e h)
        ]
      ]
    ]

    pub send_message-Keeps : (m : Out) → Keeps I Fair (send_message m)
    unfolding send_message ◌>>=◌ request change give
    send_message-Keeps m = record { at = λ s h. (h, λ r w i f. spawn-stable m r w f i) }

    redraw_state-stable : (k : ℕ) (n : Option ℕ) (w : World) → I w → I (redraw_state k n w)
    unfolding redraw_state
    redraw_state-stable k none w h = st.emits _ _ h
    redraw_state-stable k (some n) w h = elim (Option-cases (get w k)) [
      | inl e ↦ rw (e, redraw_state) (st.emits _ _ h)
      | inr (o, e) ↦ rw (e, redraw_state) (st.emits _ _ (st.emits _ _ (st.writes _ _ _ h)))
    ]

    change_state-stable : (k n : Option ℕ) (w : World) → I w → I (change_state k n w)
    unfolding change_state
    change_state-stable k n w h = elim (Option-cases (get? w k)) [
      | inl e ↦ rw (e, change_state) h
      | inr (o, e) ↦ rw (e, change_state) (st.emits _ _ (st.writes _ _ _ h))
    ]

    set_me_by_noid-stable : (n : ℕ) (w : World) → I w → I (set_me_by_noid n w)
    unfolding set_me_by_noid
    set_me_by_noid-stable n w h = elim (Option-cases (get (record w { me_noid = some n }) n)) [
      | inl e ↦ rw (e, set_me_by_noid) (st.identifies n w h)
      | inr (o, e) ↦ rw (e, set_me_by_noid) (st.emits _ _ (st.identifies n w h))
    ]

    delete_each-stable : (is : List Object) (w : World) → I w → I (delete_all delete_by_noid is w).0
    unfolding delete_all
    delete_each-stable [] w h = h
    delete_each-stable (i ∷ is) w h = elim (Bool-cases (delete_by_noid i.noid w).1) [
      | inl e ↦
          rw (e, delete_all)
            (delete_each-stable is (delete_by_noid i.noid w).0 (st.deletes i.noid w h))
      | inr e ↦ rw (e, delete_all) (st.deletes i.noid w h)
    ]

    purge-stable : (n : ℕ) (w : World) → I w → I (purge n w).0
    unfolding purge
    purge-stable n w h = delete_each-stable (contents_of w n) w h

    debit_by_noid-stable : (a : Option ℕ) (n : ℕ) (w : World) → I w → I (debit_by_noid a n w)
    unfolding debit_by_noid
    debit_by_noid-stable a n w h = elim (Bool-cases (n == 0)) [
      | inl e ↦ rw (e, debit_by_noid) h
      | inr e ↦ elim (Option-cases (holding? w a)) [
        | inl e1 ↦ rw (e, e1, debit_by_noid) h
        | inr (o, e1) ↦ elim (Bool-cases (str_eq o.type "Tokens")) [
          | inl e2 ↦ rw (e, e1, e2, debit_by_noid) (st.writes _ _ _ h)
          | inr e2 ↦ rw (e, e1, e2, debit_by_noid) h
        ]
      ]
    ]

    move_found-stable :
        (o : Option Object) (to slot : ℕ) (w : World) → I w → I (move_found o to slot w)
    unfolding move_found
    move_found-stable none to slot w h = h
    move_found-stable (some o) to slot w h = st.carries _ _ _ _ _ h

    swap_display-stable : (f i : Object) (n : ℕ) (w : World) → I w → I (swap_display f i n w)
    unfolding swap_display redraw
    swap_display-stable f i n w h =
        st.emits _ _ (move_found-stable _ _ _ _ (move_found-stable _ _ _ _ h))

    pub change_redraw-Keeps : (k : ℕ) (n : Option ℕ) → Keeps I Fair (change (redraw_state k n))
    change_redraw-Keeps k n = Keeps-change _ (redraw_state-stable k n)

    pub change_state-Keeps : (k n : Option ℕ) → Keeps I Fair (change (change_state k n))
    change_state-Keeps k n = Keeps-change _ (change_state-stable k n)

    pub change_light-Keeps : (n : ℤ) → Keeps I Fair (change (change_light_by n))
    change_light-Keeps n = Keeps-change _ (st.lights n)

    pub change_identity-Keeps : (n : ℕ) → Keeps I Fair (change (set_me_by_noid n))
    change_identity-Keeps n = Keeps-change _ (set_me_by_noid-stable n)

    pub change_debit-Keeps : (a : Option ℕ) (n : ℕ) → Keeps I Fair (change (debit_by_noid a n))
    change_debit-Keeps a n = Keeps-change _ (debit_by_noid-stable a n)

    pub Holds-after_purge :
        (ms : Option ℕ) (p : World × Bool) → I p.0 → Holds I Fair (after_delete ms p)
    unfolding after_delete
    Holds-after_purge ms (w, true) h = h
    Holds-after_purge ms (w, false) h = h

    pub empty_out-Keeps : (n : ℕ) → Keeps I Fair (empty_out n)
    unfolding empty_out
    empty_out-Keeps n = record {
      at = λ s h. Holds-after_purge s.millis (purge n s.world) (purge-stable n s.world h);
    }

    show_display-stable : (c : Ctx) (n : ℕ) (w : World) → I w → I (show_display c n w)
    unfolding show_display
    show_display-stable c n w h =
        elim (Option-cases (get_by_ref w (now c.pointed w).container_ref)) [
          | inl e ↦ rw (e, show_display) h
          | inr (i, e) ↦ rw (e, show_display) (swap_display-stable (now c.pointed w) i n w h)
        ]

    pub change_display-Keeps : (c : Ctx) (n : ℕ) → Keeps I Fair (change (show_display c n))
    change_display-Keeps c n = Keeps-change _ (show_display-stable c n)

pub ruleset world_rules = (
  program_rules, do_action-Keeps, do_action_on-Keeps, depends-Keeps, send_message-Keeps,
  change_redraw-Keeps, change_state-Keeps, change_light-Keeps, change_identity-Keeps,
  change_debit-Keeps, empty_out-Keeps, change_display-Keeps,
)
