-- ===== src/Verb/Keeps/Dispatch.antt =====
-- A dispatch of whatever verb keeps what is stable.
use mathlib.Core.Path.{subst}
use neohabitat.Prelude.{
  ℕ, zero, suc, ◌≡◌, refl, String, Option, none, some, All, str_eq, get_elem?, Option-cases,
  Bool-cases, inl, inr,
}
use neohabitat.World.Object.{Object, World}
use neohabitat.World.Table.{me}
use neohabitat.Verb.Program.{refused, Act, give, given}
use neohabitat.Verb.Context.{Setting, Args, Verb}
use neohabitat.Verb.Dispatch.{
  Actions, Parent, actions_for, verb_for, verb_at, run, wait_left, run_top, dispatch_at, dispatch,
  plain_ctx, ghost_beep, perform_gesture, reach, perform_fn_key,
}
use neohabitat.Verb.Keeps.{
  Assumption, Keeps, IsStable, Keeps-give, Keeps-bind, Keeps-look, Keeps-fail_hard,
}
use neohabitat.Verb.Keeps.Worlds.{CtxKeeps}
use neohabitat.Verb.Keeps.Basic.{
  do_gesture-Keeps, fn_key_pressed-Keeps, ask_for_help-Keeps, toggle_ghost_mode-Keeps,
}
use neohabitat.Verb.Keeps.Payments.{payments_rules}
use neohabitat.Verb.Keeps.Registry.{some_eq, VerbKeeps, find_verb-Keeps, registry-Keep}

module _ {I : World → Type 0} {Fair : Assumption} (st : IsStable I Fair) (t : Actions)
    (others : All (VerbKeeps I Fair) t.other_verbs) where
  verb_for-Keeps :
      (name : String) (v : Verb) → verb_for t name ≡ some v → VerbKeeps I Fair (name, v)
  unfolding verb_for
  verb_for-Keeps name v e = find_verb-Keeps name _ v (registry-Keep st t.other_verbs others) e

  nothing-Keeps : (name : String) → VerbKeeps I Fair (name, λ c. give (refused "no-such-slot"))
  nothing-Keeps name c k = Keeps-give (refused "no-such-slot")

  verb_at-Keeps :
      (o : Object) (slot : ℕ) (v : Verb) → verb_at t o slot ≡ some v → VerbKeeps I Fair ("", v)
  unfolding verb_at
  verb_at-Keeps o slot v e = elim (Option-cases (get_elem? (actions_for t o) slot)) [
    | inl n ↦
        subst (λ x. VerbKeeps I Fair ("", x)) (some_eq (rw (n, verb_at) at e)) (nothing-Keeps "")
    | inr (name, n) ↦ elim (Bool-cases (str_eq name "")) [
      | inl q ↦
          subst (λ x. VerbKeeps I Fair ("", x)) (some_eq (rw (n, q, verb_at) at e))
            (nothing-Keeps "")
      | inr q ↦ verb_for-Keeps name v (rw (n, q, verb_at) at e)
    ]
  ]

  run_verb-Keeps :
      {A : Type 0} (o : Option Verb) (n : Act A) (f : Verb → Act A)
      → Keeps I Fair n
      → ((v : Verb) → o ≡ some v → Keeps I Fair (f v))
      → Keeps I Fair (given o n f)
  unfolding given
  run_verb-Keeps none n f kn kf = kn
  run_verb-Keeps (some v) n f kn kf = kf v refl

  run-Keeps :
      (left : ℕ) (env : Setting) (slot : ℕ) (o : Object) (a : Args) (p : Option Parent)
      → Keeps I Fair (run t left env slot o a p)
  unfolding run
  run-Keeps zero env slot o a p = Keeps-give (refused "dispatch-depth-exceeded")
  run-Keeps (suc left) env slot o a p =
      run_verb-Keeps (verb_at t o slot) _ _ (Keeps-give (refused "unported")) λ v e.
        Keeps-bind _ _ (Keeps-look me) λ actor. verb_at-Keeps o slot v e _ (record {
          acts = λ s x. run-Keeps left env s o x _;
          acts_on = λ s q x. run-Keeps left env s q x _;
          falls_through = search (payments_rules, run-Keeps left) depth 30;
        })

  wait_left-Keeps : Keeps I Fair (wait_left t)
  unfolding wait_left
  wait_left-Keeps = search payments_rules depth 30

  dispatch_at-Keeps :
      (env : Setting) (verb noid : ℕ) (a : Args) → Keeps I Fair (dispatch_at t env verb noid a)
  unfolding dispatch_at run_top
  dispatch_at-Keeps env verb noid a = search (payments_rules, run-Keeps, wait_left-Keeps) depth 30

  pub dispatch-Keeps :
      (env : Setting) (verb noid : ℕ) (a : Args) → Keeps I Fair (dispatch t env verb noid a)
  unfolding dispatch
  dispatch-Keeps env verb noid a = search (payments_rules, dispatch_at-Keeps) depth 30

module _ {I : World → Type 0} {Fair : Assumption} (st : IsStable I Fair) where
  pub plain_ctx-Keeps : (env : Setting) (a : Object) → CtxKeeps I Fair (plain_ctx env a)
  unfolding plain_ctx
  plain_ctx-Keeps env a = record {
    acts = λ s x. Keeps-fail_hard;
    acts_on = λ s o x. Keeps-fail_hard;
    falls_through = Keeps-fail_hard;
  }

  ghost_beep-Keeps : (r : String) → Keeps I Fair (ghost_beep r)
  unfolding ghost_beep
  ghost_beep-Keeps r = search payments_rules depth 30

  pub perform_gesture-Keeps : (env : Setting) (g : ℕ) → Keeps I Fair (perform_gesture env g)
  unfolding perform_gesture
  perform_gesture-Keeps env g =
      search (payments_rules, ghost_beep-Keeps, do_gesture-Keeps, plain_ctx-Keeps) depth 30

  reach-Keeps :
      (env : Setting) (slot : ℕ) (n : Option ℕ) (a : Object) → Keeps I Fair (reach env slot n a)
  unfolding reach
  reach-Keeps env slot n a =
      search (payments_rules, ask_for_help-Keeps, fn_key_pressed-Keeps, plain_ctx-Keeps) depth 30

  pub perform_fn_key-Keeps :
      (env : Setting) (slot : ℕ) (n : Option ℕ) → Keeps I Fair (perform_fn_key env slot n)
  unfolding perform_fn_key
  perform_fn_key-Keeps env slot n =
      search
        (payments_rules, ghost_beep-Keeps, toggle_ghost_mode-Keeps, plain_ctx-Keeps, reach-Keeps)
        depth 30
