-- ===== src/Verb/Keeps/Actions.antt =====
-- The actions of bots keep what is stable.
use neohabitat.Prelude.{ℕ, String, Option, All}
use neohabitat.World.Object.{Object, World}
use neohabitat.Verb.Pause.{Place}
use neohabitat.Verb.Program.{Reply, Result, Act}
use neohabitat.Verb.Context.{Setting, Args}
use neohabitat.Verb.Dispatch.{Actions}
use neohabitat.Verb.Actions.{
  go_to_place, with_held, perform_put, is_granted, perform_throw, walk_near, perform_flags,
  perform_hand, perform,
}
use neohabitat.Verb.Keeps.{Assumption, Keeps, IsStable}
use neohabitat.Verb.Keeps.Payments.{payments_rules}
use neohabitat.Verb.Keeps.Registry.{VerbKeeps}
use neohabitat.Verb.Keeps.Dispatch.{plain_ctx-Keeps, dispatch-Keeps}

module _ {I : World → Type 0} {Fair : Assumption} (st : IsStable I Fair) where
  go_to_place-Keeps : (spot : Place) → Keeps I Fair (go_to_place spot)
  unfolding go_to_place
  go_to_place-Keeps spot = search payments_rules depth 30

  with_held-Keeps :
      (k : Object → Object → Act Result)
      → ((a i : Object) → Keeps I Fair (k a i))
      → Keeps I Fair (with_held k)
  unfolding with_held
  with_held-Keeps k h = search (payments_rules, h) depth 30

  is_granted-Keeps :
      (r : Option Reply) (k : Act Result) → Keeps I Fair k → Keeps I Fair (is_granted r k)
  unfolding is_granted
  is_granted-Keeps r k h = search payments_rules depth 30

  perform_put-Keeps : (env : Setting) (opts : Args) → Keeps I Fair (perform_put env opts)
  unfolding perform_put
  perform_put-Keeps env opts =
      with_held-Keeps _
        (λ a i. search (payments_rules, go_to_place-Keeps, plain_ctx-Keeps st) depth 30)

  perform_throw-Keeps : (opts : Args) → Keeps I Fair (perform_throw opts)
  unfolding perform_throw
  perform_throw-Keeps opts =
      with_held-Keeps _ (λ a i. search (payments_rules, is_granted-Keeps) depth 30)

  walk_near-Keeps : (env : Setting) (n : ℕ) → Keeps I Fair (walk_near env n)
  unfolding walk_near
  walk_near-Keeps env n = search (payments_rules, go_to_place-Keeps) depth 30

  perform_flags-Keeps :
      (op : String) (f : ℕ → ℕ) (env : Setting) (opts : Args)
      → Keeps I Fair (perform_flags op f env opts)
  unfolding perform_flags
  perform_flags-Keeps op f env opts =
      search (payments_rules, walk_near-Keeps, is_granted-Keeps) depth 30

  module _ (t : Actions) (others : All (VerbKeeps I Fair) t.other_verbs) where
    perform_hand-Keeps : (env : Setting) (opts : Args) → Keeps I Fair (perform_hand t env opts)
    unfolding perform_hand
    perform_hand-Keeps env opts = search (payments_rules, dispatch-Keeps st t others) depth 30

    pub perform-Keeps :
        (verb : String) (env : Setting) (opts : Args) → Keeps I Fair (perform t verb env opts)
    unfolding perform
    perform-Keeps verb env opts =
        search
          (
            payments_rules,
            dispatch-Keeps st t others,
            perform_hand-Keeps,
            perform_put-Keeps,
            perform_throw-Keeps,
            perform_flags-Keeps,
          )
          depth 30
