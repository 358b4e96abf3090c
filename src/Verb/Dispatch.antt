-- ===== src/Verb/Dispatch.antt =====
-- dispatch.js: a verb slot of the pointed object's class, the ways to dispatch again, and what is
-- decided before a verb runs. The class table is a parameter, and so are the behaviors that are not
-- modelled; the reasons `no-such-slot` and `unported` are given without the number or name.
use neohabitat.Prelude.{
  ℕ, zero, suc, String, Bool, not, ◌&&◌, ◌||◌, Option, none, some, List, [], ◌∷◌, ◌++◌, ◌==◌,
  str_eq, if◌then◌else◌, get_elem?, or_zero,
}
use neohabitat.World.Object.{Object, World, beep}
use neohabitat.World.Table.{get, get?, get_by_ref, me}
use neohabitat.World.Contents.{am_ghost, holding}
use neohabitat.Verb.Program.{
  Result, refused, Act, ◌>>=◌, ◌>>◌, give, look, fail_hard, given, show, skip, get_millis,
}
use neohabitat.Verb.Context.{Setting, Args, no_args, Ctx, Verb, beeps}
use neohabitat.Verb.Walking.{wait_walk}
use neohabitat.Verb.Basic.{do_gesture, fn_key_pressed, ask_for_help, toggle_ghost_mode}
use neohabitat.Verb.Registry.{
  walking_verbs, carrying_verbs, thing_verbs, gadget_verbs, machine_verbs, find_verb,
}

-- classes.js by type name, and the rest of the registry
pub record Actions : Type 0 where
  pub of_type : String → Option (List String)
  pub other_verbs : List (String × Verb)

-- DEFAULT_ITEM_ACTIONS
abbrev pub default_item_actions : List String
default_item_actions =
    "generic_depends" ∷ "illegal" ∷ "generic_goTo" ∷ "generic_cease" ∷ "generic_goToAndGet"
    ∷ "generic_goToAndDropAt" ∷ "generic_broadcast" ∷ "generic_destroy" ∷ []

-- what a nested context takes from the one that dispatches
pub record Parent : Type 0 where
  pub pointed : Object
  pub subject : Option Object

unfoldable pub subject_under : Option Parent → Object → Option Object
subject_under none pointed = none
subject_under (some p) pointed =
    if p.pointed.noid == pointed.noid then p.subject else some p.pointed

-- the object that `depends` falls back to
unfoldable pub or_actor : Option Object → Option Object → Option Object
or_actor none actor = actor
or_actor (some o) actor = some o

module _ (t : Actions) where
  unfoldable pub actions_for : Object → List String
  actions_for o = elim (t.of_type o.type) [ none ↦ default_item_actions | some l ↦ l ]

  unfoldable pub verb_for : String → Option Verb
  verb_for name = find_verb name (
      walking_verbs
      ++ (carrying_verbs ++ (thing_verbs ++ (gadget_verbs ++ (machine_verbs ++ t.other_verbs)))))

  -- `behaviorNameFor`; an empty name is no behavior
  unfoldable pub verb_at : Object → ℕ → Option Verb
  verb_at o slot = elim (get_elem? (actions_for o) slot) [
    | none ↦ some (λ c. give (refused "no-such-slot"))
    | some name ↦
        if str_eq name "" then some (λ c. give (refused "no-such-slot")) else verb_for name
  ]

  -- MAX_DEPTH: the number is that of the levels left
  unfoldable pub run : ℕ → Setting → ℕ → Object → Args → Option Parent → Act Result
  run zero env slot pointed args parent = give (refused "dispatch-depth-exceeded")
  run (suc left) env slot pointed args parent =
      given (verb_at pointed slot) (give (refused "unported")) λ v. do
        actor ← look me
        let subject = subject_under parent pointed
        let self : Option Parent = some (record { pointed = pointed; subject = subject })
        v (record {
          setting = env;
          verb = some slot;
          args = args;
          actor = actor;
          pointed = pointed;
          subject = subject;
          do_action = λ s a. run left env s pointed a self;
          do_action_on = λ s o a. run left env s o a self;
          depends = do
            held ← look (λ w. elim actor [ none ↦ none | some a ↦ holding w a.noid ])
            given (or_actor held actor) (beeps "nothing-to-depend-on") λ next.
                if slot == 1 && next.noid == pointed.noid
                then beeps "depends-loop"
                else run left env 1 next args self;
        })

  -- the walk animation that the verb has left is waited for
  unfoldable pub wait_left : Act (Unit {0})
  wait_left = do ms ← get_millis; given ms skip λ n. wait_walk

  unfoldable pub run_top : Setting → ℕ → Object → Args → Act Result
  run_top env verb pointed args = do
    result ← run 9 env verb pointed args none
    wait_left
    give result

  -- a seated avatar's GO goes to its seat
  unfoldable pub seat_or : Object → ℕ → World → ℕ
  seat_or a noid w = elim (get_by_ref w a.container_ref) [ none ↦ noid | some seat ↦ seat.noid ]

  unfoldable pub dispatch_at : Setting → ℕ → ℕ → Args → Act Result
  dispatch_at env verb noid args = do
    pointed ← look (λ w. get w noid)
    given pointed (give (refused "no-such-object")) λ o. run_top env verb o args

  unfoldable pub sits_in : Object → World → Bool
  sits_in a w = not (str_eq a.container_ref "") && not (str_eq a.container_ref w.region.ref)

  unfoldable pub dispatch : Setting → ℕ → ℕ → Args → Act Result
  dispatch env verb noid args = do
    actor ← look me
    ghost ← look am_ghost
    given actor (give (refused "not-in-region")) λ a. do
      seated ← look (sits_in a)
      seat ← look (seat_or a noid)
      if ghost && not (verb == 2)
          then (do show (beep "ghost-cant"); give (refused "ghost-no-verb"))
          else if seated && not (verb == 6)
          then if verb == 2
            then dispatch_at env verb seat args
            else (do show (beep "sitting"); give (refused "sitting-go-only"))
          else dispatch_at env verb noid args

-- a context without the ways to dispatch again; to use one of them throws
unfoldable pub plain_ctx : Setting → Object → Ctx
plain_ctx env a = record {
  setting = env;
  verb = none;
  args = no_args;
  actor = some a;
  pointed = a;
  subject = none;
  do_action = λ s x. fail_hard;
  do_action_on = λ s o x. fail_hard;
  depends = fail_hard;
}

unfoldable pub ghost_beep : String → Act Result
ghost_beep reason = do show (beep "ghost-cant"); give (refused reason)

unfoldable pub perform_gesture : Setting → ℕ → Act Result
perform_gesture env g = do
  actor ← look me
  ghost ← look am_ghost
  given actor (give (refused "not-in-region"))
      λ a. if ghost then ghost_beep "ghost-no-gesture" else do_gesture g (plain_ctx env a)

-- the function keys that reach the server
unfoldable pub reach : Setting → ℕ → Option ℕ → Object → Act Result
reach env slot pointed a =
    if slot == 15
    then (do target ← look (λ w. get? w pointed); ask_for_help target)
    else if slot == 11 || slot == 12 || slot == 13 || slot == 16
    then fn_key_pressed slot (or_zero pointed) (plain_ctx env a)
    else give (refused "fnkey-unhandled")

unfoldable pub perform_fn_key : Setting → ℕ → Option ℕ → Act Result
perform_fn_key env slot pointed = do
  actor ← look me
  ghost ← look am_ghost
  given actor (give (refused "not-in-region")) λ a.
      if slot == 9
      then toggle_ghost_mode (plain_ctx env a)
      else if ghost
      then ghost_beep "ghost-no-fnkey"
      else reach env slot pointed a
