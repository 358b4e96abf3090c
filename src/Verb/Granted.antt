-- ===== src/Verb/Granted.antt =====
-- The verb GET from the dispatch on, with a client whose server grants everything or nothing.
use neohabitat.Prelude.{
  ℕ, suc, length, get_elem?, ◌≡◌, refl, sym, subst, Bool, true, false, Option, none, some,
  if◌then◌else◌,
}
use neohabitat.World.Object.{Object, World, hands}
use neohabitat.World.Table.{get, me}
use neohabitat.World.Contents.{am_ghost, holding}
use neohabitat.Kernel.Walk.{Point, find_goto_coords}
use neohabitat.Verb.Program.{
  Result, good, refused, State, done, Act, then_do, ◌>>=◌, ◌>>◌, given, give, show, change, look,
}
use neohabitat.Verb.Context.{
  Ctx, Setting, Args, in_hand, play_chore, send_message, message, is_success, beeps, reason_or,
}
use neohabitat.Verb.Walking.{go_then, if_ok, wait_walk, goto_spot, walk_to}
use neohabitat.Verb.Basic.{generic_go_to, walk_up_to}
use neohabitat.Verb.Carrying.{take_up, generic_go_to_and_get}
use neohabitat.Verb.Dispatch.{
  Actions, Parent, actions_for, verb_for, verb_at, run, run_top, wait_left, dispatch_at, sits_in,
  dispatch,
}
use neohabitat.Verb.Registry.{find_verb, walking_verbs, carrying_verbs}
use neohabitat.Verb.Alone.{
  Client, Comes, Comes-bind, Returns, Grants, returns_rules, play_chore-Returns, wait_walk-Returns,
  walk_to-Returns, take_up-Returns, send_message-Comes,
}

-- success when the server grants, a refusal when it denies
abbrev pub Granted : Bool → World → Result → Type 0
Granted b w r = r ≡ (if b then good else refused "server-denied")

module _ (u : Client) (b : Bool) (g : Grants u b) where
  granted :
      (item : ℕ) (c : Ctx) (a : Object) (s : State)
      → c.actor ≡ some a
      → Comes u (λ w r. r ≡ good) ((do take_up item hands c; play_chore "bend_back" c; give good) s)
  unfolding give
  granted item c a s e =
      Comes-bind u _ _ (take_up item hands c) _ s ((take_up-Returns item hands c a e).from s)
        λ x v i.
          Comes-bind u _ _ (play_chore "bend_back" c) _ v
            ((play_chore-Returns "bend_back" c).from v) λ y t j. refl

  refuses : (v : State) → Comes u (λ w r. r ≡ refused "server-denied") (beeps "server-denied" v)
  unfolding beeps show change give ◌>>=◌ then_do reason_or
  refuses v = refl

  denied :
      (c : Ctx) (s : State)
      → Comes u
          (λ w r. r ≡ refused "server-denied")
          ((do play_chore "bend_back" c; beeps "server-denied") s)
  denied c s =
      Comes-bind u _ _ (play_chore "bend_back" c) _ s ((play_chore-Returns "bend_back" c).from s)
        λ x v i. refuses v

  answered :
      (k : Bool) (item : ℕ) (c : Ctx) (a : Object) (s : State)
      → c.actor ≡ some a
      → k ≡ b
      → Comes u (Granted b) (
          (if k
              then (do take_up item hands c; play_chore "bend_back" c; give good)
              else (do play_chore "bend_back" c; beeps "server-denied"))
            s)
  answered true item c a s e q = rw (sym q) (granted item c a s e)
  answered false item c a s e q = rw (sym q) (denied c s)

  after_go :
      (c : Ctx) (a : Object) (s : State)
      → c.actor ≡ some a
      → Comes u (Granted b) (
          (wait_walk >> (do
            play_chore "bend_over" c
            reply ← send_message (message "GET" c.pointed.ref)
            if is_success reply
                then (do take_up c.pointed.noid hands c; play_chore "bend_back" c; give good)
                else (do play_chore "bend_back" c; beeps "server-denied")))
            s)
  after_go c a s e = Comes-bind u _ _ wait_walk _ s (wait_walk-Returns.from s) λ x v i.
      Comes-bind u _ _ (play_chore "bend_over" c) _ v ((play_chore-Returns "bend_over" c).from v)
        λ y t j.
          Comes-bind u _ _ (send_message (message "GET" c.pointed.ref)) _ t
            (send_message-Comes u b _ t g) λ r z q. answered (is_success r) c.pointed.noid c a z e q

  if_ok-Comes :
      (r : Result) (k : Act Result) (s : State)
      → r ≡ good
      → Comes u (Granted b) (k s)
      → Comes u (Granted b) (if_ok r k s)
  unfolding if_ok
  if_ok-Comes r k s e h = subst (λ x. Comes u (Granted b) (if_ok x k s)) (sym e) h

  empty_handed :
      (c : Ctx) (a : Object) (s : State)
      → c.actor ≡ some a
      → holding s.world a.noid ≡ none
      → in_hand c s ≡ done s none
  unfolding in_hand look
  empty_handed c a s e h = rw (e, h) refl

  get_answered :
      (c : Ctx) (a : Object) (s : State)
      → c.actor ≡ some a
      → holding s.world a.noid ≡ none
      → Comes u (λ w r. r ≡ good) (c.do_action 2 c.args s)
      → Comes u (Granted b) (generic_go_to_and_get c s)
  unfolding generic_go_to_and_get ◌>>=◌ then_do go_then
  get_answered c a s e h go = rw (empty_handed c a s e h) (
      unfold ◌>>=◌ then_do in
      Comes-bind u _ _ (c.do_action 2 c.args) _ s go
        λ r v q. if_ok-Comes r _ v q (after_go c a v e))

  -- the nested GO, at a place to stand
  go_good :
      (c : Ctx) (s : State) (p : Point)
      → goto_spot c c.pointed.noid s.world ≡ some p
      → Comes u (λ w r. r ≡ good) (generic_go_to c s)
  unfolding generic_go_to walk_up_to look ◌>>=◌ then_do given give
  go_good c s p e = rw e (
      unfold ◌>>=◌ then_do in
      Comes-bind u _ _ (walk_to c (some p.x) (some p.y)) _ s
        ((walk_to-Returns c (some p.x) (some p.y)).from s) λ x v i. refl)

  module _ (t : Actions) (env : Setting) where
    -- the slots GO and GET of an object are those of what can be picked up
    abbrev pub IsPortable : Object → Type 0
    IsPortable o =
        (get_elem? (actions_for t o) 2 ≡ some "generic_goTo")
        × (get_elem? (actions_for t o) 4 ≡ some "generic_goToAndGet")

    verb_at-get : (o : Object) → IsPortable o → verb_at t o 4 ≡ some generic_go_to_and_get
    unfolding verb_at verb_for find_verb walking_verbs carrying_verbs
    verb_at-get o e = rw (e.1, verb_at) refl

    verb_at-go : (o : Object) → IsPortable o → verb_at t o 2 ≡ some generic_go_to
    unfolding verb_at verb_for find_verb walking_verbs
    verb_at-go o e = rw (e.0, verb_at) refl

    abbrev pub spot_of : ℕ → World → Option Point
    spot_of n w = find_goto_coords env.offsets_of (suc (length w.objects)) w n

    run_go :
        (left : ℕ) (o : Object) (args : Args) (from : Option Parent) (s : State) (p : Point)
        → IsPortable o
        → spot_of o.noid s.world ≡ some p
        → Comes u (λ w r. r ≡ good) (run t (suc left) env 2 o args from s)
    unfolding run given look ◌>>=◌ then_do
    run_go left o args from s p e h = rw (verb_at-go o e) (go_good _ s p (unfold goto_spot in h))

    run_get :
        (left : ℕ) (o a : Object) (args : Args) (from : Option Parent) (s : State) (p : Point)
        → IsPortable o
        → spot_of o.noid s.world ≡ some p
        → me s.world ≡ some a
        → holding s.world a.noid ≡ none
        → Comes u (Granted b) (run t (suc (suc left)) env 4 o args from s)
    unfolding run given look ◌>>=◌ then_do
    run_get left o a args from s p e h m i =
        rw (verb_at-get o e) (get_answered _ a s m i (run_go left o args _ s p e h))

    wait_left-Returns : Returns u (wait_left t)
    unfolding wait_left
    wait_left-Returns = search (returns_rules, wait_walk-Returns) depth 30

    run_top-Granted :
        (o a : Object) (args : Args) (s : State) (p : Point)
        → IsPortable o
        → spot_of o.noid s.world ≡ some p
        → me s.world ≡ some a
        → holding s.world a.noid ≡ none
        → Comes u (Granted b) (run_top t env 4 o args s)
    unfolding run_top give
    run_top-Granted o a args s p e h m i =
        Comes-bind u _ _ (run t 9 env 4 o args none) _ s (run_get 7 o a args none s p e h m i)
          λ r v q. Comes-bind u _ _ (wait_left t) _ v (wait_left-Returns.from v) λ x z j. q

    -- The dispatch of GET at an object whose class has `generic_goTo` for GO and
    -- `generic_goToAndGet` for GET (in the class table or by default), that has a place to stand
    -- beside it, by our avatar that stands in the region with empty hands: with a client whose
    -- server grants every message, and during which no message comes in, it ends well, wherever the
    -- walk leads; with one whose server denies every message it is refused.
    pub dispatch-Granted :
        (n : ℕ) (o a : Object) (args : Args) (s : State) (p : Point)
        → me s.world ≡ some a
        → am_ghost s.world ≡ false
        → sits_in t a s.world ≡ false
        → holding s.world a.noid ≡ none
        → get s.world n ≡ some o
        → IsPortable o
        → spot_of o.noid s.world ≡ some p
        → Comes u (Granted b) (dispatch t env 4 n args s)
    unfolding dispatch dispatch_at look given ◌>>=◌ then_do
    dispatch-Granted n o a args s p m gh si ho hg e h =
        rw (m, gh, si, hg) (run_top-Granted o a args s p e h m ho)
