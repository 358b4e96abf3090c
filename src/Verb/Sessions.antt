-- ===== src/Verb/Sessions.antt =====
-- A whole session: messages of the server, and actions of ours during whose awaits more messages
-- come in.
use neohabitat.Prelude.{ℕ, suc, ◌≡◌, refl, String, false, Option, none, some, List, [], ◌∷◌, All}
use neohabitat.World.Object.{World}
use neohabitat.World.Identity.{
  index, index-emit, index-update, index-update_life, index-change_containers,
}
use neohabitat.World.Index.{
  IsIndexed, IsIndexed-of_index, MakesFresh, make_object-IsIndexed, delete_on-IsIndexed,
}
use neohabitat.World.Delete.{delete_by_noid}
use neohabitat.World.Lookup.{FindsByRef, IsIndexed-FindsByRef}
use neohabitat.Host.Message.{Msg}
use neohabitat.Host.Dispatch.{Classes}
use neohabitat.Host.Indexed.{OthersKeep}
use neohabitat.Host.Apply.{apply_all}
use neohabitat.Host.Identity.{index-change_light_by}
use neohabitat.Host.Sessions.{AllFresh, apply_all-keeps, empty-IsIndexed}
use neohabitat.Verb.Program.{
  Result, Request, send, walk, wait, pick, show_pages, type_amount, transit, Answer, State, Program,
  done, throws, ask, Act,
}
use neohabitat.Verb.Context.{Setting, Args}
use neohabitat.Verb.Dispatch.{Actions, dispatch, perform_gesture, perform_fn_key}
use neohabitat.Verb.Actions.{perform}
use neohabitat.Verb.Keeps.{Assumption, Holds, Keeps, IsStable}
use neohabitat.Verb.Keeps.Registry.{VerbKeeps}
use neohabitat.Verb.Keeps.Dispatch.{dispatch-Keeps, perform_gesture-Keeps, perform_fn_key-Keeps}
use neohabitat.Verb.Keeps.Actions.{perform-Keeps}

-- what a reply brings along is fresh
abbrev pub SpawnsFresh : Assumption
SpawnsFresh (send m) none w = Unit
SpawnsFresh (send m) (some r) w = elim r.object [
  | none ↦ Unit
  | some o ↦ MakesFresh o w.region.ref w
]
SpawnsFresh (walk x y) r w = Unit
SpawnsFresh (wait ms) r w = Unit
SpawnsFresh (pick n) r w = Unit
SpawnsFresh (show_pages n e) r w = Unit
SpawnsFresh (type_amount n) r w = Unit
SpawnsFresh (transit d n) r w = Unit

IsIndexed-IsStable : IsStable IsIndexed SpawnsFresh
unfolding delete_by_noid
IsIndexed-IsStable = record {
  emits = λ e w h. IsIndexed-of_index _ w (index-emit e w) h;
  writes = λ k f w h. IsIndexed-of_index _ w (index-update k f w) h;
  writes_to = λ k f w h. IsIndexed-of_index _ w (index-update_life k f w) h;
  carries = λ i c x y w h. IsIndexed-of_index _ w (index-change_containers i c x y w) h;
  deletes = λ n w h. delete_on-IsIndexed _ n w h;
  identifies = λ n w h. IsIndexed-of_index _ w (unfold index in refl) h;
  lights = λ n w h. IsIndexed-of_index _ w (index-change_light_by n w) h;
  spawns = λ m r o w f e h. make_object-IsIndexed o w.region.ref false w (rw e at f) h;
}

-- what our client can be told to do
pub data Action : Type 0 where
  verb : Setting → ℕ → ℕ → Args → Action
  gesture : Setting → ℕ → Action
  fn_key : Setting → ℕ → Option ℕ → Action
  bot_verb : String → Setting → Args → Action

-- the messages that come in while the n-th answer is awaited, and the answer
pub record Meanwhile : Type 0 where
  pub inbox : ℕ → List Msg
  pub answer : ℕ → (q : Request) → World → Answer q

module _ (classes : Classes) (t : Actions) where
  unfoldable pub start : Action → Act Result
  start (verb env slot noid args) = dispatch t env slot noid args
  start (gesture env g) = perform_gesture env g
  start (fn_key env slot pointed) = perform_fn_key env slot pointed
  start (bot_verb name env opts) = perform t name env opts

  -- the world when the action has ended or thrown
  unfoldable pub attend : {A : Type 0} → Meanwhile → ℕ → Program A → World
  attend u n (done s a) = s.world
  attend u n (throws s) = s.world
  attend u n (ask q s k) =
      let w = apply_all classes (u.inbox n) s.world in attend u (suc n) (k (u.answer n q w) w)

  abbrev pub FairRun : {A : Type 0} → Meanwhile → ℕ → Program A → Type 0
  FairRun u n (done s a) = Unit
  FairRun u n (throws s) = Unit
  FairRun u n (ask q s k) =
      let w = apply_all classes (u.inbox n) s.world in
      AllFresh classes (u.inbox n) s.world
      × SpawnsFresh q (u.answer n q w) w
      × FairRun u (suc n) (k (u.answer n q w) w)

  attend-keeps :
      OthersKeep classes
      → {A : Type 0} (u : Meanwhile) (n : ℕ) (p : Program A) → FairRun u n p
      → Holds IsIndexed SpawnsFresh p
      → IsIndexed (attend u n p)
  unfolding attend
  attend-keeps o u n (done s a) f h = h
  attend-keeps o u n (throws s) f h = h
  attend-keeps o u n (ask q s k) (fm, fs, fr) (h, g) =
      let w = apply_all classes (u.inbox n) s.world in
      let i = apply_all-keeps classes o (u.inbox n) s.world fm h in
      attend-keeps o u (suc n) (k (u.answer n q w) w) fr (g (u.answer n q w) w i fs)

  start-Keeps :
      All (VerbKeeps IsIndexed SpawnsFresh) t.other_verbs
      → (a : Action) → Keeps IsIndexed SpawnsFresh (start a)
  unfolding start
  start-Keeps os (verb env slot noid args) =
      dispatch-Keeps IsIndexed-IsStable t os env slot noid args
  start-Keeps os (gesture env g) = perform_gesture-Keeps IsIndexed-IsStable env g
  start-Keeps os (fn_key env slot pointed) =
      perform_fn_key-Keeps IsIndexed-IsStable env slot pointed
  start-Keeps os (bot_verb name env opts) = perform-Keeps IsIndexed-IsStable t os name env opts

  -- messages, then an action and what comes in meanwhile
  unfoldable pub take_turn : List Msg × Action × Meanwhile → World → World
  take_turn (ms, a, u) w =
      attend u 0 (start a (record { world = apply_all classes ms w; millis = none }))

  unfoldable pub live : List (List Msg × Action × Meanwhile) → World → World
  live [] w = w
  live (x ∷ l) w = live l (take_turn x w)

  abbrev pub FairLife : List (List Msg × Action × Meanwhile) → World → Type 0
  FairLife [] w = Unit
  FairLife ((ms, a, u) ∷ l) w =
      AllFresh classes ms w
      × FairRun u 0 (start a (record { world = apply_all classes ms w; millis = none }))
      × FairLife l (take_turn (ms, a, u) w)

  live-keeps :
      OthersKeep classes
      → All (VerbKeeps IsIndexed SpawnsFresh) t.other_verbs
      → (l : List (List Msg × Action × Meanwhile)) (w : World) → FairLife l w
      → IsIndexed w
      → IsIndexed (live l w)
  unfolding live take_turn
  live-keeps o os [] w f h = h
  live-keeps o os ((ms, a, u) ∷ l) w (fm, fr, fl) h =
      let s : State = record { world = apply_all classes ms w; millis = none } in
      live-keeps o os l _ fl (
        attend-keeps o u 0 (start a s) fr
          ((start-Keeps os a).at s (apply_all-keeps classes o ms w fm h)))

  -- After any session of messages and of actions of ours, one action at a time, whatever verbs these
  -- run, whatever they are answered, and whatever messages come in while they wait: if it starts
  -- without objects, each object that a message or a reply brings is fresh (its noid and its ref are
  -- free, or belong together), and the behaviors that are parameters keep the two maps one index,
  -- then each object of the table is found by its ref, and what is found by a ref has the ref and is
  -- in the table.
  pub live-FindsByRef :
      (l : List (List Msg × Action × Meanwhile)) (w : World)
      → OthersKeep classes
      → All (VerbKeeps IsIndexed SpawnsFresh) t.other_verbs
      → w.objects ≡ []
      → w.refs ≡ []
      → FairLife l w
      → FindsByRef (live l w)
  live-FindsByRef l w o os ho hr f =
      IsIndexed-FindsByRef (live l w) (live-keeps o os l w f (empty-IsIndexed w ho hr))
