-- ===== src/Verb/Alone.antt =====
-- How a program ends with a given client, when no message comes in while it waits.
use neohabitat.Prelude.{ℕ, String, ◌≡◌, Bool, true, false, Option, none, some, if◌then◌else◌}
use neohabitat.World.Object.{World, Object, Mod, Event}
use neohabitat.Verb.Program.{
  Request, Answer, State, Program, done, throws, ask, Act, then_do, ◌>>=◌, given, give, look, skip,
  get_millis, set_millis, show, change, write, walk, wait, send, Arrival, Out, request, carry,
}
use neohabitat.Verb.Pause.{Place}
use neohabitat.Verb.Context.{Ctx, play_chore, is_success, send_message}
use neohabitat.Verb.Walking.{wait_walk, pause, arrive, walked, walk_to}
use neohabitat.Verb.Carrying.{take_up}

abbrev pub Client : Type 0
Client = (q : Request) → World → Answer q

-- it ends without a throw, and `Post` holds of the world and the result
abbrev pub Comes : Client → {A : Type 0} (Post : World → A → Type 0) → Program A → Type 0
Comes u Post (done s a) = Post s.world a
Comes u Post (throws s) = ⊥
Comes u Post (ask q s k) = Comes u Post (k (u q s.world) s.world)

module _ (u : Client) where
  Comes-then_do :
      {A B : Type 0} (Post : World → B → Type 0) (Q : World → A → Type 0) (p : Program A)
      (f : A → Act B)
      → Comes u Q p
      → ((a : A) (v : State) → Q v.world a → Comes u Post (f a v))
      → Comes u Post (then_do p f)
  unfolding then_do
  Comes-then_do Post Q (done s a) f i h = h a s i
  Comes-then_do Post Q (throws s) f i h = elim i [ ]
  Comes-then_do Post Q (ask q s k) f i h = Comes-then_do Post Q (k (u q s.world) s.world) f i h

  pub Comes-bind :
      {A B : Type 0} (Post : World → B → Type 0) (Q : World → A → Type 0) (m : Act A)
      (f : A → Act B) (s : State)
      → Comes u Q (m s)
      → ((a : A) (v : State) → Q v.world a → Comes u Post (f a v))
      → Comes u Post ((m >>= f) s)
  unfolding ◌>>=◌
  Comes-bind Post Q m f s = Comes-then_do Post Q (m s) f

-- it never throws
pub record Returns (u : Client) {A : Type 0} (m : Act A) : Type 0 where
  pub from : (s : State) → Comes u (λ w (a : A). Unit {0}) (m s)

module _ {u : Client} where
  pub Returns-bind :
      {A B : Type 0} (m : Act A) (f : A → Act B)
      → Returns u m
      → ((a : A) → Returns u (f a))
      → Returns u (m >>= f)
  Returns-bind m f hm hf = record {
    from = λ s. Comes-bind u _ _ m f s (hm.from s) (λ a v i. (hf a).from v);
  }

  pub Returns-give : {A : Type 0} (a : A) → Returns u (give a)
  unfolding give
  Returns-give a = record { from = λ s. tt }

  pub Returns-look : {A : Type 0} (f : World → A) → Returns u (look f)
  unfolding look
  Returns-look f = record { from = λ s. tt }

  pub Returns-skip : Returns u skip
  unfolding skip
  Returns-skip = record { from = λ s. tt }

  pub Returns-get_millis : Returns u get_millis
  unfolding get_millis
  Returns-get_millis = record { from = λ s. tt }

  pub Returns-set_millis : (ms : Option ℕ) → Returns u (set_millis ms)
  unfolding set_millis
  Returns-set_millis ms = record { from = λ s. tt }

  pub Returns-show : (e : Event) → Returns u (show e)
  unfolding show change
  Returns-show e = record { from = λ s. tt }

  pub Returns-write : (o : Object) (f : Mod → Mod) → Returns u (write o f)
  unfolding write change
  Returns-write o f = record { from = λ s. tt }

  pub Returns-walk : (x y : Option ℕ) → Returns u {A = Option Arrival} (request (walk x y))
  unfolding request
  Returns-walk x y = record { from = λ s. tt }

  pub Returns-wait : (ms : ℕ) → Returns u {A = Unit {0}} (request (wait ms))
  unfolding request
  Returns-wait ms = record { from = λ s. tt }

  pub Returns-given :
      {A B : Type 0} (o : Option B) (n : Act A) (f : B → Act A)
      → Returns u n
      → ((b : B) → Returns u (f b))
      → Returns u (given o n f)
  unfolding given
  Returns-given none n f hn hf = hn
  Returns-given (some b) n f hn hf = hf b

  pub Returns-if :
      {A : Type 0} (b : Bool) (m n : Act A)
      → Returns u m
      → Returns u n
      → Returns u (if b then m else n)
  Returns-if true m n hm hn = hm
  Returns-if false m n hm hn = hn

pub ruleset returns_rules = (
  Returns-bind, Returns-give, Returns-look, Returns-skip, Returns-get_millis, Returns-set_millis,
  Returns-show, Returns-write, Returns-walk, Returns-wait, Returns-given, Returns-if,
)

module _ {u : Client} where
  pub play_chore-Returns : (act : String) (c : Ctx) → Returns u (play_chore act c)
  unfolding play_chore
  play_chore-Returns act c = search returns_rules depth 30

  pub wait_walk-Returns : Returns u wait_walk
  unfolding wait_walk pause
  wait_walk-Returns = search returns_rules depth 30

  arrive-Returns : (c : Ctx) (to : Place) (how : ℕ) → Returns u (arrive c to how)
  unfolding arrive
  arrive-Returns c to how = search returns_rules depth 30

  walked-Returns :
      (c : Ctx) (from : Option Place) (to : Place) (how : ℕ) → Returns u (walked c from to how)
  unfolding walked
  walked-Returns c from to how = search (returns_rules, arrive-Returns) depth 30

  pub walk_to-Returns : (c : Ctx) (x y : Option ℕ) → Returns u (walk_to c x y)
  unfolding walk_to
  walk_to-Returns c x y = search (returns_rules, walked-Returns) depth 30

  pub take_up-Returns :
      (item slot : ℕ) (c : Ctx) (a : Object) → c.actor ≡ some a → Returns u (take_up item slot c)
  unfolding take_up carry change given
  take_up-Returns item slot c a e = record { from = λ s. rw e tt }

-- the client has the server grant every message, or deny every one
abbrev pub Grants : Client → Bool → Type 0
Grants u b = (n : Out) (w : World) → is_success (u (send n) w) ≡ b

-- a message, when the client grants all messages or none
pub send_message-Comes :
    (u : Client) (b : Bool) (m : Out) (s : State)
    → Grants u b
    → Comes u (λ w r. is_success r ≡ b) (send_message m s)
unfolding send_message request change give ◌>>=◌ then_do
send_message-Comes u b m s h = h m s.world
