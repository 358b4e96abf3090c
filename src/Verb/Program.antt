-- ===== src/Verb/Program.antt =====
-- Asynchronous behaviors: what a behavior does up to its next `await` of the client, and how it goes
-- on with the answer. The world that it goes on with is an argument, since messages of the server
-- may have been applied in the meantime.
use neohabitat.Prelude.{
  ℕ, ℤ, String, Bool, true, false, Option, none, some, List, [], ◌∷◌, if◌then◌else◌, str_eq,
}
use neohabitat.World.Object.{Object, Mod, World, Event}
use neohabitat.World.Table.{emit, update_life}
use neohabitat.World.Contents.{change_containers}
use neohabitat.World.Delete.{delete_by_noid}
use neohabitat.World.Make.{ObjectSpec}

-- the fields of a JavaScript object that hold numbers, by name; a field that is not there is `none`
abbrev pub Fields : Type 0
Fields = List (String × ℕ)

unfoldable pub field : String → Fields → Option ℕ
field k [] = none
field k ((j, v) ∷ l) = if str_eq j k then some v else field k l

-- `{ op, to, ... }`; a message and a reply have one text at most, under whatever name
pub record Out : Type 0 where
  pub op : String
  pub to : String
  pub fields : Fields
  pub text : Option String

pub record Reply : Type 0 where
  pub fields : Fields
  pub text : Option String
  pub ascii : Option (List ℕ)
  pub object : Option ObjectSpec

-- what the walk callback resolves with
pub record Arrival : Type 0 where
  pub x : Option ℕ
  pub y : Option ℕ
  pub how : Option ℕ

-- `{ ok: true }`, with a posture, a number or a text beside it, of which one is kept where the
-- source gives several; or `{ ok: false, reason }`
pub data Result : Type 0 where
  good : Result
  standing_as : String → Result
  with_number : ℕ → Result
  with_text : List ℕ → Result
  said : Option String → Result
  refused : String → Result

-- the callbacks that a behavior awaits
pub data Request : Type 0 where
  send : Out → Request
  walk : Option ℕ → Option ℕ → Request
  wait : ℕ → Request
  pick : ℕ → Request
  show_pages : ℕ → Bool → Request
  type_amount : ℤ → Request
  transit : String → ℕ → Request

abbrev pub Answer : Request → Type 0
Answer (send m) = Option Reply
Answer (walk x y) = Option Arrival
Answer (wait ms) = Unit
Answer (pick noid) = Option ℕ
Answer (show_pages noid editable) = Result
Answer (type_amount available) = List ℕ
Answer (transit direction passage) = Result

-- the world, and `_walkState.millis` of the chain of dispatches
pub record State : Type 0 where
  pub world : World
  pub millis : Option ℕ

pub data Program (A : Type 0) : Type 0 where
  done : State → A → Program A
  throws : State → Program A
  ask : (q : Request) → State → (Answer q → World → Program A) → Program A

abbrev pub Act : Type 0 → Type 0
Act A = State → Program A

module _ {A B : Type 0} where
  unfoldable pub then_do : Program A → (A → Act B) → Program B
  then_do (done s a) f = f a s
  then_do (throws s) f = throws s
  then_do (ask q s k) f = ask q s (λ r w. then_do (k r w) f)

  infixl 5 ◌>>=◌ ◌>>◌
  unfoldable pub ◌>>=◌ : Act A → (A → Act B) → Act B
  unfolding then_do
  ◌>>=◌ m f s = then_do (m s) f

  abbrev pub ◌>>◌ : Act A → Act B → Act B
  m >> n = m >>= λ _. n

module _ {A : Type 0} where
  unfoldable pub give : A → Act A
  give a s = done s a

  unfoldable pub look : (World → A) → Act A
  look f s = done s (f s.world)

  unfoldable pub fail_hard : Act A
  fail_hard s = throws s

  -- a nullable value
  unfoldable pub given {ℓ} : {B : Type ℓ} → Option B → Act A → (B → Act A) → Act A
  given none n f = n
  given (some b) n f = f b

unfoldable pub request : (q : Request) → Act (Answer q)
request q s = ask q s (λ r w. done (record s { world = w }) r)

unfoldable pub change : (World → World) → Act (Unit {0})
change f s = done (record s { world = f s.world }) tt

unfoldable pub show : Event → Act (Unit {0})
unfolding change
show e = change (emit e)

-- a write to a record that the behavior holds
unfoldable pub write : Object → (Mod → Mod) → Act (Unit {0})
unfolding change
write o f = change (update_life o.life f)

unfoldable pub carry : Option ℕ → Option ℕ → Option ℕ → Option ℕ → Act (Unit {0})
unfolding change
carry item container x y = change (change_containers item container x y)

unfoldable pub skip : Act (Unit {0})
skip s = done s tt

unfoldable pub get_millis : Act (Option ℕ)
get_millis s = done s s.millis

unfoldable pub set_millis : Option ℕ → Act (Unit {0})
set_millis ms s = done (record s { millis = ms }) tt

-- `_deleteByNoid`, whose throw is that of the behavior
unfoldable pub after_delete : Option ℕ → World × Bool → Program (Unit {0})
after_delete ms (w, true) = done (record { world = w; millis = ms }) tt
after_delete ms (w, false) = throws (record { world = w; millis = ms })

unfoldable pub delete : ℕ → Act (Unit {0})
unfolding after_delete
delete noid s = after_delete s.millis (delete_by_noid noid s.world)
