-- ===== src/Verb/Keeps.antt =====
-- What a program keeps, whatever the client answers and whatever happens to the world while it
-- waits: one rule for each way to build a program.
pub mod Worlds
pub mod Context
pub mod Basic
pub mod Carrying
pub mod Openables
pub mod Things
pub mod Held
pub mod Magic
pub mod Machines
pub mod Payments
pub mod Registry
pub mod Dispatch
pub mod Actions
use neohabitat.Prelude.{
  ℕ, ℤ, ◌≡◌, refl, String, Bool, true, false, Option, none, some, List, [], ◌∷◌, if◌then◌else◌,
  Bool-cases, Option-cases, inl, inr, str_eq, is_some,
}
use neohabitat.World.Object.{Object, Mod, World, Event}
use neohabitat.World.Table.{get, emit, update, update_life}
use neohabitat.World.Contents.{change_containers, contents_of, set_me_by_noid}
use neohabitat.World.Delete.{delete_by_noid, delete_all}
use neohabitat.World.Make.{ObjectSpec, ModSpec, make_object}
use neohabitat.Host.Context.{change_light_by}
use neohabitat.Host.Doors.{purge}
use neohabitat.Verb.Program.{
  Out, Reply, Arrival, Result, Request, send, walk, wait, pick, show_pages, type_amount, transit,
  Answer, State, Program, done, throws, ask, Act, then_do, ◌>>=◌, give, look, fail_hard, given,
  request, change, show, write, carry, skip, get_millis, set_millis, after_delete, delete,
}

-- what the answer to a request, and the world at that time, are assumed to be
abbrev pub Assumption : Type 1
Assumption = (q : Request) → Answer q → World → Type 0

-- `I` holds whenever the program waits and when it ends or throws, if it holds whenever it goes on
abbrev pub Holds : (I : World → Type 0) (Fair : Assumption) → {A : Type 0} → Program A → Type 0
Holds I Fair (done s a) = I s.world
Holds I Fair (throws s) = I s.world
Holds I Fair (ask q s k) =
    I s.world × ((r : Answer q) (w : World) → I w → Fair q r w → Holds I Fair (k r w))

pub record Keeps (I : World → Type 0) (Fair : Assumption) {A : Type 0} (m : Act A) : Type 0 where
  pub at : (s : State) → I s.world → Holds I Fair (m s)

-- what a program may do to the world without breaking `I`
pub record IsStable (I : World → Type 0) (Fair : Assumption) : Type 0 where
  pub emits : (e : Event) (w : World) → I w → I (emit e w)
  pub writes : (k : ℕ) (f : Mod → Mod) (w : World) → I w → I (update k f w)
  pub writes_to : (k : ℕ) (f : Mod → Mod) (w : World) → I w → I (update_life k f w)
  pub carries : (i c x y : Option ℕ) (w : World) → I w → I (change_containers i c x y w)
  pub deletes : (n : ℕ) (w : World) → I w → I (delete_by_noid n w).0
  pub identifies : (n : ℕ) (w : World) → I w → I (record w { me_noid = some n })
  pub lights : (n : ℤ) (w : World) → I w → I (change_light_by n w)
  pub spawns :
      (m : Out) (r : Reply) (o : ObjectSpec) (w : World)
      → Fair (send m) (some r) w
      → r.object ≡ some o
      → I w
      → I (make_object o w.region.ref false w)

module _ {I : World → Type 0} {Fair : Assumption} where
  Holds-then_do :
      {A B : Type 0} (p : Program A) (f : A → Act B)
      → ((a : A) → Keeps I Fair (f a))
      → Holds I Fair p
      → Holds I Fair (then_do p f)
  unfolding then_do
  Holds-then_do (done s a) f k h = (k a).at s h
  Holds-then_do (throws s) f k h = h
  Holds-then_do (ask q s g) f k h = (h.0, λ r w i j. Holds-then_do (g r w) f k (h.1 r w i j))

  pub Keeps-bind :
      {A B : Type 0} (m : Act A) (f : A → Act B)
      → Keeps I Fair m
      → ((a : A) → Keeps I Fair (f a))
      → Keeps I Fair (m >>= f)
  unfolding ◌>>=◌
  Keeps-bind m f km kf = record { at = λ s h. Holds-then_do (m s) f kf (km.at s h) }

  pub Keeps-give : {A : Type 0} (a : A) → Keeps I Fair (give a)
  unfolding give
  Keeps-give a = record { at = λ s h. h }

  pub Keeps-look : {A : Type 0} (f : World → A) → Keeps I Fair (look f)
  unfolding look
  Keeps-look f = record { at = λ s h. h }

  pub Keeps-fail_hard : {A : Type 0} → Keeps I Fair (fail_hard {A = A})
  unfolding fail_hard
  Keeps-fail_hard = record { at = λ s h. h }

  pub Keeps-skip : Keeps I Fair skip
  unfolding skip
  Keeps-skip = record { at = λ s h. h }

  pub Keeps-get_millis : Keeps I Fair get_millis
  unfolding get_millis
  Keeps-get_millis = record { at = λ s h. h }

  pub Keeps-set_millis : (ms : Option ℕ) → Keeps I Fair (set_millis ms)
  unfolding set_millis
  Keeps-set_millis ms = record { at = λ s h. h }

  Keeps-request : (q : Request) → Keeps I Fair (request q)
  unfolding request
  Keeps-request q = record { at = λ s h. (h, λ r w i j. i) }

  -- the same at each request whose answer computes
  pub Keeps-send : (m : Out) → Keeps I Fair {A = Option Reply} (request (send m))
  Keeps-send m = Keeps-request (send m)

  pub Keeps-walk : (x y : Option ℕ) → Keeps I Fair {A = Option Arrival} (request (walk x y))
  Keeps-walk x y = Keeps-request (walk x y)

  pub Keeps-wait : (ms : ℕ) → Keeps I Fair {A = Unit {0}} (request (wait ms))
  Keeps-wait ms = Keeps-request (wait ms)

  pub Keeps-pick : (n : ℕ) → Keeps I Fair {A = Option ℕ} (request (pick n))
  Keeps-pick n = Keeps-request (pick n)

  pub Keeps-show_pages : (n : ℕ) (b : Bool) → Keeps I Fair {A = Result} (request (show_pages n b))
  Keeps-show_pages n b = Keeps-request (show_pages n b)

  pub Keeps-type_amount : (n : ℤ) → Keeps I Fair {A = List ℕ} (request (type_amount n))
  Keeps-type_amount n = Keeps-request (type_amount n)

  pub Keeps-transit : (d : String) (n : ℕ) → Keeps I Fair {A = Result} (request (transit d n))
  Keeps-transit d n = Keeps-request (transit d n)

  pub Keeps-given :
      {A B : Type 0} (o : Option B) (n : Act A) (f : B → Act A)
      → Keeps I Fair n
      → ((b : B) → Keeps I Fair (f b))
      → Keeps I Fair (given o n f)
  unfolding given
  Keeps-given none n f kn kf = kn
  Keeps-given (some b) n f kn kf = kf b

  pub Keeps-if :
      {A : Type 0} (b : Bool) (m n : Act A)
      → Keeps I Fair m
      → Keeps I Fair n
      → Keeps I Fair (if b then m else n)
  Keeps-if true m n km kn = km
  Keeps-if false m n km kn = kn

  pub Keeps-change : (f : World → World) → ((w : World) → I w → I (f w)) → Keeps I Fair (change f)
  unfolding change
  Keeps-change f k = record { at = λ s h. k s.world h }

  module _ (st : IsStable I Fair) where
    pub Keeps-show : (e : Event) → Keeps I Fair (show e)
    unfolding show
    Keeps-show e = record { at = λ s h. st.emits e s.world h }

    pub Keeps-write : (o : Object) (f : Mod → Mod) → Keeps I Fair (write o f)
    unfolding write
    Keeps-write o f = record { at = λ s h. st.writes_to o.life f s.world h }

    pub Keeps-carry : (i c x y : Option ℕ) → Keeps I Fair (carry i c x y)
    unfolding carry
    Keeps-carry i c x y = record { at = λ s h. st.carries i c x y s.world h }

    Holds-after_delete :
        (ms : Option ℕ) (p : World × Bool) → I p.0 → Holds I Fair (after_delete ms p)
    unfolding after_delete
    Holds-after_delete ms (w, true) h = h
    Holds-after_delete ms (w, false) h = h

    pub Keeps-delete : (n : ℕ) → Keeps I Fair (delete n)
    unfolding delete
    Keeps-delete n = record {
      at = λ s h. Holds-after_delete s.millis (delete_by_noid n s.world) (st.deletes n s.world h);
    }

pub ruleset program_rules = (
  Keeps-bind, Keeps-give, Keeps-look, Keeps-fail_hard, Keeps-skip, Keeps-get_millis,
  Keeps-set_millis, Keeps-send, Keeps-walk, Keeps-wait, Keeps-pick, Keeps-show_pages,
  Keeps-type_amount, Keeps-transit, Keeps-given, Keeps-if, Keeps-show, Keeps-write, Keeps-carry,
  Keeps-delete,
)
