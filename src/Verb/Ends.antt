-- ===== src/Verb/Ends.antt =====
-- How a program ends, whatever the client answers and whatever happens to the world while it waits.
use neohabitat.Prelude.{◌≡◌, refl, subst, sym, Bool, true, false, Option, none, some, if◌then◌else◌}
use neohabitat.World.Object.{World}
use neohabitat.Verb.Program.{
  Reply, Result, good, refused, standing_as, with_number, with_text, said, State, Answer, Program,
  done, throws, ask, Act, then_do, ◌>>=◌, give, given,
}
use neohabitat.Verb.Context.{beeps, boings, if_granted, Ctx}
use neohabitat.Verb.Walking.{if_ok, go_then}

-- `Post` holds of the world and the result that a program ends with, if it ends without a throw
abbrev pub Ends : {A : Type 0} (Post : World → A → Type 0) → Program A → Type 0
Ends Post (done s a) = Post s.world a
Ends Post (throws s) = Unit
Ends Post (ask q s k) = (r : Answer q) (w : World) → Ends Post (k r w)

pub record AlwaysEnds {A : Type 0} (Post : World → A → Type 0) (m : Act A) : Type 0 where
  pub from : (s : State) → Ends Post (m s)

Ends-then_do :
    {A B : Type 0} {Post : World → B → Type 0} (p : Program A) (f : A → Act B)
    → ((a : A) → AlwaysEnds Post (f a))
    → Ends Post (then_do p f)
unfolding then_do
Ends-then_do (done s a) f h = (h a).from s
Ends-then_do (throws s) f h = tt
Ends-then_do (ask q s k) f h = λ r w. Ends-then_do (k r w) f h

pub AlwaysEnds-bind :
    {A B : Type 0} {Post : World → B → Type 0} (m : Act A) (f : A → Act B)
    → ((a : A) → AlwaysEnds Post (f a))
    → AlwaysEnds Post (m >>= f)
unfolding ◌>>=◌
AlwaysEnds-bind m f h = record { from = λ s. Ends-then_do (m s) f h }

Ends-establish :
    {A B : Type 0} (Post : World → B → Type 0) (Q : World → A → Type 0) (p : Program A)
    (f : A → Act B)
    → Ends Q p
    → ((a : A) (s : State) → Q s.world a → Ends Post (f a s))
    → Ends Post (then_do p f)
unfolding then_do
Ends-establish Post Q (done s a) f i h = h a s i
Ends-establish Post Q (throws s) f i h = tt
Ends-establish Post Q (ask q s k) f i h = λ r w. Ends-establish Post Q (k r w) f (i r w) h

-- the first part establishes what the second one starts from
pub AlwaysEnds-establish :
    {A B : Type 0} {Post : World → B → Type 0} {Q : World → A → Type 0} (m : Act A) (f : A → Act B)
    → AlwaysEnds Q m
    → ((a : A) (s : State) → Q s.world a → Ends Post (f a s))
    → AlwaysEnds Post (m >>= f)
unfolding ◌>>=◌
AlwaysEnds-establish m f i h = record { from = λ s. Ends-establish _ _ (m s) f (i.from s) h }

-- the same from a state on
pub Ends-bind :
    {A B : Type 0} (Post : World → B → Type 0) (Q : World → A → Type 0) (m : Act A) (f : A → Act B)
    (s : State)
    → Ends Q (m s)
    → ((a : A) (v : State) → Q v.world a → Ends Post (f a v))
    → Ends Post ((m >>= f) s)
unfolding ◌>>=◌
Ends-bind Post Q m f s = Ends-establish Post Q (m s) f

pub AlwaysEnds-if :
    {A : Type 0} {Post : World → A → Type 0} (b : Bool) (m n : Act A)
    → AlwaysEnds Post m
    → AlwaysEnds Post n
    → AlwaysEnds Post (if b then m else n)
AlwaysEnds-if true m n hm hn = hm
AlwaysEnds-if false m n hm hn = hn

-- the same, where the branches depend on the test
pub AlwaysEnds-split :
    {A : Type 0} {Post : World → A → Type 0} (b : Bool) (m n : Act A)
    → (b ≡ true → AlwaysEnds Post m)
    → (b ≡ false → AlwaysEnds Post n)
    → AlwaysEnds Post (if b then m else n)
AlwaysEnds-split true m n hm hn = hm refl
AlwaysEnds-split false m n hm hn = hn refl

pub AlwaysEnds-given :
    {A B : Type 0} {Post : World → A → Type 0} (o : Option B) (n : Act A) (f : B → Act A)
    → AlwaysEnds Post n
    → ((b : B) → AlwaysEnds Post (f b))
    → AlwaysEnds Post (given o n f)
unfolding given
AlwaysEnds-given none n f hn hf = hn
AlwaysEnds-given (some b) n f hn hf = hf b

pub AlwaysEnds-given_some :
    {A B : Type 0} {Post : World → A → Type 0} (o : Option B) (b : B) (n : Act A) (f : B → Act A)
    → o ≡ some b
    → AlwaysEnds Post (f b)
    → AlwaysEnds Post (given o n f)
unfolding given
AlwaysEnds-given_some {Post = Post} o b n f e h =
    subst (λ x. AlwaysEnds Post (given x n f)) (sym e) h

-- what holds of the world, if the program ends well
pub record IfGood (P : World → Type 0) (w : World) (r : Result) : Type 0 where
  pub then_holds : r ≡ good → P w

module _ {P : World → Type 0} where
  pub AlwaysEnds-refused : (r : _) → AlwaysEnds (IfGood P) (give (refused r))
  unfolding give
  AlwaysEnds-refused r = record { from = λ s. record { then_holds = λ e. cc } }

  pub AlwaysEnds-beeps : (r : _) → AlwaysEnds (IfGood P) (beeps r)
  unfolding beeps
  AlwaysEnds-beeps r = AlwaysEnds-bind _ _ λ u. AlwaysEnds-refused _

  pub AlwaysEnds-boings : (r : _) → AlwaysEnds (IfGood P) (boings r)
  unfolding boings
  AlwaysEnds-boings r = AlwaysEnds-bind _ _ λ u. AlwaysEnds-refused _

  pub AlwaysEnds-if_granted :
      (r : Option Reply) (k : Act Result)
      → AlwaysEnds (IfGood P) k
      → AlwaysEnds (IfGood P) (if_granted r k)
  unfolding if_granted
  AlwaysEnds-if_granted r k h = AlwaysEnds-if _ _ _ h (AlwaysEnds-beeps _)

  AlwaysEnds-if_ok :
      (r : Result) (k : Act Result) → AlwaysEnds (IfGood P) k → AlwaysEnds (IfGood P) (if_ok r k)
  unfolding if_ok
  AlwaysEnds-if_ok (refused r) k h = AlwaysEnds-beeps r
  AlwaysEnds-if_ok good k h = h
  AlwaysEnds-if_ok (standing_as p) k h = h
  AlwaysEnds-if_ok (with_number n) k h = h
  AlwaysEnds-if_ok (with_text t) k h = h
  AlwaysEnds-if_ok (said t) k h = h

  pub AlwaysEnds-go_then :
      (c : Ctx) (k : Act Result) → AlwaysEnds (IfGood P) k → AlwaysEnds (IfGood P) (go_then c k)
  unfolding go_then
  AlwaysEnds-go_then c k h =
      AlwaysEnds-bind _ _ λ r. AlwaysEnds-if_ok r _ (AlwaysEnds-bind _ _ λ u. h)

pub ruleset ends_rules = (
  AlwaysEnds-bind, AlwaysEnds-if, AlwaysEnds-given, AlwaysEnds-refused, AlwaysEnds-beeps,
  AlwaysEnds-boings, AlwaysEnds-if_granted, AlwaysEnds-go_then,
)
