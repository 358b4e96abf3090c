-- ===== src/Verb/Containers.antt =====
-- What the verb of containers leaves behind when it ends well.
use neohabitat.Prelude.{
  ℕ, ◌≡◌, ◌≢◌, refl, Bool, true, false, ◌||◌, Option, none, some, if◌then◌else◌, or_zero,
  Bool-cases, inl, inr,
}
use neohabitat.World.Object.{Object, World, open_unlocked}
use neohabitat.World.Table.{get}
use neohabitat.World.Contents.{holding}
use neohabitat.World.Delete.{delete_by_noid}
use neohabitat.World.Removal.{Sub, delete_all-Sub}
use neohabitat.Host.Doors.{purge}
use neohabitat.Host.Openables.{purge-empties, delete_by_noid-Sub}
use neohabitat.Verb.Program.{
  State, Result, Program, done, throws, ask, Act, then_do, ◌>>=◌, ◌>>◌, give, good, look,
  after_delete,
}
use neohabitat.Verb.Context.{Ctx, now, in_hand}
use neohabitat.Verb.Openables.{
  is_open, is_unlocked, closed_flags, put_flags, close_container, open_container, locked,
  toggle_container, empty_out,
}
use neohabitat.Verb.Ends.{
  Ends, AlwaysEnds, IfGood, AlwaysEnds-establish, AlwaysEnds-bind, AlwaysEnds-split,
  AlwaysEnds-if_granted, Ends-bind,
}
use neohabitat.Verb.Doors.{
  HasFlags, LockState, ajar, turn_lock, lock_of, IsTurned, key_of, lock_of-closed_flags,
  lock_of-open, put_flags-HasFlags, flags_set, locked-Ends, after_reading,
}

-- nothing lies in the object, if it is there
abbrev pub IsEmptied : ℕ → World → Type 0
IsEmptied n w =
    (b : Object) (k : ℕ) (o : Object)
    → get w n ≡ some b
    → get w k ≡ some o
    → o.container_ref ≢ b.ref

-- the lock has been turned, and what was open is empty
abbrev pub IsSwung : Object → Bool → LockState → World → Type 0
IsSwung d key old w = IsTurned d key old w × (old ≡ ajar → IsEmptied d.noid w)

purge-Sub : (n : ℕ) (w : World) → Sub (purge n w).0 w
unfolding purge
purge-Sub n w = delete_all-Sub delete_by_noid delete_by_noid-Sub _ w

after_delete-Ends :
    (ms : Option ℕ) (Post : World → Type 0) (p : World × Bool)
    → (p.1 ≡ true → Post p.0)
    → Ends (λ w u. Post w) (after_delete ms p)
unfolding after_delete
after_delete-Ends ms Post (w, true) h = h refl
after_delete-Ends ms Post (w, false) h = tt

empty_out-IsEmptied :
    (d : Object) (flags : ℕ) (s : State)
    → HasFlags d flags s.world
    → Ends (λ w u. HasFlags d flags w × IsEmptied d.noid w) (empty_out d.noid s)
unfolding empty_out
empty_out-IsEmptied d flags s h = after_delete-Ends _ _ (purge d.noid s.world) λ e. (
  λ o f. h o ((purge-Sub d.noid s.world).found d.noid o f),
  λ b k o f g. purge-empties d.noid s.world b ((purge-Sub d.noid s.world).found d.noid b f) e k o g,
)

shut :
    (d : Object) (f : ℕ) (key : Bool) (old : LockState)
    → some (lock_of f) ≡ turn_lock key old
    → AlwaysEnds (IfGood (IsSwung d key old)) (do put_flags d f; empty_out d.noid; give good)
unfolding give
shut d f key old h = AlwaysEnds-establish _ _ (put_flags-HasFlags d f) λ u s j.
    Ends-bind _ _ _ _ s (empty_out-IsEmptied d f s j)
      λ v t k. record { then_holds = λ g. (λ o e l. rw (k.0 o e l) h, λ q. k.1) }

close_container-IsSwung :
    (key : Bool) (f : ℕ) (c : Ctx)
    → is_open f ≡ true
    → AlwaysEnds (IfGood (IsSwung c.pointed key (lock_of f))) (close_container key f c)
unfolding close_container
close_container-IsSwung key f c h = AlwaysEnds-bind _ _ λ u. AlwaysEnds-bind _ _ λ r.
    AlwaysEnds-bind _ _ λ v. AlwaysEnds-if_granted _ _ (
      AlwaysEnds-bind _ _
        λ t. shut c.pointed (closed_flags key f) key (lock_of f) (lock_of-closed_flags key f h))

AlwaysEnds-IfGood :
    {P Q : World → Type 0} (m : Act Result)
    → ((w : World) → P w → Q w)
    → AlwaysEnds (IfGood P) m
    → AlwaysEnds (IfGood Q) m
AlwaysEnds-IfGood {P} {Q} m h k = record { from = λ s. weaken (m s) (k.from s) }
  where
    weaken : (p : Program Result) → Ends (IfGood P) p → Ends (IfGood Q) p
    weaken (done s a) i = record { then_holds = λ e. h s.world (i.then_holds e) }
    weaken (throws s) i = tt
    weaken (ask q s f) i = λ r w. weaken (f r w) (i r w)

lock_of-closed : (f : ℕ) → is_open f ≡ false → lock_of f ≢ ajar
unfolding lock_of
lock_of-closed f h e = elim (Bool-cases (is_unlocked f)) [
  | inl q ↦ cc (rw (h, q) at e)
  | inr q ↦ cc (rw (h, q) at e)
]

open_container-IsSwung :
    (key : Bool) (f : ℕ) (c : Ctx)
    → is_open f ≡ false
    → is_unlocked f || key ≡ true
    → AlwaysEnds (IfGood (IsSwung c.pointed key (lock_of f))) (open_container c)
unfolding open_container
open_container-IsSwung key f c h i =
    AlwaysEnds-IfGood _ (λ w j. (j, λ q. elim (lock_of-closed f h q) [ ]))
      (AlwaysEnds-bind _ _ λ u. AlwaysEnds-bind _ _ λ r. AlwaysEnds-bind _ _ λ v.
        AlwaysEnds-if_granted _ _ (
          AlwaysEnds-bind _ _
            λ t. flags_set c.pointed open_unlocked key (lock_of f) (lock_of-open key f h i)))

swing :
    (key : Bool) (f : ℕ) (c : Ctx)
    → AlwaysEnds (IfGood (IsSwung c.pointed key (lock_of f))) (
        if is_open f
        then close_container key f c
        else if is_unlocked f || key
        then open_container c
        else locked c)
swing key f c =
    AlwaysEnds-split _ _ _ (close_container-IsSwung key f c)
      λ h. AlwaysEnds-split _ _ _ (open_container-IsSwung key f c h) (λ i. locked-Ends c)

-- what our avatar holds
abbrev pub in_hand_now : Ctx → World → Option Object
in_hand_now c w = elim c.actor [ none ↦ none | some a ↦ holding w a.noid ]

-- The verb of a container does to its lock what turning it does: when it ends well, whatever it was
-- answered and whatever happened meanwhile, the container's lock (if the table still has that
-- record of the container, neither deleted nor made anew meanwhile) is the one that `turn_lock`
-- gives for the key in hand and the lock that were there when the verb read them, and if it was
-- open, no object is left in what the table has under its noid.
pub toggle_container-IsSwung :
    (c : Ctx) (s : State)
    → Ends
        (IfGood (
          IsSwung c.pointed
            (key_of (in_hand_now c s.world) c s.world)
            (lock_of (or_zero (now c.pointed s.world).mod_.open_flags))))
        (toggle_container c s)
unfolding toggle_container in_hand look ◌>>=◌
toggle_container-IsSwung c s = unfold then_do in after_reading _ _ c _ _ _ s (swing _ _ c) refl refl
