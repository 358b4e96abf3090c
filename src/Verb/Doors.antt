-- ===== src/Verb/Doors.antt =====
-- What the verb of doors leaves behind when it ends well.
use neohabitat.Prelude.{
  ℕ, ◌≡◌, refl, sym, ap, ◌∙◌, Bool, true, false, not, ◌||◌, Option, none, some, if◌then◌else◌, ◌==◌,
  ==_iff, List, [], ◌∷◌, or_zero, arith, inl, inr, Bool-cases,
}
use neohabitat.World.Object.{Object, Mod, World, set_open_flags, open_unlocked}
use neohabitat.World.Table.{find_object, modify_life, get, emit, update_life}
use neohabitat.World.Tables.{with_mod}
use neohabitat.Verb.Program.{
  State, Result, Act, then_do, ◌>>=◌, ◌>>◌, give, given, good, show, write, change, look,
}
use neohabitat.Verb.Context.{Ctx, mod_now, now, redraws}
use neohabitat.Verb.Openables.{
  is_open, is_unlocked, fits, closed_flags, have_key, put_flags, close_door, open_door, locked,
  toggle_door,
}
use neohabitat.Verb.Keeps.Registry.{some_eq}
use neohabitat.Verb.Ends.{
  Ends, AlwaysEnds, IfGood, AlwaysEnds-establish, AlwaysEnds-bind, AlwaysEnds-if, AlwaysEnds-split,
  AlwaysEnds-boings, AlwaysEnds-refused, AlwaysEnds-if_granted, Ends-bind,
}

-- the table has the record with these flags, if it has that record
abbrev pub HasFlags : Object → ℕ → World → Type 0
HasFlags d flags w =
    (o : Object) → get w d.noid ≡ some o → o.life ≡ d.life → o.mod_.open_flags ≡ some flags

-- A lock by itself, as a player knows it: what the verb does to it, with the key or without. A lock
-- that is locked needs the key.
pub data LockState : Type 0 where
  ajar : LockState
  latched : LockState
  locked_up : LockState

unfoldable pub turn_lock : Bool → LockState → Option LockState
turn_lock true ajar = some locked_up
turn_lock false ajar = some latched
turn_lock key latched = some ajar
turn_lock true locked_up = some ajar
turn_lock false locked_up = none

-- the lock that the flags stand for
unfoldable pub lock_of : ℕ → LockState
lock_of flags = if is_open flags then ajar else if is_unlocked flags then latched else locked_up

-- the record's lock has been turned, if the table has that record
abbrev pub IsTurned : Object → Bool → LockState → World → Type 0
IsTurned d key old w =
    (o : Object)
    → get w d.noid ≡ some o
    → o.life ≡ d.life
    → some (lock_of (or_zero o.mod_.open_flags)) ≡ turn_lock key old

-- whether what is held is the key, as the records are now
abbrev pub key_of : Option Object → Ctx → World → Bool
key_of held c w = elim held [
  | none ↦ false
  | some i ↦ fits (some i) (now i w).mod_ (now c.pointed w).mod_
]

set_open_flags-open_flags : (f : ℕ) (m : Mod) → (set_open_flags f m).open_flags ≡ some f
unfolding set_open_flags
set_open_flags-open_flags f m = refl

other_life : (i o : Object) (k : ℕ) → (i.life == k) ≡ false → i ≡ o → o.life ≡ k → ⊥
other_life i o k a p q = cc ((==_iff i.life k).1 (ap (λ x. x.life) p ∙ q), a)

-- a write to a record, at what the table has under a noid
find_object-modify_life :
    (k n : ℕ) (f : Mod → Mod) (l : List Object) (o : Object)
    → find_object n (modify_life k f l) ≡ some o
    → o.life ≡ k
    → (i : Object) × (o ≡ with_mod f i)
unfolding find_object modify_life with_mod
find_object-modify_life k n f [] o e q = cc
find_object-modify_life k n f (i ∷ l) o e q = elim (Bool-cases (i.life == k)) [
  | inl a ↦ elim (Bool-cases (i.noid == n)) [
    | inl b ↦ (i, sym (some_eq (rw (a, b) at e)))
    | inr b ↦ find_object-modify_life k n f l o (rw (a, b) at e) q
  ]
  | inr a ↦ elim (Bool-cases (i.noid == n)) [
    | inl b ↦ absurd (other_life i o k a (some_eq (rw (a, b) at e)) q)
    | inr b ↦ find_object-modify_life k n f l o (rw (a, b) at e) q
  ]
]

HasFlags-update :
    (d : Object) (f : ℕ) (w : World) → HasFlags d f (update_life d.life (set_open_flags f) w)
unfolding update_life get with_mod
HasFlags-update d f w o e q =
    let (i, h) = find_object-modify_life d.life d.noid (set_open_flags f) w.objects o e q in
    ap (λ x. x.mod_.open_flags) h ∙ set_open_flags-open_flags f i.mod_

pub put_flags-HasFlags : (d : Object) (f : ℕ) → AlwaysEnds (λ w u. HasFlags d f w) (put_flags d f)
unfolding put_flags write change show redraws ◌>>=◌ then_do emit get
put_flags-HasFlags d f = record {
  from = λ s o e q. unfold get in HasFlags-update d f s.world o e q;
}

-- the end of the verb: the new flags, and success
pub flags_set :
    (d : Object) (f : ℕ) (key : Bool) (old : LockState)
    → some (lock_of f) ≡ turn_lock key old
    → AlwaysEnds (IfGood (IsTurned d key old)) (do put_flags d f; give good)
unfolding give
flags_set d f key old h =
    AlwaysEnds-establish _ _ (put_flags-HasFlags d f)
      λ u s i. record { then_holds = λ g o e q. rw (i o e q) h }

is_open-closed_flags : (key : Bool) (f : ℕ) → is_open (closed_flags key f) ≡ false
unfolding is_open closed_flags
is_open-closed_flags true f = ground arith
is_open-closed_flags false f = ground arith

is_unlocked-closed_flags : (key : Bool) (f : ℕ) → is_unlocked (closed_flags key f) ≡ not key
unfolding is_unlocked closed_flags
is_unlocked-closed_flags true f = ground arith
is_unlocked-closed_flags false f = ground arith

pub lock_of-closed_flags :
    (key : Bool) (f : ℕ)
    → is_open f ≡ true
    → some (lock_of (closed_flags key f)) ≡ turn_lock key (lock_of f)
unfolding lock_of turn_lock
lock_of-closed_flags true f h =
    rw (is_open-closed_flags true f, is_unlocked-closed_flags true f, h) refl
lock_of-closed_flags false f h =
    rw (is_open-closed_flags false f, is_unlocked-closed_flags false f, h) refl

pub lock_of-open :
    (key : Bool) (f : ℕ)
    → is_open f ≡ false
    → is_unlocked f || key ≡ true
    → some (lock_of open_unlocked) ≡ turn_lock key (lock_of f)
unfolding lock_of turn_lock is_open
lock_of-open true f h i = elim (Bool-cases (is_unlocked f)) [
  | inl e ↦ rw (e, h) refl
  | inr e ↦ rw (e, h) refl
]
lock_of-open false f h i = elim (Bool-cases (is_unlocked f)) [
  | inl e ↦ rw (e, h) refl
  | inr e ↦ cc (rw e at i)
]

close_door-IsTurned :
    (key : Bool) (f : ℕ) (c : Ctx)
    → is_open f ≡ true
    → AlwaysEnds (IfGood (IsTurned c.pointed key (lock_of f))) (close_door key f c)
unfolding close_door
close_door-IsTurned key f c h = AlwaysEnds-bind _ _ λ u. AlwaysEnds-bind _ _ λ r.
    AlwaysEnds-bind _ _ λ v.
      AlwaysEnds-if _ _ _
        (AlwaysEnds-bind _ _ λ t.
          flags_set c.pointed (closed_flags key f) key (lock_of f) (lock_of-closed_flags key f h))
        (AlwaysEnds-boings _)

open_door-IsTurned :
    (key : Bool) (f : ℕ) (c : Ctx)
    → is_open f ≡ false
    → is_unlocked f || key ≡ true
    → AlwaysEnds (IfGood (IsTurned c.pointed key (lock_of f))) (open_door c)
unfolding open_door
open_door-IsTurned key f c h i = AlwaysEnds-bind _ _ λ u. AlwaysEnds-bind _ _ λ r.
    AlwaysEnds-bind _ _ λ v. AlwaysEnds-if_granted _ _ (
      AlwaysEnds-bind _ _
        λ t. flags_set c.pointed open_unlocked key (lock_of f) (lock_of-open key f h i))

pub locked-Ends : {P : World → Type 0} (c : Ctx) → AlwaysEnds (IfGood P) (locked c)
unfolding locked
locked-Ends c = AlwaysEnds-bind _ _ λ u. AlwaysEnds-refused _

-- what does not write leaves the record as it was
have_key-same :
    (held : Option Object) (c : Ctx) (key : Bool) (m : Mod) (s : State)
    → key_of held c s.world ≡ key
    → (now c.pointed s.world).mod_ ≡ m
    → Ends (λ w k. (k ≡ key) × ((now c.pointed w).mod_ ≡ m)) (have_key held c s)
unfolding have_key mod_now look ◌>>=◌ then_do given give
have_key-same none c key m s g h = (g, h)
have_key-same (some i) c key m s g h = (g, h)

mod_now-same :
    (c : Ctx) (m : Mod) (s : State)
    → (now c.pointed s.world).mod_ ≡ m
    → Ends (λ w n. n ≡ m) (mod_now c.pointed s)
unfolding mod_now look
mod_now-same c m s h = h

swing :
    (key : Bool) (f : ℕ) (c : Ctx)
    → AlwaysEnds (IfGood (IsTurned c.pointed key (lock_of f))) (
        if is_open f
        then close_door key f c
        else if is_unlocked f || key
        then open_door c
        else locked c)
swing key f c =
    AlwaysEnds-split _ _ _ (close_door-IsTurned key f c)
      λ h. AlwaysEnds-split _ _ _ (open_door-IsTurned key f c h) (λ i. locked-Ends c)

-- what follows the reading of the key and of the flags
pub after_reading :
    (Post : World → Result → Type 0) (held : Option Object) (c : Ctx) (key : Bool) (m : Mod)
    (k : Bool → Mod → Act Result) (s : State)
    → AlwaysEnds Post (k key m)
    → key_of held c s.world ≡ key
    → (now c.pointed s.world).mod_ ≡ m
    → Ends Post ((do b ← have_key held c; n ← mod_now c.pointed; k b n) s)
after_reading Post held c key m k s h g e =
    Ends-bind _ _ _ _ s (have_key-same held c key m s g e) λ b t i.
      Ends-bind _ _ _ _ t (mod_now-same c m t i.1)
        λ n r j. let x : AlwaysEnds Post (k b n) = rw (j, i.0) h in x.from r

-- The verb of a door, in bits of its flags and with requests in between, does to the lock what
-- turning it does: when it ends well, whatever it was answered and whatever happened meanwhile, the
-- door's lock (if the table still has that record of the door, neither deleted nor made anew
-- meanwhile) is the one that `turn_lock` gives for the key in hand and the lock that were there
-- when the verb read them.
pub toggle_door-IsTurned :
    (held : Option Object) (c : Ctx) (s : State)
    → Ends
        (IfGood (
          IsTurned c.pointed
            (key_of held c s.world)
            (lock_of (or_zero (now c.pointed s.world).mod_.open_flags))))
        (toggle_door held c s)
unfolding toggle_door show change
toggle_door-IsTurned held c s =
    Ends-bind _
      (λ w u.
        (key_of held c w ≡ key_of held c s.world)
        × ((now c.pointed w).mod_ ≡ (now c.pointed s.world).mod_))
      _ _ s (unfold now get emit in (refl, refl))
      λ u v h. after_reading _ held c _ _ _ v (swing _ _ c) h.0 h.1
