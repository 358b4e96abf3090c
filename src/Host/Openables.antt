-- ===== src/Host/Openables.antt =====
-- What OPEN$, CLOSE$, OPENCONTAINER$ and CLOSECONTAINER$ leave behind.
use neohabitat.Prelude.{
  ℕ, ◌%◌, Option, ◌≡◌, ◌≢◌, refl, ap, ◌∙◌, String, Bool, true, false, none, some, ◌==◌, ==_iff,
  if◌then◌else◌, arith, or_zero,
}
use neohabitat.World.Object.{Object, World, set_open_flags}
use neohabitat.World.Table.{get, get?}
use neohabitat.World.Contents.{contents_of}
use neohabitat.World.Delete.{delete_all, delete_by_noid}
use neohabitat.World.Tables.{noid-get, map_object, with_mod}
use neohabitat.World.Removal.{
  Sub, Has-contents_of, delete_on-Sub, delete_on-gone, delete_all-gone, delete_all-Sub,
}
use neohabitat.Host.Message.{Msg, ok}
use neohabitat.Host.Context.{Ctx}
use neohabitat.Host.Shown.{shown_rules}
use neohabitat.World.Depth.{IsRanked}
use neohabitat.Host.Returns.{purge-done, set_flags-IsRanked}
use neohabitat.Host.Doors.{
  avatar_open, avatar_close, avatar_open_container, avatar_close_container, set_flags, purge,
  after_purge,
}

pub get-set_flags :
    (n flags : ℕ) (w : World) (k : ℕ)
    → get (set_flags n flags w) k
      ≡ (if n == k then map_object (with_mod (set_open_flags flags)) (get w k) else get w k)
unfolding set_flags
get-set_flags n flags w k = grind shown_rules

-- the object with new flags, and its look that of the open bit
unfoldable pub flagged : ℕ → Object → Object
flagged flags o = record o {
  mod_ = record o.mod_ { open_flags = some flags; gr_state = some (flags % 2) };
}

open_bit : (f : ℕ) → (if f % 2 == 0 then 0 else 1) ≡ f % 2
open_bit f = ground arith

flags_set : (f : ℕ) (o : Object) → with_mod (set_open_flags f) o ≡ flagged f o
unfolding with_mod set_open_flags flagged
flags_set f o = rw (open_bit f) refl

set_on_object :
    (f : ℕ) (o : Option Object)
    → map_object (with_mod (set_open_flags f)) o ≡ map_object (flagged f) o
unfolding map_object
set_on_object f none = refl
set_on_object f (some o) = ap some (flags_set f o)

abbrev pub Flagged : ℕ → ℕ → World → World → Type 0
Flagged n flags w v =
    (k : ℕ) → get v k ≡ (if n == k then map_object (flagged flags) (get w k) else get w k)

-- OPEN$ and CLOSE$ of a door, and OPENCONTAINER$ of a container, that is there: its flags are the
-- open and unlocked bits (3), or those of the message, its `gr_state` is the open bit of them, and
-- every other object is as it was.
pub openables-Flagged :
    (c : Ctx) (w : World) (n : ℕ) (o : Object)
    → get w n ≡ some o
    → (c.args.target ≡ some n → Flagged n 3 w (avatar_open c w).0)
      × (c.args.target ≡ some n → Flagged n (or_zero c.args.open_flags) w (avatar_close c w).0)
      × (c.args.cont ≡ some n → Flagged n 3 w (avatar_open_container c w).0)
unfolding avatar_open avatar_close avatar_open_container get?
openables-Flagged c w n o h = (
  λ e k. grind (shown_rules, get-set_flags, noid-get w n o h, set_on_object),
  λ e k. grind (shown_rules, get-set_flags, noid-get w n o h, set_on_object),
  λ e k. grind (shown_rules, get-set_flags, noid-get w n o h, set_on_object),
)

pub delete_by_noid-Sub : (n : ℕ) (w : World) → Sub (delete_by_noid n w).0 w
unfolding delete_by_noid
delete_by_noid-Sub n w = delete_on-Sub _ n w

delete_by_noid-gone :
    (n : ℕ) (w : World) → (delete_by_noid n w).1 ≡ true → get (delete_by_noid n w).0 n ≡ none
unfolding delete_by_noid
delete_by_noid-gone n w = delete_on-gone _ n w

-- A finished purge leaves nothing in the container.
pub purge-empties :
    (n : ℕ) (w : World) (c : Object)
    → get w n ≡ some c
    → (purge n w).1 ≡ true
    → (k : ℕ) (o : Object) → get (purge n w).0 k ≡ some o
    → o.container_ref ≢ c.ref
unfolding purge
purge-empties n w c hc h k o ho e =
    let s : Sub (delete_all delete_by_noid (contents_of w n) w).0 w =
      delete_all-Sub delete_by_noid delete_by_noid-Sub (contents_of w n) w in
    cc (
      delete_all-gone delete_by_noid delete_by_noid-Sub delete_by_noid-gone (contents_of w n) w k h
          (Has-contents_of w n k c o hc (s.found k o ho) e),
      ho,
    )

close_run :
    (c : Ctx) (w : World) (n : ℕ) (cont : Object)
    → c.args.cont ≡ some n
    → get w n ≡ some cont
    → avatar_close_container c w
      ≡ after_purge n "CONTAINER_CLOSING" c.args
          (purge n (set_flags n (or_zero c.args.open_flags) w))
unfolding avatar_close_container get?
close_run c w n cont hn hc = grind (arith, noid-get w n cont hc)

after_purge-ok :
    (n : ℕ) (s : String) (m : Msg) (p : World × Bool)
    → p.1 ≡ true
    → ((after_purge n s m p).1 ≡ ok) × ((k : ℕ) → get (after_purge n s m p).0 k ≡ get p.0 k)
unfolding after_purge
after_purge-ok n s m (w, true) h = (refl, λ k. grind shown_rules)
after_purge-ok n s m (w, false) h = cc

-- CLOSECONTAINER$ of a container that is there, in a world whose containment is not cyclic: it is
-- answered with `ok`, and no object is left whose `containerRef` is the container's ref.
pub avatar_close_container-empties :
    (c : Ctx) (w : World) (n : ℕ) (cont : Object) (rank : ℕ → ℕ)
    → IsRanked rank w
    → c.args.cont ≡ some n
    → get w n ≡ some cont
    → ((avatar_close_container c w).1 ≡ ok)
      × ((k : ℕ) (o : Object)
          → get (avatar_close_container c w).0 k ≡ some o
          → o.container_ref ≢ cont.ref)
unfolding map_object with_mod
avatar_close_container-empties c w n cont rank r hn hc =
    let v = set_flags n (or_zero c.args.open_flags) w in
    let done : (purge n v).1 ≡ true = purge-done rank n v (set_flags-IsRanked rank n _ w r) in
    let after = after_purge-ok n "CONTAINER_CLOSING" c.args (purge n v) done in
    let there : get v n ≡ some (with_mod (set_open_flags (or_zero c.args.open_flags)) cont) =
      grind (arith, get-set_flags n (or_zero c.args.open_flags) w n, ==_iff n n) in
    (
      ap (λ p. p.1) (close_run c w n cont hn hc) ∙ after.0,
      λ k o ho. purge-empties n v _ there done k o (cc (after.1 k, ho, close_run c w n cont hn hc)),
    )
