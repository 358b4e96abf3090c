-- ===== src/World/Seating.antt =====
-- `_reconcileSeating`: whichever of a seat and its sitter is made first, the sitter ends in the
-- seat.
use mathlib.Core.Path.{subst}
use neohabitat.Prelude.{
  any, ap, sym, ℕ, zero, suc, Option, none, ◌+◌, ◌≡◌, ◌≢◌, refl, ◌∙◌, true, false, ◌&&◌, not, some,
  List, [], ◌∷◌, ◌==◌, ==_iff, str_eq, eq_iff, if◌then◌else◌, arith, or_zero, truthy, ◌⊎◌, inl, inr,
  Bool-cases, Option-cases,
}
use neohabitat.World.Object.{Object, Mod, World, the_region}
use neohabitat.World.Table.{get, get?, update}
use neohabitat.World.Contents.{change_containers}
use neohabitat.World.Make.{
  seat_avatar, seat_sitter, seat_sitters, reconcile_seating, adopt_sitting_action,
}
use neohabitat.World.Tables.{map_object, with_mod}
use neohabitat.World.Effects.{
  get_rules, placed, arrived, destination, destination-update, get-change_containers,
}

-- the activity of a record that has a `sittingAction`, or none
unfoldable pub pose_after : Option ℕ → Option ℕ → Option ℕ
pose_after none activity = activity
pose_after (some zero) activity = activity
pose_after (some (suc p)) activity = some (suc p)

-- the object in its pose
unfoldable pub posed : Object → Object
posed r = record r {
  mod_ = record r.mod_ { activity = pose_after r.mod_.sitting_action r.mod_.activity };
}

pose_taken : (p a : Option ℕ) → (if truthy p then p else a) ≡ pose_after p a
unfolding pose_after
pose_taken none a = refl
pose_taken (some zero) a = refl
pose_taken (some (suc p)) a = refl

adopted :
    (m : Mod)
    → adopt_sitting_action m
      ≡ record m { activity = if truthy m.sitting_action then m.sitting_action else m.activity }
unfolding adopt_sitting_action
adopted m = elim (Bool-cases (truthy m.sitting_action)) [ inl e ↦ rw e refl | inr e ↦ rw e refl ]

adopts : (r : Object) → with_mod adopt_sitting_action r ≡ posed r
unfolding with_mod posed
adopts r =
    ap (λ m. record r { mod_ = m }) (adopted r.mod_)
    ∙ ap (λ a. record r { mod_ = record r.mod_ { activity = a } })
        (pose_taken r.mod_.sitting_action r.mod_.activity)

-- An avatar in the table that is made with a seat to sit in, when the seat is there, another object
-- than the avatar and not under the region's noid: the avatar is in the seat, at its slot, in the
-- pose of its `sittingAction` if it has one that is not 0 (its activity is that number), and every
-- other object is as it was.
pub reconcile_seating-avatar :
    (r seat : Object) (w : World) (s : ℕ)
    → str_eq r.type "Avatar" ≡ true
    → r.mod_.sitting_in ≡ some s
    → s ≢ the_region
    → s ≢ r.noid
    → get w r.noid ≡ some r
    → get w s ≡ some seat
    → (k : ℕ)
    → get (reconcile_seating r w) k ≡ (
        if r.noid == k
        then some (placed seat.ref (some 0) (some (or_zero r.mod_.sitting_slot)) (posed r))
        else get w k)
unfolding reconcile_seating seat_avatar get? map_object arrived destination
reconcile_seating-avatar r seat w s ht hs z ne hr hc k =
    grind (get_rules, get-change_containers, ==_iff, destination-update, adopts r)

-- the seat is there, under its ref
record SeatAt (seat : Object) (w : World) : Type 0 where
  record_ : Object
  found : get w seat.noid ≡ some record_
  same_ref : record_.ref ≡ seat.ref

-- a sitter: an avatar that is there
record Sitter (a : ℕ) (w : World) : Type 0 where
  avatar : Object
  found : get w a ≡ some avatar
  is_avatar : str_eq avatar.type "Avatar" ≡ true

-- an object that is in the seat
pub record InSeat (a : ℕ) (seat : Object) (w : World) : Type 0 where
  pub sitter : Object
  pub found : get w a ≡ some sitter
  pub inside : sitter.container_ref ≡ seat.ref

seat_destination :
    (seat : Object) (w : World)
    → seat.noid ≢ the_region
    → SeatAt seat w
    → destination w (some seat.noid) ≡ some seat.ref
unfolding destination get?
seat_destination seat w z h = grind (arith, h.found, h.same_ref, ==_iff)

-- what one step does: nothing, or the move
pub step_cases :
    (seat : Object) (s slot : ℕ) (w : World)
    → (seat_sitter seat s slot w ≡ w)
      ⊎ (seat_sitter seat s slot w
          ≡ change_containers
              (some s)
              (some seat.noid)
              (some 0)
              (some slot)
              (update s adopt_sitting_action w))
unfolding seat_sitter
step_cases seat s slot w = elim (Bool-cases (s == 0)) [
  | inl e ↦ inl (rw (e, seat_sitter))
  | inr e ↦ elim (Option-cases (get w s)) [
    | inl q ↦ inl (rw (e, q, seat_sitter))
    | inr (x, q) ↦
        elim (Bool-cases (str_eq x.type "Avatar" && not (str_eq x.container_ref seat.ref))) [
          | inl g ↦ inr (rw (e, q, g, seat_sitter))
          | inr g ↦ inl (rw (e, q, g, seat_sitter))
        ]
  ]
]

-- the move, at each noid
step_moves :
    (seat : Object) (s slot : ℕ) (w : World)
    → seat.noid ≢ the_region
    → SeatAt seat w
    → (k : ℕ)
    → get
        (change_containers
          (some s)
          (some seat.noid)
          (some 0)
          (some slot)
          (update s adopt_sitting_action w))
        k
      ≡ (if s == k
          then map_object
              (placed seat.ref (some 0) (some slot))
              (map_object (with_mod adopt_sitting_action) (get w k))
          else get w k)
unfolding arrived
step_moves seat s slot w z h k = grind (
  get_rules,
  get-change_containers,
  destination-update s adopt_sitting_action w (some seat.noid) ∙ seat_destination seat w z h,
)

module _ (seat : Object) (zr : seat.noid ≢ the_region) where
  -- the object after its move
  moved : ℕ → Object → Object
  moved slot o = placed seat.ref (some 0) (some slot) (with_mod adopt_sitting_action o)

  after_move :
      (s slot : ℕ) (w : World)
      → SeatAt seat w
      → (k : ℕ) (o : Object) → get w k ≡ some o
      → get
          (change_containers
            (some s)
            (some seat.noid)
            (some 0)
            (some slot)
            (update s adopt_sitting_action w))
          k
        ≡ (if s == k then some (moved slot o) else some o)
  unfolding map_object moved
  after_move s slot w h k o e = step_moves seat s slot w zr h k ∙ grind (arith, e)

  after_step :
      (s slot : ℕ) (w : World)
      → SeatAt seat w
      → (k : ℕ) (o : Object) → get w k ≡ some o
      → (get (seat_sitter seat s slot w) k ≡ some o)
        ⊎ (get (seat_sitter seat s slot w) k ≡ some (moved slot o))
  after_step s slot w h k o e = elim (step_cases seat s slot w) [
    | inl q ↦ inl (rw q e)
    | inr q ↦ elim (Bool-cases (s == k)) [
      | inl g ↦ inr (rw q (after_move s slot w h k o e ∙ rw g refl))
      | inr g ↦ inl (rw q (after_move s slot w h k o e ∙ rw g refl))
    ]
  ]

  SeatAt-step : (s slot : ℕ) (w : World) → SeatAt seat w → SeatAt seat (seat_sitter seat s slot w)
  unfolding moved placed with_mod
  SeatAt-step s slot w h = elim (after_step s slot w h seat.noid h.record_ h.found) [
    | inl e ↦ record { record_ = h.record_; found = e; same_ref = h.same_ref }
    | inr e ↦ record { record_ = moved slot h.record_; found = e; same_ref = h.same_ref }
  ]

  InSeat-step :
      (a s slot : ℕ) (w : World)
      → SeatAt seat w
      → InSeat a seat w
      → InSeat a seat (seat_sitter seat s slot w)
  unfolding moved placed with_mod
  InSeat-step a s slot w h i = elim (after_step s slot w h a i.sitter i.found) [
    | inl e ↦ record { sitter = i.sitter; found = e; inside = i.inside }
    | inr e ↦ record { sitter = moved slot i.sitter; found = e; inside = refl }
  ]

  Sitter-step :
      (a s slot : ℕ) (w : World) → SeatAt seat w → Sitter a w → Sitter a (seat_sitter seat s slot w)
  unfolding moved placed with_mod
  Sitter-step a s slot w h i = elim (after_step s slot w h a i.avatar i.found) [
    | inl e ↦ record { avatar = i.avatar; found = e; is_avatar = i.is_avatar }
    | inr e ↦ record { avatar = moved slot i.avatar; found = e; is_avatar = i.is_avatar }
  ]

  seat_run :
      (a slot : ℕ) (w : World)
      → a ≢ 0
      → (i : Sitter a w) → str_eq i.avatar.container_ref seat.ref ≡ false
      → seat_sitter seat a slot w
        ≡ change_containers
            (some a)
            (some seat.noid)
            (some 0)
            (some slot)
            (update a adopt_sitting_action w)
  unfolding seat_sitter
  seat_run a slot w z i n = grind (arith, i.found, i.is_avatar, n, ==_iff)

  seats :
      (a slot : ℕ) (w : World)
      → a ≢ 0
      → SeatAt seat w
      → Sitter a w
      → InSeat a seat (seat_sitter seat a slot w)
  unfolding moved placed with_mod
  seats a slot w z h i = elim (Bool-cases (str_eq i.avatar.container_ref seat.ref)) [
    | inl e ↦ InSeat-step a a slot w h (record {
      sitter = i.avatar;
      found = i.found;
      inside = (eq_iff i.avatar.container_ref seat.ref).0 e;
    })
    | inr e ↦ record {
      sitter = moved slot i.avatar;
      found =
          grind
            (arith, seat_run a slot w z i e, after_move a slot w h a i.avatar i.found, ==_iff a a);
      inside = refl;
    }
  ]

  InSeat-seat_sitters :
      (a : ℕ) (l : List ℕ) (slot : ℕ) (w : World)
      → SeatAt seat w
      → InSeat a seat w
      → InSeat a seat (seat_sitters seat l slot w)
  unfolding seat_sitters
  InSeat-seat_sitters a [] slot w h i = i
  InSeat-seat_sitters a (s ∷ l) slot w h i =
      InSeat-seat_sitters a l (slot + 1) (seat_sitter seat s slot w) (SeatAt-step s slot w h)
        (InSeat-step a s slot w h i)

  seat_sitters-InSeat :
      (a : ℕ) (l : List ℕ) (slot : ℕ) (w : World)
      → a ≢ 0
      → any (λ s. s == a) l ≡ true
      → SeatAt seat w
      → Sitter a w
      → InSeat a seat (seat_sitters seat l slot w)
  unfolding seat_sitters any
  seat_sitters-InSeat a [] slot w z m h i = cc
  seat_sitters-InSeat a (s ∷ l) slot w z m h i = elim (Bool-cases (s == a)) [
    | inl e ↦
        InSeat-seat_sitters a l (slot + 1) (seat_sitter seat s slot w) (SeatAt-step s slot w h) (
          subst (λ j. InSeat a seat (seat_sitter seat j slot w)) (sym ((==_iff s a).0 e))
            (seats a slot w z h i))
    | inr e ↦
        seat_sitters-InSeat a l (slot + 1) (seat_sitter seat s slot w) z (rw e at m)
          (SeatAt-step s slot w h) (Sitter-step a s slot w h i)
  ]

sitters_run :
    (seat : Object) (w : World) (l : List ℕ)
    → (str_eq seat.type "Avatar" && truthy seat.mod_.sitting_in) ≡ false
    → seat.mod_.sitters ≡ some l
    → reconcile_seating seat w ≡ seat_sitters seat l 0 w
unfolding reconcile_seating
sitters_run seat w l hb hl = grind (arith, hb, hl)

-- A seat in the table, under a noid other than the region's, that is no avatar with a seat of its
-- own and is made with a list of sitters: each avatar of the list that is there, under a noid other
-- than 0, is in the seat afterwards.
pub reconcile_seating-seat :
    (seat avatar : Object) (w : World) (l : List ℕ) (a : ℕ)
    → (str_eq seat.type "Avatar" && truthy seat.mod_.sitting_in) ≡ false
    → seat.mod_.sitters ≡ some l
    → seat.noid ≢ the_region
    → get w seat.noid ≡ some seat
    → a ≢ 0
    → any (λ s. s == a) l ≡ true
    → get w a ≡ some avatar
    → str_eq avatar.type "Avatar" ≡ true
    → InSeat a seat (reconcile_seating seat w)
reconcile_seating-seat seat avatar w l a hb hl zr hs z m ha ht =
    subst (InSeat a seat) (sym (sitters_run seat w l hb hl)) (
      seat_sitters-InSeat seat zr a l 0 w z m
        (record { record_ = seat; found = hs; same_ref = refl })
        (record { avatar = avatar; found = ha; is_avatar = ht }))
