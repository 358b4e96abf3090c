-- ===== src/Verb/Outcomes.antt =====
-- What the verbs that get things leave in the world when they end well.
use neohabitat.Prelude.{
  ℕ, ◌≡◌, ◌≢◌, refl, String, Option, none, some, ◌==◌, arith, inl, inr, Option-cases, ap, sym, ◌∙◌,
  Bool-cases, ==_refl,
}
use neohabitat.World.Object.{Object, World, hands, Event}
use neohabitat.World.Table.{get, get?, emit}
use neohabitat.World.Contents.{change_containers}
use neohabitat.World.Tables.{map_object}
use neohabitat.World.Effects.{get-change_containers, destination, arrived, placed}
use neohabitat.Verb.Program.{State, give, given, good, show, carry, skip, change, ◌>>◌}
use neohabitat.Verb.Context.{Ctx, play_chore, chore_noid}
use neohabitat.Verb.Carrying.{take_up, generic_go_to_and_get}
use neohabitat.Verb.Keeps.Registry.{some_eq}
use neohabitat.Verb.Ends.{
  Ends, AlwaysEnds, IfGood, AlwaysEnds-establish, AlwaysEnds-bind, AlwaysEnds-given_some,
  AlwaysEnds-if, AlwaysEnds-beeps, AlwaysEnds-go_then, Ends-bind,
}

-- the object is in the hands of the avatar, if both are there
abbrev pub InHands : ℕ → ℕ → World → Type 0
InHands item a w =
    (o b : Object)
    → get w item ≡ some o
    → get w a ≡ some b
    → (o.container_ref ≡ b.ref) × (o.mod_.y ≡ some hands)

unfoldable moved_by : ℕ → ℕ → World → World
moved_by item a w = change_containers (some item) (some a) (some 0) (some hands) w

destination_there :
    (a : ℕ) (w : World) (c : Object)
    → a ≢ 0
    → get w a ≡ some c
    → destination w (some a) ≡ some c.ref
unfolding destination get?
destination_there a w c h e = grind (arith, e)

-- the container as it is afterwards
get-moved_by-ref :
    (item a : ℕ) (w : World) (c b : Object)
    → get w a ≡ some c
    → destination w (some a) ≡ some c.ref
    → get (moved_by item a w) a ≡ some b
    → b.ref ≡ c.ref
unfolding moved_by map_object arrived placed
get-moved_by-ref item a w c b e d h = elim (Bool-cases (item == a)) [
  | inl q ↦ sym (ap (λ o. o.ref) (some_eq (rw (get-change_containers, q, e, d) at h)))
  | inr q ↦ sym (ap (λ o. o.ref) (some_eq (rw (get-change_containers, q, e) at h)))
]

get-moved_by-item :
    (item a : ℕ) (w : World) (c o : Object)
    → destination w (some a) ≡ some c.ref
    → get (moved_by item a w) item ≡ some o
    → (o.container_ref ≡ c.ref) × (o.mod_.y ≡ some hands)
unfolding moved_by map_object arrived placed
get-moved_by-item item a w c o d h = elim (Option-cases (get w item)) [
  | inl e ↦ cc (rw (get-change_containers, ==_refl item, e) at h)
  | inr (i, e) ↦
      let f = some_eq (rw (get-change_containers, ==_refl item, e, d) at h) in
      (sym (ap (λ x. x.container_ref) f), sym (ap (λ x. x.mod_.y) f))
]

get-moved_by-none : (item a : ℕ) (w : World) → get w a ≡ none → get (moved_by item a w) a ≡ none
unfolding moved_by map_object
get-moved_by-none item a w e = elim (Bool-cases (item == a)) [
  | inl q ↦ rw (get-change_containers, q, e) refl
  | inr q ↦ rw (get-change_containers, q, e) refl
]

InHands-moved_by : (item a : ℕ) (w : World) → a ≢ 0 → InHands item a (moved_by item a w)
InHands-moved_by item a w h o b eo eb = elim (Option-cases (get w a)) [
  | inl e ↦ cc (eb, get-moved_by-none item a w e)
  | inr (c, e) ↦
      let d = destination_there a w c h e in
      let i = get-moved_by-item item a w c o d eo in
      (i.0 ∙ sym (get-moved_by-ref item a w c b e d eb), i.1)
]

take_up-InHands :
    (item : ℕ) (c : Ctx) (a : Object)
    → c.actor ≡ some a
    → a.noid ≢ 0
    → AlwaysEnds (λ w u. InHands item a.noid w) (take_up item hands c)
unfolding take_up carry change
take_up-InHands item c a e h =
    AlwaysEnds-given_some c.actor a _ _ e
      (record { from = λ s. unfold moved_by in InHands-moved_by item a.noid s.world h })

show-InHands :
    (item a : ℕ) (o : Option ℕ) (f : ℕ → Event) (s : State)
    → InHands item a s.world
    → Ends (λ w u. InHands item a w) (given o skip (λ t. show (f t)) s)
unfolding given skip show change get emit
show-InHands item a none f s h = h
show-InHands item a (some n) f s h = h

play_chore-InHands :
    (item a : ℕ) (act : String) (c : Ctx) (s : State)
    → InHands item a s.world
    → Ends (λ w u. InHands item a w) (play_chore act c s)
unfolding play_chore
play_chore-InHands item a act c s h = show-InHands item a (chore_noid c) _ s h

taken :
    (item : ℕ) (c : Ctx) (a : Object)
    → c.actor ≡ some a
    → a.noid ≢ 0
    → AlwaysEnds
        (IfGood (InHands item a.noid))
        (do take_up item hands c; play_chore "bend_back" c; give good)
unfolding give
taken item c a e h = AlwaysEnds-establish _ _ (take_up-InHands item c a e h) λ u s i.
    Ends-bind _ _ (play_chore "bend_back" c) _ s (play_chore-InHands item a.noid "bend_back" c s i)
      λ v t j. record { then_holds = λ q. j }

-- When the verb GET of our avatar, whose noid is not 0, ends well, in whatever world the server's
-- messages have left while it waited and whatever it was answered, the thing that it pointed at is
-- in the avatar's hands (if both are there).
pub generic_go_to_and_get-InHands :
    (c : Ctx) (a : Object)
    → c.actor ≡ some a
    → a.noid ≢ 0
    → AlwaysEnds (IfGood (InHands c.pointed.noid a.noid)) (generic_go_to_and_get c)
unfolding generic_go_to_and_get
generic_go_to_and_get-InHands c a e h = AlwaysEnds-bind _ _ λ held.
    AlwaysEnds-if _ _ _ (AlwaysEnds-beeps _) (
      AlwaysEnds-go_then c _ (
        AlwaysEnds-bind _ _ λ u. AlwaysEnds-bind _ _ λ r.
          AlwaysEnds-if _ _ _ (taken c.pointed.noid c a e h)
            (AlwaysEnds-bind _ _ λ v. AlwaysEnds-beeps _)))
