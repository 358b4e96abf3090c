-- ===== src/Host/Shown.antt =====
-- The presentation calls of a behavior leave the objects and the region alone.
use neohabitat.Prelude.{
  ℕ, ◌≡◌, refl, String, Option, none, some, arith, Bool, if◌then◌else◌, is_some, is_num, ◌&&◌,
}
use neohabitat.World.Object.{World}
use neohabitat.World.Table.{get, get?, emit}
use neohabitat.World.Effects.{destination, get-emit, get-update, get-change_containers}
use neohabitat.Host.Message.{Msg}
use neohabitat.Host.Context.{
  Ctx, chore_here, chore_at, sound_at, redraw, inbound_sound, field_change,
}
use neohabitat.Host.Inventory.{reach_out, reach_back}

-- what the mirror holds beside the identity of the viewer and the events
pub record Same (v w : World) : Type 0 where
  pub objects : v.objects ≡ w.objects
  pub region : v.region ≡ w.region

pub get-Same : (v w : World) → Same v w → (k : ℕ) → get v k ≡ get w k
unfolding get
get-Same v w s k = cc (s.objects)

pub destination-Same : (v w : World) → Same v w → (c : Option ℕ) → destination v c ≡ destination w c
unfolding destination get?
destination-Same v w s c = grind (arith, get-Same v w s, s.region)

pub chore_here-Same : (a : String) (c : Ctx) (w : World) → Same (chore_here a c w) w
unfolding chore_here emit
chore_here-Same a c w = record { objects = ground arith; region = ground arith }

pub inbound_sound-Same :
    (s : String) (n : Option ℕ) (m : Msg) (w : World) → Same (inbound_sound s n m w) w
unfolding inbound_sound emit
inbound_sound-Same s n m w = record { objects = ground arith; region = ground arith }

pub reach_out-Same : (h : ℕ) (c : Ctx) (w : World) → Same (reach_out h c w) w
unfolding reach_out chore_here emit
reach_out-Same h c w = record { objects = ground arith; region = ground arith }

pub reach_back-Same : (h : ℕ) (c : Ctx) (w : World) → Same (reach_back h c w) w
unfolding reach_back chore_here emit
reach_back-Same h c w = record { objects = ground arith; region = ground arith }

pub get-chore_here : (a : String) (c : Ctx) (w : World) (k : ℕ) → get (chore_here a c w) k ≡ get w k
get-chore_here a c w = get-Same _ w (chore_here-Same a c w)

pub get-inbound_sound :
    (s : String) (n : Option ℕ) (m : Msg) (w : World) (k : ℕ)
    → get (inbound_sound s n m w) k ≡ get w k
get-inbound_sound s n m w = get-Same _ w (inbound_sound-Same s n m w)

pub get-reach_out : (h : ℕ) (c : Ctx) (w : World) (k : ℕ) → get (reach_out h c w) k ≡ get w k
get-reach_out h c w = get-Same _ w (reach_out-Same h c w)

pub get-reach_back : (h : ℕ) (c : Ctx) (w : World) (k : ℕ) → get (reach_back h c w) k ≡ get w k
get-reach_back h c w = get-Same _ w (reach_back-Same h c w)

pub get-chore_at :
    (a : String) (n : ℕ) (h : Option ℕ) (w : World) (k : ℕ) → get (chore_at a n h w) k ≡ get w k
unfolding chore_at get emit
get-chore_at a n h w k = refl

pub get-sound_at : (a : String) (n : ℕ) (w : World) (k : ℕ) → get (sound_at a n w) k ≡ get w k
unfolding sound_at get emit
get-sound_at a n w k = refl

pub get-redraw : (n : ℕ) (w : World) (k : ℕ) → get (redraw n w) k ≡ get w k
unfolding redraw get emit
get-redraw n w k = refl

pub get-field_change : (n : ℕ) (w : World) (k : ℕ) → get (field_change n w) k ≡ get w k
unfolding field_change get emit
get-field_change n w k = refl

pub destination-chore_here :
    (a : String) (c : Ctx) (w : World) (o : Option ℕ)
    → destination (chore_here a c w) o ≡ destination w o
destination-chore_here a c w = destination-Same _ w (chore_here-Same a c w)

pub ruleset shown_rules = (
  arith, get-emit, get-update, get-change_containers, get-chore_here, get-chore_at,
  get-inbound_sound, get-reach_out, get-reach_back, get-sound_at, get-redraw, get-field_change,
)
