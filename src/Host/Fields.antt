-- ===== src/Host/Fields.antt =====
-- What the messages about single fields write.
use neohabitat.Prelude.{
  ℕ, ◌/◌, ◌%◌, ◌+◌, zero, suc, ◌-◌, ◌<◌, ℤ, pos, negsuc, ◌+ℤ◌, ◌≡◌, ◌≢◌, refl, ap, ◌∙◌, false,
  Option, none, some, [], ◌∷◌, ◌==◌, ==_iff, if◌then◌else◌, arith, or_zero, inl, inr, Bool-cases,
  is_num,
}
use neohabitat.World.Object.{Object, Mod, World}
use neohabitat.World.Table.{get, get?, update, emit}
use neohabitat.World.Tables.{noid-get, map_object, with_mod}
use neohabitat.Host.Message.{FiddleValue, bytes, number, characters}
use neohabitat.Host.Context.{Ctx, redraw, field_change, change_light_by, sound_at}
use neohabitat.Host.Shown.{shown_rules}
use neohabitat.Host.State.{host_sex_change, flip_sex, flip_sex_bit, change_sex, operate_machine}
use neohabitat.Host.Machines.{denomination, set_denomination, debit}
use neohabitat.Host.Devices.{generic_onlight, generic_offlight, switch_light}
use neohabitat.Host.Choreography.{is_held, show}

-- A debit takes the amount off the denomination, down to 0, for a denomination of two bytes.
pub denomination-debit :
    (a : ℕ) (m : Mod) → denomination m < 65536 → denomination (debit a m) ≡ denomination m - a
unfolding denomination debit set_denomination
denomination-debit a m h = omega arith

plus_minus_one : (l : ℤ) → l +ℤ pos 1 +ℤ negsuc 0 ≡ l
unfolding ◌+ℤ◌
plus_minus_one (pos n) = ground arith
plus_minus_one (negsuc zero) = refl
plus_minus_one (negsuc (suc n)) = ground arith

lighting_by :
    (n : ℕ) (d : ℤ) (c : Ctx) (w : World)
    → (switch_light n d c w).0.region.lighting ≡ w.region.lighting +ℤ d
unfolding switch_light redraw field_change change_light_by update sound_at emit
lighting_by n d c w = refl

-- Switching a light on and switching one off again gives the region's light back.
pub generic_offlight-onlight :
    (c d : Ctx) (w : World)
    → (generic_offlight d (generic_onlight c w).0).0.region.lighting ≡ w.region.lighting
unfolding generic_offlight generic_onlight
generic_offlight-onlight c d w =
    lighting_by 0 (negsuc 0) d (switch_light 1 (pos 1) c w).0
    ∙ ap (λ l. l +ℤ negsuc 0) (lighting_by 1 (pos 1) c w)
    ∙ plus_minus_one w.region.lighting

-- the avatar that has appeared: the bit is clear
unfoldable pub appeared : Object → Object
appeared o = if is_held o then with_mod show o else o

-- the field that an offset of FIDDLE_$ names
unfoldable pub field_at : ℕ → Object → Option ℕ
field_at n o =
    if n == 7
    then o.mod_.x
    else if n == 8
    then o.mod_.y
    else if n == 9
    then o.mod_.orientation
    else if n == 10
    then o.mod_.gr_state
    else none

-- the first value of a message, when it is a number
unfoldable pub first_value : FiddleValue → Option ℕ
first_value (bytes []) = none
first_value (bytes (n ∷ l)) = some n
first_value (number n) = some n
first_value (characters l) = none

is_num_ne : (m : Option ℕ) (n : ℕ) → m ≢ some n → is_num m n ≡ false
is_num_ne none n h = refl
is_num_ne (some m) n h = elim (Bool-cases (m == n)) [
  | inl e ↦ absurd (h (ap some ((==_iff m n).0 e)))
  | inr e ↦ e
]

-- bit 7 is the other one, and the bits above and below it are the same
abbrev IsToggled : ℕ → ℕ → Type 0
IsToggled n m = (n % 128 ≡ m % 128) × (n / 256 ≡ m / 256) × (n / 128 % 2 + m / 128 % 2 ≡ 1)

toggles : (n : ℕ) → IsToggled n (flip_sex_bit n)
unfolding flip_sex_bit
toggles n = (ground arith, ground arith, ground arith)

-- the object with another orientation
unfoldable pub oriented : ℕ → Object → Object
oriented n o = record o { mod_ = record o.mod_ { orientation = some n } }

-- the object has an orientation with the other bit 7, and nothing else is different
abbrev pub Flipped : ℕ → Object → World → World → Type 0
Flipped t o w v =
    (n : ℕ) × IsToggled (or_zero o.mod_.orientation) n
    × ((k : ℕ) → get v k ≡ (if t == k then some (oriented n o) else get w k))

get-operate_machine :
    (o : Option Object) (w : World) (k : ℕ) → get (operate_machine o w) k ≡ get w k
unfolding operate_machine
get-operate_machine o w k = grind shown_rules

get-change_sex :
    (t : Object) (w : World) (k : ℕ)
    → get (change_sex t w) k ≡ (
        if is_num w.me_noid t.noid
        then get w k
        else if t.noid == k
        then map_object (with_mod flip_sex) (get w k)
        else get w k)
unfolding change_sex
get-change_sex t w k = grind shown_rules

-- SEXCHANGE$ for an avatar that is there and not our own leaves it with bit 7 of its orientation
-- (0 if it had none) toggled and the other bits as they were; every other object is as it was. For
-- our own avatar, whose change is made where the machine is operated, it changes no object.
pub host_sex_change-flips :
    (c : Ctx) (w : World) (t : ℕ) (o : Object)
    → c.args.sex_avatar_noid ≡ some t
    → get w t ≡ some o
    → (w.me_noid ≡ some t → (k : ℕ) → get (host_sex_change c w).0 k ≡ get w k)
      × (w.me_noid ≢ some t → Flipped t o w (host_sex_change c w).0)
unfolding host_sex_change get? map_object with_mod flip_sex oriented
host_sex_change-flips c w t o ht ho = (
  λ e k. grind (arith, get-operate_machine, get-change_sex o w k, noid-get w t o ho, ==_iff),
  λ e. (
    flip_sex_bit (or_zero o.mod_.orientation),
    toggles (or_zero o.mod_.orientation),
    λ k. grind (
      arith,
      get-operate_machine,
      get-change_sex o w k,
      noid-get w t o ho,
      ==_iff,
      is_num_ne w.me_noid t e,
      ho,
    ),
  ),
)
