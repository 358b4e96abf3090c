-- ===== src/Host/Resolved.antt =====
-- Which messages `resolveHostDispatch` resolves, and which chores a posture can name.
use neohabitat.Prelude.{
  ℕ, zero, suc, ◌%◌, ◌≡◌, refl, String, Bool, true, false, ◌||◌, ◌&&◌, Option, none, some, List, [],
  ◌∷◌, str_eq, eq_iff, if◌then◌else◌, arith, is_some, any, inl, inr, Bool-cases, get_elem?,
}
use neohabitat.Host.Message.{Msg}
use neohabitat.Host.Motion.{chore_name_for_posture, chore_name_at, choreography_actions}
use neohabitat.Host.Dispatch.{
  resolve_host_dispatch, is_migrated, migrated_ops, fixed_behavior, slot_of, host_op_slots,
  with_behavior, with_slot, fixed_noid,
}

-- the ways in which an op can be known
unfoldable pub is_known : String → Bool
is_known op =
    str_eq op "PLAY_$" || is_some (fixed_behavior op) || is_some (slot_of op host_op_slots)

abbrev every : (String → Bool) → List String → Bool
every p [] = true
every p (s ∷ l) = p s && every p l

every-any :
    (p : String → Bool) (op : String) (l : List String)
    → every p l ≡ true
    → any (str_eq op) l ≡ true
    → p op ≡ true
unfolding any
every-any p op [] t h = cc
every-any p op (s ∷ l) t h = elim (Bool-cases (str_eq op s)) [
  | inl e ↦ ground (arith, (eq_iff op s).0 e)
  | inr e ↦ every-any p op l (ground arith) (rw e at h)
]

known_of_migrated : (op : String) → is_migrated op ≡ true → is_known op ≡ true
unfolding is_migrated is_known fixed_behavior slot_of
known_of_migrated op h = every-any is_known op migrated_ops refl h

-- A message of MIGRATED_OPS with a noid resolves, and a message of any other op does not.
pub resolve_host_dispatch-migrated :
    (m : Msg)
    → (is_migrated m.op ≡ false → resolve_host_dispatch m ≡ none)
      × (is_migrated m.op ≡ true → is_some m.noid ≡ true → is_some (resolve_host_dispatch m) ≡ true)
unfolding resolve_host_dispatch with_behavior with_slot fixed_noid is_known
resolve_host_dispatch-migrated m =
    (λ h. rw (h, resolve_host_dispatch), λ h n. grind (arith, known_of_migrated m.op h))

-- the choreography names that a posture may play
member : (s : String) (i : ℕ) (l : List String) → get_elem? l i ≡ some s → any (str_eq s) l ≡ true
unfolding any
member s i [] h = cc
member s zero (x ∷ l) h = ground (arith, eq_iff s x)
member s (suc i) (x ∷ l) h = ground (arith, member s i l h)

-- a choreography action that is neither `init` nor `nop`
abbrev pub IsPlayable : String → Type 0
IsPlayable s =
    (any (str_eq s) choreography_actions ≡ true)
    × (str_eq s "init" ≡ false)
    × (str_eq s "nop" ≡ false)

stand-IsPlayable : IsPlayable "stand"
unfolding any
stand-IsPlayable = (refl, refl, refl)

back-IsPlayable : IsPlayable "stand_back"
unfolding any
back-IsPlayable = (refl, refl, refl)

front-IsPlayable : IsPlayable "stand_front"
unfolding any
front-IsPlayable = (refl, refl, refl)

sit-IsPlayable : IsPlayable "sit_front"
unfolding any
sit-IsPlayable = (refl, refl, refl)

if-IsPlayable :
    (b : Bool) (s t : String) → IsPlayable s → IsPlayable t → IsPlayable (if b then s else t)
if-IsPlayable true s t p q = p
if-IsPlayable false s t p q = q

named :
    (s : String)
    → any (str_eq s) choreography_actions ≡ true
    → IsPlayable (if str_eq s "init" || str_eq s "nop" then "stand" else s)
named s h = elim (Bool-cases (str_eq s "init" || str_eq s "nop")) [
  | inl e ↦ rw e stand-IsPlayable
  | inr e ↦ rw e (h, ground arith, ground arith)
]

chore_name_at-IsPlayable : (i : ℕ) → IsPlayable (chore_name_at i)
unfolding chore_name_at
chore_name_at-IsPlayable i = if-IsPlayable _ _ _ stand-IsPlayable (at _ refl)
  where
    at :
        (o : Option String)
        → get_elem? choreography_actions i ≡ o
        → IsPlayable (elim o [
          | none ↦ "stand"
          | some name ↦ if str_eq name "init" || str_eq name "nop" then "stand" else name
        ])
    at none e = stand-IsPlayable
    at (some s) e = named s (member s i choreography_actions e)

-- The chore of a posture is one of the choreography actions, and neither `init` nor `nop`.
pub chore_name_for_posture-IsPlayable : (a : ℕ) → IsPlayable (chore_name_for_posture a)
unfolding chore_name_for_posture
chore_name_for_posture-IsPlayable a = if-IsPlayable _ _ _ back-IsPlayable (
    if-IsPlayable _ _ _ front-IsPlayable (
      if-IsPlayable _ _ _ sit-IsPlayable
        (if-IsPlayable _ _ _ stand-IsPlayable (chore_name_at-IsPlayable (a % 128)))))
