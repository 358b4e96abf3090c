-- ===== src/Codec/Props.antt =====
-- `decodeAnimations` and `decodeContentsXY` of codec.js. The data is read at an offset; a read behind
-- its end throws, which is `none`.
use neohabitat.Prelude.{
  ℕ, zero, suc, ◌+◌, ◌/◌, ◌%◌, ℤ, Bool, not, ◌||◌, Option, none, some, List, [], ◌∷◌, ◌==◌,
  if◌then◌else◌, ltb, leb,
}
use neohabitat.Codec.Bytes.{signed_byte}

pub record Animation : Type 0 where
  pub cycle : Bool
  pub start_state : ℕ
  pub end_state : ℕ

-- the bytes from an offset on
unfoldable pub drop : ℕ → List ℕ → List ℕ
drop zero l = l
drop (suc n) [] = []
drop (suc n) (x ∷ l) = drop n l

unfoldable pub and_then : Animation → Option (List Animation) → Option (List Animation)
and_then a none = none
and_then a (some l) = some (a ∷ l)

-- the loop, over the bytes from `frameOff` on
unfoldable pub animations_from : ℕ → ℕ → ℕ → ℕ → List ℕ → Option (List Animation)
animations_from start next count off [] = if ltb next start || ltb off next then none else some []
animations_from start next count off (c ∷ []) =
    if ltb next start || ltb off next then none else some []
animations_from start next count off (c ∷ e ∷ input) =
    let rest = animations_from start next count (off + 2) input in
    if ltb next start || ltb off next
    then if leb count (c % 128) || leb count e
      then some []
      else and_then
          (record { cycle = not (c / 128 % 2 == 0); start_state = c % 128; end_state = e }) rest
    else some []

unfoldable pub decode_animations : List ℕ → ℕ → ℕ → ℕ → Option (List Animation)
decode_animations input start next count =
    if start == 0 then some [] else animations_from start next count start (drop start input)

pub record Spot : Type 0 where
  pub x : ℤ
  pub y : ℤ

unfoldable pub spot_first : Spot → Option (List Spot) → Option (List Spot)
spot_first s none = none
spot_first s (some l) = some (s ∷ l)

unfoldable pub contents_from : ℕ → ℕ → List ℕ → Option (List Spot)
contents_from next off [] = if ltb off next then none else some []
contents_from next off (a ∷ []) = if ltb off next then none else some []
contents_from next off (a ∷ b ∷ input) =
    let rest = contents_from next (off + 2) input in
    if ltb off next
    then spot_first (record { x = signed_byte a; y = signed_byte b }) rest
    else some []

unfoldable pub decode_contents_xy : List ℕ → ℕ → ℕ → Option (List Spot)
decode_contents_xy input off next =
    if off == 0 then some [] else contents_from next off (drop off input)
