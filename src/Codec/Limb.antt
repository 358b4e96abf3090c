-- ===== src/Codec/Limb.antt =====
-- `decodeLimb` of codec.js: the frames, cels and animations of a limb of a body. The input is the
-- data from the limb's offset on.
use neohabitat.Prelude.{
  ℕ, zero, suc, ◌+◌, ◌*◌, ℤ, pos, negsuc, false, Option, none, some, List, [], ◌∷◌, get_elem?,
  length, if◌then◌else◌, leb,
}
use neohabitat.Codec.Bytes.{signed_byte}
use neohabitat.Codec.Props.{Animation, drop, decode_animations}
use neohabitat.Codec.Cel.{Cel, reads, decode_cel}

pub record Limb : Type 0 where
  pub frames : List ℤ
  pub cels : List Cel
  pub animations : List Animation

-- `getInt8` of each frame
unfoldable pub read_frames : ℕ → List ℕ → Option (List ℤ)
read_frames zero input = some []
read_frames (suc n) [] = none
read_frames (suc n) (b ∷ input) = reads (read_frames n input) (λ l. some (signed_byte b ∷ l))

-- `maxCelIndex + 1`, and 0 if every index is negative: the rounds of the loop over the cels
unfoldable pub cel_count : List ℤ → ℕ
cel_count [] = 0
cel_count (pos i ∷ l) = let n = cel_count l in if leb n i then suc i else n
cel_count (negsuc i ∷ l) = cel_count l

-- `getUint16(off, LE)`
unfoldable pub word_at : List ℕ → ℕ → Option ℕ
word_at input off =
    reads (get_elem? input off)
      (λ lo. reads (get_elem? input (off + 1)) (λ hi. some (lo + hi * 256)))

-- the loop over the cels; without a second argument `decodeCel` changes no color RAM
unfoldable pub read_cels : ℕ → ℕ → List ℕ → Option (List Cel)
read_cels zero off input = some []
read_cels (suc n) off input = reads (word_at input off) (λ at.
    reads (decode_cel (drop at input) false)
      (λ c. reads (read_cels n (off + 2) input) (λ l. some (c ∷ l))))

-- `firstCelOff` is undefined if there is no cel, and the loop of `decodeAnimations` has no round
unfoldable pub limb_animations : ℕ → ℕ → ℕ → List ℕ → Option (List Animation)
limb_animations zero off count input = some []
limb_animations (suc n) off count input =
    reads (get_elem? input 2)
      (λ start. reads (word_at input off) (λ next. decode_animations input start next count))

unfoldable pub limb_of : List ℤ → ℕ → List ℕ → Option Limb
limb_of frames off input = reads (read_cels (cel_count frames) off input) (λ cels.
    reads (limb_animations (cel_count frames) off (length frames) input)
      (λ a. some (record { frames = frames; cels = cels; animations = a })))

unfoldable pub decode_limb : List ℕ → Option Limb
decode_limb input = reads (get_elem? input 0) (λ count.
    reads (read_frames (count + 1) (drop 3 input)) (λ frames. limb_of frames (count + 4) input))
