-- ===== src/Codec/Examples.antt =====
-- The theorems about the decoder, at small images.
use neohabitat.Prelude.{ℕ, pos, negsuc, false, none, some, List, refl, true, [], ◌∷◌, arith, All}
use neohabitat.Codec.Bytes.{signed_byte, minus, CelType, decode_cel_type}
use neohabitat.Codec.Bitmap.{strip_bytes, put_run, repeat, decode_box}
use neohabitat.Codec.Props.{drop, and_then, animations_from, decode_animations}
use neohabitat.Codec.Cel.{Cel, decode_cel, decode_shape}
use neohabitat.Codec.Limb.{
  Limb, read_frames, cel_count, word_at, read_cels, limb_animations, limb_of, decode_limb,
}
use neohabitat.Codec.Limbs.{IsComplete, decode_limb-IsComplete}
use neohabitat.Codec.Body.{
  Body, decode_body, read_bytes, read_limbs, read_chores, add_actions, add_action, find_known,
  new_chore, old_chore, choreography_from, pose_of,
}
use neohabitat.Codec.Bodies.{IsDrawable, decode_body-IsDrawable}
use neohabitat.Codec.Sizes.{Fills, strip_bytes-Fills, IsKnown, decode_animations-IsKnown}

strip_bytes-Fills_example : Fills 4 (85 ∷ 7 ∷ 7 ∷ 7 ∷ [])
unfolding strip_bytes put_run repeat
strip_bytes-Fills_example =
    strip_bytes-Fills 4 (85 ∷ 0 ∷ 3 ∷ 7 ∷ []) (85 ∷ 7 ∷ 7 ∷ 7 ∷ [])
      (omega arith, (omega arith, (omega arith, (omega arith, tt)))) refl

decode_animations-IsKnown_example :
    All (IsKnown 4) (record { cycle = true; start_state = 0; end_state = 3 } ∷ [])
unfolding decode_animations animations_from drop and_then
decode_animations-IsKnown_example =
    decode_animations-IsKnown (9 ∷ 128 ∷ 3 ∷ 7 ∷ 1 ∷ []) 1 5 4
      (record { cycle = true; start_state = 0; end_state = 3 } ∷ []) refl

-- two frames of one cel, a box of one byte, and no animation
abbrev a_limb : List ℕ
a_limb = 1 ∷ 0 ∷ 0 ∷ 0 ∷ 255 ∷ 7 ∷ 0 ∷ 129 ∷ 1 ∷ 0 ∷ 0 ∷ 0 ∷ 0 ∷ 85 ∷ []

abbrev a_box : Cel
a_box = record {
  changes_color_ram = false;
  type = CelType.box;
  width = 1;
  height = 1;
  x_offset = pos 0;
  y_offset = pos 0;
  x_rel = pos 0;
  y_rel = pos 0;
  border = false;
  border_lr = false;
  border_tb = false;
  pattern = some 85;
  texture = none;
  bitmap = some (decode_box 1 1 129 85);
  raw = none;
  fine_x_offset = none;
}

decode_limb-IsComplete_example :
    IsComplete (record { frames = pos 0 ∷ negsuc 0 ∷ []; cels = a_box ∷ []; animations = [] })
unfolding decode_limb read_frames limb_of read_cels cel_count word_at limb_animations decode_cel
    decode_shape decode_cel_type signed_byte minus decode_animations drop
decode_limb-IsComplete_example =
    decode_limb-IsComplete a_limb
      (record { frames = pos 0 ∷ negsuc 0 ∷ []; cels = a_box ∷ []; animations = [] }) refl

abbrev limb_of_box : Limb
limb_of_box = record { frames = pos 0 ∷ negsuc 0 ∷ []; cels = a_box ∷ []; animations = [] }

-- a header of 45 bytes, the limb, which all six limbs share, the table of the thirty actions, and
-- two choreographies
abbrev body_bytes : List ℕ
body_bytes =
    59 ∷ 0 ∷ 89 ∷ 0 ∷ 0 ∷ 0 ∷ 0 ∷ 45 ∷ 0 ∷ 45 ∷ 0 ∷ 45 ∷ 0 ∷ 45 ∷ 0 ∷ 45 ∷ 0 ∷ 45 ∷ 0 ∷ 3 ∷ 1 ∷ 0
    ∷ 1 ∷ 2 ∷ 3 ∷ 4 ∷ 5 ∷ 0 ∷ 1 ∷ 2 ∷ 3 ∷ 4 ∷ 5 ∷ 5 ∷ 4 ∷ 3 ∷ 2 ∷ 1 ∷ 0 ∷ 1 ∷ 1 ∷ 1 ∷ 0 ∷ 0 ∷ 0 ∷ 1
    ∷ 0 ∷ 0 ∷ 0 ∷ 255 ∷ 7 ∷ 0 ∷ 129 ∷ 1 ∷ 0 ∷ 0 ∷ 0 ∷ 0 ∷ 85 ∷ 0 ∷ 0 ∷ 2 ∷ 0 ∷ 0 ∷ 0 ∷ 0 ∷ 0 ∷ 0 ∷ 0
    ∷ 0 ∷ 0 ∷ 0 ∷ 0 ∷ 0 ∷ 0 ∷ 0 ∷ 0 ∷ 0 ∷ 0 ∷ 0 ∷ 0 ∷ 0 ∷ 0 ∷ 0 ∷ 0 ∷ 0 ∷ 0 ∷ 0 ∷ 2 ∷ 16 ∷ 149 ∷ 226
    ∷ []

abbrev a_body : Body
a_body = record {
  head_cel_number = 3;
  frozen_when_stands = 1;
  front_facing_limb_order = 0 ∷ 1 ∷ 2 ∷ 3 ∷ 4 ∷ 5 ∷ [];
  back_facing_limb_order = 5 ∷ 4 ∷ 3 ∷ 2 ∷ 1 ∷ 0 ∷ [];
  limbs =
      record { pattern = 0; affected_by_height = 1; limb = limb_of_box }
      ∷ record { pattern = 1; affected_by_height = 1; limb = limb_of_box }
      ∷ record { pattern = 2; affected_by_height = 1; limb = limb_of_box }
      ∷ record { pattern = 3; affected_by_height = 0; limb = limb_of_box }
      ∷ record { pattern = 4; affected_by_height = 0; limb = limb_of_box }
      ∷ record { pattern = 5; affected_by_height = 0; limb = limb_of_box }
      ∷ [];
  chores = record {
    known = (2, 1) ∷ (0, 0) ∷ [];
    choreography =
        (record { limb = 1; animation = 0 } ∷ record { limb = 1; animation = 5 } ∷ [])
        ∷ (record { limb = 5; animation = 18 } ∷ [])
        ∷ [];
    actions =
        ("init", 0)
        ∷ ("stand", 0)
        ∷ ("walk", 1)
        ∷ ("hand_back", 0)
        ∷ ("sit_floor", 0)
        ∷ ("sit_chair", 0)
        ∷ ("bend_over", 0)
        ∷ ("bend_back", 0)
        ∷ ("point", 0)
        ∷ ("throw", 0)
        ∷ ("get_shot", 0)
        ∷ ("jump", 0)
        ∷ ("punch", 0)
        ∷ ("wave", 0)
        ∷ ("frown", 0)
        ∷ ("stand_back", 0)
        ∷ ("walk_front", 0)
        ∷ ("walk_back", 0)
        ∷ ("stand_front", 0)
        ∷ ("unpocket", 0)
        ∷ ("gimme", 0)
        ∷ ("knife", 0)
        ∷ ("arm_get", 0)
        ∷ ("hand_out", 0)
        ∷ ("operate", 0)
        ∷ ("arm_back", 0)
        ∷ ("shoot1", 0)
        ∷ ("shoot2", 0)
        ∷ ("nop", 0)
        ∷ ("sit_front", 1)
        ∷ [];
  };
}

decode_body-IsDrawable_example : IsDrawable a_body
unfolding decode_body read_bytes read_limbs read_chores add_actions add_action find_known new_chore
    old_chore choreography_from pose_of decode_limb read_frames limb_of read_cels cel_count word_at
    limb_animations decode_cel decode_shape decode_cel_type signed_byte minus decode_animations drop
decode_body-IsDrawable_example = decode_body-IsDrawable body_bytes a_body refl
