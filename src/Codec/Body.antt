-- ===== src/Codec/Body.antt =====
-- `decodeBody` and `choreographyActions` of codec.js. The input is the whole buffer of the image.
-- The map `indexToChoreography` is a list of entries, and `actions` the list of its fields in the
-- order in which they are set.
use neohabitat.Prelude.{
  ℕ, zero, suc, ◌+◌, ◌*◌, ◌/◌, ◌%◌, String, Option, none, some, List, [], ◌∷◌, ◌++◌, ◌==◌,
  get_elem?, length, if◌then◌else◌,
}
use neohabitat.Codec.Props.{drop}
use neohabitat.Codec.Cel.{reads}
use neohabitat.Codec.Limb.{Limb, word_at, decode_limb}

abbrev pub chore_names : List String
chore_names =
    "init" ∷ "stand" ∷ "walk" ∷ "hand_back" ∷ "sit_floor" ∷ "sit_chair" ∷ "bend_over" ∷ "bend_back"
    ∷ "point" ∷ "throw" ∷ "get_shot" ∷ "jump" ∷ "punch" ∷ "wave" ∷ "frown" ∷ "stand_back"
    ∷ "walk_front" ∷ "walk_back" ∷ "stand_front" ∷ "unpocket" ∷ "gimme" ∷ "knife" ∷ "arm_get"
    ∷ "hand_out" ∷ "operate" ∷ "arm_back" ∷ "shoot1" ∷ "shoot2" ∷ "nop" ∷ "sit_front" ∷ []

pub record BodyLimb : Type 0 where
  pub pattern : ℕ
  pub affected_by_height : ℕ
  pub limb : Limb

pub record Pose : Type 0 where
  pub limb : ℕ
  pub animation : ℕ

pub record Chores : Type 0 where
  pub known : List (ℕ × ℕ)
  pub choreography : List (List Pose)
  pub actions : List (String × ℕ)

pub record Body : Type 0 where
  pub head_cel_number : ℕ
  pub frozen_when_stands : ℕ
  pub front_facing_limb_order : List ℕ
  pub back_facing_limb_order : List ℕ
  pub limbs : List BodyLimb
  pub chores : Chores

-- `getUint8` of `n` offsets from `off` on
unfoldable pub read_bytes : ℕ → ℕ → List ℕ → Option (List ℕ)
read_bytes zero off input = some []
read_bytes (suc n) off input =
    reads (get_elem? input off) (λ b. reads (read_bytes n (off + 1) input) (λ l. some (b ∷ l)))

-- the limbs from `i` on
unfoldable pub read_limbs : ℕ → ℕ → List ℕ → Option (List BodyLimb)
read_limbs zero i input = some []
read_limbs (suc n) i input = reads (get_elem? input (21 + i)) (λ p.
    reads (get_elem? input (39 + i)) (λ a. reads (word_at input (7 + i * 2)) (λ off.
      reads (decode_limb (drop off input)) (λ limb.
        reads (read_limbs n (i + 1) input)
          (λ l. some (record { pattern = p; affected_by_height = a; limb = limb } ∷ l))))))

unfoldable pub pose_of : ℕ → Pose
pose_of state =
    let limb = state / 16 % 8 in
    if limb == 6
    then record { limb = 5; animation = state % 16 + 16 }
    else record { limb = limb; animation = state % 16 }

-- from `tableIndex` on, up to the state with the high bit
unfoldable pub choreography_from : List ℕ → Option (List Pose)
choreography_from [] = none
choreography_from (state ∷ input) =
    let rest = choreography_from input in
    if state / 128 % 2 == 0
    then reads rest (λ l. some (pose_of state ∷ l))
    else some (pose_of state ∷ [])

unfoldable pub find_known : ℕ → List (ℕ × ℕ) → Option ℕ
find_known i [] = none
find_known i ((j, k) ∷ l) = let rest = find_known i l in if j == i then some k else rest

-- the new choreography of a table index
unfoldable pub new_chore : String → ℕ → List Pose → Chores → Chores
new_chore action i c s = record {
  known = (i, length s.choreography) ∷ s.known;
  choreography = s.choreography ++ (c ∷ []);
  actions = s.actions ++ ((action, length s.choreography) ∷ []);
}

unfoldable pub old_chore : String → ℕ → Chores → Chores
old_chore action k s = record s { actions = s.actions ++ ((action, k) ∷ []) }

unfoldable pub add_action : List ℕ → ℕ → String → ℕ → Chores → Option Chores
add_action input table action i s = elim (find_known i s.known) [
  | some k ↦ some (old_chore action k s)
  | none ↦ reads (choreography_from (drop (table + i) input)) (λ c. some (new_chore action i c s))
]

-- the loop over the actions: `off` is `choreographyIndexOff + i`
unfoldable pub add_actions : List String → ℕ → ℕ → List ℕ → Chores → Option Chores
add_actions [] off table input s = some s
add_actions (action ∷ rest) off table input s =
    reads (get_elem? input off)
      (λ i. reads (add_action input table action i s) (add_actions rest (off + 1) table input))

unfoldable pub read_chores : List ℕ → Option Chores
read_chores input = reads (word_at input 0) (λ off. reads (word_at input 2) (λ table.
    add_actions chore_names off table input
      (record { known = []; choreography = []; actions = [] })))

unfoldable pub decode_body : List ℕ → Option Body
decode_body input = reads (get_elem? input 19) (λ head. reads (get_elem? input 20) (λ frozen.
    reads (read_bytes 6 27 input) (λ front. reads (read_bytes 6 33 input) (λ back.
      reads (read_limbs 6 0 input) (λ limbs. reads (read_chores input) (λ chores. some (record {
        head_cel_number = head;
        frozen_when_stands = frozen;
        front_facing_limb_order = front;
        back_facing_limb_order = back;
        limbs = limbs;
        chores = chores;
      })))))))
