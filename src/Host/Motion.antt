-- ===== src/Host/Motion.antt =====
-- avatar_motion_host.js: neighbors walk and change their posture.
use neohabitat.Prelude.{
  ℕ, ◌%◌, String, Bool, ◌||◌, ◌&&◌, not, none, some, List, [], ◌∷◌, ◌==◌, str_eq, if◌then◌else◌,
  any, get_elem?, leb, is_num,
}
use neohabitat.World.Object.{Object, World, start_walk, moved, state_changed}
use neohabitat.World.Table.{get?, update, emit}
use neohabitat.Host.Message.{ok, fail}
use neohabitat.Host.Context.{Handler, chore_at}

abbrev pub persistent_postures : List ℕ
persistent_postures = 129 ∷ 132 ∷ 133 ∷ 157 ∷ 143 ∷ 146 ∷ 251 ∷ 252 ∷ 254 ∷ 255 ∷ []

unfoldable pub is_persistent : ℕ → Bool
is_persistent p = any (λ q. q == p) persistent_postures

abbrev pub choreography_actions : List String
choreography_actions =
    "init" ∷ "stand" ∷ "walk" ∷ "hand_back" ∷ "sit_floor" ∷ "sit_chair" ∷ "bend_over" ∷ "bend_back"
    ∷ "point" ∷ "throw" ∷ "get_shot" ∷ "jump" ∷ "punch" ∷ "wave" ∷ "frown" ∷ "stand_back"
    ∷ "walk_front" ∷ "walk_back" ∷ "stand_front" ∷ "unpocket" ∷ "gimme" ∷ "knife" ∷ "arm_get"
    ∷ "hand_out" ∷ "operate" ∷ "arm_back" ∷ "shoot1" ∷ "shoot2" ∷ "nop" ∷ "sit_front" ∷ []

-- the end of `choreNameForPosture`: the table has 30 entries, so the test on 123 never matters
unfoldable pub chore_name_at : ℕ → String
chore_name_at index =
    if leb 30 index || leb 123 index then "stand" else elim (get_elem? choreography_actions index) [
      | none ↦ "stand"
      | some name ↦ if str_eq name "init" || str_eq name "nop" then "stand" else name
    ]

unfoldable pub chore_name_for_posture : ℕ → String
chore_name_for_posture a =
    if a == 143
    then "stand_back"
    else if a == 146
    then "stand_front"
    else if a == 157
    then "sit_front"
    else if a == 254 || a == 255 || a == 251 || a == 252
    then "stand"
    else chore_name_at (a % 128)

-- `containerRef && containerRef !== region.ref`
unfoldable pub is_contained : Object → World → Bool
is_contained o w = not (str_eq o.container_ref "") && not (str_eq o.container_ref w.region.ref)

unfoldable pub avatar_walk : Handler
avatar_walk c w = elim (get? w c.args.noid) [
  | none ↦ (w, fail "no-avatar")
  | some o ↦
      if is_contained o w then (w, ok) else if is_num c.args.y 0 then (w, fail "walk-failed") else (
        emit (moved o.noid) (
            update o.noid (λ m. record m { x = c.args.x; y = c.args.y })
              (emit (start_walk o.noid c.args.x c.args.y c.args.how) w)),
        ok,
      )
]

-- the choreography of a gesture that is no persistent posture
unfoldable pub play_posture : ℕ → ℕ → World → World
play_posture noid posture w =
    let name = chore_name_for_posture posture in
    if is_persistent posture || str_eq name "stand" then w else chore_at name noid (some posture) w

unfoldable pub avatar_posture : Handler
avatar_posture c w = elim (get? w c.args.noid) [
  | none ↦ (w, fail "no-avatar")
  | some o ↦ elim c.args.new_posture [
    | none ↦ (w, fail "no-posture")
    | some p ↦ (
      emit (state_changed o.noid)
          (play_posture o.noid p (update o.noid (λ m. record m { activity = some p }) w)),
      ok,
    )
  ]
]
