-- ===== src/Verb/Keeps/Registry.antt =====
-- Every verb of the registry keeps what is stable.
use mathlib.Core.Path.{subst}
use neohabitat.Prelude.{◌≡◌, String, some, List, [], ◌∷◌, ◌++◌, All, str_eq, Bool-cases, inl, inr}
use neohabitat.World.Object.{World}
use neohabitat.Verb.Context.{Ctx, Verb}
use neohabitat.Verb.Registry.{
  walking_verbs, carrying_verbs, thing_verbs, gadget_verbs, machine_verbs, find_verb,
}
use neohabitat.Verb.Keeps.{Assumption, Keeps, IsStable}
use neohabitat.Verb.Keeps.Worlds.{CtxKeeps}
use neohabitat.Verb.Keeps.Payments.{payments_rules}

pub some_eq : {A : Type 0} {a b : A} → some a ≡ some b → a ≡ b
some_eq e = cc

abbrev pub VerbKeeps : (World → Type 0) → Assumption → String × Verb → Type 0
VerbKeeps I Fair e = (c : Ctx) → CtxKeeps I Fair c → Keeps I Fair (e.1 c)

All-append : {A : Type 0} (P : A → Type 0) (l m : List A) → All P l → All P m → All P (l ++ m)
All-append P [] m h k = k
All-append P (e ∷ l) m (p, h) k = (p, All-append P l m h k)

module _ {I : World → Type 0} {Fair : Assumption} where
  pub find_verb-Keeps :
      (name : String) (l : List (String × Verb)) (v : Verb)
      → All (VerbKeeps I Fair) l
      → find_verb name l ≡ some v
      → VerbKeeps I Fair (name, v)
  unfolding find_verb
  find_verb-Keeps name [] v h e = cc
  find_verb-Keeps name ((n, u) ∷ l) v (p, h) e = elim (Bool-cases (str_eq n name)) [
    | inl q ↦
        let g : u ≡ v = some_eq (rw (q, find_verb) at e) in
        subst (λ x. VerbKeeps I Fair (name, x)) g p
    | inr q ↦ find_verb-Keeps name l v h (rw (q, find_verb) at e)
  ]

  module _ (st : IsStable I Fair) where
    walking_verbs-Keep : All (VerbKeeps I Fair) walking_verbs
    unfolding walking_verbs
    walking_verbs-Keep = search payments_rules depth 60

    carrying_verbs-Keep : All (VerbKeeps I Fair) carrying_verbs
    unfolding carrying_verbs
    carrying_verbs-Keep = search payments_rules depth 60

    thing_verbs-Keep : All (VerbKeeps I Fair) thing_verbs
    unfolding thing_verbs
    thing_verbs-Keep = search payments_rules depth 60

    gadget_verbs-Keep : All (VerbKeeps I Fair) gadget_verbs
    unfolding gadget_verbs
    gadget_verbs-Keep = search payments_rules depth 60

    machine_verbs-Keep : All (VerbKeeps I Fair) machine_verbs
    unfolding machine_verbs
    machine_verbs-Keep = search payments_rules depth 60

    pub registry-Keep :
        (others : List (String × Verb))
        → All (VerbKeeps I Fair) others
        → All (VerbKeeps I Fair) (
            walking_verbs
            ++ (carrying_verbs ++ (thing_verbs ++ (gadget_verbs ++ (machine_verbs ++ others)))))
    registry-Keep others h = All-append (VerbKeeps I Fair) walking_verbs _ walking_verbs-Keep (
        All-append (VerbKeeps I Fair) carrying_verbs _ carrying_verbs-Keep (
          All-append (VerbKeeps I Fair) thing_verbs _ thing_verbs-Keep (
            All-append (VerbKeeps I Fair) gadget_verbs _ gadget_verbs-Keep
              (All-append (VerbKeeps I Fair) machine_verbs _ machine_verbs-Keep h))))
