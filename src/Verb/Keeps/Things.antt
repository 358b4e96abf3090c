-- ===== src/Verb/Keeps/Things.antt =====
-- What is stable is kept by the verbs of items, furniture and dice.
use neohabitat.Prelude.{ℕ, ℤ}
use neohabitat.World.Object.{Object, World}
use neohabitat.Verb.Program.{Result, Act}
use neohabitat.Verb.Context.{Ctx}
use neohabitat.Verb.Things.{
  held_or_depends, key_do, choose_amount, split_off, tokens_do, read_paper, paper_do, head_do,
  head_talk, game_piece_do, telekenesis_get, touch, avatar_do, settle, sit_or_stand, stand_up,
  sit_in, approach_seat, generic_go_to_furniture, generic_go_to_and_fill, die_do,
}
use neohabitat.Verb.Keeps.{Assumption, Keeps, IsStable}
use neohabitat.Verb.Keeps.Worlds.{CtxKeeps}
use neohabitat.Verb.Keeps.Openables.{openables_rules}

module _ {I : World → Type 0} {Fair : Assumption} (st : IsStable I Fair) where
  pub held_or_depends-Keeps :
      (c : Ctx) (k : Act Result)
      → CtxKeeps I Fair c
      → Keeps I Fair k
      → Keeps I Fair (held_or_depends c k)
  unfolding held_or_depends
  held_or_depends-Keeps c k hc hk = search openables_rules depth 60

  pub key_do-Keeps : (c : Ctx) → CtxKeeps I Fair c → Keeps I Fair (key_do c)
  unfolding key_do
  key_do-Keeps c hc = search openables_rules depth 60

  pub choose_amount-Keeps :
      (available : ℤ) (c : Ctx) → CtxKeeps I Fair c → Keeps I Fair (choose_amount available c)
  unfolding choose_amount
  choose_amount-Keeps available c hc = search openables_rules depth 60

  pub split_off-Keeps :
      (amount : ℕ) (c : Ctx) → CtxKeeps I Fair c → Keeps I Fair (split_off amount c)
  unfolding split_off
  split_off-Keeps amount c hc = search openables_rules depth 60

  pub tokens_do-Keeps : (c : Ctx) → CtxKeeps I Fair c → Keeps I Fair (tokens_do c)
  unfolding tokens_do
  tokens_do-Keeps c hc = search (openables_rules, choose_amount-Keeps, split_off-Keeps) depth 60

  pub read_paper-Keeps : (c : Ctx) → CtxKeeps I Fair c → Keeps I Fair (read_paper c)
  unfolding read_paper
  read_paper-Keeps c hc = search openables_rules depth 60

  pub paper_do-Keeps : (c : Ctx) → CtxKeeps I Fair c → Keeps I Fair (paper_do c)
  unfolding paper_do
  paper_do-Keeps c hc = search (openables_rules, held_or_depends-Keeps, read_paper-Keeps) depth 60

  pub head_do-Keeps : (c : Ctx) → CtxKeeps I Fair c → Keeps I Fair (head_do c)
  unfolding head_do
  head_do-Keeps c hc = search openables_rules depth 60

  pub head_talk-Keeps : (c : Ctx) → CtxKeeps I Fair c → Keeps I Fair (head_talk c)
  unfolding head_talk
  head_talk-Keeps c hc = search openables_rules depth 60

  pub game_piece_do-Keeps : (c : Ctx) → CtxKeeps I Fair c → Keeps I Fair (game_piece_do c)
  unfolding game_piece_do
  game_piece_do-Keeps c hc = search openables_rules depth 60

  pub telekenesis_get-Keeps : (c : Ctx) → CtxKeeps I Fair c → Keeps I Fair (telekenesis_get c)
  unfolding telekenesis_get
  telekenesis_get-Keeps c hc = search openables_rules depth 60

  pub touch-Keeps : (c : Ctx) → CtxKeeps I Fair c → Keeps I Fair (touch c)
  unfolding touch
  touch-Keeps c hc = search openables_rules depth 60

  pub avatar_do-Keeps : (c : Ctx) → CtxKeeps I Fair c → Keeps I Fair (avatar_do c)
  unfolding avatar_do
  avatar_do-Keeps c hc = search (openables_rules, touch-Keeps) depth 60

  pub settle-Keeps :
      (me : Object) (p : ℕ) (c : Ctx) → CtxKeeps I Fair c → Keeps I Fair (settle me p c)
  unfolding settle
  settle-Keeps me p c hc = search openables_rules depth 60

  pub sit_or_stand-Keeps : (up : ℕ) (c : Ctx) → CtxKeeps I Fair c → Keeps I Fair (sit_or_stand up c)
  unfolding sit_or_stand
  sit_or_stand-Keeps up c hc = search openables_rules depth 60

  pub stand_up-Keeps : (a : Object) (c : Ctx) → CtxKeeps I Fair c → Keeps I Fair (stand_up a c)
  unfolding stand_up
  stand_up-Keeps a c hc = search (openables_rules, settle-Keeps, sit_or_stand-Keeps) depth 60

  pub sit_in-Keeps : (a : Object) (c : Ctx) → CtxKeeps I Fair c → Keeps I Fair (sit_in a c)
  unfolding sit_in
  sit_in-Keeps a c hc = search (openables_rules, settle-Keeps, sit_or_stand-Keeps) depth 60

  pub approach_seat-Keeps :
      (a : Object) (c : Ctx) → CtxKeeps I Fair c → Keeps I Fair (approach_seat a c)
  unfolding approach_seat
  approach_seat-Keeps a c hc = search (openables_rules, sit_in-Keeps) depth 60

  pub generic_go_to_furniture-Keeps :
      (c : Ctx) → CtxKeeps I Fair c → Keeps I Fair (generic_go_to_furniture c)
  unfolding generic_go_to_furniture
  generic_go_to_furniture-Keeps c hc =
      search (openables_rules, stand_up-Keeps, sit_in-Keeps, approach_seat-Keeps) depth 60

  pub generic_go_to_and_fill-Keeps :
      (c : Ctx) → CtxKeeps I Fair c → Keeps I Fair (generic_go_to_and_fill c)
  unfolding generic_go_to_and_fill
  generic_go_to_and_fill-Keeps c hc = search openables_rules depth 60

  pub die_do-Keeps : (c : Ctx) → CtxKeeps I Fair c → Keeps I Fair (die_do c)
  unfolding die_do
  die_do-Keeps c hc = search openables_rules depth 60

pub ruleset things_rules = (
  openables_rules, held_or_depends-Keeps, key_do-Keeps, choose_amount-Keeps, split_off-Keeps,
  tokens_do-Keeps, read_paper-Keeps, paper_do-Keeps, head_do-Keeps, head_talk-Keeps,
  game_piece_do-Keeps, telekenesis_get-Keeps, touch-Keeps, avatar_do-Keeps, settle-Keeps,
  sit_or_stand-Keeps, stand_up-Keeps, sit_in-Keeps, approach_seat-Keeps,
  generic_go_to_furniture-Keeps, generic_go_to_and_fill-Keeps, die_do-Keeps,
)
