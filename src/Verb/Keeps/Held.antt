-- ===== src/Verb/Keeps/Held.antt =====
-- What is stable is kept by the verbs of devices and consumables.
use neohabitat.Prelude.{ℕ, String, Bool, Option, none, some, List, [], ◌∷◌}
use neohabitat.World.Object.{Object, World}
use neohabitat.Verb.Program.{Reply}
use neohabitat.Verb.Context.{Ctx}
use neohabitat.Verb.Held.{
  light_of, switch_to, switch_toggle, generic_switch, click_and_toggle, flashlight_do,
  floor_lamp_do, show_bytes, show_text, show_ascii, show_read, read_once, generic_read, read_page,
  plaque_do, book_do, generic_get_mass, walk_to_target, pour, bottle_rdo, use_dose, take_dose,
  drugs_do, wind_up, windup_toy_do, set_safety, gun_do, pay_to, choose_and_pay, tokens_rdo,
}
use neohabitat.Verb.Keeps.{Assumption, Keeps, IsStable}
use neohabitat.Verb.Keeps.Worlds.{CtxKeeps}
use neohabitat.Verb.Keeps.Things.{things_rules}

module _ {I : World → Type 0} {Fair : Assumption} (st : IsStable I Fair) where
  pub light_of-Keeps : (lights : Bool) (on : ℕ) → Keeps I Fair (light_of lights on)
  unfolding light_of
  light_of-Keeps lights on = search things_rules depth 60

  pub switch_to-Keeps :
      (on : ℕ) (lights : Bool) (c : Ctx) → CtxKeeps I Fair c → Keeps I Fair (switch_to on lights c)
  unfolding switch_to
  switch_to-Keeps on lights c hc = search (things_rules, light_of-Keeps) depth 60

  pub switch_toggle-Keeps :
      (lights : Bool) (c : Ctx) → CtxKeeps I Fair c → Keeps I Fair (switch_toggle lights c)
  unfolding switch_toggle
  switch_toggle-Keeps lights c hc = search (things_rules, switch_to-Keeps) depth 60

  pub generic_switch-Keeps : (c : Ctx) → CtxKeeps I Fair c → Keeps I Fair (generic_switch c)
  unfolding generic_switch
  generic_switch-Keeps c hc = search (things_rules, switch_toggle-Keeps) depth 60

  pub click_and_toggle-Keeps : (c : Ctx) → CtxKeeps I Fair c → Keeps I Fair (click_and_toggle c)
  unfolding click_and_toggle
  click_and_toggle-Keeps c hc = search (things_rules, switch_toggle-Keeps) depth 60

  pub flashlight_do-Keeps : (c : Ctx) → CtxKeeps I Fair c → Keeps I Fair (flashlight_do c)
  unfolding flashlight_do
  flashlight_do-Keeps c hc = search (things_rules, click_and_toggle-Keeps) depth 60

  pub floor_lamp_do-Keeps : (c : Ctx) → CtxKeeps I Fair c → Keeps I Fair (floor_lamp_do c)
  unfolding floor_lamp_do
  floor_lamp_do-Keeps c hc = search (things_rules, click_and_toggle-Keeps) depth 60

  pub show_bytes-Keeps : (bytes : List ℕ) → Keeps I Fair (show_bytes bytes)
  unfolding show_bytes
  show_bytes-Keeps bytes = search things_rules depth 60

  pub show_text-Keeps :
      (x : Option String) (c : Ctx) → CtxKeeps I Fair c → Keeps I Fair (show_text x c)
  unfolding show_text
  show_text-Keeps none c hc = search (things_rules, show_bytes-Keeps) depth 60
  show_text-Keeps (some t) c hc = search (things_rules, show_bytes-Keeps) depth 60

  pub show_ascii-Keeps :
      (x : List ℕ) (y : Reply) (c : Ctx) → CtxKeeps I Fair c → Keeps I Fair (show_ascii x y c)
  unfolding show_ascii
  show_ascii-Keeps [] r c hc = search (things_rules, show_bytes-Keeps, show_text-Keeps) depth 60
  show_ascii-Keeps (b ∷ l) r c hc =
      search (things_rules, show_bytes-Keeps, show_text-Keeps) depth 60

  pub show_read-Keeps : (r : Reply) (c : Ctx) → CtxKeeps I Fair c → Keeps I Fair (show_read r c)
  unfolding show_read
  show_read-Keeps r c hc = search (things_rules, show_ascii-Keeps) depth 60

  pub read_once-Keeps : (c : Ctx) → CtxKeeps I Fair c → Keeps I Fair (read_once c)
  unfolding read_once
  read_once-Keeps c hc = search (things_rules, show_read-Keeps) depth 60

  pub generic_read-Keeps : (c : Ctx) → CtxKeeps I Fair c → Keeps I Fair (generic_read c)
  unfolding generic_read
  generic_read-Keeps c hc = search (things_rules, read_once-Keeps) depth 60

  pub read_page-Keeps : (c : Ctx) → CtxKeeps I Fair c → Keeps I Fair (read_page c)
  unfolding read_page
  read_page-Keeps c hc = search (things_rules, show_read-Keeps) depth 60

  pub plaque_do-Keeps : (c : Ctx) → CtxKeeps I Fair c → Keeps I Fair (plaque_do c)
  unfolding plaque_do
  plaque_do-Keeps c hc = search (things_rules, read_page-Keeps) depth 60

  pub book_do-Keeps : (c : Ctx) → CtxKeeps I Fair c → Keeps I Fair (book_do c)
  unfolding book_do
  book_do-Keeps c hc = search (things_rules, plaque_do-Keeps) depth 60

  pub generic_get_mass-Keeps : (c : Ctx) → CtxKeeps I Fair c → Keeps I Fair (generic_get_mass c)
  unfolding generic_get_mass
  generic_get_mass-Keeps c hc = search things_rules depth 60

  pub walk_to_target-Keeps :
      (target : Option Object) (c : Ctx)
      → CtxKeeps I Fair c
      → Keeps I Fair (walk_to_target target c)
  unfolding walk_to_target
  walk_to_target-Keeps target c hc = search things_rules depth 60

  pub pour-Keeps : (c : Ctx) → CtxKeeps I Fair c → Keeps I Fair (pour c)
  unfolding pour
  pour-Keeps c hc = search things_rules depth 60

  pub bottle_rdo-Keeps : (c : Ctx) → CtxKeeps I Fair c → Keeps I Fair (bottle_rdo c)
  unfolding bottle_rdo
  bottle_rdo-Keeps c hc = search (things_rules, walk_to_target-Keeps, pour-Keeps) depth 60

  pub use_dose-Keeps : (o : Object) (left : ℕ) → Keeps I Fair (use_dose o left)
  unfolding use_dose
  use_dose-Keeps o left = search things_rules depth 60

  pub take_dose-Keeps : (c : Ctx) → CtxKeeps I Fair c → Keeps I Fair (take_dose c)
  unfolding take_dose
  take_dose-Keeps c hc = search (things_rules, use_dose-Keeps) depth 60

  pub drugs_do-Keeps : (c : Ctx) → CtxKeeps I Fair c → Keeps I Fair (drugs_do c)
  unfolding drugs_do
  drugs_do-Keeps c hc = search (things_rules, take_dose-Keeps) depth 60

  pub wind_up-Keeps : (c : Ctx) → CtxKeeps I Fair c → Keeps I Fair (wind_up c)
  unfolding wind_up
  wind_up-Keeps c hc = search things_rules depth 60

  pub windup_toy_do-Keeps : (c : Ctx) → CtxKeeps I Fair c → Keeps I Fair (windup_toy_do c)
  unfolding windup_toy_do
  windup_toy_do-Keeps c hc = search (things_rules, wind_up-Keeps) depth 60

  pub set_safety-Keeps : (on : ℕ) (c : Ctx) → CtxKeeps I Fair c → Keeps I Fair (set_safety on c)
  unfolding set_safety
  set_safety-Keeps on c hc = search things_rules depth 60

  pub gun_do-Keeps : (c : Ctx) → CtxKeeps I Fair c → Keeps I Fair (gun_do c)
  unfolding gun_do
  gun_do-Keeps c hc = search (things_rules, set_safety-Keeps) depth 60

  pub pay_to-Keeps :
      (amount : ℕ) (recipient : Object) (c : Ctx)
      → CtxKeeps I Fair c
      → Keeps I Fair (pay_to amount recipient c)
  unfolding pay_to
  pay_to-Keeps amount recipient c hc = search things_rules depth 60

  pub choose_and_pay-Keeps :
      (recipient : Object) (c : Ctx) → CtxKeeps I Fair c → Keeps I Fair (choose_and_pay recipient c)
  unfolding choose_and_pay
  choose_and_pay-Keeps recipient c hc = search (things_rules, pay_to-Keeps) depth 60

  pub tokens_rdo-Keeps : (c : Ctx) → CtxKeeps I Fair c → Keeps I Fair (tokens_rdo c)
  unfolding tokens_rdo
  tokens_rdo-Keeps c hc = search (things_rules, choose_and_pay-Keeps) depth 60

pub ruleset held_rules = (
  things_rules, light_of-Keeps, switch_to-Keeps, switch_toggle-Keeps, generic_switch-Keeps,
  click_and_toggle-Keeps, flashlight_do-Keeps, floor_lamp_do-Keeps, show_bytes-Keeps,
  show_text-Keeps, show_ascii-Keeps, show_read-Keeps, read_once-Keeps, generic_read-Keeps,
  read_page-Keeps, plaque_do-Keeps, book_do-Keeps, generic_get_mass-Keeps, walk_to_target-Keeps,
  pour-Keeps, bottle_rdo-Keeps, use_dose-Keeps, take_dose-Keeps, drugs_do-Keeps, wind_up-Keeps,
  windup_toy_do-Keeps, set_safety-Keeps, gun_do-Keeps, pay_to-Keeps, choose_and_pay-Keeps,
  tokens_rdo-Keeps,
)
