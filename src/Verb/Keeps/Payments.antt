-- ===== src/Verb/Keeps/Payments.antt =====
-- What is stable is kept by the verbs of machines2.js.
use neohabitat.Prelude.{ℕ, ℤ, Option}
use neohabitat.World.Object.{Object, World}
use neohabitat.Verb.Program.{
  Reply, Result, good, standing_as, with_number, with_text, said, refused,
}
use neohabitat.Verb.Context.{Ctx}
use neohabitat.Verb.Payments.{
  coke_machine_put, tell_fortune, fortune_machine_put, jukebox_put, charge, vend, vendo_put,
  set_booth, teleport_put, speak_aloud, zap, teleport_talk, elevator_talk, load_tape, drop_beside,
  stereo_put, eject, unload, stereo_get, atm_do, bank, enrich, withdrawn, withdraw, atm_get,
  deposit, atm_put, jukebox_do,
}
use neohabitat.Verb.Keeps.{Assumption, Keeps, IsStable}
use neohabitat.Verb.Keeps.Worlds.{CtxKeeps}
use neohabitat.Verb.Keeps.Machines.{machines_rules}

module _ {I : World → Type 0} {Fair : Assumption} (st : IsStable I Fair) where
  pub coke_machine_put-Keeps : (c : Ctx) → CtxKeeps I Fair c → Keeps I Fair (coke_machine_put c)
  unfolding coke_machine_put
  coke_machine_put-Keeps c hc = search machines_rules depth 60

  pub tell_fortune-Keeps :
      (x : Result) (c : Ctx) → CtxKeeps I Fair c → Keeps I Fair (tell_fortune x c)
  unfolding tell_fortune
  tell_fortune-Keeps (said u) c hc = search machines_rules depth 60
  tell_fortune-Keeps (refused e) c hc = search machines_rules depth 60
  tell_fortune-Keeps good c hc = search machines_rules depth 60
  tell_fortune-Keeps (standing_as p) c hc = search machines_rules depth 60
  tell_fortune-Keeps (with_number n) c hc = search machines_rules depth 60
  tell_fortune-Keeps (with_text l) c hc = search machines_rules depth 60

  pub fortune_machine_put-Keeps :
      (c : Ctx) → CtxKeeps I Fair c → Keeps I Fair (fortune_machine_put c)
  unfolding fortune_machine_put
  fortune_machine_put-Keeps c hc = search (machines_rules, tell_fortune-Keeps) depth 60

  pub jukebox_put-Keeps : (c : Ctx) → CtxKeeps I Fair c → Keeps I Fair (jukebox_put c)
  unfolding jukebox_put
  jukebox_put-Keeps c hc = search machines_rules depth 60

  pub charge-Keeps : (price : ℕ) (c : Ctx) → CtxKeeps I Fair c → Keeps I Fair (charge price c)
  unfolding charge
  charge-Keeps price c hc = search machines_rules depth 60

  pub vend-Keeps : (c : Ctx) → CtxKeeps I Fair c → Keeps I Fair (vend c)
  unfolding vend
  vend-Keeps c hc = search (machines_rules, charge-Keeps) depth 60

  pub vendo_put-Keeps : (c : Ctx) → CtxKeeps I Fair c → Keeps I Fair (vendo_put c)
  unfolding vendo_put
  vendo_put-Keeps c hc = search (machines_rules, vend-Keeps) depth 60

  pub set_booth-Keeps : (n : ℕ) (c : Ctx) → CtxKeeps I Fair c → Keeps I Fair (set_booth n c)
  unfolding set_booth
  set_booth-Keeps n c hc = search machines_rules depth 60

  pub teleport_put-Keeps : (c : Ctx) → CtxKeeps I Fair c → Keeps I Fair (teleport_put c)
  unfolding teleport_put
  teleport_put-Keeps c hc = search (machines_rules, set_booth-Keeps) depth 60

  pub speak_aloud-Keeps : (c : Ctx) → CtxKeeps I Fair c → Keeps I Fair (speak_aloud c)
  unfolding speak_aloud
  speak_aloud-Keeps c hc = search machines_rules depth 60

  pub zap-Keeps : (c : Ctx) → CtxKeeps I Fair c → Keeps I Fair (zap c)
  unfolding zap
  zap-Keeps c hc = search machines_rules depth 60

  pub teleport_talk-Keeps : (c : Ctx) → CtxKeeps I Fair c → Keeps I Fair (teleport_talk c)
  unfolding teleport_talk
  teleport_talk-Keeps c hc =
      search (machines_rules, set_booth-Keeps, speak_aloud-Keeps, zap-Keeps) depth 60

  pub elevator_talk-Keeps : (c : Ctx) → CtxKeeps I Fair c → Keeps I Fair (elevator_talk c)
  unfolding elevator_talk
  elevator_talk-Keeps c hc = search (machines_rules, speak_aloud-Keeps, zap-Keeps) depth 60

  pub load_tape-Keeps :
      (tape : Object) (c : Ctx) → CtxKeeps I Fair c → Keeps I Fair (load_tape tape c)
  unfolding load_tape
  load_tape-Keeps tape c hc = search machines_rules depth 60

  pub drop_beside-Keeps : (c : Ctx) → CtxKeeps I Fair c → Keeps I Fair (drop_beside c)
  unfolding drop_beside
  drop_beside-Keeps c hc = search machines_rules depth 60

  pub stereo_put-Keeps : (c : Ctx) → CtxKeeps I Fair c → Keeps I Fair (stereo_put c)
  unfolding stereo_put
  stereo_put-Keeps c hc = search (machines_rules, load_tape-Keeps, drop_beside-Keeps) depth 60

  pub eject-Keeps :
      (tape : Option Object) (c : Ctx) → CtxKeeps I Fair c → Keeps I Fair (eject tape c)
  unfolding eject
  eject-Keeps tape c hc = search machines_rules depth 60

  pub unload-Keeps : (tape : Option ℕ) (c : Ctx) → CtxKeeps I Fair c → Keeps I Fair (unload tape c)
  unfolding unload
  unload-Keeps tape c hc = search (machines_rules, eject-Keeps) depth 60

  pub stereo_get-Keeps : (c : Ctx) → CtxKeeps I Fair c → Keeps I Fair (stereo_get c)
  unfolding stereo_get
  stereo_get-Keeps c hc = search (machines_rules, unload-Keeps) depth 60

  pub atm_do-Keeps : (c : Ctx) → CtxKeeps I Fair c → Keeps I Fair (atm_do c)
  unfolding atm_do
  atm_do-Keeps c hc = search machines_rules depth 60

  pub bank-Keeps : (n : ℤ) (c : Ctx) → CtxKeeps I Fair c → Keeps I Fair (bank n c)
  unfolding bank
  bank-Keeps n c hc = search machines_rules depth 60

  pub enrich-Keeps : (held : Option Object) (n : ℕ) → Keeps I Fair (enrich held n)
  unfolding enrich
  enrich-Keeps held n = search machines_rules depth 60

  pub withdrawn-Keeps :
      (held : Option Object) (reply : Option Reply) (c : Ctx)
      → CtxKeeps I Fair c
      → Keeps I Fair (withdrawn held reply c)
  unfolding withdrawn
  withdrawn-Keeps held reply c hc = search (machines_rules, bank-Keeps, enrich-Keeps) depth 60

  pub withdraw-Keeps :
      (held : Option Object) (amount : ℕ) (c : Ctx)
      → CtxKeeps I Fair c
      → Keeps I Fair (withdraw held amount c)
  unfolding withdraw
  withdraw-Keeps held amount c hc = search (machines_rules, withdrawn-Keeps) depth 60

  pub atm_get-Keeps : (c : Ctx) → CtxKeeps I Fair c → Keeps I Fair (atm_get c)
  unfolding atm_get
  atm_get-Keeps c hc = search (machines_rules, withdraw-Keeps) depth 60

  pub deposit-Keeps : (wad : Object) (c : Ctx) → CtxKeeps I Fair c → Keeps I Fair (deposit wad c)
  unfolding deposit
  deposit-Keeps wad c hc = search (machines_rules, bank-Keeps) depth 60

  pub atm_put-Keeps : (c : Ctx) → CtxKeeps I Fair c → Keeps I Fair (atm_put c)
  unfolding atm_put
  atm_put-Keeps c hc = search (machines_rules, deposit-Keeps) depth 60

  pub jukebox_do-Keeps : (c : Ctx) → CtxKeeps I Fair c → Keeps I Fair (jukebox_do c)
  unfolding jukebox_do
  jukebox_do-Keeps c hc = search machines_rules depth 60

pub ruleset payments_rules = (
  machines_rules, coke_machine_put-Keeps, tell_fortune-Keeps, fortune_machine_put-Keeps,
  jukebox_put-Keeps, charge-Keeps, vend-Keeps, vendo_put-Keeps, set_booth-Keeps, teleport_put-Keeps,
  speak_aloud-Keeps, zap-Keeps, teleport_talk-Keeps, elevator_talk-Keeps, load_tape-Keeps,
  drop_beside-Keeps, stereo_put-Keeps, eject-Keeps, unload-Keeps, stereo_get-Keeps, atm_do-Keeps,
  bank-Keeps, enrich-Keeps, withdrawn-Keeps, withdraw-Keeps, atm_get-Keeps, deposit-Keeps,
  atm_put-Keeps, jukebox_do-Keeps,
)
