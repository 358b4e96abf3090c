-- ===== src/Verb/Context.antt =====
-- `makeCtx` of kernel.js for the verbs of our own avatar. A record of an object that a behavior
-- holds is read and written by its identity, wherever it is: in the table, or out of it after a
-- message has deleted it or made another one of its noid.
use neohabitat.Prelude.{
  ℕ, ℤ, String, Bool, false, ◌||◌, Option, none, some, List, [], ◌∷◌, ◌++◌, str_eq, if◌then◌else◌,
  or_zero, get_or, truthy, is_some,
}
use neohabitat.World.Object.{
  Object, Mod, World, chore, sound, new_image, balloon, page_balloon, posture, beep, boing,
}
use neohabitat.World.Table.{get, find_life}
use neohabitat.World.Contents.{holding, change_state}
use neohabitat.World.Make.{make_object}
use neohabitat.Host.Context.{change_light_by, redraw_state}
use neohabitat.Kernel.Walk.{Offsets}
use neohabitat.Verb.Program.{
  Fields, field, Out, Reply, Result, good, refused, send, transit, Act, ◌>>=◌, ◌>>◌, give, look,
  given, request, change, show, write, carry, skip,
}

-- What a behavior is run in: the table of walk_offsets.js, and the optional callbacks that the
-- client has.
pub record Setting : Type 0 where
  pub offsets_of : Object → Option Offsets
  pub has_transit : Bool
  pub has_picker : Bool
  pub has_reader : Bool
  pub has_typing : Bool

pub record Args : Type 0 where
  pub fields : Fields
  pub text : Option String
  pub direction : Option String

abbrev pub no_args : Args
no_args = record { fields = []; text = none; direction = none }

-- The context of a behavior. The three ways to dispatch again are functions of dispatch.js.
pub record Ctx : Type 0 where
  pub setting : Setting
  pub verb : Option ℕ
  pub args : Args
  pub actor : Option Object
  pub pointed : Object
  pub subject : Option Object
  pub do_action : ℕ → Args → Act Result
  pub do_action_on : ℕ → Object → Args → Act Result
  pub depends : Act Result

abbrev pub Verb : Type 0
Verb = Ctx → Act Result

abbrev pub arg : String → Ctx → Option ℕ
arg k c = field k c.args.fields

-- the record as it is now, in the table or lost
unfoldable pub now : Object → World → Object
now o w = get_or (find_life o.life w.objects) (get_or (find_life o.life w.lost) o)

unfoldable pub mod_now : Object → Act Mod
mod_now o = look (λ w. (now o w).mod_)

unfoldable pub in_hand : Ctx → Act (Option Object)
in_hand c = look (λ w. elim c.actor [ none ↦ none | some a ↦ holding w a.noid ])

-- the failure terminators; `reason || 'beep'`
unfoldable pub reason_or : String → String → String
reason_or d r = if str_eq r "" then d else r

unfoldable pub beeps : String → Act Result
beeps r = do show (beep r); give (refused (reason_or "beep" r))

unfoldable pub boings : String → Act Result
boings r = do show (boing r); give (refused (reason_or "boing" r))

-- presentation
unfoldable pub play_sound : String → ℕ → Act (Unit {0})
play_sound name noid = show (sound name (some noid))

unfoldable pub noid_of : Option Object → Option ℕ
noid_of none = none
noid_of (some o) = some o.noid

unfoldable pub chore_noid : Ctx → Option ℕ
chore_noid c = if str_eq c.pointed.type "Avatar" then some c.pointed.noid else noid_of c.actor

unfoldable pub play_chore : String → Ctx → Act (Unit {0})
play_chore act c = given (chore_noid c) skip λ t. show (chore act t none)

unfoldable pub strike_posture : ℕ → Ctx → Act (Unit {0})
strike_posture p c = given (noid_of c.actor) skip λ t. show (posture t p)

unfoldable pub redraws : ℕ → Act (Unit {0})
redraws noid = show (new_image noid none)

-- `newImage(noid, state)` for a number
unfoldable pub redraws_state : ℕ → ℕ → Act (Unit {0})
redraws_state noid state = change (redraw_state noid (some state))

-- `balloon(text)`: not for an empty text; the speaker is the actor, if none is named
unfoldable pub says : Option String → Option ℕ → Act (Unit {0})
says none speaker = skip
says (some text) speaker = if str_eq text "" then skip else show (balloon text speaker)

unfoldable pub says_line : String → Ctx → Act (Unit {0})
says_line text c = says (some text) (noid_of c.actor)

-- `balloon(text)` of a page that was read
unfoldable pub shows_page : List ℕ → Act (Unit {0})
shows_page [] = skip
shows_page (b ∷ bytes) = show (page_balloon (b ∷ bytes))

unfoldable pub changes_state : ℕ → ℕ → Act (Unit {0})
changes_state noid state = do
  change (change_state (some noid) (some state))
  show (new_image noid (some state))

unfoldable pub changes_light : ℤ → Act (Unit {0})
changes_light n = change (change_light_by n)

-- replies
unfoldable pub reply_field : String → Option Reply → Option ℕ
reply_field k none = none
reply_field k (some r) = field k r.fields

unfoldable pub is_success : Option Reply → Bool
is_success r = truthy (reply_field "err" r)

-- the object that a reply brings, unless its noid is there already
unfoldable pub spawn : Option Reply → World → World
spawn none w = w
spawn (some r) w = elim r.object [
  | none ↦ w
  | some o ↦ elim o.mod0 [
    | none ↦ w
    | some m ↦
        if str_eq w.region.ref "" || is_some (get w m.noid)
        then w
        else make_object o w.region.ref false w
  ]
]

unfoldable pub send_message : Out → Act (Option Reply)
send_message m = do reply ← request (send m); change (spawn reply); give reply

abbrev pub message : String → String → Out
message op to = record { op = op; to = to; fields = []; text = none }

abbrev pub or_else : Option ℕ → Option ℕ → Option ℕ
or_else none d = d
or_else (some n) d = some n

unfoldable pub turn : Option ℕ → Object → Act (Unit {0})
turn none item = skip
turn (some o) item = write item (λ m. record m { orientation = some o })

abbrev pub num : String → Option ℕ → Fields
num k none = []
num k (some n) = (k, n) ∷ []

-- `if (!succeeded(reply)) return ctx.beep('server-denied')`, and what follows
unfoldable pub if_granted : Option Reply → Act Result → Act Result
if_granted reply k = if is_success reply then k else beeps "server-denied"

unfoldable pub put_into : Ctx → ℕ → Option ℕ → Option ℕ → Option ℕ → Act Result
put_into c container x y orientation = do
  held ← in_hand c
  given held (beeps "hands-empty") λ item. do
    m ← mod_now item
    reply ← send_message (record (message "PUT" item.ref) {
      fields =
          ("containerNoid", container)
          ∷ ("orientation", get_or orientation (or_zero m.orientation))
          ∷ (num "x" x ++ num "y" y);
    })
    if_granted reply do
      carry (some item.noid) (some container) x (or_else (reply_field "pos" reply) y)
      turn orientation item
      give good

unfoldable pub change_region : Ctx → String → Act Result
change_region c direction =
    if c.setting.has_transit
    then request (transit direction c.pointed.noid)
    else give (refused "needs-client-capability:changeRegion")
