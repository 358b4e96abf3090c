-- ===== src/Host/Sessions.antt =====
-- A whole session: the messages of the server from the empty world on.
use neohabitat.Prelude.{◌≡◌, List, [], ◌∷◌}
use neohabitat.World.Object.{World}
use neohabitat.World.Table.{find_ref}
use neohabitat.World.Identity.{index, idents}
use neohabitat.World.Index.{IsIndexed, ref_in}
use neohabitat.World.Lookup.{FindsByRef, IsIndexed-FindsByRef}
use neohabitat.Host.Message.{Msg}
use neohabitat.Host.Dispatch.{Classes}
use neohabitat.Host.Indexed.{BringsFresh, OthersKeep, apply-IsIndexed}
use neohabitat.Host.Apply.{apply, apply_all}

-- each message of a session brings an object that is fresh when it comes, if it brings one
abbrev pub AllFresh : Classes → List Msg → World → Type 0
AllFresh t [] w = Unit
AllFresh t (m ∷ ms) w = BringsFresh m w × AllFresh t ms (apply t m w).0

pub apply_all-keeps :
    (t : Classes)
    → OthersKeep t
    → (ms : List Msg) (w : World) → AllFresh t ms w
    → IsIndexed w
    → IsIndexed (apply_all t ms w)
unfolding apply_all
apply_all-keeps t o [] w f h = h
apply_all-keeps t o (m ∷ ms) w (f, fs) h =
    apply_all-keeps t o ms (apply t m w).0 fs (apply-IsIndexed t o m w f h)

pub empty-IsIndexed : (w : World) → w.objects ≡ [] → w.refs ≡ [] → IsIndexed w
unfolding index idents ref_in find_ref
empty-IsIndexed w ho hr = record { by_ref = λ k r e. cc; by_noid = λ k r e. cc }

-- After any session that starts without objects and whose `make`s are fresh (each takes a noid and a
-- ref that are free, or that belong together), also one whose messages throw, if the behaviors that
-- are parameters keep the two maps one index: each object of the table is found by its ref, and what
-- is found by a ref has the ref and is in the table.
pub apply_all-FindsByRef :
    (t : Classes) (ms : List Msg) (w : World)
    → OthersKeep t
    → w.objects ≡ []
    → w.refs ≡ []
    → AllFresh t ms w
    → FindsByRef (apply_all t ms w)
apply_all-FindsByRef t ms w o ho hr f =
    IsIndexed-FindsByRef (apply_all t ms w) (apply_all-keeps t o ms w f (empty-IsIndexed w ho hr))
