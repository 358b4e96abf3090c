-- ===== src/World/Delete.antt =====
-- `_deleteByNoid` and `_deleteByRef`. The recursion through the contents takes fuel, which stands
-- for the depth of the call stack: `false` beside the world is the stack overflow, and the world is
-- what the calls before it left.
use neohabitat.Prelude.{ℕ, zero, suc, String, Bool, true, false, none, some, List, [], ◌∷◌, length}
use neohabitat.World.Object.{Object, World, removed}
use neohabitat.World.Table.{get, find_ref, erase_object, erase_ref, emit, lose}
use neohabitat.World.Contents.{contents_of}

-- `forEach` over the contents; a throw ends it
unfoldable pub delete_all : (ℕ → World → World × Bool) → List Object → World → World × Bool
delete_all del [] w = (w, true)
delete_all del (i ∷ is) w =
    let (w', done) = del i.noid w in elim done [ true ↦ delete_all del is w' | false ↦ (w', false) ]

-- what follows the cascade
unfoldable pub drop_record : Object → World → World
drop_record r w = emit (removed r.noid) (record w {
  objects = erase_object r.noid w.objects;
  refs = erase_ref r.ref w.refs;
  lost = lose r.noid w;
})

unfoldable pub after_cascade : Object → World × Bool → World × Bool
after_cascade r (w, true) = (drop_record r w, true)
after_cascade r (w, false) = (w, false)

unfoldable pub delete_on : ℕ → ℕ → World → World × Bool
delete_on zero noid w = (w, false)
delete_on (suc f) noid w = elim (get w noid) [
  | none ↦ (w, true)
  | some r ↦ after_cascade r (delete_all (delete_on f) (contents_of w noid) w)
]

unfoldable pub delete_by_noid : ℕ → World → World × Bool
delete_by_noid noid w = delete_on (suc (length w.objects)) noid w

unfoldable pub delete_by_ref : String → World → World × Bool
delete_by_ref ref w = elim (find_ref ref w.refs) [
  | none ↦ (w, true)
  | some noid ↦ delete_by_noid noid w
]
