-- ===== src/CrossBranch/Touches.antt =====
-- Who touched a path: the map `touchedBy` of orchestrator/src/supervisor/crossBranchAnalysis.ts
-- against a direct count over the change sets.
use text.Mathlib.TextEquality.{eq_iff}
use muslimrentals.Prelude.{
  String, ◌≡◌, refl, sym, Bool, false, List, [], ◌∷◌, ◌++◌, arith, if◌then◌else◌, ◌==◌,
  string_equality, append_assoc, append-nil, ◌||◌,
}
use muslimrentals.Roles.{AgentRole}
use muslimrentals.CrossBranch.{
  WorkerChangeSet, TouchMap, all_changed_paths, touch, touch_all, touched_by,
}

abbrev pub agents_for : String → TouchMap → List AgentRole
agents_for p [] = []
agents_for p ((q, agents) ∷ m) = if q == p then agents else agents_for p m

-- The agent once for each time that the path is listed.
abbrev pub touches_in : String → AgentRole → List String → List AgentRole
touches_in p agent [] = []
touches_in p agent (q ∷ paths) =
    let rest = touches_in p agent paths in if q == p then agent ∷ rest else rest

abbrev pub touchers : String → List WorkerChangeSet → List AgentRole
touchers p [] = []
touchers p (cs ∷ change_sets) =
    touches_in p cs.agent (all_changed_paths cs) ++ touchers p change_sets

agents_for-touch :
    (p q : String) (agent : AgentRole) (m : TouchMap)
    → agents_for p (touch q agent m)
      ≡ (if q == p then agents_for p m ++ agent ∷ [] else agents_for p m)
unfolding touch
agents_for-touch p q agent [] = ground arith
agents_for-touch p q agent ((r, agents) ∷ m) =
    ground (arith, eq_iff r p, eq_iff q p, eq_iff r q, agents_for-touch p q agent m)

agents_for-touch_all :
    (p : String) (agent : AgentRole) (paths : List String) (m : TouchMap)
    → agents_for p (touch_all paths agent m) ≡ agents_for p m ++ touches_in p agent paths
unfolding touch_all
agents_for-touch_all p agent [] m = sym (append-nil _)
agents_for-touch_all p agent (q ∷ paths) m = ground (
  arith,
  agents_for-touch_all p agent paths (touch q agent m),
  agents_for-touch p q agent m,
  append_assoc (agents_for p m) (agent ∷ []) (touches_in p agent paths),
)

agents_for-touched_by_from :
    (p : String) (change_sets : List WorkerChangeSet) (m : TouchMap)
    → agents_for p (touched_by change_sets m) ≡ agents_for p m ++ touchers p change_sets
unfolding touched_by
agents_for-touched_by_from p [] m = sym (append-nil _)
agents_for-touched_by_from p (cs ∷ change_sets) m =
    rw (agents_for-touched_by_from p change_sets, agents_for-touch_all p cs.agent)
      (append_assoc (agents_for p m) (touches_in p cs.agent (all_changed_paths cs))
        (touchers p change_sets))

-- The map holds for each path the agents that touched it, once per touch, in order.
pub agents_for-touched_by :
    (p : String) (change_sets : List WorkerChangeSet)
    → agents_for p (touched_by change_sets []) ≡ touchers p change_sets
agents_for-touched_by p change_sets = agents_for-touched_by_from p change_sets []

abbrev pub has_path : String → TouchMap → Bool
has_path p [] = false
has_path p ((q, agents) ∷ m) = q == p || has_path p m

-- The paths of a map differ from one another.
abbrev pub IsDistinct : TouchMap → Type 0
IsDistinct [] = Unit
IsDistinct ((p, agents) ∷ m) = (has_path p m ≡ false) × IsDistinct m

has_path-touch :
    (p q : String) (agent : AgentRole) (m : TouchMap)
    → has_path p (touch q agent m) ≡ (q == p || has_path p m)
unfolding touch
has_path-touch p q agent [] = refl
has_path-touch p q agent ((r, agents) ∷ m) =
    ground (arith, eq_iff r p, eq_iff q p, eq_iff r q, has_path-touch p q agent m)

touch-IsDistinct :
    (q : String) (agent : AgentRole) (m : TouchMap) → IsDistinct m → IsDistinct (touch q agent m)
unfolding touch
touch-IsDistinct q agent [] h = (refl, tt)
touch-IsDistinct q agent ((r, agents) ∷ m) h =
    ground
      (arith, eq_iff r q, eq_iff q r, has_path-touch r q agent m, touch-IsDistinct q agent m h.1)

touch_all-IsDistinct :
    (paths : List String) (agent : AgentRole) (m : TouchMap)
    → IsDistinct m
    → IsDistinct (touch_all paths agent m)
unfolding touch_all
touch_all-IsDistinct [] agent m h = h
touch_all-IsDistinct (p ∷ paths) agent m h =
    touch_all-IsDistinct paths agent (touch p agent m) (touch-IsDistinct p agent m h)

pub touched_by-IsDistinct :
    (change_sets : List WorkerChangeSet) (m : TouchMap)
    → IsDistinct m
    → IsDistinct (touched_by change_sets m)
unfolding touched_by
touched_by-IsDistinct [] m h = h
touched_by-IsDistinct (cs ∷ change_sets) m h =
    touched_by-IsDistinct change_sets _ (touch_all-IsDistinct (all_changed_paths cs) cs.agent m h)
