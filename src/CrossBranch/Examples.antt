-- ===== src/CrossBranch/Examples.antt =====
-- Two workers that both changed `routes/users.ts`.
use mathlib.Core.List.{Memᴰ}
use muslimrentals.Prelude.{
  String, ◌≡◌, refl, true, [], ◌∷◌, some, string_equality, ends_with, drop_last,
}
use muslimrentals.Roles.{frontend, backend, role_rank}
use muslimrentals.CrossBranch.{
  WorkerChangeSet, conflicting, all_changed_paths, analyze_cross_branch, default_scopes,
  default_scope_for, is_in_scope, matches_glob, overlap_entry, scope_by_agent, touched_by,
  touch_all, touch, overlaps_of, out_of_scope_of,
}
use muslimrentals.CrossBranch.Touches.{touchers}
use muslimrentals.CrossBranch.Overlaps.{IsEntryOf, entry_for, entry_for-analyze, unblocked-in_scope}
use muslimrentals.CrossBranch.Conflicts.{front_back-conflicting}

abbrev users_route : String
users_route = "rentals/backend/src/routes/users.ts"

abbrev front_changes : WorkerChangeSet
front_changes = record {
  agent = frontend;
  branch = "agents/t/frontend";
  added = [];
  modified = "rentals/frontend/src/app/page.tsx" ∷ users_route ∷ [];
  deleted = [];
  renamed = [];
}

abbrev back_changes : WorkerChangeSet
back_changes = record {
  agent = backend;
  branch = "agents/t/backend";
  added = [];
  modified = users_route ∷ [];
  deleted = [];
  renamed = [];
}

front_back-conflicting_example :
    let report =
      analyze_cross_branch "t"
        (front_changes ∷ back_changes ∷ [])
        (default_scopes (frontend ∷ backend ∷ [])) in
    (entry_for users_route report.overlaps
      ≡ some (record {
        path = users_route;
        agents = touchers users_route (front_changes ∷ back_changes ∷ []);
        classification = conflicting;
      }))
    × (report.has_blocking_issues ≡ true)
unfolding all_changed_paths role_rank
front_back-conflicting_example =
    front_back-conflicting "t" (front_changes ∷ back_changes ∷ []) (frontend ∷ backend ∷ [])
      front_changes back_changes users_route refl refl refl refl (Memᴰ.head refl)
      (Memᴰ.tail (Memᴰ.head refl)) refl refl

unblocked-in_scope_example : is_in_scope users_route (default_scope_for backend) ≡ true
unfolding all_changed_paths role_rank analyze_cross_branch default_scopes default_scope_for
    scope_by_agent touched_by touch_all touch overlaps_of out_of_scope_of overlap_entry is_in_scope
    matches_glob ends_with drop_last
unblocked-in_scope_example =
    unblocked-in_scope "t" (back_changes ∷ []) (default_scopes (backend ∷ [])) back_changes
      (default_scope_for backend) users_route refl (Memᴰ.head refl) refl refl

entry_for-analyze_example :
    IsEntryOf
      (default_scopes (frontend ∷ backend ∷ []))
      users_route
      (touchers users_route (front_changes ∷ back_changes ∷ []))
      (entry_for users_route
        (analyze_cross_branch "t"
          (front_changes ∷ back_changes ∷ [])
          (default_scopes (frontend ∷ backend ∷ []))).overlaps)
entry_for-analyze_example =
    entry_for-analyze "t" (front_changes ∷ back_changes ∷ [])
      (default_scopes (frontend ∷ backend ∷ [])) users_route
