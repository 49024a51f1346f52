-- ===== src/CrossBranch/Glob.antt =====
-- Path patterns and the default scopes of orchestrator/src/supervisor/crossBranchAnalysis.ts.
use Prim.Native.String.{◌++◌ as str_append}
use muslimrentals.Prelude.{
  String, ◌≡◌, Bool, true, false, ◌||◌, arith, ◌==◌, starts_with, ends_with, string_equality,
  ends_with-append, drop_last-append, starts_with_agree, sym, ◌∙◌, eq_of_same, Bool-cases, inl, inr,
}
use muslimrentals.Roles.{frontend, backend}
use muslimrentals.CrossBranch.{matches_glob, is_in_scope, default_scope_for}

-- A pattern `dir/**` matches `dir` itself and the paths that begin with `dir/`, and no other.
pub matches_glob-dir :
    (file_path dir : String)
    → matches_glob file_path (str_append dir "/**")
      ≡ (file_path == dir || starts_with file_path (str_append dir "/"))
unfolding matches_glob
matches_glob-dir file_path dir = rw (ends_with-append dir "/**") (rw (drop_last-append dir "/**"))

-- A pattern that does not end in `**` matches the path that it spells, and no other.
pub matches_glob-exact :
    (file_path pattern : String)
    → ends_with pattern "/**" ≡ false
    → ends_with pattern "**" ≡ false
    → matches_glob file_path pattern ≡ (file_path == pattern)
unfolding matches_glob
matches_glob-exact file_path pattern h k = rw (h, k)

-- What the scopes of `frontend` and `backend` test.
abbrev in_dir : String → String → Bool
in_dir dir file_path = file_path == dir || starts_with file_path (str_append dir "/")

in_scope-default :
    (file_path : String)
    → (is_in_scope file_path (default_scope_for frontend) ≡ in_dir "rentals/frontend" file_path)
      × (is_in_scope file_path (default_scope_for backend) ≡ in_dir "rentals/backend" file_path)
unfolding is_in_scope default_scope_for
in_scope-default file_path = ground (
  arith,
  matches_glob-dir file_path "rentals/frontend",
  matches_glob-dir file_path "rentals/backend",
)

in_dir_disjoint :
    (file_path : String)
    → in_dir "rentals/frontend" file_path ≡ true
    → in_dir "rentals/backend" file_path ≡ true
    → ⊥
in_dir_disjoint f h k = elim (Bool-cases (f == "rentals/frontend")) [
  | inl e ↦ let k' = rw (eq_of_same f "rentals/frontend" e) at k in cc
  | inr n ↦ elim (Bool-cases (f == "rentals/backend")) [
    | inl e ↦ let h' = rw (eq_of_same f "rentals/backend" e) at h in cc
    | inr m ↦
        let agree =
          starts_with_agree f "rentals/" "f" "b" "rontend/" "ackend/" (rw n at h) (rw m at k) in
        omega arith
  ]
]

-- No path lies in the default scopes of both `frontend` and `backend`.
pub default_scopes_disjoint :
    (file_path : String)
    → is_in_scope file_path (default_scope_for frontend) ≡ true
    → is_in_scope file_path (default_scope_for backend) ≡ false
default_scopes_disjoint file_path h =
    let (front, back) = in_scope-default file_path in
    elim (Bool-cases (in_dir "rentals/backend" file_path)) [
      | inl b ↦ absurd (in_dir_disjoint file_path (sym front ∙ h) b)
      | inr b ↦ back ∙ b
    ]
