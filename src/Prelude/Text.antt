-- ===== src/Prelude/Text.antt =====
-- The text methods of the source, `startsWith`, `endsWith` and `slice`, and their laws.
use Prim.Native.Nat.{ℕ, zero, suc, ◌-◌, ◌/◌, ◌%◌}
use Prim.Native.Char.{Char, code}
use Prim.Native.String
use Prim.Native.String.{String, [], ◌∷◌, ◌++◌}
use mathlib.Core.Path.{◌≡◌, refl, ap}
use mathlib.Core.Bool.{Bool, true, false, ◌&&◌, ◌||◌}
use native.Mathlib.Omega.{arith}
use mathlib.Core.List.{List}
use text.Mathlib.Text.{◌==◌ as str_eq}
use text.Mathlib.TextEquality.{eq_iff}
use text.Mathlib.TextLemmas.{nil-append, cons-append, length-cons, length-append}
use muslimrentals.Prelude.Tests.{if◌then◌else◌, eqb, ltb}

-- `s.startsWith(p)`.
abbrev pub starts_with : String → String → Bool
starts_with s [] = true
starts_with [] (c ∷ p) = false
starts_with (d ∷ s) (c ∷ p) = eqb (code d) (code c) && starts_with s p

-- `s.endsWith(p)`.
unfoldable pub ends_with : String → String → Bool
ends_with [] p = str_eq [] p
ends_with (c ∷ s) p = str_eq (c ∷ s) p || ends_with s p

-- The first `n` characters.
unfoldable pub take_chars : ℕ → String → String
take_chars zero s = []
take_chars (suc n) [] = []
take_chars (suc n) (c ∷ s) = c ∷ take_chars n s

-- `s.slice(0, -n)`.
unfoldable pub drop_last : ℕ → String → String
unfolding take_chars
drop_last n s = take_chars (String.count s - n) s

-- `s.slice(n)`.
unfoldable pub drop_prefix : ℕ → String → String
drop_prefix zero s = s
drop_prefix (suc n) [] = []
drop_prefix (suc n) (c ∷ s) = drop_prefix n s

take_chars-append : (p s : String) → take_chars (String.count p) (p ++ s) ≡ p
unfolding take_chars
take_chars-append [] s = refl
take_chars-append (c ∷ p) s =
    rw (length-cons, cons-append, take_chars) (ap (String.◌∷◌ c) (take_chars-append p s))

pub drop_last-append : (p s : String) → drop_last (String.count s) (p ++ s) ≡ p
unfolding drop_last
drop_last-append p s =
    let e : String.count (p ++ s) - String.count s ≡ String.count p =
      omega (arith, length-append p s) in
    rw e (take_chars-append p s)

ends_with_self : (s : String) → ends_with s s ≡ true
unfolding ends_with
ends_with_self [] = refl
ends_with_self (c ∷ s) = ground (arith, eq_iff (c ∷ s) (c ∷ s))

pub ends_with-append : (p s : String) → ends_with (p ++ s) s ≡ true
unfolding ends_with
ends_with-append [] s = rw nil-append (ends_with_self s)
ends_with-append (c ∷ p) s = rw (cons-append, ends_with) (ground (arith, ends_with-append p s))

pub starts_with-append : (p s : String) → starts_with (p ++ s) p ≡ true
starts_with-append [] s = refl
starts_with-append (c ∷ p) s = rw cons-append (ground (arith, starts_with-append p s))

-- Two prefixes of one text that part at one place agree there.
pub starts_with_agree :
    (s p : String) (c d : Char) (q r : String)
    → starts_with s (p ++ c ∷ q) ≡ true
    → starts_with s (p ++ d ∷ r) ≡ true
    → code c ≡ code d
starts_with_agree [] [] c d q r h k = let a = rw nil-append at h in cc
starts_with_agree (x ∷ s) [] c d q r h k =
    let a = rw nil-append at h in let b = rw nil-append at k in ground arith
starts_with_agree [] (y ∷ p) c d q r h k = let a = rw cons-append at h in cc
starts_with_agree (x ∷ s) (y ∷ p) c d q r h k =
    let a = rw cons-append at h in
    let b = rw cons-append at k in starts_with_agree s p c d q r (ground arith) (ground arith)

-- A template text, from its parts.
abbrev pub template : List String → String
template List.[] = []
template (List.◌∷◌ part parts) = part ++ template parts

abbrev text_at : ℕ → List String → String
text_at n List.[] = ""
text_at zero (List.◌∷◌ text texts) = text
text_at (suc n) (List.◌∷◌ text texts) = text_at n texts

abbrev digits : List String
digits = List.◌∷◌ "0" (
    List.◌∷◌ "1" (
      List.◌∷◌ "2" (
        List.◌∷◌ "3" (
          List.◌∷◌ "4"
            (List.◌∷◌ "5" (List.◌∷◌ "6" (List.◌∷◌ "7" (List.◌∷◌ "8" (List.◌∷◌ "9" List.[])))))))))

-- The last `fuel` digits of a number.
abbrev digits_text : ℕ → ℕ → String
digits_text zero n = ""
digits_text (suc fuel) n =
    let rest = digits_text fuel (n / 10) in
    if ltb n 10 then text_at n digits else rest ++ text_at (n % 10) digits

-- A number in a template text.
abbrev pub number_text : ℕ → String
number_text n = digits_text (suc n) n

-- `parts.join(separator)`.
unfoldable pub join : String → List String → String
join separator List.[] = []
join separator (List.◌∷◌ part List.[]) = part
join separator (List.◌∷◌ part (List.◌∷◌ next parts)) =
    part ++ separator ++ join separator (List.◌∷◌ next parts)
