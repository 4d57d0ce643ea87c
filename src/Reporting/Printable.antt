-- ===== src/Reporting/Printable.antt =====
-- reporting.py: what `_display_text` leaves of control characters.
use Prim.Native.Char.{Char, code}
use Prim.Native.Nat.{◌/◌, ◌%◌, ◌-◌}
use Prim.Native.String.{◌++◌}
use text.Mathlib.TextLemmas.{cons-append, nil-append}
use goal_router.Common.{
  ℕ, zero, suc, String, Bool, true, ◌&&◌, ◌||◌, not, Option, none, some, List, [], ◌∷◌, ◌==◌, ◌≡◌,
  refl, inl, inr, Bool-cases, leb, ltb, eqb, All, map, arith,
}
use goal_router.Common.Strings.{join}
use goal_router.Domain.FilePath.{FilePath, to_text}
use goal_router.Domain.RepositoryContext.{RepositoryContext}
use goal_router.Reporting.{
  hex_digits, digit_at, two_digits, four_digits, escape_code, escape, display_text, display_path,
  text_or_none, paths, dirty_summary, branch_text,
}

-- no control character of ASCII
unfoldable pub is_printable : Char → Bool
is_printable c = not (ltb (code c) 32) && not (eqb (code c) 127)

unfoldable pub all_printable : String → Bool
all_printable String.[] = true
all_printable (String.◌∷◌ c s) = is_printable c && all_printable s

append-printable :
    (s t : String) → all_printable s ≡ true → all_printable t ≡ true → all_printable (s ++ t) ≡ true
unfolding all_printable
append-printable String.[] t h k = rw (nil-append t) k
append-printable (String.◌∷◌ c s) t h k =
    rw (cons-append c s t) (ground (arith, h, append-printable s t (ground (arith, h)) k))

digit_at-printable :
    (n : ℕ) (ds : List String)
    → All (λ d. all_printable d ≡ true) ds
    → all_printable (digit_at n ds) ≡ true
unfolding digit_at all_printable
digit_at-printable n [] h = refl
digit_at-printable zero (d ∷ ds) h = h.0
digit_at-printable (suc n) (d ∷ ds) h = digit_at-printable n ds h.1

digits : All (λ d. all_printable d ≡ true) hex_digits
unfolding all_printable is_printable
digits = (
  refl,
  (
    refl,
    (
      refl,
      (
        refl,
        (
          refl,
          (
            refl,
            (refl, (refl, (refl, (refl, (refl, (refl, (refl, (refl, (refl, (refl, tt)))))))))),
          ),
        ),
      ),
    ),
  ),
)

two_digits-printable : (n : ℕ) → all_printable (two_digits n) ≡ true
unfolding two_digits
two_digits-printable n =
    append-printable (digit_at (n / 16) hex_digits) (digit_at (n % 16) hex_digits)
      (digit_at-printable (n / 16) hex_digits digits)
      (digit_at-printable (n % 16) hex_digits digits)

four_digits-printable : (n : ℕ) → all_printable (four_digits n) ≡ true
unfolding four_digits
four_digits-printable n =
    append-printable (two_digits (n / 256)) (two_digits (n % 256)) (two_digits-printable (n / 256))
      (two_digits-printable (n % 256))

escape_code-printable : (c : Char) → all_printable (escape_code c) ≡ true
unfolding escape_code all_printable is_printable
escape_code-printable c = elim (Bool-cases (leb 56448 (code c) && leb (code c) 56575)) [
  | inl e ↦
      rw e (append-printable "\\x" (two_digits (code c - 56320)) refl (two_digits-printable _))
  | inr e ↦ elim (Bool-cases (ltb (code c) 32 || eqb (code c) 127)) [
    | inl e' ↦
        rw e (rw e' (append-printable "\\x" (two_digits (code c)) refl (two_digits-printable _)))
    | inr e' ↦ elim (Bool-cases (leb 55296 (code c) && leb (code c) 57343)) [
      | inl e'' ↦ rw e (
          rw e'
            (rw e'' (append-printable "\\u" (four_digits (code c)) refl (four_digits-printable _))))
      | inr e'' ↦ rw e (rw e' (rw e'' (ground (arith, e'))))
    ]
  ]
]

escape-printable : (c : Char) → all_printable (escape c) ≡ true
unfolding escape all_printable is_printable
escape-printable c = elim (Bool-cases (eqb (code c) 92)) [
  | inl e ↦ rw e refl
  | inr e ↦ elim (Bool-cases (eqb (code c) 10)) [
    | inl e1 ↦ rw e (rw e1 refl)
    | inr e1 ↦ elim (Bool-cases (eqb (code c) 13)) [
      | inl e2 ↦ rw e (rw e1 (rw e2 refl))
      | inr e2 ↦ elim (Bool-cases (eqb (code c) 9)) [
        | inl e3 ↦ rw e (rw e1 (rw e2 (rw e3 refl)))
        | inr e3 ↦ rw e (rw e1 (rw e2 (rw e3 (escape_code-printable c))))
      ]
    ]
  ]
]

display_text-printable : (s : String) → all_printable (display_text s) ≡ true
unfolding display_text all_printable
display_text-printable String.[] = refl
display_text-printable (String.◌∷◌ c s) =
    append-printable (escape c) (display_text s) (escape-printable c) (display_text-printable s)

join-printable : (ps : List FilePath) → all_printable (join ", " (map display_path ps)) ≡ true
unfolding join all_printable display_path is_printable
join-printable [] = refl
join-printable (p ∷ []) = display_text-printable (to_text p)
join-printable (p ∷ q ∷ ps) =
    append-printable (display_path p) (", " ++ join ", " (map display_path (q ∷ ps)))
      (display_text-printable (to_text p))
      (append-printable ", " (join ", " (map display_path (q ∷ ps))) refl (join-printable (q ∷ ps)))

or_none-printable :
    (text : String) → all_printable text ≡ true → all_printable (text_or_none text) ≡ true
unfolding text_or_none all_printable is_printable
or_none-printable text h = elim (Bool-cases (text == "")) [ inl e ↦ rw e refl | inr e ↦ rw e h ]

branch_text-printable : (branch : Option String) → all_printable (branch_text branch) ≡ true
unfolding branch_text all_printable is_printable
branch_text-printable none = refl
branch_text-printable (some branch) = elim (Bool-cases (branch == "")) [
  | inl e ↦ rw e refl
  | inr e ↦ rw e (display_text-printable branch)
]

dirty_summary-printable :
    (repository : RepositoryContext) → all_printable (dirty_summary repository) ≡ true
unfolding dirty_summary all_printable is_printable
dirty_summary-printable repository =
    elim repository.dirty_paths
      as (λ (ps : List FilePath).
        all_printable (elim ps [ [] ↦ "clean" | p ∷ ps ↦ join ", " (map display_path (p ∷ ps)) ])
        ≡ true) [ [] ↦ refl | p ∷ ps ↦ join-printable (p ∷ ps) ]

-- Whatever the names are, the texts of the report for the branch, the dirty paths and any list of paths
-- have no control character of ASCII.
pub names-printable :
    (repository : RepositoryContext) (ps : List FilePath)
    → (all_printable (branch_text repository.branch) ≡ true)
      × (all_printable (dirty_summary repository) ≡ true)
      × (all_printable (paths ps) ≡ true)
unfolding paths
names-printable repository ps = (
  branch_text-printable repository.branch,
  dirty_summary-printable repository,
  or_none-printable (join ", " (map display_path ps)) (join-printable ps),
)
