-- ===== src/Repository/Records.antt =====
-- repository.py: `_split_nul_records` against the texts that Git writes with `-z`.
use Prim.Native.Char.{Char, code}
use text.Mathlib.TextEquality.{Char-path}
use mathlib.Core.Path.{subst}
use goal_router.Common.{
  String, Bool, true, false, not, List, [], ◌∷◌, ◌==◌, ◌≡◌, refl, sym, ap, ◌∙◌, ◌⊎◌, inl, inr, ◌↔◌,
  All, any, eqb→eq, arith, Bool-cases, eq_iff,
}
use goal_router.Errors.{ok, repository_error, guard, guard-eq-ok, >>=-eq-ok, ok-injective, bind-ok}
use goal_router.Repository.Texts.{
  nul, is_char, split, has_char, ends_with, drop_last, split_nul_records, nonempty_records, glue,
}

abbrev nul_char : Char
nul_char = "\0"

-- `record + "\0" + rest`
unfoldable pub followed : String → String → String
followed String.[] rest = String.◌∷◌ nul_char rest
followed (String.◌∷◌ c record') rest = String.◌∷◌ c (followed record' rest)

-- Every record with a NUL after it.
unfoldable pub terminated : List String → String
unfolding followed
terminated [] = ""
terminated (r ∷ rs) = followed r (terminated rs)

-- A record is not empty and has no NUL.
abbrev pub IsRecord : String → Type 0
IsRecord r = ((r == "") ≡ false) × (has_char nul r ≡ false)

split-followed :
    (r s : String) → has_char nul r ≡ false → split nul (followed r s) ≡ r ∷ split nul s
unfolding split has_char followed glue
split-followed String.[] s h = refl
split-followed (String.◌∷◌ c r) s h = elim (Bool-cases (is_char nul c)) [
  | inl e ↦ ground arith
  | inr e ↦ rw e (rw (split-followed r s (ground arith)) refl)
]

split-shape : (s : String) → (x : String) × (xs : List String) × (split nul s ≡ x ∷ xs)
unfolding split glue
split-shape String.[] = ("", [], refl)
split-shape (String.◌∷◌ c s) = elim (Bool-cases (is_char nul c)) [
  | inl e ↦ ("", split nul s, rw e refl)
  | inr e ↦ let (x, xs, h) = split-shape s in (String.◌∷◌ c x, xs, rw e (rw h refl))
]

drop_last-after : (r s : String) → drop_last (r ∷ split nul s) ≡ r ∷ drop_last (split nul s)
unfolding drop_last
drop_last-after r s = let (x, xs, h) = split-shape s in rw h refl

records-terminated :
    (rs : List String) → All IsRecord rs → drop_last (split nul (terminated rs)) ≡ rs
unfolding terminated split drop_last
records-terminated [] h = refl
records-terminated (r ∷ rs) (good, h) =
    ap drop_last (split-followed r (terminated rs) good.1)
    ∙ drop_last-after r (terminated rs)
    ∙ ap (λ (l : List String). r ∷ l) (records-terminated rs h)

ends-followed :
    (r s : String) → (s ≡ "") ⊎ (ends_with nul s ≡ true) → ends_with nul (followed r s) ≡ true
unfolding ends_with followed
ends-followed String.[] String.[] h = refl
ends-followed String.[] (String.◌∷◌ d s) (inl e) = cc
ends-followed String.[] (String.◌∷◌ d s) (inr e) = e
ends-followed (String.◌∷◌ c String.[]) s h = ends-followed String.[] s h
ends-followed (String.◌∷◌ c (String.◌∷◌ d r)) s h = ends-followed (String.◌∷◌ d r) s h

ends-terminated : (rs : List String) → (terminated rs ≡ "") ⊎ (ends_with nul (terminated rs) ≡ true)
unfolding terminated
ends-terminated [] = inl refl
ends-terminated (r ∷ rs) = inr (ends-followed r (terminated rs) (ends-terminated rs))

-- A text that ends with a NUL has a piece before it and one after it.
two_pieces :
    (s : String)
    → ends_with nul s ≡ true
    → (x y : String) × (xs : List String) × (split nul s ≡ x ∷ y ∷ xs)
unfolding split glue ends_with
two_pieces String.[] h = cc
two_pieces (String.◌∷◌ c String.[]) h = ("", "", [], rw h refl)
two_pieces (String.◌∷◌ c (String.◌∷◌ d s)) h =
    let (x, y, xs, e) = two_pieces (String.◌∷◌ d s) h in
    elim (Bool-cases (is_char nul c)) [
      | inl t ↦ ("", x, y ∷ xs, rw t (rw e refl))
      | inr t ↦ (String.◌∷◌ c x, y, xs, rw t (rw e refl))
    ]

is_nul : (c : Char) → is_char nul c ≡ true → nul_char ≡ c
is_nul c e = sym (Char-path c nul_char (eqb→eq (code c) 0 e))

split-at :
    (c : Char) (s : String) → is_char nul c ≡ true → split nul (String.◌∷◌ c s) ≡ "" ∷ split nul s
unfolding split
split-at c s e = rw e refl

split-in :
    (c : Char) (s : String)
    → is_char nul c ≡ false
    → split nul (String.◌∷◌ c s) ≡ glue c (split nul s)
unfolding split
split-in c s e = rw e refl

-- What is put together again from the pieces of a text.
abbrev Rejoins : String → Type 0
Rejoins s = terminated (drop_last (split nul s)) ≡ s

rejoin_step :
    (c : Char) (s : String) → ends_with nul s ≡ true → Rejoins s → Rejoins (String.◌∷◌ c s)
unfolding terminated drop_last glue followed
rejoin_step c s h ih = elim (Bool-cases (is_char nul c)) [
  | inl e ↦
      ap (λ (l : List String). terminated (drop_last l)) (split-at c s e)
      ∙ ap terminated (drop_last-after "" s)
      ∙ ap (String.◌∷◌ nul_char) ih
      ∙ ap (λ (d : Char). String.◌∷◌ d s) (is_nul c e)
  | inr e ↦
      let (x, y, xs, pieces) = two_pieces s h in
      ap (λ (l : List String). terminated (drop_last l)) (split-in c s e)
      ∙ ap (λ (l : List String). terminated (drop_last (glue c l))) pieces
      ∙ ap (λ (l : List String). String.◌∷◌ c (terminated (drop_last l))) (sym pieces)
      ∙ ap (String.◌∷◌ c) ih
]

rejoin_last : (c : Char) → is_char nul c ≡ true → Rejoins (String.◌∷◌ c "")
unfolding split terminated drop_last followed
rejoin_last c e = rw e (ap (λ (d : Char). String.◌∷◌ d "") (is_nul c e))

rejoined : (s : String) → ends_with nul s ≡ true → Rejoins s
unfolding ends_with
rejoined String.[] h = cc
rejoined (String.◌∷◌ c String.[]) h = rejoin_last c h
rejoined (String.◌∷◌ c (String.◌∷◌ d s)) h =
    rejoin_step c (String.◌∷◌ d s) h (rejoined (String.◌∷◌ d s) h)

abbrev HasNoNul : String → Type 0
HasNoNul s = has_char nul s ≡ false

pieces : (s : String) → All HasNoNul (split nul s)
unfolding split has_char glue
pieces String.[] = (refl, tt)
pieces (String.◌∷◌ c s) =
    let (x, xs, e) = split-shape s in
    let (first, rest) = subst (All HasNoNul) e (pieces s) in
    elim (Bool-cases (is_char nul c)) [
      | inl t ↦ rw t (refl, pieces s)
      | inr t ↦ rw t (rw e (ground (arith, t, first), rest))
    ]

drop_last-All : (P : String → Type 0) (xs : List String) → All P xs → All P (drop_last xs)
unfolding drop_last
drop_last-All P [] h = tt
drop_last-All P (x ∷ []) h = tt
drop_last-All P (x ∷ y ∷ xs) (p, h) = (p, drop_last-All P (y ∷ xs) h)

any-All :
    (xs : List String)
    → any (λ record'. record' == "") xs ≡ false
    → All HasNoNul xs
    → All IsRecord xs
any-All [] e h = tt
any-All (x ∷ xs) e (p, h) = ((ground arith, p), any-All xs (ground arith) h)

All-any : (xs : List String) → All IsRecord xs → any (λ record'. record' == "") xs ≡ false
All-any [] h = refl
All-any (x ∷ xs) ((p, _), h) = ground (arith, p, All-any xs h)

abbrev fulls : List String → Bool
fulls records = not (any (λ record'. record' == "") records)

full-All :
    (records : List String) → fulls records ≡ true → any (λ record'. record' == "") records ≡ false
full-All records h = ground arith

accepted :
    (s : String) (rs : List String)
    → split_nul_records s ≡ ok rs
    → (s ≡ terminated rs) × All IsRecord rs
unfolding split_nul_records nonempty_records terminated
accepted s rs h = elim (Bool-cases (s == "")) [
  | inl e ↦
      let none' = ok-injective (rw e at h) in
      subst (λ (l : List String). (s ≡ terminated l) × All IsRecord l) none' ((eq_iff s "").0 e, tt)
  | inr e ↦
      let h0 = rw e at h in
      let (_, ended, h1) = >>=-eq-ok (guard (ends_with nul s) repository_error) _ h0 in
      let (_, full, h2) =
        >>=-eq-ok (guard (fulls (drop_last (split nul s))) repository_error) _ h1 in
      let records = ok-injective h2 in
      subst (λ (l : List String). (s ≡ terminated l) × All IsRecord l) records
        (
          sym (rejoined s (guard-eq-ok _ _ ended)),
          any-All _ (full-All (drop_last (split nul s)) (guard-eq-ok _ _ full))
              (drop_last-All HasNoNul _ (pieces s)),
        )
]

cons_not_empty : (c : Char) (s : String) → (String.◌∷◌ c s == "") ≡ false
cons_not_empty c s = elim (Bool-cases (String.◌∷◌ c s == "")) [
  | inl e ↦ let h = (eq_iff (String.◌∷◌ c s) "").0 e in cc
  | inr e ↦ e
]

nonempty : (r s : String) → (followed r s == "") ≡ false
unfolding followed
nonempty String.[] s = cons_not_empty nul_char s
nonempty (String.◌∷◌ c r) s = cons_not_empty c (followed r s)

ended : (r : String) (rs : List String) → ends_with nul (terminated (r ∷ rs)) ≡ true
unfolding terminated
ended r rs = ends-followed r (terminated rs) (ends-terminated rs)

written : (rs : List String) → All IsRecord rs → split_nul_records (terminated rs) ≡ ok rs
unfolding split_nul_records nonempty_records terminated
written [] h = refl
written (r ∷ rs) h =
    let stdout = followed r (terminated rs) in
    rw (nonempty r (terminated rs)) (
      bind-ok (guard (ends_with nul stdout) repository_error) _ (rw (ended r rs) refl) (
        bind-ok (guard (fulls (drop_last (split nul stdout))) repository_error) _
          (rw (records-terminated (r ∷ rs) h) (rw (All-any (r ∷ rs) h) refl))
          (ap ok (records-terminated (r ∷ rs) h))))

-- The text is split into records exactly if it is these records, none of them empty or with a NUL
-- in it, and a NUL after each.
pub split_nul_records_iff :
    (stdout : String) (records : List String)
    → (split_nul_records stdout ≡ ok records)
      ↔ ((stdout ≡ terminated records) × All IsRecord records)
split_nul_records_iff stdout records =
    (accepted stdout records, λ (e, h). ap split_nul_records e ∙ written records h)
