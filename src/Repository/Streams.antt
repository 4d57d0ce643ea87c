-- ===== src/Repository/Streams.antt =====
-- repository.py: `_read_bounded_stream`. The stream is the list of the chunks that its reads give;
-- bytes are numbers, and `none` stands for `_GitOutputLimitExceeded`.
use goal_router.Common.{
  ℕ, ◌+◌, ◌≤◌, ◌<◌, Option, none, some, List, [], ◌∷◌, ◌++◌, ◌≡◌, refl, sym, ap, ◌∙◌, length, ltb,
  leb, if◌then◌else◌, arith, Bool-cases, inl, inr,
}

-- `_GIT_OUTPUT_LIMIT_BYTES`
abbrev pub git_output_limit_bytes : ℕ
git_output_limit_bytes = 8388608

-- the loop, with the output so far
unfoldable pub read_on : List ℕ → List (List ℕ) → Option (List ℕ)
read_on output [] = some output
read_on output ([] ∷ rest) = some output
read_on output ((b ∷ bs) ∷ rest) =
    let more = read_on (output ++ (b ∷ bs)) rest in
    if ltb git_output_limit_bytes (length output + length (b ∷ bs)) then none else more

unfoldable pub read_bounded_stream : List (List ℕ) → Option (List ℕ)
unfolding read_on
read_bounded_stream chunks = read_on [] chunks

-- Everything that comes before the end of the stream.
unfoldable pub contents : List (List ℕ) → List ℕ
contents [] = []
contents ([] ∷ rest) = []
contents ((b ∷ bs) ∷ rest) = (b ∷ bs) ++ contents rest

length-++ : (xs ys : List ℕ) → length (xs ++ ys) ≡ length xs + length ys
length-++ [] ys = omega arith
length-++ (x ∷ xs) ys = let ih = length-++ xs ys in omega arith

++-assoc : (xs ys zs : List ℕ) → (xs ++ ys) ++ zs ≡ xs ++ (ys ++ zs)
++-assoc [] ys zs = refl
++-assoc (x ∷ xs) ys zs = ap (λ (l : List ℕ). x ∷ l) (++-assoc xs ys zs)

++-nil : (xs : List ℕ) → xs ++ [] ≡ xs
++-nil [] = refl
++-nil (x ∷ xs) = ap (λ (l : List ℕ). x ∷ l) (++-nil xs)

-- The bytes, if they are within the limit.
abbrev pub bounded : List ℕ → Option (List ℕ)
bounded bytes = if leb (length bytes) git_output_limit_bytes then some bytes else none

bounded-some : (bytes : List ℕ) → length bytes ≤ git_output_limit_bytes → some bytes ≡ bounded bytes
bounded-some bytes h = ground arith

bounded-none : (xs ys : List ℕ) → git_output_limit_bytes < length xs → none ≡ bounded (xs ++ ys)
bounded-none xs ys h = let e = length-++ xs ys in ground arith

read_on-bounded :
    (output : List ℕ) (chunks : List (List ℕ))
    → length output ≤ git_output_limit_bytes
    → read_on output chunks ≡ bounded (output ++ contents chunks)
unfolding read_on contents
read_on-bounded output [] h = bounded-some output h ∙ ap bounded (sym (++-nil output))
read_on-bounded output ([] ∷ rest) h = bounded-some output h ∙ ap bounded (sym (++-nil output))
read_on-bounded output ((b ∷ bs) ∷ rest) h =
    let e = length-++ output (b ∷ bs) in
    let assoc = ap bounded (++-assoc output (b ∷ bs) (contents rest)) in
    elim (Bool-cases (ltb git_output_limit_bytes (length output + length (b ∷ bs)))) [
      | inl over ↦
          rw over (bounded-none (output ++ (b ∷ bs)) (contents rest) (ground arith) ∙ assoc)
      | inr within ↦ rw within (read_on-bounded (output ++ (b ∷ bs)) rest (ground arith) ∙ assoc)
    ]

-- The stream is read to its end if it has no more bytes than the limit, and else it is refused.
pub read_bounded_stream-bounded :
    (chunks : List (List ℕ)) → read_bounded_stream chunks ≡ bounded (contents chunks)
unfolding read_bounded_stream
read_bounded_stream-bounded chunks = read_on-bounded [] chunks (ground arith)
