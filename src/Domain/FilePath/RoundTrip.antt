-- ===== src/Domain/FilePath/RoundTrip.antt =====
-- domain.py keeps paths as text: `Path(str(path))`.
use Prim.Native.Char.{Char}
use Prim.Native.String.compare
use Prim.Native.String.{◌++◌}
use text.Mathlib.Text.{is_eq}
use text.Mathlib.TextLemmas.{cons-append, nil-append, append-nil}
use mathlib.Core.Path.{subst}
use goal_router.Common.{
  String, List, [], ◌∷◌, true, false, ◌≡◌, refl, ap, ◌∙◌, ◌==◌, ◌⊎◌, inl, inr, filter, All, arith,
}
use goal_router.Common.Strings.{join}
use goal_router.Domain.FilePath.{FilePath, is_slash, split, root_of, is_name, of_text, to_text}

-- No character is a slash.
abbrev pub NoSlash : String → Type 0
NoSlash String.[] = Unit
NoSlash (String.◌∷◌ c s) = (is_slash c ≡ false) × NoSlash s

-- A name between slashes: not empty, not ".", and without a slash.
abbrev pub IsPart : String → Type 0
IsPart part = (is_name part ≡ true) × NoSlash part

-- A path as pathlib builds it.
pub record IsNormal (path : FilePath) : Type 0 where
  pub rooted : (path.root ≡ "") ⊎ (path.root ≡ "/") ⊎ (path.root ≡ "//")
  pub named : All IsPart path.parts

slash-append : (s : String) → "/" ++ s ≡ String.◌∷◌ "/" s
slash-append s = cons-append "/" "" s ∙ ap (String.◌∷◌ "/") (nil-append s)

split-slash :
    (part rest : String) → NoSlash part → split (part ++ ("/" ++ rest)) ≡ part ∷ split rest
unfolding split
split-slash String.[] rest h = rw (nil-append, slash-append) refl
split-slash (String.◌∷◌ c s) rest h = rw cons-append (ground (arith, split-slash s rest h.1, h.0))

pub split-part : (part : String) → NoSlash part → split part ≡ part ∷ []
unfolding split
split-part String.[] h = refl
split-part (String.◌∷◌ c s) h = ground (arith, split-part s h.1, h.0)

split-join :
    (p : String) (ps : List String) → All IsPart (p ∷ ps) → split (join "/" (p ∷ ps)) ≡ p ∷ ps
unfolding join
split-join p [] h = split-part p h.0.1
split-join p (q ∷ qs) h = split-slash p _ h.0.1 ∙ ap (λ r. p ∷ r) (split-join q qs h.1)

filter-parts : (ps : List String) → All IsPart ps → filter is_name ps ≡ ps
filter-parts [] h = refl
filter-parts (p ∷ ps) h = rw h.0.0 (ap (λ r. p ∷ r) (filter-parts ps h.1))

-- A text that begins with no slash and is not empty.
abbrev Starts : String → Type 0
Starts String.[] = ⊥
Starts (String.◌∷◌ c s) = is_slash c ≡ false

part-Starts : (p s : String) → IsPart p → Starts (p ++ s)
part-Starts String.[] s h = cc h.0
part-Starts (String.◌∷◌ c p) s h = rw cons-append h.1.0

join-Starts : (p : String) (ps : List String) → All IsPart (p ∷ ps) → Starts (join "/" (p ∷ ps))
unfolding join
join-Starts p [] h = subst Starts (append-nil p) (part-Starts p "" h.0)
join-Starts p (q ∷ qs) h = part-Starts p _ h.0

cons-ne-empty : (c : Char) (s : String) → (String.◌∷◌ c s == "") ≡ false
cons-ne-empty c s = λ i. is_eq (compare.cons-nil c s i)

not_empty : (r j : String) → Starts j → ((r ++ j) == "") ≡ false
not_empty String.[] String.[] h = absurd h
not_empty String.[] (String.◌∷◌ c s) h = rw nil-append (cons-ne-empty c s)
not_empty (String.◌∷◌ d r) j h = rw cons-append (cons-ne-empty d _)

double-slash : (s : String) → "//" ++ s ≡ String.◌∷◌ "/" (String.◌∷◌ "/" s)
double-slash s = cons-append "/" "/" s ∙ ap (String.◌∷◌ "/") (slash-append s)

-- The leading slashes give no names and, before another character, the root.
names-root :
    (r j : String)
    → (r ≡ "") ⊎ (r ≡ "/") ⊎ (r ≡ "//")
    → filter is_name (split (r ++ j)) ≡ filter is_name (split j)
unfolding split
names-root r j (inl p) = rw (p, nil-append) refl
names-root r j (inr (inl p)) = rw (p, slash-append) refl
names-root r j (inr (inr p)) = rw (p, double-slash) refl

root-root : (r j : String) → (r ≡ "") ⊎ (r ≡ "/") ⊎ (r ≡ "//") → Starts j → root_of (r ++ j) ≡ r
unfolding root_of
root-root r String.[] rooted h = absurd h
root-root r (String.◌∷◌ c s) (inl p) h = rw (p, nil-append) (ground (arith, h))
root-root r (String.◌∷◌ c s) (inr (inl p)) h = rw (p, slash-append) (ground (arith, h))
root-root r (String.◌∷◌ c s) (inr (inr p)) h = rw (p, double-slash) (ground (arith, h))

of_text_lem :
    (r j : String) (names : List String)
    → (r ≡ "") ⊎ (r ≡ "/") ⊎ (r ≡ "//")
    → Starts j
    → split j ≡ names
    → All IsPart names
    → of_text (r ++ j) ≡ record { root = r; parts = names }
unfolding of_text
of_text_lem r j names rooted h e parts = λ i. record {
  root = root-root r j rooted h i;
  parts = (names-root r j rooted ∙ ap (filter is_name) e ∙ filter-parts names parts) i;
}

to_text_nonempty :
    (r p : String) (ps : List String)
    → All IsPart (p ∷ ps)
    → to_text (record { root = r; parts = p ∷ ps }) ≡ r ++ join "/" (p ∷ ps)
unfolding to_text
to_text_nonempty r p ps h = ground (arith, not_empty r _ (join-Starts p ps h))

of_text-to_text_parts :
    (r : String) (ps : List String)
    → (r ≡ "") ⊎ (r ≡ "/") ⊎ (r ≡ "//")
    → All IsPart ps
    → of_text (to_text (record { root = r; parts = ps })) ≡ record { root = r; parts = ps }
of_text-to_text_parts r [] (inl p) h = rw p (unfold of_text to_text in refl)
of_text-to_text_parts r [] (inr (inl p)) h = rw p (unfold of_text to_text in refl)
of_text-to_text_parts r [] (inr (inr p)) h = rw p (unfold of_text to_text in refl)
of_text-to_text_parts r (p ∷ ps) rooted h =
    ap of_text (to_text_nonempty r p ps h)
    ∙ of_text_lem r _ (p ∷ ps) rooted (join-Starts p ps h) (split-join p ps h) h

-- Reading back the text of a path gives the path, if its root and its parts are as pathlib builds
-- them.
pub of_text-to_text : (path : FilePath) → IsNormal path → of_text (to_text path) ≡ path
of_text-to_text path h = of_text-to_text_parts path.root path.parts h.rooted h.named
