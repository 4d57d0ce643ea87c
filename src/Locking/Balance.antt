-- ===== src/Locking/Balance.antt =====
-- locking.py: which descriptors an operation leaves open.
use goal_router.Common.{
  ℕ, ◌≤◌, ◌<◌, true, not, ◌||◌, ◌&&◌, List, [], ◌∷◌, ◌≡◌, refl, All, any, eqb, arith, Bool-cases,
  inl, inr,
}
use goal_router.Errors.{Result, ok, err}
use goal_router.Locking.{
  Call, Answer, World, effect, open_descriptor, close_descriptor, noted, answered, result_of,
  opening,
}
use goal_router.Locking.Leases.{Outcome, close_descriptors}

-- Every descriptor that is open or has a lock was opened before.
pub record IsBounded (w : World) : Type 0 where
  pub opened : (k : ℕ) → w.opened k ≡ true → k < w.next
  pub held : (k : ℕ) → w.held k ≡ true → k < w.next

-- The second world has the descriptors of the first and these new ones, and the same locks.
pub record Adds (ds : List ℕ) (w w' : World) : Type 0 where
  pub low : All (λ d. w.next ≤ d) ds
  pub high : All (λ d. d < w'.next) ds
  pub mono : w.next ≤ w'.next
  pub opened : (k : ℕ) → w'.opened k ≡ (any (eqb k) ds || w.opened k)
  pub held : (k : ℕ) → w'.held k ≡ w.held k

pub any-low : (n k : ℕ) (ds : List ℕ) → All (λ d. n ≤ d) ds → any (eqb k) ds ≡ true → n ≤ k
any-low n k [] h e = ground arith
any-low n k (d ∷ ds) (p, h) e = elim (Bool-cases (any (eqb k) ds)) [
  | inl t ↦ any-low n k ds h t
  | inr t ↦ ground (arith, t, p)
]

pub any-high : (n k : ℕ) (ds : List ℕ) → All (λ d. d < n) ds → any (eqb k) ds ≡ true → k < n
any-high n k [] h e = ground arith
any-high n k (d ∷ ds) (p, h) e = elim (Bool-cases (any (eqb k) ds)) [
  | inl t ↦ any-high n k ds h t
  | inr t ↦ ground (arith, t, p)
]

pub All-raise : (n m : ℕ) → n ≤ m → (ds : List ℕ) → All (λ d. d < n) ds → All (λ d. d < m) ds
All-raise n m h [] k = tt
All-raise n m h (d ∷ ds) (p, k) = (ground (arith, p), All-raise n m h ds k)

pub Adds-refl : (w : World) → Adds [] w w
Adds-refl w = record {
  low = tt;
  high = tt;
  mono = ground arith;
  opened = λ k. refl;
  held = λ k. refl;
}

-- A new descriptor, on top of those added before.
pub Adds-one :
    {ds : List ℕ} {w w1 w2 : World} {fd : ℕ}
    → Adds ds w w1
    → Adds (fd ∷ []) w1 w2
    → Adds (fd ∷ ds) w w2
Adds-one {ds} {w} {w1} {w2} {fd} a b = record {
  low = (ground (arith, a.mono, b.low.0), a.low);
  high = (b.high.0, All-raise w1.next w2.next b.mono ds a.high);
  mono = ground (arith, a.mono, b.mono);
  opened = λ k. ground (arith, a.opened k, b.opened k);
  held = λ k. ground (arith, a.held k, b.held k);
}

-- the same for an operation that adds none
pub Adds-none : {ds : List ℕ} {w w1 w2 : World} → Adds ds w w1 → Adds [] w1 w2 → Adds ds w w2
Adds-none {ds} {w} {w1} {w2} a b = record {
  low = a.low;
  high = All-raise w1.next w2.next b.mono ds a.high;
  mono = ground (arith, a.mono, b.mono);
  opened = λ k. ground (arith, a.opened k, b.opened k);
  held = λ k. ground (arith, a.held k, b.held k);
}

pub Adds-IsBounded : {ds : List ℕ} {w w1 : World} → IsBounded w → Adds ds w w1 → IsBounded w1
Adds-IsBounded {ds} {w} {w1} bounded a = record {
  opened =
      λ k h. ground (arith, a.opened k, bounded.opened k, a.mono, any-high w1.next k ds a.high);
  held = λ k h. ground (arith, a.held k, bounded.held k, a.mono);
}

-- An operation that returns a descriptor adds it, and one that raises adds none.
abbrev pub Owns : World → Outcome ℕ → Type 0
Owns w (w', ok fd) = Adds (fd ∷ []) w w'
Owns w (w', err e) = Adds [] w w'

pub Owns-after : {w w1 : World} → Adds [] w w1 → (o : Outcome ℕ) → Owns w1 o → Owns w o
Owns-after a (w2, ok fd) b = Adds-one a b
Owns-after a (w2, err e) b = Adds-none a b

module _ (answer : List Call → Call → Answer) where
  pub effect-Adds : (call : Call) (w : World) → Adds [] w (effect answer call w).0
  unfolding effect
  effect-Adds call w = record {
    low = tt;
    high = tt;
    mono = ground arith;
    opened = λ k. refl;
    held = λ k. refl;
  }

  -- What closing does to the descriptors and to the locks.
  pub close_descriptors-opened :
      (ds : List ℕ) (w : World) (k : ℕ)
      → (close_descriptors answer ds w).0.opened k ≡ (not (any (eqb k) ds) && w.opened k)
  unfolding close_descriptors close_descriptor
  close_descriptors-opened [] w k = refl
  close_descriptors-opened (d ∷ ds) w k =
      ground (arith, close_descriptors-opened ds (close_descriptor answer d w).0 k)

  pub close_descriptors-held :
      (ds : List ℕ) (w : World) (k : ℕ)
      → (close_descriptors answer ds w).0.held k ≡ (not (any (eqb k) ds) && w.held k)
  unfolding close_descriptors close_descriptor
  close_descriptors-held [] w k = refl
  close_descriptors-held (d ∷ ds) w k =
      ground (arith, close_descriptors-held ds (close_descriptor answer d w).0 k)

  pub close_descriptors-next :
      (ds : List ℕ) (w : World) → (close_descriptors answer ds w).0.next ≡ w.next
  unfolding close_descriptors close_descriptor
  close_descriptors-next [] w = refl
  close_descriptors-next (d ∷ ds) w = close_descriptors-next ds (close_descriptor answer d w).0

  -- After the new descriptors are closed, the old ones are left.
  pub closed-Adds :
      {ds : List ℕ} {w w1 : World}
      → IsBounded w
      → Adds ds w w1
      → Adds [] w (close_descriptors answer ds w1).0
  closed-Adds {ds} {w} {w1} bounded a = record {
    low = tt;
    high = tt;
    mono = ground (arith, a.mono, close_descriptors-next ds w1);
    opened = λ k. ground (
      arith,
      a.opened k,
      close_descriptors-opened ds w1 k,
      bounded.opened k,
      any-low w.next k ds a.low,
    );
    held = λ k. ground (
      arith,
      a.held k,
      close_descriptors-held ds w1 k,
      bounded.held k,
      any-low w.next k ds a.low,
    );
  }

  opening-Owns : (r : Result (Unit {0})) (w : World) → Owns w (opening answer r w)
  opening-Owns (err e) w = Adds-refl w
  opening-Owns (ok _) w = record {
    low = (ground arith, tt);
    high = (ground arith, tt);
    mono = ground arith;
    opened = λ k. ground arith;
    held = λ k. refl;
  }

  pub open_descriptor-Owns : (call : Call) (w : World) → Owns w (open_descriptor answer call w)
  unfolding open_descriptor effect
  open_descriptor-Owns call w =
      Owns-after (effect-Adds call w) _
        (opening-Owns (result_of (answered answer call w)) (noted answer call w))
