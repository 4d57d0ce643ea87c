-- ===== src/Application/Coordinator/WorkItems.antt =====
-- application.py: the dictionary of the work items of a run.
use goal_router.Common.{
  String, false, List, [], ◌∷◌, ◌≡◌, refl, sym, ◌==◌, All, inl, inr, Bool-cases, arith, eq_iff,
}
use mathlib.Core.Path.{subst}
use goal_router.Common.Strings.{contains}
use goal_router.Common.Dict
use goal_router.Common.Dict.{Dict, keys, of_items-keeps}
use goal_router.Common.Distinct.{IsDistinct}
use goal_router.Domain.Platform.{Platform}
use goal_router.Domain.WorkItem.{WorkItem}
use goal_router.Scheduler.Pending.{IsWellFormed}
use goal_router.Application.{work_items_of}

module _ {P : Platform} where
  -- A new entry under its own identifier.
  put-absent :
      (d : Dict (WorkItem P)) (k j : String) (item : WorkItem P)
      → contains (keys d) j ≡ false
      → (k == j) ≡ false
      → contains (keys (Dict.put d k item)) j ≡ false
  unfolding Dict.put contains
  put-absent [] k j item h apart = ground arith
  put-absent ((i, x) ∷ d) k j item h apart = elim (Bool-cases (i == k)) [
    | inl e ↦ rw e h
    | inr e ↦ rw e (ground (arith, put-absent d k j item (ground arith) apart))
  ]

  put-IsDistinct :
      (d : Dict (WorkItem P)) (k : String) (item : WorkItem P)
      → IsDistinct (keys d)
      → IsDistinct (keys (Dict.put d k item))
  unfolding Dict.put contains
  put-IsDistinct [] k item h = (refl, tt)
  put-IsDistinct ((i, x) ∷ d) k item (apart, h) = elim (Bool-cases (i == k)) [
    | inl e ↦ rw e (apart, h)
    | inr e ↦ rw e (
      put-absent d k i item apart (ground (arith, e, eq_iff k i, eq_iff i k)),
      put-IsDistinct d k item h,
    )
  ]

  put-keyed :
      (d : Dict (WorkItem P)) (item : WorkItem P)
      → All (λ (e : String × WorkItem P). e.0 ≡ e.1.id) d
      → All (λ (e : String × WorkItem P). e.0 ≡ e.1.id) (Dict.put d item.id item)
  unfolding Dict.put
  put-keyed [] item h = (refl, tt)
  put-keyed ((i, x) ∷ d) item (e, h) = elim (Bool-cases (i == item.id)) [
    | inl t ↦ rw t ((eq_iff i item.id).0 t, h)
    | inr t ↦ rw t (e, put-keyed d item h)
  ]

  pub put-IsWellFormed :
      (d : Dict (WorkItem P)) (item : WorkItem P)
      → IsWellFormed d
      → IsWellFormed (Dict.put d item.id item)
  put-IsWellFormed d item h = record {
    distinct = put-IsDistinct d item.id item h.distinct;
    keyed = put-keyed d item h.keyed;
  }

  work_items_of-keyed :
      (items : List (WorkItem P))
      → All (λ (e : String × WorkItem P). e.0 ≡ e.1.id) (work_items_of items)
  unfolding work_items_of
  work_items_of-keyed [] = tt
  work_items_of-keyed (item ∷ items) = (refl, work_items_of-keyed items)

  -- The work items of a plan are stored under their identifiers.
  pub of_items-IsWellFormed :
      (items : List (WorkItem P)) → IsWellFormed (Dict.of_items (work_items_of items))
  of_items-IsWellFormed items =
      of_items-keeps IsWellFormed (λ (e : String × WorkItem P). e.0 ≡ e.1.id)
        (λ d k item e h.
          subst (λ (j : String). IsWellFormed (Dict.put d j item)) (sym e)
            (put-IsWellFormed d item h))
        (record { distinct = tt; keyed = tt }) (work_items_of items) (work_items_of-keyed items)
