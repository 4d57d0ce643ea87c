-- ===== src/Store/Atomic.antt =====
-- json_store.py: `_atomic_write_text`, at every disk on the way.
use Prim.Native.String.{◌++◌, len}
use text.Mathlib.TextPositions.{len-append}
use goal_router.Common.{
  String, true, false, ◌&&◌, ◌||◌, Option, some, none, ◌≡◌, refl, ap, ◌==◌, ◌⊎◌, inl, inr,
  Bool-cases, arith, eq_iff, eq_refl,
}
use goal_router.Errors.{Error, Result, ok, err, guard, os_error}
use goal_router.Actions
use goal_router.Actions.{continue, lift, ◌>>=◌, ◌>>◌}
use goal_router.Store.Disk.{Disk, Call, World, Os, with_text}
use goal_router.Store.Files.{
  create_temporary, replace, unlink, cleaned, replace_target, temporary_name, write_through, call,
}
use goal_router.Store.Calls.{EndsIn, Now, continue-Ends, call-Ends, write_through-Ends}

-- A temporary name is longer than the name.
pub temporary_name-differs : (name random : String) → (temporary_name name random == name) ≡ false
unfolding temporary_name
temporary_name-differs name random =
    let rest = "." ++ (random ++ ".tmp") in
    elim (Bool-cases (temporary_name name random == name)) [
      | inl e ↦
          let longer = ap len ((eq_iff (temporary_name name random) name).0 e) in
          let all = len-append "." (name ++ rest) in
          let tail = len-append name rest in let dot : len "." ≡ 1 = refl in absurd (omega arith)
      | inr e ↦ e
    ]

module _ (run name temporary content : String) (before : Disk) where
  -- Every other directory and file is as before.
  pub record KeepsOthers (d : Disk) : Type 0 where
    pub directory : (r : String) → d.directory r ≡ before.directory r
    pub text :
        (r n : String)
        → (r == run && (n == name || n == temporary)) ≡ false
        → d.text r n ≡ before.text r n

  -- The file has its old text or the whole new one.
  pub record IsWhole (d : Disk) : Type 0 where
    pub others : KeepsOthers d
    pub target : (d.text run name ≡ before.text run name) ⊎ (d.text run name ≡ some content)

  -- Only the temporary file may have changed.
  pub record IsStaged (d : Disk) : Type 0 where
    pub others : KeepsOthers d
    pub target : d.text run name ≡ before.text run name

  -- The temporary file has the new text.
  pub record IsFilled (d : Disk) : Type 0 where
    pub staged : IsStaged d
    pub source : d.text run temporary ≡ some content

  -- The file has the new text, and there is no temporary file.
  pub record IsReplaced (d : Disk) : Type 0 where
    pub others : KeepsOthers d
    pub target : d.text run name ≡ some content
    pub source : d.text run temporary ≡ none

  pub staged-IsWhole : (d : Disk) → IsStaged d → IsWhole d
  staged-IsWhole d h = record { others = h.others; target = inl h.target }

  pub replaced-IsWhole : (d : Disk) → IsReplaced d → IsWhole d
  replaced-IsWhole d h = record { others = h.others; target = inr h.target }

  module _ (differs : (temporary == name) ≡ false) where
    put-KeepsOthers :
        (d : Disk) (t : Option String) → KeepsOthers d → KeepsOthers (with_text d run temporary t)
    put-KeepsOthers d t h = record {
      directory = h.directory;
      text = λ r n apart.
          let e : (r == run && n == temporary) ≡ false = ground (arith, apart) in
          rw e (h.text r n apart);
    }

    put-IsStaged :
        (d : Disk) (t : Option String) → IsStaged d → IsStaged (with_text d run temporary t)
    put-IsStaged d t h = record {
      others = put-KeepsOthers d t h.others;
      target =
          let e : (name == temporary) ≡ false =
            ground (arith, eq_iff name temporary, eq_iff temporary name) in
          rw (eq_refl run) (rw e h.target);
    }

    fill-IsFilled : (d : Disk) → IsStaged d → IsFilled (with_text d run temporary (some content))
    fill-IsFilled d h = record {
      staged = put-IsStaged d (some content) h;
      source = rw (eq_refl run) (rw (eq_refl temporary) refl);
    }

    abbrev moved : Disk → Disk
    moved d = with_text (with_text d run name (d.text run temporary)) run temporary none

    moved-KeepsOthers : (d : Disk) → KeepsOthers d → KeepsOthers (moved d)
    moved-KeepsOthers d h = record {
      directory = h.directory;
      text = λ r n apart.
          let e : (r == run && n == temporary) ≡ false = ground (arith, apart) in
          let e' : (r == run && n == name) ≡ false = ground (arith, apart) in
          rw e (rw e' (h.text r n apart));
    }

    moved-IsReplaced : (d : Disk) → IsFilled d → IsReplaced (moved d)
    moved-IsReplaced d h = record {
      others = moved-KeepsOthers d h.staged.others;
      target =
          let e : (name == temporary) ≡ false =
            ground (arith, eq_iff name temporary, eq_iff temporary name) in
          rw (eq_refl run) (rw e (rw (eq_refl name) h.source));
      source = rw (eq_refl run) (rw (eq_refl temporary) refl);
    }

    module _ (os : Os) where
      abbrev Done : World → Type 0
      Done = Now os IsWhole IsReplaced

      abbrev Stopped : World → Type 0
      Stopped = Now os IsWhole IsStaged

      cleaned_by :
          (e : Error) (o : Result (Unit {0}) × World)
          → EndsIn Stopped Stopped o
          → EndsIn Done Stopped (Actions.replaced_by (err e) o.0, o.1)
      cleaned_by e (ok u, w) h = h
      cleaned_by e (err e', w) h = h

      cleaned-Ends :
          (e : Error) (w : World) → Stopped w → EndsIn Done Stopped (cleaned os run temporary e w)
      unfolding cleaned unlink
      cleaned-Ends e w (staged, all) = cleaned_by e (unlink os run temporary w) (
          call-Ends os IsWhole _ _ _ IsStaged IsStaged w staged-IsWhole staged-IsWhole all
            (put-IsStaged w.disk none staged) staged)

      on_error-Ends :
          (o : Result (Unit {0}) × World)
          → EndsIn Done Stopped o
          → EndsIn Done Stopped (Actions.on_error (cleaned os run temporary) o)
      on_error-Ends (ok u, w) h = h
      on_error-Ends (err e, w) h = cleaned-Ends e w h

      replace_target-Ends :
          (w : World)
          → Stopped w
          → EndsIn Done Stopped (replace_target os run temporary name content w)
      unfolding replace_target replace
      replace_target-Ends w h =
          continue-Ends (λ _. Now os IsWhole IsFilled) (λ _. Done) Stopped _
            (write_through os (λ text. text) run temporary content w)
            (write_through-Ends os IsWhole (λ text. text) run temporary content IsStaged IsFilled
              staged-IsWhole (λ d f. f.staged) (λ t d staged. put-IsStaged d (some t) staged)
              fill-IsFilled w h)
            (λ _ w' (filled, all).
              call-Ends os IsWhole _ _ _ IsReplaced IsStaged w' replaced-IsWhole staged-IsWhole all
                (moved-IsReplaced w'.disk filled) filled.staged)

      guarded : (r : Result (Unit {0})) (w : World) → Stopped w → EndsIn Stopped Stopped (r, w)
      guarded (ok u) w h = h
      guarded (err e) w h = h

      create_temporary-Ends :
          (w : World) → Stopped w → EndsIn Stopped Stopped (create_temporary os run temporary w)
      unfolding create_temporary
      create_temporary-Ends w h =
          let free =
            guard (elim (w.disk.text run temporary) [ none ↦ true | some t ↦ false ]) os_error in
          continue-Ends (λ _. Stopped) (λ _. Stopped) Stopped
            (λ _.
              call os (Call.create_temporary run temporary)
                (λ d. with_text d run temporary (some "")) (λ d. d))
            (free, w) (guarded free w h)
            (λ _ w' (staged', all').
              call-Ends os IsWhole _ _ _ IsStaged IsStaged w' staged-IsWhole staged-IsWhole all'
                (put-IsStaged w'.disk (some "") staged') staged')

      pub atomic-Ends :
          (w : World)
          → Stopped w
          → EndsIn Done Stopped (
              (create_temporary os run temporary >> λ w'.
              Actions.on_error
                (cleaned os run temporary)
                (replace_target os run temporary name content w'))
                w)
      atomic-Ends w h =
          continue-Ends (λ _. Stopped) (λ _. Done) Stopped _ (create_temporary os run temporary w)
            (create_temporary-Ends w h)
            (λ _ w' h'.
              on_error-Ends (replace_target os run temporary name content w')
                (replace_target-Ends w' h'))
