-- ===== src/Store/Publish/Outcomes.antt =====
-- Every way through a publication leaves the directory safe: `publishSuccessor` of
-- scripts/lib/runtime/run-state-store.mjs with all its failure points.
use ev4_builder_assistant_re.Base.{
  ℕ, String, Bool, true, false, ◌==◌, ==_refl, List, [], ◌∷◌, ◌≡◌, refl, arith, inl, inr, Option,
  some, Bool-cases, Option-cases, is_empty,
}
use ev4_builder_assistant_re.Json.{Value, num}
use ev4_builder_assistant_re.Store.Directory.{
  GenerationFiles, Directory, find_generation, write_auxiliary_files, list_future_generations,
}
use ev4_builder_assistant_re.Store.Load.{validate_generation_files}
use ev4_builder_assistant_re.Store.Publish.{
  Expected, with_current, with_files, with_generation, any_missing, files_differ,
  compare_successor_to_expected, confirm_active, advance_current_pointer, finalize_candidate,
  finalize_existing, install_generation, publish_new, publish_among, publish_successor, incomplete,
  conflicting, candidate_manifest,
}
use ev4_builder_assistant_re.Store.Publish.Atomic.{
  Installed, Safe, Leaves, Before, unchanged, Before-Safe, stopped, refused, at_point-Leaves,
  files_differ_refl, find_generation-cons, write_auxiliary_files-keeps,
}

-- A candidate that the comparison accepts has the expected bytes.
compare_successor-same :
    (d : Directory) (m : Value) (g : GenerationFiles) (e : Expected)
    → is_empty (compare_successor_to_expected d m g e) ≡ true
    → files_differ g e.files ≡ false
unfolding compare_successor_to_expected
compare_successor-same d m g e h = ground arith

module _ (sha256 : String → String) (parse : String → Option Value)
    (state_problems : GenerationFiles → List String) (pointer_schema : Value → Bool)
    (fails : String → Bool) (d : Directory) (e : Expected) where
  advanced-Safe :
      (a : Directory) → Before d e a → Installed a e → Safe d e (with_current a e.pointer)
  unfolding with_current
  advanced-Safe a b installed = record {
    generations = b.generations;
    files = b.files;
    pointer = inr (refl, installed);
  }

  confirm_active-Leaves :
      (a : Directory) (way : String)
      → Before d e a
      → Installed a e
      → Leaves d e (
          confirm_active sha256 parse state_problems pointer_schema fails
            (with_current a e.pointer)
            e
            way)
  unfolding confirm_active with_current
  confirm_active-Leaves a way b installed = record {
    safe = advanced-Safe a b installed;
    done = λ way' h. refl;
  }

  advance_current_pointer-Leaves :
      (a : Directory) (way : String)
      → Before d e a
      → Installed a e
      → Leaves d e
          (advance_current_pointer sha256 parse state_problems pointer_schema fails a e way)
  unfolding advance_current_pointer
  advance_current_pointer-Leaves a way b installed =
      let safe = Before-Safe d e a b in
      at_point-Leaves fails _ d e a _ safe (
        at_point-Leaves fails _ d e a _ safe (
          at_point-Leaves fails _ d e a _ safe (
            at_point-Leaves fails _ d e (with_current a e.pointer) _ (advanced-Safe a b installed)
              (confirm_active-Leaves a way b installed))))

  finalize_candidate-Leaves :
      (g : GenerationFiles)
      → find_generation e.next_number d.generations ≡ some g
      → Leaves d e (finalize_candidate sha256 parse state_problems pointer_schema fails d e g)
  unfolding finalize_candidate
  finalize_candidate-Leaves g found =
      let safe = Before-Safe d e d (unchanged d e) in
      let problems =
        validate_generation_files sha256 parse state_problems pointer_schema g
          (num e.next_number) in
      let mismatches =
        compare_successor_to_expected d
          (candidate_manifest sha256 parse state_problems pointer_schema fails g) g e in
      elim (Bool-cases (is_empty problems)) [
        | inr bad ↦ rw bad (refused d e d _ safe)
        | inl good ↦ elim (Bool-cases (is_empty mismatches)) [
          | inr other ↦ rw (good, other) (refused d e d _ safe)
          | inl same ↦
              rw (good, same)
                (advance_current_pointer-Leaves d _ (unchanged d e)
                  (g, found, compare_successor-same d _ g e same))
        ]
      ]

  finalize_existing-Leaves :
      Leaves d e (finalize_existing sha256 parse state_problems pointer_schema fails d e)
  unfolding finalize_existing
  finalize_existing-Leaves = elim (Option-cases (find_generation e.next_number d.generations)) [
    | inl absent ↦
        rw (finalize_existing, absent) (refused d e d _ (Before-Safe d e d (unchanged d e)))
    | inr (g, found) ↦ rw (finalize_existing, found) (finalize_candidate-Leaves g found)
  ]

  module _ (complete : any_missing e.files ≡ false) where
    installed_after : (a : Directory) → Installed (with_generation a e.next_number e.files) e
    unfolding with_generation find_generation
    installed_after a =
        (e.files, rw (==_refl e.next_number) refl, files_differ_refl e.files complete)

    install_generation-Leaves :
        (a : Directory)
        → Before d e a
        → Leaves d e (install_generation sha256 parse state_problems pointer_schema fails a e)
    unfolding with_generation install_generation
    install_generation-Leaves a b =
        elim (Option-cases (find_generation e.next_number a.generations)) [
          | inr (g, found) ↦
              rw (install_generation, found) (stopped d e a conflicting (Before-Safe d e a b))
          | inl absent ↦
              let after : Before d e (with_generation a e.next_number e.files) = record {
                generations = λ n g h.
                    find_generation-cons n e.next_number g e.files a.generations absent
                      (b.generations n g h);
                files = b.files;
                pointer = b.pointer;
              } in
              rw (install_generation, absent)
                (at_point-Leaves fails _ d e (with_generation a e.next_number e.files) _
                  (Before-Safe d e _ after)
                  (advance_current_pointer-Leaves (with_generation a e.next_number e.files) _ after
                    (installed_after a)))
        ]

    written-Before : Before d e (with_files d (write_auxiliary_files d.files e.auxiliary).files)
    unfolding with_files
    written-Before = record {
      generations = λ n g h. h;
      files = λ ref text h. write_auxiliary_files-keeps ref text d.files e.auxiliary h;
      pointer = refl;
    }

    publish_new-Leaves :
        Leaves d e (publish_new sha256 parse state_problems pointer_schema fails d e)
    unfolding publish_new
    publish_new-Leaves =
        let written = with_files d (write_auxiliary_files d.files e.auxiliary).files in
        let safe = Before-Safe d e written written-Before in
        let problems =
          validate_generation_files sha256 parse state_problems pointer_schema e.files
            (num e.next_number) in
        elim (Bool-cases ((write_auxiliary_files d.files e.auxiliary).conflict)) [
          | inl conflict ↦ rw conflict (stopped d e written conflicting safe)
          | inr clean ↦ elim (Bool-cases (is_empty problems)) [
            | inr bad ↦
                rw (clean, bad)
                  (at_point-Leaves fails _ d e written _ safe (stopped d e written incomplete safe))
            | inl good ↦
                rw (clean, good)
                  (at_point-Leaves fails _ d e written _ safe (
                    at_point-Leaves fails _ d e written _ safe (
                      at_point-Leaves fails _ d e written _ safe
                        (install_generation-Leaves written written-Before))))
          ]
        ]

    publish_among-Leaves :
        (future : List ℕ)
        → Leaves d e (publish_among sha256 parse state_problems pointer_schema fails future d e)
    unfolding publish_among
    publish_among-Leaves [] = publish_new-Leaves
    publish_among-Leaves (n ∷ []) = elim (Bool-cases (n == e.next_number)) [
      | inl same ↦ rw same finalize_existing-Leaves
      | inr other ↦ rw other (refused d e d _ (Before-Safe d e d (unchanged d e)))
    ]
    publish_among-Leaves (n ∷ m ∷ ns) = refused d e d _ (Before-Safe d e d (unchanged d e))

    -- Wherever a publication of a complete successor stops, by an exception or a crash at a failure
    -- point, no generation and no file of the run is changed or lost, and the pointer is the old one
    -- or, beside the installed generation with exactly the expected bytes, the new one; a publication
    -- that reports success has set the new pointer.
    pub publish_successor-Leaves :
        Leaves d e (publish_successor sha256 parse state_problems pointer_schema fails d e)
    unfolding publish_successor
    publish_successor-Leaves = publish_among-Leaves (list_future_generations d e.predecessor_number)
