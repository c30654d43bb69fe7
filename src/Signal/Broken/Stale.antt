-- ===== src/Signal/Broken/Stale.antt =====
-- What a reported stale runtime directory says.
use chaotic_next.Base.{
  ℕ, ◌≡◌, ◌≢◌, refl, true, false, ◌||◌, some, List, [], ◌∷◌, Text, text_eq, text_beq_iff, ◌==◌, has,
  All, All-append, Within, inl, inr, Bool-cases, Option-cases, arith,
}
use chaotic_next.Signal.Sonames.{RuntimeName, python, perl, ruby, ghc, runtime_interpreter_prefix}
use chaotic_next.Signal.Broken.{
  BrokenDependency, missing_soname, missing_version, stale_runtime, version_key, runtime_version_in,
  Runtimes, Checked, seen_key, check_found, check_file, check_files, ships_interpreter, check,
  stale_runtime_dependencies,
}

-- How many segments of a version name the directory.
abbrev pub segments_of : RuntimeName → ℕ
segments_of ghc = 3
segments_of _ = 2

module _ (files : List Text) (runtimes : Runtimes) (self : List Text) where
  -- The path is a shipped file with a version directory of a runtime that the package does not
  -- ship itself, and the version of the directory is not the current one.
  pub record IsStaleAt (runtime : RuntimeName) (current_version path_version path : Text)
      : Type 0 where
    pub current : Text
    pub is_current : runtimes runtime ≡ some current
    pub current_key : current_version ≡ version_key current (segments_of runtime)
    pub found : Text
    pub shipped : has path files ≡ true
    pub is_found : runtime_version_in runtime path ≡ some found
    pub found_key : path_version ≡ version_key found (segments_of runtime)
    pub differs : path_version ≢ current_version
    pub foreign : ships_interpreter (runtime_interpreter_prefix runtime) self ≡ false

  abbrev pub IsStale : BrokenDependency → Type 0
  IsStale (missing_soname soname) = ⊥
  IsStale (missing_version soname nodes) = ⊥
  IsStale (stale_runtime runtime current found path) = IsStaleAt runtime current found path

  abbrev AllStale : Checked → Type 0
  AllStale checked = All IsStale checked.0

  module _ (runtime : RuntimeName) (current : Text) (is_current : runtimes runtime ≡ some current)
      (foreign : ships_interpreter (runtime_interpreter_prefix runtime) self ≡ false) where
    abbrev expected : Text
    expected = version_key current (segments_of runtime)

    check_found-AllStale :
        (found file : Text) (checked : Checked)
        → has file files ≡ true
        → runtime_version_in runtime file ≡ some found
        → AllStale checked
        → AllStale
            (check_found runtime expected (version_key found (segments_of runtime)) file checked)
    unfolding check_found
    check_found-AllStale found file (deps, seen) shipped is_found h =
        elim (Bool-cases (key == expected || has (seen_key runtime key) seen)) [
          | inl skip ↦ rw skip h
          | inr push ↦ rw push (
              All-append IsStale deps (stale_runtime runtime expected key file ∷ []) h
                (stale push, tt))
        ]
      where
        key : Text
        key = version_key found (segments_of runtime)

        stale :
            (key == expected || has (seen_key runtime key) seen) ≡ false
            → IsStaleAt runtime expected key file
        stale push = record {
          current = current;
          is_current = is_current;
          current_key = refl;
          found = found;
          shipped = shipped;
          is_found = is_found;
          found_key = refl;
          differs = ground (arith, text_beq_iff key expected);
          foreign = foreign;
        }

    check_file-AllStale :
        (file : Text) (checked : Checked)
        → has file files ≡ true
        → AllStale checked
        → AllStale (check_file runtime (segments_of runtime) expected file checked)
    unfolding check_file
    check_file-AllStale file checked shipped h =
        elim (Option-cases (runtime_version_in runtime file)) [
          | inl absent ↦ rw (absent, check_file) h
          | inr (found, is_found) ↦
              rw (is_found, check_file)
                (elim (Bool-cases (found == [])) [
                  | inl blank ↦ rw blank h
                  | inr text ↦ rw text (check_found-AllStale found file checked shipped is_found h)
                ])
        ]

    check_files-AllStale :
        (rest : List Text) (checked : Checked)
        → Within rest files
        → AllStale checked
        → AllStale (check_files runtime (segments_of runtime) expected rest checked)
    unfolding check_files
    check_files-AllStale [] checked w h = h
    check_files-AllStale (file ∷ rest) checked w h =
        check_files-AllStale rest (check_file runtime (segments_of runtime) expected file checked)
          (λ a m. w a (ground arith))
          (check_file-AllStale file checked (w file (ground (arith, text_beq_iff file file))) h)

  check-AllStale :
      (runtime : RuntimeName) (checked : Checked)
      → AllStale checked
      → AllStale (check runtime (segments_of runtime) runtimes files self checked)
  unfolding check
  check-AllStale runtime checked h = elim (Option-cases (runtimes runtime)) [
    | inl absent ↦ rw (absent, check) h
    | inr (current, is_current) ↦
        rw (is_current, check)
          (elim (Bool-cases
            (current == [] || ships_interpreter (runtime_interpreter_prefix runtime) self)) [
              | inl skip ↦ rw skip h
              | inr go ↦ rw go (
                  check_files-AllStale runtime current is_current (ground arith) files checked
                    (λ a m. m) h)
            ])
  ]

  pub stale_runtime_dependencies-IsStale :
      All IsStale (stale_runtime_dependencies files runtimes self)
  unfolding stale_runtime_dependencies
  stale_runtime_dependencies-IsStale =
      check-AllStale ghc _
        (check-AllStale ruby _ (check-AllStale perl _ (check-AllStale python ([], []) tt)))
