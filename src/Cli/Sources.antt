-- ===== src/Cli/Sources.antt =====
-- What FilesToParse does with a source that is no label.
use tools_jvm_autodeps.Base.{
  suc, ◌≡◌, refl, ap, ◌∙◌, true, List, [], ◌∷◌, ◌++◌, arith, length, Text, nat_eq, text_eq,
}
use tools_jvm_autodeps.GoMap.{contains}
use tools_jvm_autodeps.Paths.{path_join}
use tools_jvm_autodeps.Bazel.{LabelError, Parsed, split, parse_relative_label}
use tools_jvm_autodeps.Cli.{file_of, label_or_empty, source_file, source_files}

file_of-empty : file_of [] ≡ []
unfolding split path_join
file_of-empty = refl

source_file_bad :
    (pkg_name s : Text) (error : LabelError)
    → parse_relative_label pkg_name s ≡ Parsed.err error
    → source_file pkg_name s ≡ []
unfolding source_file
source_file_bad pkg_name s error bad = ap (λ p. file_of (label_or_empty p)) bad ∙ file_of-empty

-- A source that does not parse as a label is not skipped: the files to parse have one entry for each
-- source, and an empty file name for this one.
pub source_files_bad_label :
    (pkg_name : Text) (before : List Text) (s : Text) (behind : List Text) (error : LabelError)
    → parse_relative_label pkg_name s ≡ Parsed.err error
    → (contains [] (source_files pkg_name (before ++ s ∷ behind)) ≡ true)
      × (length (source_files pkg_name (before ++ s ∷ behind)) ≡ length (before ++ s ∷ behind))
unfolding source_files
source_files_bad_label pkg_name before s behind error bad =
    (holds before, same (before ++ s ∷ behind))
  where
    holds : (before : List Text) → contains [] (source_files pkg_name (before ++ s ∷ behind)) ≡ true
    holds [] =
        ap (λ f. contains [] (f ∷ source_files pkg_name behind))
          (source_file_bad pkg_name s error bad)
    holds (b ∷ before) = ground (arith, holds before)

    same : (srcs : List Text) → length (source_files pkg_name srcs) ≡ length srcs
    same [] = refl
    same (b ∷ srcs) = ap suc (same srcs)
