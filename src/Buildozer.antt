-- ===== src/Buildozer.antt =====
-- buildozer/buildozer.go: the commands that change BUILD files.
--
-- The world `W` is what Buildozer and the file system act on. Buildozer itself is a parameter, with
-- the value that it returns; so are the existence and the writing of a file.
use tools_jvm_autodeps.Base.{
  ℕ, Bool, not, Option, none, some, List, [], ◌∷◌, ◌++◌, if◌then◌else◌, is_some, Text, nat_eq,
  text_eq,
}
use tools_jvm_autodeps.GoMap.{GoMap, contains, lookup}
use tools_jvm_autodeps.Strings.{codes, slash, colon, split_byte, join_byte}
use tools_jvm_autodeps.Paths.{path_join}
use tools_jvm_autodeps.PkgLoading.{Result, ok, err, ◌>>=◌}
use tools_jvm_autodeps.Bazel.{Label, Rule, as_str, or_empty, string_list_attr, rule_label, name}

-- the errors, each with what it is about
pub data Error : Type 0 where
  bad_location : Text → Error
  not_written : Text → Error
  returned : ℕ → List Text → Error

abbrev pub second_part : Text → List Text → Result Error Text
second_part loc (file ∷ line ∷ []) = ok (codes "%" ++ line)
second_part loc _ = err (bad_location loc)

abbrev pub slashes_pkg : Text → Text → Text
slashes_pkg pkg_name target = slash ∷ slash ∷ (pkg_name ++ colon ∷ target)

-- Ref
unfoldable pub ref : Rule → Result Error Text
unfolding rule_label split_byte
ref rule =
    if not (is_some (lookup (codes "generator_function") rule.attrs))
    then ok (rule_label rule)
    else elim (as_str (lookup (codes "generator_name") rule.attrs)) [
      | some n ↦ ok (slashes_pkg rule.pkg_name n)
      | none ↦
          let loc = or_empty (as_str (lookup (codes "generator_location") rule.attrs)) in
          (second_part loc (split_byte loc colon) >>= λ n. ok (slashes_pkg rule.pkg_name n))
    ]

-- what is outside: `buildozer` runs one command line
pub record Outside (W : Type 0) : Type 0 where
  pub buildozer : Text → List Text → W → ℕ × W
  pub file_exists : Text → W → Bool
  pub write_empty : Text → W → Bool × W

module _ {W : Type 0} (outside : Outside W) where
  -- exec
  unfoldable pub exec : Text → List Text → List ℕ → W → Option Error × W
  exec workspace_root args allowed w =
      let (retval, later) = outside.buildozer workspace_root args w in
      (if contains retval allowed then none else some (returned retval args), later)

  abbrev pub and_then : Option Error × W → (W → Option Error × W) → Option Error × W
  and_then (some error, w) next = (some error, w)
  and_then (none, w) next = next w

  -- the BUILD file is made where there is none
  unfoldable pub make_build_file : Text → W → Option Error × W
  make_build_file build_file w =
      let (written, later) = outside.write_empty build_file w in
      if outside.file_exists build_file w
      then (none, w)
      else if written
      then (none, later)
      else (some (not_written build_file), later)

  -- NewRule
  unfoldable pub new_rule : Text → Rule → W → Option Error × W
  unfolding make_build_file exec path_join name string_list_attr join_byte
  new_rule workspace_root rule w =
      let build_file = path_join (workspace_root ∷ rule.pkg_name ∷ codes "BUILD" ∷ []) in
      let new_args =
        (codes "new " ++ (rule.schema ++ (codes " " ++ name rule)))
        ∷ slashes_pkg rule.pkg_name (codes "__pkg__")
        ∷ [] in
      let add_args =
        (codes "add srcs " ++ join_byte (string_list_attr rule (codes "srcs")) b' ')
        ∷ slashes_pkg rule.pkg_name (name rule)
        ∷ [] in
      and_then (make_build_file build_file w) λ made.
        and_then (exec workspace_root new_args (0 ∷ []) made)
          λ later. exec workspace_root add_args (0 ∷ []) later

  -- the buffer `deps`: every label with a blank behind it
  unfoldable pub spaced : List Label → Text
  spaced [] = []
  spaced (l ∷ labels) = l ++ b' ' ∷ spaced labels

  -- AddDepsToRules, over the entries of the map
  unfoldable pub add_deps_to_rules :
      {Ref : Type 0} → (Ref → Rule) → Text → GoMap Ref (List Label) → W → Option Error × W
  unfolding ref exec spaced
  add_deps_to_rules deref workspace_root [] w = (none, w)
  add_deps_to_rules deref workspace_root ((r, labels) ∷ missing_deps) w = elim (ref (deref r)) [
    | err error ↦ (some error, w)
    | ok label_to_modify ↦
        and_then
          (exec workspace_root ((codes "add deps " ++ spaced labels) ∷ label_to_modify ∷ [])
            (0 ∷ 3 ∷ []) w)
          (add_deps_to_rules deref workspace_root missing_deps)
  ]
