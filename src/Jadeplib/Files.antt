-- ===== src/Jadeplib/Files.antt =====
-- UnfilteredMissingDeps, RulesConsumingFile, srcsFile, ImplicitImports and CreateRule of
-- jadeplib/jadeplib.go. Whether a naming rule's expression matches a file name is a field of it.
pub mod Created
pub mod Consuming
pub mod Tests
use mathlib.Core.Option
use tools_jvm_autodeps.Base.{
  ℕ, Bool, not, ◌&&◌, Option, none, some, List, [], ◌∷◌, ◌++◌, map, if◌then◌else◌, length, drop,
  ◌==◌, Text, nat_eq, text_eq,
}
use tools_jvm_autodeps.GoMap.{GoMap, contains, put, keys}
use tools_jvm_autodeps.Strings.{codes, dot, has_prefix, trim_suffix, base}
use tools_jvm_autodeps.Paths.{dot_path, dir, ext, rel}
use tools_jvm_autodeps.Sorting.{sort_by, text_less}
use tools_jvm_autodeps.Bazel.{
  Label, Rule, Attr, Package, strs, string_list_attr, rule_label, new_rule,
}
use tools_jvm_autodeps.PkgLoading.{Result, ok, err, Loader, Packages}
use tools_jvm_autodeps.PkgLoading.Siblings.{siblings}
use tools_jvm_autodeps.Filter.{java_editable_rule_kinds}
use tools_jvm_autodeps.Jadeplib.{ClassName, Resolver, resolve_all}

-- srcsFile
unfoldable pub srcs_file : Rule → Text → Bool
unfolding string_list_attr
srcs_file rule relative_file_name =
    contains relative_file_name (string_list_attr rule (codes "srcs"))

-- the errors of RulesConsumingFile
pub data FileError (E : Type 0) : Type 0 where
  not_loaded : E → FileError E
  not_relative : FileError E

module _ {Ref : Type 0} (deref : Ref → Rule) where
  -- the test of the inner loop
  abbrev pub consumes : Text → Ref → Bool
  consumes relative_file_name r =
      contains (deref r).schema java_editable_rule_kinds && srcs_file (deref r) relative_file_name

  -- the inner loop, over the rules of a package
  unfoldable pub consuming : Text → List Ref → GoMap Text Ref → List Ref
  unfolding srcs_file
  consuming relative_file_name ret [] = ret
  consuming relative_file_name ret ((n, r) ∷ rules) =
      consuming relative_file_name (if consumes relative_file_name r then ret ++ r ∷ [] else ret)
        rules

  -- the loop over the packages
  unfoldable pub consuming_packages :
      {E : Type 0} → Text → List Ref → Packages Ref → Result (FileError E) (List Ref)
  unfolding consuming rel
  consuming_packages file_name ret [] = ok ret
  consuming_packages file_name ret ((pkg_name, pkg) ∷ pkgs) = elim (rel pkg_name file_name) [
    | none ↦ err not_relative
    | some relative ↦ consuming_packages file_name (consuming relative ret pkg.rules) pkgs
  ]

  abbrev pub label_less : Ref → Ref → Bool
  label_less r q = text_less (rule_label (deref r)) (rule_label (deref q))

  abbrev pub sort_result : {E : Type 0} → Result E (List Ref) → Result E (List Ref)
  sort_result (ok ret) = ok (sort_by label_less ret)
  sort_result (err e) = err e

  abbrev pub of_packages :
      {E : Type 0} → Text → Result E (Packages Ref) → Result (FileError E) (List Ref)
  of_packages file_name (ok pkgs) = sort_result (consuming_packages file_name [] pkgs)
  of_packages file_name (err e) = err (not_loaded e)

  -- RulesConsumingFile, with the fuel of findPackageName
  unfoldable pub rules_consuming_file :
      {E : Type 0}
      → (Text → Bool)
      → ℕ
      → Loader E Ref
      → Text
      → Text
      → Option (Result (FileError E) (List Ref))
  unfolding siblings
  rules_consuming_file file_exists fuel load workspace_dir file_name =
      Option.map (λ answer. of_packages file_name answer.0)
        (siblings file_exists fuel load workspace_dir (file_name ∷ []))

  -- the loop of UnfilteredMissingDeps
  unfoldable pub rank_all :
      (Label → Label → Bool)
      → GoMap ClassName (List Label)
      → GoMap ClassName (List Ref)
      → GoMap ClassName (List Label)
  rank_all less resolved [] = resolved
  rank_all less resolved ((cls, rules) ∷ resolved_as_rules) =
      rank_all less (put cls (sort_by less (map (λ r. rule_label (deref r)) rules)) resolved)
        resolved_as_rules

  -- UnfilteredMissingDeps
  unfoldable pub unfiltered_missing_deps :
      {E : Type 0}
      → List (Resolver E Ref)
      → (Label → Label → Bool)
      → List ClassName
      → GoMap ClassName (List Label) × List ClassName
  unfolding rank_all resolve_all
  unfiltered_missing_deps resolvers less class_names =
      let s = resolve_all resolvers class_names [] in (rank_all less [] s.resolved, s.unresolved)

abbrev pub java_lang : Text
java_lang = codes "java.lang."

-- the loop of ImplicitImports, over the class names of the map
unfoldable pub simple_names : List Text → List ClassName → List Text
unfolding has_prefix
simple_names ret [] = ret
simple_names ret (s ∷ class_names) =
    let simple = drop (length java_lang) s in
    simple_names
      (if has_prefix s java_lang && not (contains dot simple) then ret ++ simple ∷ [] else ret)
      class_names

-- ImplicitImports, with the map that the future holds
unfoldable pub implicit_imports : GoMap ClassName (List Label) → List Text
unfolding simple_names sort_by
implicit_imports dict = sort_by text_less (simple_names [] (keys dict))

pub record NamingRule : Type 0 where
  pub file_name_matcher : Text → Bool
  pub rule_kind : Text

-- the loop of CreateRule
unfoldable pub kind_of : Text → Text → List NamingRule → Text
kind_of file_name kind [] = kind
kind_of file_name kind (r ∷ naming_rules) =
    let rest = kind_of file_name kind naming_rules in
    if r.file_name_matcher file_name then r.rule_kind else rest

-- CreateRule
unfoldable pub create_rule : Text → List NamingRule → Text → Rule
unfolding kind_of dir base ext trim_suffix new_rule
create_rule file_name naming_rules default_rule_kind =
    let pkg_name = (if dir file_name == dot_path then [] else dir file_name) in
    let src = base file_name in
    new_rule (kind_of file_name default_rule_kind naming_rules) pkg_name
      (trim_suffix src (ext file_name)) ((codes "srcs", strs (src ∷ [])) ∷ [])
