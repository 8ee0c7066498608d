-- ===== src/Cli.antt =====
-- cli/cli.go: what the command line means. Printing and profiling are left out.
--
-- Whether a file is there and the working directory are parameters. Fuel counts the directories of a
-- loop that goes upwards. A class name is looked for in the files that the parser reads.
pub mod Sources
pub mod Tests
use tools_jvm_autodeps.Base.{
  ℕ, zero, suc, ◌⊎◌, inl, inr, Bool, Option, none, some, List, [], ◌∷◌, map, if◌then◌else◌, ◌==◌,
  Text, nat_eq, text_eq,
}
use tools_jvm_autodeps.GoMap.{lookup}
use tools_jvm_autodeps.Strings.{codes, slash, dot, split_byte, has_prefix}
use tools_jvm_autodeps.Paths.{dot_path, dots, is_abs, clean, path_join, dir, rel}
use tools_jvm_autodeps.PkgLoading.{Result, ok, err, ◌>>=◌, Loader, load_rules}
use tools_jvm_autodeps.Bazel.{
  Label, Rule, Parsed, LabelError, split, string_list_attr, parse_absolute_label,
  parse_relative_label,
}
use tools_jvm_autodeps.Buildozer.{Outside}
use tools_jvm_autodeps.Jadeplib.{ClassName}
use tools_jvm_autodeps.Jadeplib.Files.{FileError, NamingRule, rules_consuming_file, create_rule}
use tools_jvm_autodeps.Jadeplib.Names.{exclude_class_names}
use tools_jvm_autodeps.Parser.ClassNames.{Unicode, extract_class_name_from_qualified_name}
use tools_jvm_autodeps.Buildozer

pub data CliError (E : Type 0) : Type 0 where
  not_loaded : E → CliError E
  rule_not_found : Label → CliError E
  not_in_workspace not_relative out_of_fuel : CliError E
  from_files : FileError E → CliError E
  from_buildozer : Buildozer.Error → CliError E

-- a label that does not parse is the empty one
abbrev pub label_or_empty : Parsed → Label
label_or_empty (Parsed.ok l) = l
label_or_empty (Parsed.err error) = []

-- `p, n := lbl.Split()` and the file of the two
abbrev pub file_of : Label → Text
file_of lbl = path_join ((split lbl).0 ∷ (split lbl).1 ∷ [])

unfoldable pub source_file : Text → Text → Text
unfolding parse_relative_label split path_join
source_file pkg_name s = file_of (label_or_empty (parse_relative_label pkg_name s))

-- the loop over the srcs of FilesToParse
unfoldable pub source_files : Text → List Text → List Text
source_files pkg_name [] = []
source_files pkg_name (s ∷ srcs) = source_file pkg_name s ∷ source_files pkg_name srcs

module _ {E Ref : Type 0} (deref : Ref → Rule) (load : Loader E Ref) where
  -- the rule of one label, which FilesToParse and RulesToFix load
  unfoldable pub load_one : Label → Result (CliError E) Ref
  unfolding load_rules
  load_one label = elim (load_rules load (label ∷ [])) [
    | err error ↦ err (not_loaded error)
    | ok answer ↦ elim (lookup label answer.0) [ none ↦ err (rule_not_found label) | some r ↦ ok r ]
  ]

  -- FilesToParse
  unfoldable pub files_to_parse : Text → Text → Result (CliError E) (List Text)
  unfolding parse_absolute_label load_one source_files string_list_attr
  files_to_parse arg working_dir = elim (parse_absolute_label arg) [
    | Parsed.err error ↦ ok ((if is_abs arg then arg else path_join (working_dir ∷ arg ∷ [])) ∷ [])
    | Parsed.ok label ↦
        (load_one label >>= λ r.
        ok (source_files (deref r).pkg_name (string_list_attr (deref r) (codes "srcs"))))
  ]

  -- the file name of `arg`, relative to the root of the workspace
  unfoldable pub relative_to_root : Text → Text → Text → Result (CliError E) Text
  unfolding rel has_prefix path_join
  relative_to_root workspace_dir rel_working_dir arg =
      if is_abs arg
      then elim (rel workspace_dir arg) [
        | none ↦ err not_relative
        | some relarg ↦ if has_prefix relarg dots then err not_in_workspace else ok relarg
      ]
      else ok (path_join (rel_working_dir ∷ arg ∷ []))

  module _ {W : Type 0} (outside : Outside W) where
    abbrev made_rule :
        Rule → Option Buildozer.Error × W → Result (CliError E) (List (Ref ⊎ Rule)) × W
    made_rule rule (none, w) = (ok (inr rule ∷ []), w)
    made_rule rule (some error, w) = (err (from_buildozer error), w)

    -- the rules that consume the file, or a new one
    unfoldable pub consumed_or_new :
        Text
        → Text
        → List NamingRule
        → Text
        → Option (Result (FileError E) (List Ref))
        → W
        → Result (CliError E) (List (Ref ⊎ Rule)) × W
    unfolding create_rule Buildozer.new_rule
    consumed_or_new workspace_dir file_name naming_rules kind none w = (err out_of_fuel, w)
    consumed_or_new workspace_dir file_name naming_rules kind (some (err error)) w =
        (err (from_files error), w)
    consumed_or_new workspace_dir file_name naming_rules kind (some (ok (r ∷ ret))) w =
        (ok (map inl (r ∷ ret)), w)
    consumed_or_new workspace_dir file_name naming_rules kind (some (ok [])) w =
        let rule = create_rule file_name naming_rules kind in
        made_rule rule (Buildozer.new_rule outside workspace_dir rule w)

    -- RulesToFix: loaded rules, or a new one
    unfoldable pub rules_to_fix :
        ℕ
        → Text
        → Text
        → Text
        → List NamingRule
        → Text
        → W
        → Result (CliError E) (List (Ref ⊎ Rule)) × W
    unfolding parse_absolute_label load_one relative_to_root rules_consuming_file consumed_or_new
    rules_to_fix fuel workspace_dir rel_working_dir arg naming_rules kind w =
        elim (parse_absolute_label arg) [
          | Parsed.ok label ↦ ((load_one label >>= λ r. ok (inl r ∷ [])), w)
          | Parsed.err error ↦ elim (relative_to_root workspace_dir rel_working_dir arg) [
            | err error ↦ (err error, w)
            | ok file_name ↦
                consumed_or_new workspace_dir file_name naming_rules kind
                  (rules_consuming_file deref (λ f. outside.file_exists f w) fuel load workspace_dir
                    file_name)
                  w
          ]
        ]

-- the errors of Workspace
pub data WorkspaceError : Type 0 where
  no_working_dir no_such_workspace no_parent_workspace not_relative out_of_fuel : WorkspaceError

module _ (file_exists : Text → Bool) where
  -- hasWORKSPACE
  unfoldable pub has_workspace : Text → Bool
  unfolding path_join
  has_workspace d = file_exists (path_join (d ∷ codes "WORKSPACE" ∷ []))

  abbrev relative_dir : Text → Option Text → Result WorkspaceError (Text × Text)
  relative_dir result none = err WorkspaceError.not_relative
  relative_dir result (some r) = ok (result, if r == dot_path then [] else r)

  -- the loop from the working directory upwards
  unfoldable pub find_workspace : ℕ → Text → Text → Result WorkspaceError (Text × Text)
  unfolding has_workspace dir rel
  find_workspace zero wd result = err WorkspaceError.out_of_fuel
  find_workspace (suc fuel) wd result =
      let rest = find_workspace fuel wd (dir result) in
      if result == (slash ∷ [])
      then err no_parent_workspace
      else if has_workspace result
      then relative_dir result (rel result wd)
      else rest

  -- filepath.Abs
  unfoldable pub abs : Option Text → Text → Option Text
  unfolding clean path_join
  abs wd path =
      if is_abs path
      then some (clean path)
      else elim wd [ none ↦ none | some d ↦ some (path_join (d ∷ path ∷ [])) ]

  abbrev given_workspace : Option Text → Result WorkspaceError (Text × Text)
  given_workspace none = err no_working_dir
  given_workspace (some result) =
      if has_workspace result then ok (result, []) else err no_such_workspace

  -- Workspace, where the working directory is `none` if it cannot be had
  unfoldable pub workspace : ℕ → Option Text → Text → Result WorkspaceError (Text × Text)
  unfolding find_workspace abs has_workspace
  workspace fuel wd (c ∷ workspace_flag) = given_workspace (abs wd (c ∷ workspace_flag))
  workspace fuel none [] = err no_working_dir
  workspace fuel (some wd) [] = find_workspace fuel wd wd

-- the class name of an argument of --classnames
abbrev top_level : ClassName → Option (Text × ℕ) → ClassName
top_level c none = c
top_level c (some (name, i)) = name

unfoldable pub given_class_names : Unicode → List Text → List ClassName
unfolding extract_class_name_from_qualified_name split_byte
given_class_names unicode [] = []
given_class_names unicode (c ∷ class_names_arg) =
    top_level c (extract_class_name_from_qualified_name unicode (split_byte c dot))
    ∷ given_class_names unicode class_names_arg

module _ {E : Type 0} (unicode : Unicode) (match_string : Text → Text → Option Bool)
    (referenced : List Text → List ClassName) where
  -- ClassNamesToResolve, where an error ends the program
  unfoldable pub class_names_to_resolve :
      Result E (List Text) → List Text → List Text → Result E (List ClassName)
  unfolding given_class_names exclude_class_names
  class_names_to_resolve files (c ∷ class_names_arg) blacklist =
      ok (given_class_names unicode (c ∷ class_names_arg))
  class_names_to_resolve files [] blacklist = files >>= λ files_to_parse.
      ok (exclude_class_names match_string blacklist (referenced files_to_parse))
