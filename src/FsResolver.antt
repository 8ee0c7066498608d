-- ===== src/FsResolver.antt =====
-- fsresolver/fsresolver.go: resolving class names to rules by the files of the workspace.
--
-- Whether a file is there is a parameter. `none` means that the fuel for the search of packages ran
-- out; the depth-first search has fuel for all edges of its graph.
pub mod Edges
pub mod Provided
pub mod Tests
use tools_jvm_autodeps.Base.{
  ℕ, suc, Bool, true, false, Option, none, some, List, [], ◌∷◌, ◌++◌, map, if◌then◌else◌, length,
  ◌==◌, Text, nat_eq, text_eq,
}
use tools_jvm_autodeps.GoMap.{GoMap, contains, lookup, get, put}
use tools_jvm_autodeps.Strings.{codes, dot, split_byte}
use tools_jvm_autodeps.Paths.{path_join, rel}
use tools_jvm_autodeps.Graphs.{Graph, dfs}
use tools_jvm_autodeps.Graphs.Ends.{targets}
use tools_jvm_autodeps.Bazel.{Rule, Package, string_list_attr}
use tools_jvm_autodeps.PkgLoading.{Result, ok, err, Loader, Packages}
use tools_jvm_autodeps.PkgLoading.Siblings.{siblings}
use tools_jvm_autodeps.Filter.{java_dependency_rule_kinds}
use tools_jvm_autodeps.Jadeplib.{ClassName}

-- classToFiles
unfoldable pub class_to_files : List Text → ClassName → List Text
unfolding path_join split_byte
class_to_files content_roots class_name =
    map (λ root. path_join (root ∷ split_byte class_name dot) ++ codes ".java") content_roots

-- the first loop of Resolve: the map `classToFile` and the list `filenames`
unfoldable pub files_of :
    List Text
    → GoMap ClassName (List Text) × List Text
    → List ClassName
    → GoMap ClassName (List Text) × List Text
unfolding class_to_files
files_of content_roots found [] = found
files_of content_roots (class_to_file, filenames) (cls ∷ class_names) =
    let files = class_to_files content_roots cls in
    files_of content_roots (put cls files class_to_file, filenames ++ files) class_names

-- `graph[u] = append(graph[u], v)`
abbrev pub append_edge : Text → Text → Graph → Graph
append_edge u v graph = put u (get [] u graph ++ v ∷ []) graph

-- the loop over the attribute `exports`
unfoldable pub add_exports : Text → Graph → List Text → Graph
add_exports rule_name graph [] = graph
add_exports rule_name graph (s ∷ exports) =
    add_exports rule_name (append_edge s rule_name graph) exports

abbrev pub or_error : {E A B : Type 0} → (A → Option B) → Result E A → Option (Result E B)
or_error f (err e) = some (err e)
or_error f (ok a) = elim (f a) [ none ↦ none | some b ↦ some (ok b) ]

module _ {Ref : Type 0} (deref : Ref → Rule) where
  abbrev pub is_filegroup : Option Ref → Bool
  is_filegroup none = false
  is_filegroup (some r) = (deref r).schema == codes "filegroup"

  -- the loop over the attribute `srcs`
  unfoldable pub add_srcs : GoMap Text Ref → Text → Text → Graph → List Text → Graph
  add_srcs rules relative_filename rule_name graph [] = graph
  add_srcs rules relative_filename rule_name graph (src ∷ srcs) =
      let file_graph =
        if src == relative_filename then append_edge relative_filename rule_name graph else graph in
      let both =
        if is_filegroup (lookup src rules)
        then append_edge src rule_name file_graph
        else file_graph in
      add_srcs rules relative_filename rule_name both srcs

  -- the loop over the rules of the package
  unfoldable pub add_rules : GoMap Text Ref → Text → Graph → List (Text × Ref) → Graph
  unfolding add_exports add_srcs string_list_attr
  add_rules rules relative_filename graph [] = graph
  add_rules rules relative_filename graph ((rule_name, r) ∷ more) =
      add_rules rules relative_filename
        (add_srcs rules relative_filename rule_name
          (add_exports rule_name graph (string_list_attr (deref r) (codes "exports")))
          (string_list_attr (deref r) (codes "srcs")))
        more

  -- what is done at a node: the rule of its name, if it is there and of a Java kind
  abbrev pub append_rule :
      ClassName → Option Ref → GoMap ClassName (List Ref) → GoMap ClassName (List Ref)
  append_rule cls none result = result
  append_rule cls (some r) result =
      if contains (deref r).schema java_dependency_rule_kinds
      then put cls (get [] cls result ++ r ∷ []) result
      else result

  -- the calls of the function that DFS is given, over the nodes in their order
  unfoldable pub add_nodes :
      GoMap Text Ref
      → ClassName
      → GoMap ClassName (List Ref)
      → List Text
      → GoMap ClassName (List Ref)
  add_nodes rules cls result [] = result
  add_nodes rules cls result (node ∷ nodes) =
      add_nodes rules cls (append_rule cls (lookup node rules) result) nodes

  -- the graph of a package, and the search in it
  unfoldable pub add_package :
      Package Ref
      → Text
      → ClassName
      → GoMap ClassName (List Ref)
      → Option (GoMap ClassName (List Ref))
  unfolding add_rules add_nodes
  add_package pkg relative_filename cls result =
      let graph = add_rules pkg.rules relative_filename [] pkg.rules in
      elim (dfs (suc (suc (length (targets graph)))) graph relative_filename) [
        | none ↦ none
        | some nodes ↦ some (add_nodes pkg.rules cls result nodes)
      ]

  -- a file name in its package, if both are there
  unfoldable pub add_file :
      Packages Ref
      → GoMap Text Text
      → ClassName
      → GoMap ClassName (List Ref)
      → Text
      → Option (GoMap ClassName (List Ref))
  unfolding rel add_package
  add_file packages file_to_pkg_name cls result filename = elim (lookup filename file_to_pkg_name) [
    | none ↦ some result
    | some pkg_name ↦ elim (lookup pkg_name packages) [
      | none ↦ some result
      | some pkg ↦ elim (rel pkg_name filename) [
        | none ↦ some result
        | some relative_filename ↦ add_package pkg relative_filename cls result
      ]
    ]
  ]

  unfoldable pub add_files :
      Packages Ref
      → GoMap Text Text
      → ClassName
      → GoMap ClassName (List Ref)
      → List Text
      → Option (GoMap ClassName (List Ref))
  unfolding add_file
  add_files packages file_to_pkg_name cls result [] = some result
  add_files packages file_to_pkg_name cls result (filename ∷ files) =
      elim (add_file packages file_to_pkg_name cls result filename) [
        | none ↦ none
        | some later ↦ add_files packages file_to_pkg_name cls later files
      ]

  -- the second loop of Resolve
  unfoldable pub add_classes :
      Packages Ref
      → GoMap Text Text
      → GoMap ClassName (List Text)
      → GoMap ClassName (List Ref)
      → List ClassName
      → Option (GoMap ClassName (List Ref))
  unfolding add_files
  add_classes packages file_to_pkg_name class_to_file result [] = some result
  add_classes packages file_to_pkg_name class_to_file result (cls ∷ class_names) =
      elim (add_files packages file_to_pkg_name cls result (get [] cls class_to_file)) [
        | none ↦ none
        | some later ↦ add_classes packages file_to_pkg_name class_to_file later class_names
      ]

  -- Resolve
  unfoldable pub resolve :
      {E : Type 0}
      → (Text → Bool)
      → ℕ
      → List Text
      → Text
      → Loader E Ref
      → List ClassName
      → Option (Result E (GoMap ClassName (List Ref)))
  unfolding files_of siblings add_classes
  resolve file_exists fuel content_roots workspace_dir load class_names =
      let (class_to_file, filenames) = files_of content_roots ([], []) class_names in
      elim (siblings file_exists fuel load workspace_dir filenames) [
        | none ↦ none
        | some (answer, file_to_pkg_name) ↦
            or_error
              (λ packages. add_classes packages file_to_pkg_name class_to_file [] class_names)
              answer
      ]
