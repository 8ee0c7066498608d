-- ===== src/Parser/ClassNames.antt =====
-- ReferencedClasses and ExtractClassNameFromQualifiedName of lang/java/parser/parser.go.
--
-- The runes of a string and what Unicode says of a rune are parameters. The files come in the order in
-- which their goroutines take the lock.
pub mod Extracted
use tools_jvm_autodeps.Base.{
  ℕ, zero, suc, Bool, true, false, not, ◌&&◌, Option, none, some, List, [], ◌∷◌, ◌++◌, map,
  if◌then◌else◌, is_some, Eq, ◌==◌, Text, nat_eq, text_eq,
}
use tools_jvm_autodeps.GoMap.{GoMap, contains, add, lookup, keys}
use tools_jvm_autodeps.Strings.{dot, join_byte}
use tools_jvm_autodeps.PkgLoading.{Result, ok, err, ◌>>=◌}
use tools_jvm_autodeps.Parser.Ast.{Kind, Ast}
use tools_jvm_autodeps.Parser.Builtin.{is_builtin}
use tools_jvm_autodeps.Parser.Xrefs.{Stop, panics, SymbolTable}
use tools_jvm_autodeps.Parser.Xrefs.Tables.{Tables, build_symbol_tables}
use tools_jvm_autodeps.Parser.Xrefs.Resolve.{State, resolve}

-- `range` over a string, unicode.IsUpper, and being a digit, a number or a letter
pub record Unicode : Type 0 where
  pub runes : Text → List ℕ
  pub is_upper : ℕ → Bool
  pub is_one_of : ℕ → Bool

module _ (unicode : Unicode) where
  abbrev none_upper : List ℕ → Bool
  none_upper [] = true
  none_upper (r ∷ rs) = not (unicode.is_upper r) && none_upper rs

  -- isLowerCase
  unfoldable pub is_lower_case : Text → Bool
  is_lower_case s = none_upper (unicode.runes s)

  abbrev all_one_of : List ℕ → Bool
  all_one_of [] = true
  all_one_of (r ∷ rs) = unicode.is_one_of r && all_one_of rs

  abbrev starts_upper : List ℕ → Bool
  starts_upper [] = true
  starts_upper (r ∷ rs) = unicode.is_upper r && all_one_of rs

  -- looksLikeSimpleClassName
  unfoldable pub looks_like_simple_class_name : Text → Bool
  looks_like_simple_class_name s = if s == [] then false else starts_upper (unicode.runes s)

  -- the loop of ExtractClassNameFromQualifiedName, at the index `i`
  unfoldable pub extract_from : ℕ → List Text → List Text → Option (Text × ℕ)
  unfolding is_lower_case looks_like_simple_class_name
  extract_from i result [] = none
  extract_from i result (txt ∷ parts) =
      let rest = extract_from (suc i) (result ++ txt ∷ []) parts in
      if looks_like_simple_class_name txt
      then some (join_byte (result ++ txt ∷ []) dot, i)
      else if is_lower_case txt
      then rest
      else none

  -- ExtractClassNameFromQualifiedName, where `none` is the empty string and -1
  unfoldable pub extract_class_name_from_qualified_name : List Text → Option (Text × ℕ)
  unfolding extract_from
  extract_class_name_from_qualified_name parts = extract_from 0 [] parts

-- `seen` and `result`
pub record Seen : Type 0 where
  pub seen : List Text
  pub result : List Text

-- `if !seen[className] { seen[className] = true; result = append(result, className) }`
unfoldable pub report : Text → Seen → Seen
report class_name s =
    if contains class_name s.seen
    then s
    else record { seen = add class_name s.seen; result = s.result ++ class_name ∷ [] }

-- what ast.Build returns: the tree, its root and the nodes that ForEach goes through
pub record Tree (Node : Type 0) : Type 0 where
  pub ast : Ast Node
  pub root : Node
  pub nodes : List Node

abbrev pub in_package : Text → Text → Text
in_package [] class_name = class_name
in_package (c ∷ pkg) class_name = (c ∷ pkg) ++ dot ∷ class_name

abbrev is_name_or_star : Kind → Bool
is_name_or_star Kind.java_name = true
is_name_or_star Kind.java_name_star = true
is_name_or_star _ = false

abbrev is_name_star : Kind → Bool
is_name_star Kind.java_name_star = true
is_name_star _ = false

abbrev is_type_name : Kind → Bool
is_type_name Kind.java_type_name = true
is_type_name _ = false

module _ {Node : Type 0} ⦃e : Eq Node⦄ (unicode : Unicode) (tree : Tree Node) where
  -- idsToStrs and joinIDs
  abbrev ids_to_strs : List Node → List Text
  ids_to_strs ids = map tree.ast.text ids

  unfoldable pub join_ids : List Node → Text
  unfolding join_byte
  join_ids ids = join_byte (ids_to_strs ids) dot

  unfoldable pub package_name : Text
  unfolding join_ids
  package_name =
      let p = tree.ast.first_child_of_type Kind.java_package tree.root in
      join_ids (
        tree.ast.children_of_type Kind.java_identifier
          (tree.ast.first_child_of_type Kind.java_name p))

  -- the classes that the file defines
  unfoldable pub defined_in : Text → List Text → List Text → List Text
  defined_in pkg seen [] = seen
  defined_in pkg seen (class_name ∷ types) =
      defined_in pkg (if pkg == [] then seen else add (in_package pkg class_name) seen) types

  abbrev types_of : Option (SymbolTable Node) → List Text
  types_of none = []
  types_of (some st) = keys st.types

  -- the class name of a type or an expression that the file does not define
  unfoldable pub use_name : List Text → Text → Kind → List Node → Seen → Seen
  unfolding extract_class_name_from_qualified_name is_builtin report join_ids
  use_name built_in pkg k ids s =
      elim (extract_class_name_from_qualified_name unicode (ids_to_strs ids)) [
        | none ↦ if is_type_name k then report (join_ids ids) s else s
        | some (class_name, zero) ↦
            if is_builtin built_in class_name then s else report (in_package pkg class_name) s
        | some (class_name, suc i) ↦ report class_name s
      ]

  unfoldable pub use_import : Node → Seen → Seen
  unfolding extract_class_name_from_qualified_name report join_ids
  use_import n s =
      let name = tree.ast.child is_name_or_star n in
      let on_demand = is_name_star (tree.ast.kind name) in
      let static = tree.ast.is_valid (tree.ast.first_child_of_type Kind.java_static n) in
      let ids = tree.ast.children_of_type Kind.java_identifier name in
      elim (extract_class_name_from_qualified_name unicode (ids_to_strs ids)) [
        | none ↦ if on_demand && not static then s else report (join_ids ids) s
        | some (class_name, i) ↦ report class_name s
      ]

  abbrev use_unbound :
      List Text → Text → GoMap Node Node → Kind → List Node → Seen → Result Stop Seen
  use_unbound built_in pkg bindings k [] s = err panics
  use_unbound built_in pkg bindings k (id ∷ ids) s =
      if is_some (lookup id bindings) then ok s else ok (use_name built_in pkg k (id ∷ ids) s)

  -- `visit`, by the type of the node
  unfoldable pub visit_kind :
      List Text → Text → GoMap Node Node → Kind → Node → Seen → Result Stop Seen
  unfolding use_name use_import
  visit_kind built_in pkg bindings Kind.java_type_name n s =
      use_unbound built_in pkg bindings Kind.java_type_name
        (tree.ast.children_of_type Kind.java_identifier n) s
  visit_kind built_in pkg bindings Kind.java_type_or_expr_name n s =
      use_unbound built_in pkg bindings Kind.java_type_or_expr_name
        (tree.ast.children_of_type Kind.java_identifier n) s
  visit_kind built_in pkg bindings Kind.java_expr_name n s =
      use_unbound built_in pkg bindings Kind.java_expr_name
        (tree.ast.children_of_type Kind.java_identifier n) s
  visit_kind built_in pkg bindings Kind.java_import n s = ok (use_import n s)
  visit_kind built_in pkg bindings _ n s = ok s

  unfoldable pub visit_all :
      List Text → Text → GoMap Node Node → List Node → Seen → Result Stop Seen
  unfolding visit_kind
  visit_all built_in pkg bindings [] s = ok s
  visit_all built_in pkg bindings (n ∷ nodes) s =
      visit_kind built_in pkg bindings (tree.ast.kind n) n s
      >>= visit_all built_in pkg bindings nodes

  -- referencedClasses of a tree, with fuel for its depth
  unfoldable pub referenced_in_tree : ℕ → List Text → Result Stop (List Text)
  unfolding build_symbol_tables resolve package_name defined_in visit_all
  referenced_in_tree fuel built_in = do
    tables ← build_symbol_tables tree.ast fuel tree.root
    resolved ← resolve tree.ast fuel tree.root tables
    let pkg = package_name
    let seen = defined_in pkg [] (types_of (lookup tree.root resolved.tables))
    done ← visit_all built_in pkg resolved.bindings tree.nodes (record { seen = seen; result = [] })
    ok done.result

-- `for _, c := range classes` of ReferencedClasses, under the lock
unfoldable pub report_all : Seen → List Text → Seen
unfolding report
report_all s [] = s
report_all s (c ∷ classes) = report_all (report c s) classes

module _ {Node : Type 0} ⦃e : Eq Node⦄ (unicode : Unicode) where
  -- ReferencedClasses, where a file that cannot be read or parsed has no tree
  unfoldable pub merge_files : ℕ → List Text → Seen → List (Option (Tree Node)) → Result Stop Seen
  unfolding referenced_in_tree report_all
  merge_files fuel implicit s [] = ok s
  merge_files fuel implicit s (none ∷ files) = merge_files fuel implicit s files
  merge_files fuel implicit s (some tree ∷ files) =
      referenced_in_tree unicode tree fuel implicit >>= λ classes.
      merge_files fuel implicit (report_all s classes) files

  unfoldable pub referenced_classes :
      ℕ → List Text → List (Option (Tree Node)) → Result Stop (List Text)
  unfolding merge_files
  referenced_classes fuel implicit files =
      merge_files fuel implicit (record { seen = []; result = [] }) files >>= λ s. ok s.result
