-- ===== src/BazelDeps.antt =====
-- bazeldepsresolver/bazeldepsresolver.go and listclassesinjar/listclassesinjar.go.
--
-- Walking a directory and opening a jar are parameters: the directories below one, and the names of
-- the files in a jar. Fuel counts the layers of the search and the steps of a chain of parents.
pub mod Chains
pub mod Jars
pub mod Listed
pub mod Tops
pub mod Answers
pub mod Tests
use tools_jvm_autodeps.Base.{
  ℕ, zero, suc, not, ◌||◌, Option, none, some, List, [], ◌∷◌, ◌++◌, map, if◌then◌else◌, Eq, ◌==◌,
  Text, nat_eq, text_eq,
}
use tools_jvm_autodeps.GoMap.{GoMap, contains, add, lookup, get, put}
use tools_jvm_autodeps.Strings.{codes, slash, dot, has_suffix, trim_suffix}
use tools_jvm_autodeps.Paths.{is_abs, path_join}
use tools_jvm_autodeps.PkgLoading.{Result, ok, err, Loader, Packages, load_rules}
use tools_jvm_autodeps.Bazel.{
  Label, Rule, Package, Parsed, string_list_attr, label_list_attr, label_attr,
}
use tools_jvm_autodeps.Jadeplib.{ClassName, DepsOfRules}

-- strings.Replace(s, "/", ".", -1)
unfoldable pub dotted : Text → Text
dotted [] = []
dotted (c ∷ s) = (if c == slash then dot else c) ∷ dotted s

abbrev dollar : ℕ
dollar = b'$'

-- List of listclassesinjar, over the names of the files in the jar
unfoldable pub list_classes : List Text → List ClassName
unfolding has_suffix trim_suffix dotted
list_classes [] = []
list_classes (fn ∷ names) =
    let rest = list_classes names in
    if contains dollar fn
      || not (has_suffix fn (codes ".class"))
      || has_suffix fn (codes "/package-info.class")
    then rest
    else dotted (trim_suffix fn (codes ".class")) ∷ rest

-- the errors of NewResolver
pub data BazelError (E : Type 0) : Type 0 where
  absolute_dir out_of_fuel : BazelError E
  not_loaded : E → BazelError E

-- the maps that the search fills: `parent`, `classToRule`, `seenLabels` and `pkgs`
pub record Search (Ref : Type 0) : Type 0 where
  pub parent : GoMap Ref Ref
  pub class_to_rule : GoMap ClassName Ref
  pub seen_labels : List Label
  pub pkgs : Packages Ref

-- `toLoad` and `parentLabels` of one layer
pub record Layer (Ref : Type 0) : Type 0 where
  pub to_load : List Label
  pub parent_labels : GoMap Label Ref

abbrev pub ok_label : Option Parsed → List Label
ok_label (some (Parsed.ok l)) = l ∷ []
ok_label _ = []

module _ {Ref : Type 0} ⦃e : Eq Ref⦄ (deref : Ref → Rule) (jar_files : Text → List Text) where
  -- `for _, c := range cls { classToRule[c] = rule }`
  unfoldable pub put_classes : Ref → GoMap ClassName Ref → List ClassName → GoMap ClassName Ref
  put_classes rule class_to_rule [] = class_to_rule
  put_classes rule class_to_rule (c ∷ cls) = put_classes rule (put c rule class_to_rule) cls

  unfoldable pub list_jars : Ref → Text → GoMap ClassName Ref → List Text → GoMap ClassName Ref
  unfolding put_classes path_join list_classes
  list_jars rule pkg_path class_to_rule [] = class_to_rule
  list_jars rule pkg_path class_to_rule (jar ∷ jars) =
      let cls = list_classes (jar_files (path_join (pkg_path ∷ jar ∷ []))) in
      list_jars rule pkg_path (put_classes rule class_to_rule cls) jars

  -- listJar; the error where the package is missing is dropped by the caller
  unfoldable pub list_jar : Ref → Search Ref → Search Ref
  unfolding list_jars string_list_attr
  list_jar rule s = elim (lookup (deref rule).pkg_name s.pkgs) [
    | none ↦ s
    | some pkg ↦ record s {
      class_to_rule =
          list_jars rule pkg.path s.class_to_rule (string_list_attr (deref rule) (codes "jars"));
    }
  ]

  -- the switch on the kind of a rule
  unfoldable pub candidates_of : Rule → List Label
  unfolding label_list_attr label_attr
  candidates_of rule =
      if rule.schema == codes "java_library"
      then label_list_attr rule (codes "exports")
      else if rule.schema == codes "bind"
      then ok_label (label_attr rule (codes "actual"))
      else []

  unfoldable pub visit_rule : Ref → Search Ref → Search Ref
  unfolding list_jar
  visit_rule rule s = if (deref rule).schema == codes "java_import" then list_jar rule s else s

  -- the loop over the candidates of a rule
  unfoldable pub add_labels : Ref → Search Ref × Layer Ref → List Label → Search Ref × Layer Ref
  add_labels rule (s, layer) [] = (s, layer)
  add_labels rule (s, layer) (candidate ∷ candidates) =
      add_labels rule
        (if contains candidate s.seen_labels then (s, layer) else (
          record s { seen_labels = add candidate s.seen_labels },
          record {
            to_load = layer.to_load ++ candidate ∷ [];
            parent_labels = put candidate rule layer.parent_labels;
          },
        ))
        candidates

  -- `Construct next layer`
  unfoldable pub next_labels : Search Ref × Layer Ref → List Ref → Search Ref × Layer Ref
  unfolding candidates_of visit_rule add_labels
  next_labels (s, layer) [] = (s, layer)
  next_labels (s, layer) (rule ∷ rules) =
      next_labels (add_labels rule (visit_rule rule s, layer) (candidates_of (deref rule))) rules

  -- `Fill out nextLayer`
  unfoldable pub next_layer :
      GoMap Label Ref → GoMap Ref Ref × List Ref → GoMap Label Ref → GoMap Ref Ref × List Ref
  next_layer rules (parent, layer) [] = (parent, layer)
  next_layer rules (parent, layer) ((u, v) ∷ parent_labels) = elim (lookup u rules) [
    | none ↦ next_layer rules (parent, layer) parent_labels
    | some ru ↦ next_layer rules (put ru v parent, layer ++ ru ∷ []) parent_labels
  ]

  unfoldable pub put_pkgs : Packages Ref → Packages Ref → Packages Ref
  put_pkgs pkgs [] = pkgs
  put_pkgs pkgs ((n, pkg) ∷ new_pkgs) = put_pkgs (put n pkg pkgs) new_pkgs

  -- the loop over the layers
  unfoldable pub search_layers :
      {E : Type 0} → ℕ → Loader E Ref → Search Ref → List Ref → Result (BazelError E) (Search Ref)
  unfolding next_labels next_layer put_pkgs load_rules
  search_layers fuel load s [] = ok s
  search_layers zero load s (rule ∷ layer) = err out_of_fuel
  search_layers (suc fuel) load s (rule ∷ layer) =
      let (later, next) =
        next_labels (s, record { to_load = []; parent_labels = [] }) (rule ∷ layer) in
      elim (load_rules load next.to_load) [
        | err error ↦ err (not_loaded error)
        | ok answer ↦
            let (parent, rules) = next_layer answer.0 (later.parent, []) next.parent_labels in
            search_layers fuel load
              (record later { parent = parent; pkgs = put_pkgs later.pkgs answer.1 }) rules
      ]

  -- the rules of the packages, in the order of the loops
  unfoldable pub all_rules : Packages Ref → List Ref
  all_rules [] = []
  all_rules ((n, pkg) ∷ pkgs) = map (λ entry. entry.1) pkg.rules ++ all_rules pkgs

  -- NewResolver, with the directories that allPackages finds
  unfoldable pub new_resolver :
      {E : Type 0}
      → (Text → Text → List Text)
      → ℕ
      → Loader E Ref
      → Text
      → Text
      → Result (BazelError E) (Search Ref)
  unfolding search_layers all_rules
  new_resolver all_packages fuel load workspace_dir third_party_dir =
      if is_abs third_party_dir
      then err absolute_dir
      else elim (load (all_packages workspace_dir third_party_dir)) [
        | err error ↦ err (not_loaded error)
        | ok pkgs ↦
            search_layers fuel load
              (record { parent = []; class_to_rule = []; seen_labels = []; pkgs = pkgs })
              (all_rules pkgs)
      ]

  -- `for r.parent[rule] != nil { rule = r.parent[rule] }`
  unfoldable pub top_of : ℕ → GoMap Ref Ref → Ref → Option Ref
  top_of zero parent rule = none
  top_of (suc fuel) parent rule = elim (lookup rule parent) [
    | none ↦ some rule
    | some above ↦ top_of fuel parent above
  ]

  -- the loop of Resolve, where `none` is out of fuel
  unfoldable pub resolve_all :
      ℕ
      → Search Ref
      → GoMap ClassName (List Ref)
      → List ClassName
      → Option (GoMap ClassName (List Ref))
  unfolding top_of
  resolve_all fuel s result [] = some result
  resolve_all fuel s result (cls ∷ class_names) = elim (lookup cls s.class_to_rule) [
    | none ↦ resolve_all fuel s result class_names
    | some rule ↦ elim (top_of fuel s.parent rule) [
      | none ↦ none
      | some top ↦ resolve_all fuel s (put cls (get [] cls result ++ top ∷ []) result) class_names
    ]
  ]

  -- Resolve
  unfoldable pub resolve :
      ℕ → Search Ref → List ClassName → DepsOfRules → Option (GoMap ClassName (List Ref))
  unfolding resolve_all
  resolve fuel s class_names consuming_rules = resolve_all fuel s [] class_names
