-- ===== src/BazelDeps/Tests.antt =====
-- A library that exports a jar: `//tp:guava` and `//tp:jar`.
use tools_jvm_autodeps.Base.{
  ℕ, ◌≡◌, refl, sym, ap, subst, inl, inr, Option, none, some, List, [], ◌∷◌, arith, if◌then◌else◌,
  Bool-cases, ◌==◌, Text, text_beq_iff, nat_eq, text_eq,
}
use tools_jvm_autodeps.GoMap.{GoMap, contains, lookup, put, lookup-put}
use tools_jvm_autodeps.Strings.{
  codes, has_suffix, trim_suffix, has_prefix, index, index_byte, count_slash_slash, trim_left_slash,
  base, trim_prefix, after_last, split_byte, join_byte,
}
use tools_jvm_autodeps.Paths.{clean, elements, push_all, path_join}
use tools_jvm_autodeps.PkgLoading.{
  ok, Loader, Packages, IsConsistent, load_rules, distinct_pkgs, distinct_from, collect, find_rule,
}
use tools_jvm_autodeps.Bazel.{
  Rule, Attr, Package, split, label_list_attr, parse_labels, parse_relative_label,
  parse_absolute_label, parse_at, check_parts, make_label, string_list_attr,
}
use tools_jvm_autodeps.Jadeplib.{ClassName}
use tools_jvm_autodeps.BazelDeps.{
  Search, list_classes, dotted, put_classes, list_jars, list_jar, candidates_of, visit_rule,
  add_labels, next_labels, next_layer, put_pkgs, search_layers, all_rules, new_resolver, resolve,
}
use tools_jvm_autodeps.BazelDeps.Chains.{candidates}
use tools_jvm_autodeps.BazelDeps.Listed.{IsWithin}
use tools_jvm_autodeps.BazelDeps.Tops.{IsRank}
use tools_jvm_autodeps.BazelDeps.Answers.{AreAnswers, AreFound, resolve-AreAnswers}
use tools_jvm_autodeps.GoMap.Entries.{IsEntry, Every-put}

lists :
    list_classes (
      codes "com/Zoo.class"
      ∷ codes "a/package-info.class"
      ∷ codes "com/B$1.class"
      ∷ codes "M.MF"
      ∷ [])
    ≡ codes "com.Zoo" ∷ []
unfolding list_classes dotted has_suffix trim_suffix
lists = refl

abbrev guava : Rule
guava = record {
  schema = codes "java_library";
  pkg_name = codes "tp";
  attrs = (codes "exports", Attr.strs (codes "//tp:jar" ∷ [])) ∷ [];
}

abbrev jar : Rule
jar = record {
  schema = codes "java_import";
  pkg_name = codes "tp";
  attrs = (codes "jars", Attr.strs (codes "g.jar" ∷ [])) ∷ [];
}

abbrev no_rule : Rule
no_rule = record { schema = []; pkg_name = []; attrs = [] }

abbrev deref : ℕ → Rule
deref r = if r == 1 then guava else if r == 2 then jar else no_rule

abbrev jar_files : Text → List Text
jar_files f = if f == codes "tp/g.jar" then codes "com/Zoo.class" ∷ [] else []

abbrev tp : Package ℕ
tp = record {
  path = codes "tp";
  default_visibility = [];
  files = [];
  rules = (codes "guava", 1) ∷ (codes "jar", 2) ∷ [];
  package_groups = [];
}

abbrev workspace : Text → Option (Package ℕ)
workspace n = if n == codes "tp" then some tp else none

abbrev load_all : List Text → Packages ℕ
load_all [] = []
load_all (n ∷ names) = let rest = load_all names in if n == codes "tp" then put n tp rest else rest

abbrev load : Loader ℕ ℕ
load names = ok (load_all names)

lookup-load_all :
    (names : List Text) (n : Text)
    → lookup n (load_all names) ≡ (if contains n names then workspace n else none)
lookup-load_all [] n = refl
lookup-load_all (k ∷ names) n = ground (
  arith,
  lookup-load_all names n,
  lookup-put k n tp (load_all names),
  text_beq_iff k n,
  text_beq_iff k (codes "tp"),
  text_beq_iff n (codes "tp"),
)

load-IsConsistent : IsConsistent load workspace
load-IsConsistent names pkgs h n m = ground (arith, lookup-load_all names n)

abbrev rank : ℕ → ℕ
rank r = if r == 2 then 1 else 0

candidates_lem :
    (v : ℕ)
    → candidates deref jar_files workspace v ≡ (if v == 1 then codes "//tp:jar" ∷ [] else [])
unfolding candidates_of label_list_attr parse_labels parse_relative_label parse_absolute_label
    parse_at check_parts count_slash_slash index index_byte make_label has_prefix trim_left_slash
    base after_last
candidates_lem v = elim (Bool-cases (v == 1)) [
  | inl one ↦ rw one refl
  | inr other ↦ elim (Bool-cases (v == 2)) [
    | inl two ↦ rw (other, two) refl
    | inr none' ↦ rw (other, none') refl
  ]
]

found_lem : find_rule workspace (codes "//tp:jar") ≡ some 2
unfolding find_rule split trim_prefix has_prefix index_byte
found_lem = refl

falls : IsRank deref jar_files workspace rank
falls v r (u, named, found) = ground (
  arith,
  candidates_lem v,
  text_beq_iff (codes "//tp:jar") u,
  ap (find_rule workspace),
  found_lem,
)

abbrev searched : Search ℕ
searched = record {
  parent = (2, 1) ∷ [];
  class_to_rule = (codes "com.Zoo", 2) ∷ [];
  seen_labels = codes "//tp:jar" ∷ [];
  pkgs = (codes "tp", tp) ∷ [];
}

made :
    new_resolver deref jar_files (λ ws d. codes "tp" ∷ []) 3 load (codes "/ws") (codes "tp")
    ≡ ok searched
unfolding new_resolver search_layers next_labels visit_rule list_jar list_jars put_classes
    list_classes dotted has_suffix trim_suffix add_labels next_layer put_pkgs all_rules
    candidates_of label_list_attr parse_labels parse_relative_label parse_absolute_label parse_at
    check_parts count_slash_slash index index_byte make_label has_prefix trim_left_slash base
    after_last string_list_attr path_join clean elements push_all split_byte join_byte load_rules
    distinct_pkgs distinct_from collect find_rule split trim_prefix
made = refl

load_all-IsWithin :
    (names : List Text) (n : Text) (pkg : Package ℕ)
    → IsEntry n pkg (load_all names)
    → workspace n ≡ some pkg
load_all-IsWithin [] n pkg i = cc
load_all-IsWithin (k ∷ names) n pkg i = elim (Bool-cases (k == codes "tp")) [
  | inl same ↦
      Every-put (λ m p. workspace m ≡ some p) k tp (load_all names) (rw same refl)
        (load_all-IsWithin names) n pkg (subst (IsEntry n pkg) (rw same refl) i)
  | inr other ↦ load_all-IsWithin names n pkg (subst (IsEntry n pkg) (rw other refl) i)
]

load-IsWithin : IsWithin deref jar_files workspace load
load-IsWithin names pkgs h n pkg i =
    let same : load_all names ≡ pkgs = cc in
    load_all-IsWithin names n pkg (subst (IsEntry n pkg) (sym same) i)

abbrev pkgs : Packages ℕ
pkgs = (codes "tp", tp) ∷ []

resolve-AreAnswers_example :
    (result : GoMap ClassName (List ℕ)) × (resolve deref jar_files 2 searched
        (codes "com.Zoo" ∷ codes "Z" ∷ [])
        []
      ≡ some result)
    × AreAnswers deref jar_files workspace searched (codes "com.Zoo" ∷ codes "Z" ∷ []) result
    × AreFound deref jar_files workspace pkgs (codes "com.Zoo" ∷ codes "Z" ∷ []) result
resolve-AreAnswers_example =
    resolve-AreAnswers deref jar_files workspace load (λ ws d. codes "tp" ∷ []) 3 (codes "/ws")
      (codes "tp") pkgs searched rank 2 (codes "com.Zoo" ∷ codes "Z" ∷ []) [] load-IsConsistent
      load-IsWithin refl made falls (λ r. ground arith)
