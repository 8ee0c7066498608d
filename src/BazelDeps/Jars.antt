-- ===== src/BazelDeps/Jars.antt =====
-- The classes that NewResolver knows are those of the jars of java_import rules.
use tools_jvm_autodeps.Base.{
  ◌≡◌, refl, sym, ap, ◌∙◌, ◌⊎◌, inl, inr, Bool, true, false, ◌&&◌, ◌||◌, Option, none, some, List,
  [], ◌∷◌, ◌++◌, arith, is_some, if◌then◌else◌, Bool-cases, Option-cases, Eq, ◌==◌, Text, nat_eq,
  text_eq,
}
use tools_jvm_autodeps.GoMap.{GoMap, contains, lookup, put, lookup-put}
use tools_jvm_autodeps.Strings.{codes}
use tools_jvm_autodeps.Paths.{path_join}
use tools_jvm_autodeps.PkgLoading.{Packages}
use tools_jvm_autodeps.Bazel.{Label, Rule, Package, string_list_attr}
use tools_jvm_autodeps.Jadeplib.{ClassName}
use tools_jvm_autodeps.BazelDeps.{
  Search, Layer, list_classes, put_classes, list_jars, list_jar, visit_rule, candidates_of,
  add_labels, next_labels,
}

module _ {Ref : Type 0} ⦃e : Eq Ref⦄ (deref : Ref → Rule) (jar_files : Text → List Text) where
  -- whether one of the jars has the class
  abbrev pub has_class : Text → List Text → ClassName → Bool
  has_class path [] cls = false
  has_class path (jar ∷ jars) cls =
      contains cls (list_classes (jar_files (path_join (path ∷ jar ∷ []))))
      || has_class path jars cls

  abbrev pub jars_have : Ref → ClassName → Option (Package Ref) → Bool
  jars_have rule cls none = false
  jars_have rule cls (some pkg) =
      has_class pkg.path (string_list_attr (deref rule) (codes "jars")) cls

  -- whether a rule is a java_import that has the class in one of its jars, by the packages given
  abbrev pub imports : Packages Ref → Ref → ClassName → Bool
  imports pkgs rule cls =
      (deref rule).schema == codes "java_import"
      && jars_have rule cls (lookup (deref rule).pkg_name pkgs)

  lookup-put_classes :
      (rule : Ref) (m : GoMap ClassName Ref) (cls : List ClassName) (c : ClassName)
      → lookup c (put_classes deref jar_files rule m cls)
        ≡ (if contains c cls then some rule else lookup c m)
  unfolding put_classes
  lookup-put_classes rule m [] c = refl
  lookup-put_classes rule m (d ∷ cls) c =
      ground (arith, lookup-put_classes rule (put d rule m) cls c, lookup-put d c rule m)

  lookup-list_jars :
      (rule : Ref) (path : Text) (m : GoMap ClassName Ref) (jars : List Text) (c : ClassName)
      → lookup c (list_jars deref jar_files rule path m jars)
        ≡ (if has_class path jars c then some rule else lookup c m)
  unfolding list_jars
  lookup-list_jars rule path m [] c = refl
  lookup-list_jars rule path m (jar ∷ jars) c =
      let cls = list_classes (jar_files (path_join (path ∷ jar ∷ []))) in
      ground (
        arith,
        lookup-list_jars rule path (put_classes deref jar_files rule m cls) jars c,
        lookup-put_classes rule m cls c,
      )

  lookup-visit_rule :
      (rule : Ref) (s : Search Ref) (c : ClassName)
      → lookup c (visit_rule deref jar_files rule s).class_to_rule
        ≡ (if imports s.pkgs rule c then some rule else lookup c s.class_to_rule)
  unfolding visit_rule list_jar
  lookup-visit_rule rule s c = elim (Bool-cases ((deref rule).schema == codes "java_import")) [
    | inr other ↦ rw other refl
    | inl import ↦ elim (Option-cases (lookup (deref rule).pkg_name s.pkgs)) [
      | inl missing ↦ rw import (ground arith)
      | inr (pkg, there) ↦
          let jars = string_list_attr (deref rule) (codes "jars") in
          let opened : (visit_rule deref jar_files rule s).class_to_rule
              ≡ list_jars deref jar_files rule pkg.path s.class_to_rule jars =
            ground arith in
          ap (lookup c) opened
          ∙ lookup-list_jars rule pkg.path s.class_to_rule jars c
          ∙ rw (import, there) refl
    ]
  ]

  pkgs-visit_rule :
      (rule : Ref) (s : Search Ref) → (visit_rule deref jar_files rule s).pkgs ≡ s.pkgs
  unfolding visit_rule list_jar
  pkgs-visit_rule rule s = ground arith

  -- the labels of a rule leave the classes and the packages alone
  record Keeps (s t : Search Ref) : Type 0 where
    same_classes : t.class_to_rule ≡ s.class_to_rule
    same_pkgs : t.pkgs ≡ s.pkgs

  add_labels-Keeps :
      (rule : Ref) (s : Search Ref) (layer : Layer Ref) (cs : List Label)
      → Keeps s (add_labels deref jar_files rule (s, layer) cs).0
  unfolding add_labels
  add_labels-Keeps rule s layer [] = record { same_classes = refl; same_pkgs = refl }
  add_labels-Keeps rule s layer (c ∷ cs) = elim (Bool-cases (contains c s.seen_labels)) [
    | inl seen ↦ rw seen (add_labels-Keeps rule s layer cs)
    | inr new ↦
        let t = record s { seen_labels = s.seen_labels ++ c ∷ [] } in
        let next : Layer Ref = record {
          to_load = layer.to_load ++ c ∷ [];
          parent_labels = put c rule layer.parent_labels;
        } in
        rw new (
          let k = add_labels-Keeps rule t next cs in
          record { same_classes = k.same_classes; same_pkgs = k.same_pkgs })
  ]

  -- the rule that a layer leaves for a class, over the one before
  abbrev pub owner : Packages Ref → ClassName → List Ref → Option Ref → Option Ref
  owner pkgs cls [] found = found
  owner pkgs cls (rule ∷ rules) found =
      owner pkgs cls rules (if imports pkgs rule cls then some rule else found)

  pub lookup-next_labels :
      (s : Search Ref) (layer : Layer Ref) (rules : List Ref) (c : ClassName)
      → (lookup c (next_labels deref jar_files (s, layer) rules).0.class_to_rule
          ≡ owner s.pkgs c rules (lookup c s.class_to_rule))
        × ((next_labels deref jar_files (s, layer) rules).0.pkgs ≡ s.pkgs)
  unfolding next_labels
  lookup-next_labels s layer [] c = (refl, refl)
  lookup-next_labels s layer (rule ∷ rules) c =
      let visited = visit_rule deref jar_files rule s in
      let cs = candidates_of deref jar_files (deref rule) in
      let added = add_labels deref jar_files rule (visited, layer) cs in
      let k = add_labels-Keeps rule visited layer cs in
      let (classes, pkgs) = lookup-next_labels added.0 added.1 rules c in
      let same : added.0.pkgs ≡ s.pkgs = k.same_pkgs ∙ pkgs-visit_rule rule s in
      let first : lookup c added.0.class_to_rule
          ≡ (if imports s.pkgs rule c then some rule else lookup c s.class_to_rule) =
        ap (lookup c) k.same_classes ∙ lookup-visit_rule rule s c in
      (
        classes
            ∙ ap (λ p. owner p c rules (lookup c added.0.class_to_rule)) same
            ∙ ap (owner s.pkgs c rules) first,
        pkgs ∙ same,
      )

  pub owner_sound :
      (pkgs : Packages Ref) (c : ClassName) (rules : List Ref) (found : Option Ref) (rule : Ref)
      → owner pkgs c rules found ≡ some rule
      → (imports pkgs rule c ≡ true) ⊎ (found ≡ some rule)
  owner_sound pkgs c [] found rule h = inr h
  owner_sound pkgs c (r ∷ rules) found rule h =
      elim (owner_sound pkgs c rules (if imports pkgs r c then some r else found) rule h) [
        | inl listed ↦ inl listed
        | inr before ↦ owner_first (imports pkgs r c) refl before
      ]
    where
      owner_first :
          (has : Bool)
          → imports pkgs r c ≡ has
          → (if has then some r else found) ≡ some rule
          → (imports pkgs rule c ≡ true) ⊎ (found ≡ some rule)
      owner_first true is b =
          let same : r ≡ rule = ground arith in inl (ap (λ k. imports pkgs k c) (sym same) ∙ is)
      owner_first false is b = inr b

  pub owner_keeps :
      (pkgs : Packages Ref) (c : ClassName) (rules : List Ref) (found : Option Ref)
      → is_some found ≡ true
      → is_some (owner pkgs c rules found) ≡ true
  owner_keeps pkgs c [] found h = h
  owner_keeps pkgs c (r ∷ rules) found h =
      owner_keeps pkgs c rules (if imports pkgs r c then some r else found) (one (imports pkgs r c))
    where
      one : (has : Bool) → is_some (if has then some r else found) ≡ true
      one true = refl
      one false = h

  pub owner_complete :
      (pkgs : Packages Ref) (c : ClassName) (rules : List Ref) (found : Option Ref) (rule : Ref)
      → contains rule rules ≡ true
      → imports pkgs rule c ≡ true
      → is_some (owner pkgs c rules found) ≡ true
  owner_complete pkgs c [] found rule h is = cc
  owner_complete pkgs c (r ∷ rules) found rule h is = elim (Bool-cases (r == rule)) [
    | inl same ↦
        let r_is : imports pkgs r c ≡ true =
          ap (λ k. imports pkgs k c) ((e.beq_iff r rule).0 same) ∙ is in
        owner_keeps pkgs c rules (if imports pkgs r c then some r else found)
          (ap (λ b. is_some (if b then some r else found)) r_is)
    | inr other ↦
        owner_complete pkgs c rules (if imports pkgs r c then some r else found) rule (ground arith)
          is
  ]
