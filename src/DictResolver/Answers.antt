-- ===== src/DictResolver/Answers.antt =====
-- What Resolve returns for each class name.
use mathlib.Core.Option
use tools_jvm_autodeps.Base.{
  ◌≡◌, refl, sym, ap, ◌∙◌, subst₂, ◌≢◌, inl, inr, Bool, true, false, Option, none, some, List, [],
  ◌∷◌, arith, if◌then◌else◌, Option-cases, is_some, Text, text_beq_iff, nat_eq, text_eq,
}
use tools_jvm_autodeps.GoMap.{GoMap, contains, lookup, put, keys, IsMap}
use tools_jvm_autodeps.Bazel.{Label, Package}
use tools_jvm_autodeps.GoMap.Entries.{IsMap-put}
use tools_jvm_autodeps.PkgLoading.{
  ok, >>=-eq-ok, Loader, Packages, IsConsistent, find_rule, load_rules,
}
use tools_jvm_autodeps.PkgLoading.Lookup.{lookup-load_rules}
use tools_jvm_autodeps.ResolverUtil.Cover.{cover_keeps}
use tools_jvm_autodeps.ResolverUtil.{
  first_satisfying, cover, class_loop, satisfied_by_existing_deps,
}
use tools_jvm_autodeps.ResolverUtil.Satisfied.{lookup-satisfied_by_existing_deps, covered}
use tools_jvm_autodeps.Jadeplib.{ClassName, DepsOfRules}
use tools_jvm_autodeps.DictResolver.{
  Dict, Found, as_loaded, candidates_of, delete_all, all_labels, named_rule, rule_at, add_satisfied,
  add_candidates, resolve,
}
use tools_jvm_autodeps.DictResolver.Loops.{
  AreDistinct, lookup-candidates_of, candidates_of-IsMap, lookup-delete_all, delete_all-IsMap,
  contains-all_labels, collected, grown, grown_by, replaced_by, lookup-add_satisfied,
  lookup-add_candidates,
}

class_loop-IsMap :
    (rules : DepsOfRules) (already satisfying : Dict)
    → IsMap already
    → IsMap (class_loop rules already satisfying)
unfolding class_loop
class_loop-IsMap rules already [] h = h
class_loop-IsMap rules already ((cls, possible) ∷ satisfying) h =
    elim (Option-cases (cover possible [] rules)) [
      | inl e ↦ rw e (class_loop-IsMap rules already satisfying h)
      | inr (ds, e) ↦
          rw e (class_loop-IsMap rules (put cls ds already) satisfying (IsMap-put cls ds already h))
    ]

satisfied_by_existing_deps-IsMap :
    (rules : DepsOfRules) (satisfying : Dict) → IsMap (satisfied_by_existing_deps rules satisfying)
unfolding satisfied_by_existing_deps
satisfied_by_existing_deps-IsMap [] satisfying = tt
satisfied_by_existing_deps-IsMap (rule ∷ rules) satisfying =
    class_loop-IsMap (rule ∷ rules) [] satisfying tt

-- the labels among `possible` that stand for what the consuming rules have already, if all have one
abbrev pub satisfied_among : DepsOfRules → List Label → Option (List Label)
satisfied_among [] possible = none
satisfied_among (rule ∷ rules) possible = cover possible [] (rule ∷ rules)

abbrev satisfied_of : DepsOfRules → Option (List Label) → Option (List Label)
satisfied_of rules none = none
satisfied_of rules (some possible) = satisfied_among rules possible

lookup-satisfied :
    (rules : DepsOfRules) (satisfying : Dict) (cls : ClassName)
    → IsMap satisfying
    → lookup cls (satisfied_by_existing_deps rules satisfying)
      ≡ satisfied_of rules (lookup cls satisfying)
unfolding satisfied_by_existing_deps
lookup-satisfied [] satisfying cls u = ground arith
lookup-satisfied (rule ∷ rules) satisfying cls u =
    lookup-satisfied_by_existing_deps (rule ∷ rules) satisfying cls (λ e. ground arith) u
    ∙ covers (lookup cls satisfying)
  where
    covers : (o : Option (List Label)) → covered (rule ∷ rules) o ≡ satisfied_of (rule ∷ rules) o
    covers none = refl
    covers (some possible) = refl

cover-ne-nil :
    (possible : List Label) (rule : Label × List Label) (rules : DepsOfRules)
    → cover possible [] (rule ∷ rules) ≢ some []
unfolding cover
cover-ne-nil possible (r, existing) rules h =
    elim (Option-cases (first_satisfying r existing possible)) [
      | inl e ↦ ground arith
      | inr (x, e) ↦
          let there =
            cover_keeps possible (x ∷ []) rules [] x (ground arith)
              (ground (arith, text_beq_iff x x)) in
          ground arith
    ]

satisfied_among-ne-nil :
    (rules : DepsOfRules) (possible : List Label) → satisfied_among rules possible ≢ some []
satisfied_among-ne-nil [] possible h = ground arith
satisfied_among-ne-nil (rule ∷ rules) possible h = cover-ne-nil possible rule rules h

map-if :
    {A B : Type 0} (f : A → B) (b : Bool) (o : Option A)
    → Option.map f (if b then o else none) ≡ (if b then Option.map f o else none)
map-if f true o = refl
map-if f false o = refl

contains-keys : (k : ClassName) (m : Dict) → contains k (keys m) ≡ is_some (lookup k m)
contains-keys k [] = refl
contains-keys k ((j, v) ∷ m) = ground (arith, contains-keys k m)

module _ {Ref : Type 0} (workspace : Text → Option (Package Ref)) where
  -- the rule of a label in the workspace
  abbrev pub workspace_rule : Label → Option (Found Ref)
  workspace_rule l = as_loaded (find_rule workspace l)

  abbrev pub answer_for : Option (List Label) → List Label → List (Found Ref)
  answer_for none labels = collected workspace_rule labels
  answer_for (some ds) labels = collected named_rule ds

  -- the two last loops together, at one class name
  both_loops :
      (rules : GoMap Label Ref) (consuming_rules : DepsOfRules) (o : Option (List Label))
      → ((labels : List Label)
          → o ≡ some labels
          → satisfied_among consuming_rules labels ≡ none
          → collected (rule_at rules) labels ≡ collected workspace_rule labels)
      → let sat = satisfied_of consuming_rules o in
        replaced_by
          (collected (rule_at rules))
          (if is_some sat then none else o)
          (grown_by (collected named_rule) sat none)
        ≡ Option.map (λ labels. answer_for (satisfied_among consuming_rules labels) labels) o
  unfolding named_rule
  both_loops rules consuming_rules none same = refl
  both_loops rules consuming_rules (some labels) same =
      elim (Option-cases (satisfied_among consuming_rules labels)) [
        | inl e ↦ rw e (ap some (same labels refl e))
        | inr (ds, e) ↦ rw e (full ds e)
      ]
    where
      full :
          (ds : List Label)
          → satisfied_among consuming_rules labels ≡ some ds
          → grown (collected (named_rule {Ref = Ref}) ds) none ≡ some (collected named_rule ds)
      full [] e = absurd (satisfied_among-ne-nil consuming_rules labels e)
      full (l ∷ ds) e = refl

module _ {E Ref : Type 0} (load : Loader E Ref) (workspace : Text → Option (Package Ref)) where
  collected_rules :
      IsConsistent load workspace
      → (ls : List Label) (rules : GoMap Label Ref) (pkgs : Packages Ref)
      → load_rules load ls ≡ ok (rules, pkgs)
      → (labels : List Label) → ((l : Label) → contains l labels ≡ true → contains l ls ≡ true)
      → collected (rule_at rules) labels ≡ collected (workspace_rule workspace) labels
  unfolding rule_at
  collected_rules c ls rules pkgs h [] inside = refl
  collected_rules c ls rules pkgs h (l ∷ labels) inside =
      let one =
        lookup-load_rules load workspace c ls rules pkgs h l
          (inside l (ground (arith, text_beq_iff l l))) in
      let more = collected_rules c ls rules pkgs h labels (λ k i. inside k (ground arith)) in
      rw (one, more)

  -- For distinct class names and a loader that returns the packages of one workspace, Resolve returns
  -- exactly the asked class names that the map has. Where every consuming rule has itself or one of
  -- its dependencies among the labels of the class, these labels are returned as new rules without
  -- loading them; elsewhere the rules of all the labels that are in the workspace are returned.
  pub lookup-resolve :
      IsConsistent load workspace
      → (dict : Dict) (class_names : List ClassName) (consuming_rules : DepsOfRules)
        (result : GoMap ClassName (List (Found Ref)))
      → AreDistinct class_names
      → resolve dict load class_names consuming_rules ≡ ok result
      → (cls : ClassName)
      → lookup cls result ≡ (
          if contains cls class_names
          then Option.map
              (λ labels. answer_for workspace (satisfied_among consuming_rules labels) labels)
              (lookup cls dict)
          else none)
  unfolding resolve
  lookup-resolve c dict class_names consuming_rules result d h cls =
      let candidates = candidates_of dict [] class_names in
      let already = satisfied_by_existing_deps consuming_rules candidates in
      let rest = delete_all candidates (keys already) in
      let ((rules, pkgs), e, asked) = >>=-eq-ok (load_rules load (all_labels [] rest)) _ h in
      let is_map = candidates_of-IsMap dict [] class_names tt in
      let sat = lookup-satisfied consuming_rules candidates cls is_map in
      let left : lookup cls rest ≡ (
          if is_some (satisfied_of consuming_rules (lookup cls candidates))
          then none
          else lookup cls candidates) =
        ground (
          arith,
          lookup-delete_all candidates (keys already) cls,
          contains-keys cls already,
          sat,
        ) in
      let same =
        λ (labels : List Label) (there : lookup cls candidates ≡ some labels)
            (fails : satisfied_among consuming_rules labels ≡ none).
          collected_rules c (all_labels [] rest) rules pkgs asked labels
            (λ l i. contains-all_labels cls labels l [] rest (left ∙ rw (there, fails) refl) i) in
      let at_end : add_candidates rules (add_satisfied [] already) rest ≡ result = cc in
      ap (λ m. lookup cls m) (sym at_end)
      ∙ (lookup-add_candidates rules (add_satisfied [] already) rest cls
            (delete_all-IsMap candidates (keys already) is_map)
          ∙ (subst₂
                (λ o q.
                  replaced_by (collected (rule_at rules)) (lookup cls rest)
                    (lookup cls (add_satisfied [] already))
                  ≡ replaced_by (collected (rule_at rules)) o q)
                left
                (lookup-add_satisfied [] already cls
                    (satisfied_by_existing_deps-IsMap consuming_rules candidates)
                  ∙ ap (λ o. grown_by (collected named_rule) o none) sat)
                refl
              ∙ (both_loops workspace rules consuming_rules (lookup cls candidates) same
                  ∙ (ap
                        (Option.map (λ labels.
                          answer_for workspace (satisfied_among consuming_rules labels) labels))
                        (lookup-candidates_of dict [] class_names cls d refl)
                      ∙ map-if _ (contains cls class_names) (lookup cls dict)))))
