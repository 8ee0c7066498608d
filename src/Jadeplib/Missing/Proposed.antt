-- ===== src/Jadeplib/Missing/Proposed.antt =====
-- What MissingDeps proposes, through the visibilities and the sorting.
use tools_jvm_autodeps.Base.{
  ◌≡◌, refl, subst, ◌⊎◌, inl, inr, Bool, true, false, List, [], ◌∷◌, arith, Bool-cases, List-cases,
  Eq, ◌==◌, Text, text_beq_iff, nat_eq, text_eq,
}
use tools_jvm_autodeps.GoMap.{GoMap, contains, get, put}
use tools_jvm_autodeps.Bazel.{Label, Rule, rule_label}
use tools_jvm_autodeps.Filter.Search.{VisQuery, vis_query_eq}
use tools_jvm_autodeps.Jadeplib.{ClassName}
use tools_jvm_autodeps.Jadeplib.Missing.{labels_of, visible, or_all, missing_for}
use tools_jvm_autodeps.GoMap.Entries.{IsEntry, Every, Every-put}

module _ {Ref : Type 0} ⦃e : Eq Ref⦄ (deref : Ref → Rule)
    (vis_result : GoMap (VisQuery Ref) Bool) where
  abbrev pub is_visible : Text → Ref → Bool
  is_visible pkg r = get false (record { rule = r; pkg = pkg }) vis_result

  of_labels_of :
      (rules : List Ref) (l : Label)
      → contains l (labels_of deref rules) ≡ true
      → (r : Ref) × (contains r rules ≡ true) × (rule_label (deref r) ≡ l)
  unfolding labels_of
  of_labels_of [] l h = cc
  of_labels_of (r ∷ rules) l h = elim (Bool-cases (rule_label (deref r) == l)) [
    | inl same ↦ (r, ground (arith, e.beq_iff r r), (text_beq_iff (rule_label (deref r)) l).0 same)
    | inr other ↦ let (x, i, q) = of_labels_of rules l (ground arith) in (x, ground arith, q)
  ]

  of_visible :
      (pkg : Text) (rules : List Ref) (l : Label)
      → contains l (visible deref vis_result pkg rules) ≡ true
      → (r : Ref) × (contains r rules ≡ true)
        × (rule_label (deref r) ≡ l)
        × (is_visible pkg r ≡ true)
  unfolding visible
  of_visible pkg [] l h = cc
  of_visible pkg (r ∷ rules) l h = elim (Bool-cases (is_visible pkg r)) [
    | inl shown ↦ elim (Bool-cases (rule_label (deref r) == l)) [
      | inl same ↦
          (r, ground (arith, e.beq_iff r r), (text_beq_iff (rule_label (deref r)) l).0 same, shown)
      | inr other ↦
          let (x, i, q, s) = of_visible pkg rules l (ground arith) in (x, ground arith, q, s)
    ]
    | inr hidden ↦
        let (x, i, q, s) = of_visible pkg rules l (ground arith) in (x, ground arith, q, s)
  ]

  visible_none :
      (pkg : Text) (rules : List Ref) (r : Ref)
      → visible deref vis_result pkg rules ≡ []
      → contains r rules ≡ true
      → is_visible pkg r ≡ false
  unfolding visible
  visible_none pkg [] r h i = cc
  visible_none pkg (x ∷ rules) r h i = elim (Bool-cases (is_visible pkg x)) [
    | inl shown ↦ ground arith
    | inr hidden ↦ elim (Bool-cases (x == r)) [
      | inl same ↦ subst (λ y. is_visible pkg y ≡ false) ((e.beq_iff x r).0 same) hidden
      | inr other ↦ visible_none pkg rules r (ground arith) (ground arith)
    ]
  ]

  -- A label that may be proposed for a class to a rule in `pkg`: that of a rule among the candidates
  -- `cs` for the class, which is visible, unless none of the candidates is.
  pub record IsChoice (pkg : Text) (candidates : GoMap ClassName (List Ref)) (cls : ClassName)
      (l : Label) : Type 0 where
    pub cs : List Ref
    pub entry : IsEntry cls cs candidates
    pub chosen : Ref
    pub among : contains chosen cs ≡ true
    pub labelled : rule_label (deref chosen) ≡ l
    pub shown :
        (is_visible pkg chosen ≡ true)
        ⊎ ((r : Ref) → contains r cs ≡ true → is_visible pkg r ≡ false)

  abbrev pub Choices : Text → GoMap ClassName (List Ref) → GoMap ClassName (List Label) → Type 0
  Choices pkg candidates m =
      Every (λ cls labels. (l : Label) → contains l labels ≡ true → IsChoice pkg candidates cls l) m

  choose :
      (pkg : Text) (candidates : GoMap ClassName (List Ref)) (cls : ClassName) (cs : List Ref)
      → IsEntry cls cs candidates
      → (l : Label)
      → contains l (or_all deref (visible deref vis_result pkg cs) (labels_of deref cs)) ≡ true
      → IsChoice pkg candidates cls l
  choose pkg candidates cls cs i l h = elim (List-cases (visible deref vis_result pkg cs)) [
    | inl none_visible ↦
        let (r, j, q) = of_labels_of cs l (ground arith) in
        record {
          cs = cs;
          entry = i;
          chosen = r;
          among = j;
          labelled = q;
          shown = inr (λ x k. visible_none pkg cs x none_visible k);
        }
    | inr (x, xs, some_visible) ↦
        let (r, j, q, s) = of_visible pkg cs l (ground arith) in
        record { cs = cs; entry = i; chosen = r; among = j; labelled = q; shown = inl s }
  ]

  pub missing_for-Choices :
      (pkg : Text) (candidates : GoMap ClassName (List Ref)) (m : GoMap ClassName (List Label))
      (rest : GoMap ClassName (List Ref))
      → ((cls : ClassName) (cs : List Ref) → IsEntry cls cs rest → IsEntry cls cs candidates)
      → Choices pkg candidates m
      → Choices pkg candidates (missing_for deref vis_result pkg m rest)
  unfolding missing_for
  missing_for-Choices pkg candidates m [] inside h = h
  missing_for-Choices pkg candidates m ((cls, cs) ∷ rest) inside h =
      let labels = or_all deref (visible deref vis_result pkg cs) (labels_of deref cs) in
      missing_for-Choices pkg candidates (put cls labels m) rest (λ c x i. inside c x (inr i))
        (Every-put (λ c ls. (l : Label) → contains l ls ≡ true → IsChoice pkg candidates c l) cls
          labels m (choose pkg candidates cls cs (inside cls cs (inl (refl, refl)))) h)
