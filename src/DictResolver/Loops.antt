-- ===== src/DictResolver/Loops.antt =====
-- The loops of Resolve, each as an equation on the lookups in its result.
use tools_jvm_autodeps.Base.{
  ◌≡◌, refl, sym, ap, ◌∙◌, inl, inr, true, false, Option, none, some, List, [], ◌∷◌, ◌++◌,
  append-nil, append_assoc, arith, if◌then◌else◌, Bool-cases, Option-cases, ◌==◌, text_beq_iff,
  nat_eq, text_eq,
}
use tools_jvm_autodeps.GoMap.{
  GoMap, contains, lookup, get, put, delete, lookup-put, contains-append, IsMap, lookup-delete,
  lookup-none, get-none, get-some,
}
use tools_jvm_autodeps.Bazel.{Label}
use tools_jvm_autodeps.GoMap.Entries.{IsMap-put, IsMap-delete}
use tools_jvm_autodeps.Jadeplib.{ClassName}
use tools_jvm_autodeps.DictResolver.{
  Dict, Found, candidates_of, delete_all, all_labels, append_found, named_rule, rule_at,
  add_satisfied, add_candidates,
}

-- no class name twice
abbrev pub AreDistinct : List ClassName → Type 0
AreDistinct [] = Unit
AreDistinct (c ∷ cs) = (contains c cs ≡ false) × AreDistinct cs

lookup-candidates_others :
    (dict m : Dict) (names : List ClassName) (j : ClassName)
    → contains j names ≡ false
    → lookup j (candidates_of dict m names) ≡ lookup j m
unfolding candidates_of
lookup-candidates_others dict m [] j h = refl
lookup-candidates_others dict m (c ∷ names) j h = elim (Option-cases (lookup c dict)) [
  | inl e ↦ rw e (lookup-candidates_others dict m names j (ground arith))
  | inr (labels, e) ↦ rw e (
      lookup-candidates_others dict (put c (get [] c m ++ labels) m) names j (ground arith)
      ∙ ground (arith, lookup-put c j (get [] c m ++ labels) m))
]

-- The candidates of distinct names are the entries of the map for them.
pub lookup-candidates_of :
    (dict m : Dict) (names : List ClassName) (j : ClassName)
    → AreDistinct names
    → lookup j m ≡ none
    → lookup j (candidates_of dict m names) ≡ (if contains j names then lookup j dict else none)
unfolding candidates_of
lookup-candidates_of dict m [] j d h = h
lookup-candidates_of dict m (c ∷ names) j (fresh, d) h = elim (Bool-cases (c == j)) [
  | inl same ↦ elim (Option-cases (lookup c dict)) [
    | inl e ↦ ground (arith, text_beq_iff c j, lookup-candidates_others dict m names j)
    | inr (labels, e) ↦ ground (
      arith,
      text_beq_iff c j,
      lookup-candidates_others dict (put c (get [] c m ++ labels) m) names j,
      lookup-put c j (get [] c m ++ labels) m,
      get-none [] j m h,
    )
  ]
  | inr other ↦ elim (Option-cases (lookup c dict)) [
    | inl e ↦ ground (arith, lookup-candidates_of dict m names j d h)
    | inr (labels, e) ↦ ground (
      arith,
      lookup-candidates_of dict (put c (get [] c m ++ labels) m) names j d,
      lookup-put c j (get [] c m ++ labels) m,
    )
  ]
]

pub candidates_of-IsMap :
    (dict m : Dict) (names : List ClassName) → IsMap m → IsMap (candidates_of dict m names)
unfolding candidates_of
candidates_of-IsMap dict m [] h = h
candidates_of-IsMap dict m (c ∷ names) h = elim (Option-cases (lookup c dict)) [
  | inl e ↦ rw e (candidates_of-IsMap dict m names h)
  | inr (labels, e) ↦ rw e (
      candidates_of-IsMap dict (put c (get [] c m ++ labels) m) names
        (IsMap-put c (get [] c m ++ labels) m h))
]

pub lookup-delete_all :
    (m : Dict) (names : List ClassName) (j : ClassName)
    → lookup j (delete_all m names) ≡ (if contains j names then none else lookup j m)
unfolding delete_all
lookup-delete_all m [] j = refl
lookup-delete_all m (c ∷ names) j =
    ground (arith, lookup-delete_all (delete c m) names j, lookup-delete c j m)

pub delete_all-IsMap : (m : Dict) (names : List ClassName) → IsMap m → IsMap (delete_all m names)
unfolding delete_all
delete_all-IsMap m [] h = h
delete_all-IsMap m (c ∷ names) h = delete_all-IsMap (delete c m) names (IsMap-delete c m h)

all_labels_keeps :
    (l : Label) (labels : List Label) (m : Dict)
    → contains l labels ≡ true
    → contains l (all_labels labels m) ≡ true
unfolding all_labels
all_labels_keeps l labels [] h = h
all_labels_keeps l labels ((c, ls) ∷ m) h =
    all_labels_keeps l (labels ++ ls) m (ground (arith, contains-append l labels ls))

-- Every label of a candidate is among those that are loaded.
pub contains-all_labels :
    (cls : ClassName) (ls : List Label) (l : Label) (labels : List Label) (m : Dict)
    → lookup cls m ≡ some ls
    → contains l ls ≡ true
    → contains l (all_labels labels m) ≡ true
unfolding all_labels
contains-all_labels cls ls l labels [] h i = cc
contains-all_labels cls ls l labels ((c, cs) ∷ m) h i = elim (Bool-cases (c == cls)) [
  | inl same ↦ all_labels_keeps l (labels ++ cs) m (ground (arith, contains-append l labels cs))
  | inr other ↦ contains-all_labels cls ls l (labels ++ cs) m (ground arith) i
]

module _ {Ref : Type 0} where
  -- what the labels stand for, in their order
  abbrev pub consed : Option (Found Ref) → List (Found Ref) → List (Found Ref)
  consed none rs = rs
  consed (some r) rs = r ∷ rs

  abbrev pub collected : (Label → Option (Found Ref)) → List Label → List (Found Ref)
  collected find [] = []
  collected find (l ∷ ls) = consed (find l) (collected find ls)

  abbrev pub grown : List (Found Ref) → Option (List (Found Ref)) → Option (List (Found Ref))
  grown [] o = o
  grown (r ∷ rs) none = some (r ∷ rs)
  grown (r ∷ rs) (some qs) = some (qs ++ r ∷ rs)

  grown-some : (rs qs : List (Found Ref)) → grown rs (some qs) ≡ some (qs ++ rs)
  grown-some [] qs = ap some (sym (append-nil qs))
  grown-some (r ∷ rs) qs = refl

  grown_twice :
      (cls : ClassName) (r : Found Ref) (rs : List (Found Ref))
      (m : GoMap ClassName (List (Found Ref)))
      → grown rs (some (get [] cls m ++ r ∷ [])) ≡ grown (r ∷ rs) (lookup cls m)
  grown_twice cls r rs m = elim (Option-cases (lookup cls m)) [
    | inl e ↦ rw (e, get-none [] cls m e) (grown-some rs (r ∷ []))
    | inr (qs, e) ↦
        rw (e, get-some [] cls qs m e)
          (grown-some rs (qs ++ r ∷ []) ∙ ap some (append_assoc qs (r ∷ []) rs))
  ]

  pub lookup-append_found :
      (find : Label → Option (Found Ref)) (cls : ClassName) (ls : List Label)
      (m : GoMap ClassName (List (Found Ref))) (j : ClassName)
      → lookup j (append_found find cls ls m)
        ≡ (if cls == j then grown (collected find ls) (lookup j m) else lookup j m)
  unfolding append_found
  lookup-append_found find cls [] m j = ground arith
  lookup-append_found find cls (l ∷ ls) m j = elim (Option-cases (find l)) [
    | inl e ↦ rw e (lookup-append_found find cls ls m j)
    | inr (r, e) ↦ rw e (
        lookup-append_found find cls ls (put cls (get [] cls m ++ r ∷ []) m) j
        ∙ ground (
          arith,
          lookup-put cls j (get [] cls m ++ r ∷ []) m,
          grown_twice cls r (collected find ls) m,
          text_beq_iff cls j,
        ))
  ]

  abbrev pub grown_by :
      (List Label → List (Found Ref))
      → Option (List Label)
      → Option (List (Found Ref))
      → Option (List (Found Ref))
  grown_by f none o = o
  grown_by f (some ls) o = grown (f ls) o

  pub lookup-add_satisfied :
      (result : GoMap ClassName (List (Found Ref))) (already : Dict) (j : ClassName)
      → IsMap already
      → lookup j (add_satisfied result already)
        ≡ grown_by (collected named_rule) (lookup j already) (lookup j result)
  unfolding add_satisfied
  lookup-add_satisfied result [] j u = refl
  lookup-add_satisfied result ((c, ls) ∷ already) j (fresh, u) =
      lookup-add_satisfied (append_found named_rule c ls result) already j u
      ∙ ground (
        arith,
        lookup-append_found named_rule c ls result j,
        lookup-none c already fresh,
        text_beq_iff c j,
      )

  abbrev pub replaced_by :
      (List Label → List (Found Ref))
      → Option (List Label)
      → Option (List (Found Ref))
      → Option (List (Found Ref))
  replaced_by f none o = o
  replaced_by f (some ls) o = some (f ls)

  pub lookup-add_candidates :
      (rules : GoMap Label Ref) (result : GoMap ClassName (List (Found Ref))) (m : Dict)
      (j : ClassName)
      → IsMap m
      → lookup j (add_candidates rules result m)
        ≡ replaced_by (collected (rule_at rules)) (lookup j m) (lookup j result)
  unfolding add_candidates
  lookup-add_candidates rules result [] j u = refl
  lookup-add_candidates rules result ((c, ls) ∷ m) j (fresh, u) =
      lookup-add_candidates rules (append_found (rule_at rules) c ls (put c [] result)) m j u
      ∙ ground (
        arith,
        lookup-append_found (rule_at rules) c ls (put c [] result) j,
        lookup-put c j [] result,
        grown-some (collected (rule_at rules) ls) [],
        lookup-none c m fresh,
        text_beq_iff c j,
      )
