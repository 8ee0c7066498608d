-- ===== src/Jadeplib/Names.antt =====
-- ExcludeClassNames and GetKindForNewRule of jadeplib/jadeplib.go. What a regular expression matches
-- is a parameter, `none` where it does not compile.
use tools_jvm_autodeps.Base.{
  ◌≡◌, refl, ap, ◌≢◌, ◌↔◌, inl, inr, Bool, true, false, not, ◌&&◌, ◌||◌, Option, none, some, List,
  [], ◌∷◌, arith, if◌then◌else◌, Bool-cases, ◌==◌, Text, text_beq_iff, nat_eq, text_eq,
}
use tools_jvm_autodeps.GoMap.{contains}
use tools_jvm_autodeps.Strings.{codes, has_suffix}
use tools_jvm_autodeps.Jadeplib.{ClassName}

abbrev pub matched : Option Bool → Bool
matched none = false
matched (some b) = b

module _ (match_string : Text → Text → Option Bool) where
  -- the inner loop; an expression that does not compile is skipped
  unfoldable pub is_excluded : List Text → ClassName → Bool
  is_excluded [] class_name = false
  is_excluded (regexp ∷ blacklist_regexps) class_name =
      matched (match_string regexp class_name) || is_excluded blacklist_regexps class_name

  unfoldable pub exclude_class_names : List Text → List ClassName → List ClassName
  exclude_class_names blacklist_regexps [] = []
  exclude_class_names blacklist_regexps (c ∷ class_names) =
      let rest = exclude_class_names blacklist_regexps class_names in
      if is_excluded blacklist_regexps c then rest else c ∷ rest

  is_excluded_iff :
      (blacklist_regexps : List Text) (c : ClassName)
      → (is_excluded blacklist_regexps c ≡ true) ↔ (
          (regexp : Text) × (contains regexp blacklist_regexps ≡ true)
          × (match_string regexp c ≡ some true))
  unfolding is_excluded
  is_excluded_iff [] c = (λ h. cc, λ (r, i, m). cc)
  is_excluded_iff (regexp ∷ blacklist_regexps) c =
      let ih = is_excluded_iff blacklist_regexps c in
      (
        λ h. elim (Bool-cases (matched (match_string regexp c))) [
          | inl hit ↦ (regexp, ground (arith, text_beq_iff regexp regexp), ground arith)
          | inr miss ↦ let (r, i, m) = ih.0 (ground arith) in (r, ground arith, m)
        ],
        λ (r, i, m). elim (Bool-cases (regexp == r)) [
          | inl same ↦ ground (arith, ap (λ x. match_string x c) ((text_beq_iff regexp r).0 same))
          | inr other ↦ ground (arith, ih.1 (r, (ground arith), m))
        ],
      )

  contains-exclude_class_names :
      (blacklist_regexps : List Text) (class_names : List ClassName) (c : ClassName)
      → contains c (exclude_class_names blacklist_regexps class_names)
        ≡ (contains c class_names && not (is_excluded blacklist_regexps c))
  unfolding exclude_class_names
  contains-exclude_class_names blacklist_regexps [] c = refl
  contains-exclude_class_names blacklist_regexps (n ∷ class_names) c = ground (
    arith,
    contains-exclude_class_names blacklist_regexps class_names c,
    text_beq_iff n c,
    ap (is_excluded blacklist_regexps),
  )

  -- ExcludeClassNames keeps exactly the class names that no expression matches. An expression that
  -- does not compile excludes none.
  pub exclude_class_names_iff :
      (blacklist_regexps : List Text) (class_names : List ClassName) (c : ClassName)
      → (contains c (exclude_class_names blacklist_regexps class_names) ≡ true) ↔ (
          (contains c class_names ≡ true)
          × ((regexp : Text)
              → contains regexp blacklist_regexps ≡ true
              → match_string regexp c ≢ some true))
  exclude_class_names_iff blacklist_regexps class_names c =
      let kept = contains-exclude_class_names blacklist_regexps class_names c in
      let hit = is_excluded_iff blacklist_regexps c in
      (
        λ h. (ground arith, λ regexp i m. let out = hit.1 (regexp, i, m) in ground arith),
        λ (here, misses). elim (Bool-cases (is_excluded blacklist_regexps c)) [
          | inl out ↦ let (regexp, i, m) = hit.0 out in elim (misses regexp i m) [ ]
          | inr stays ↦ ground arith
        ],
      )

-- GetKindForNewRule
pub get_kind_for_new_rule : Text → List ClassName → Text
get_kind_for_new_rule filename class_names =
    if not (has_suffix filename (codes "Test.java"))
    then codes "java_library"
    else if contains (codes "org.junit.Test") class_names
    then codes "java_test"
    else codes "java_library"
