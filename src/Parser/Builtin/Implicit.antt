-- ===== src/Parser/Builtin/Implicit.antt =====
-- The implicit imports of the built-in classes, as isBuiltin reads them.
use tools_jvm_autodeps.Base.{
  ◌≡◌, refl, ap, ◌∙◌, inl, inr, Bool, not, ◌&&◌, ◌||◌, List, [], ◌∷◌, ◌++◌, arith, if◌then◌else◌,
  Bool-cases, length, drop, ◌==◌, Text, text_beq_iff, nat_eq, text_eq,
}
use tools_jvm_autodeps.GoMap.{GoMap, contains, keys, contains-concat}
use tools_jvm_autodeps.Strings.{dot, has_prefix}
use tools_jvm_autodeps.Sorting.{text_less, sort_by, contains-sort_by}
use tools_jvm_autodeps.Bazel.{Label}
use tools_jvm_autodeps.Jadeplib.{ClassName}
use tools_jvm_autodeps.Jadeplib.Files.{java_lang, simple_names, implicit_imports}
use tools_jvm_autodeps.Parser.Builtin.{is_builtin}
use tools_jvm_autodeps.Parser.Builtin.Order.{sort_by-IsSorted}
use tools_jvm_autodeps.Parser.Builtin.Search.{is_builtin-contains}

-- A text is a prefix and the rest behind it.
prefix-drop : (p s c : Text) → (has_prefix s p && drop (length p) s == c) ≡ (s == p ++ c)
unfolding has_prefix
prefix-drop [] s c = refl
prefix-drop (x ∷ p) [] c = refl
prefix-drop (x ∷ p) (y ∷ s) c = ground (arith, prefix-drop p s c)

-- one round of the loop, on the members
one_name :
    (p s c : Text) (in_ret in_rest : Bool)
    → let kept = has_prefix s p && not (contains dot (drop (length p) s)) in
      ((if kept then in_ret || drop (length p) s == c else in_ret)
        || (in_rest && not (contains dot c)))
      ≡ (in_ret || ((s == p ++ c || in_rest) && not (contains dot c)))
one_name p s c in_ret in_rest =
    ground (arith, prefix-drop p s c, text_beq_iff (drop (length p) s) c, ap (contains dot))

contains-simple_names :
    (names : List ClassName) (ret : List Text) (c : Text)
    → contains c (simple_names ret names)
      ≡ (contains c ret || (contains (java_lang ++ c) names && not (contains dot c)))
unfolding simple_names
contains-simple_names [] ret c = ground arith
contains-simple_names (s ∷ names) ret c =
    let simple = drop (length java_lang) s in
    let kept = has_prefix s java_lang && not (contains dot simple) in
    let in_rest = contains (java_lang ++ c) names in
    let round : contains c (simple_names (if kept then ret ++ simple ∷ [] else ret) names) ≡ (
        (if kept then contains c ret || simple == c else contains c ret)
        || (in_rest && not (contains dot c))) =
      elim (Bool-cases kept) [
        | inl yes' ↦ rw yes' (
            contains-simple_names names (ret ++ simple ∷ []) c
            ∙ ap (λ b. b || (in_rest && not (contains dot c))) (contains-concat c simple ret))
        | inr no' ↦ rw no' (contains-simple_names names ret c)
      ] in
    round ∙ one_name java_lang s c (contains c ret) in_rest

-- For the implicit imports, isBuiltin holds of the simple names of the classes in `java.lang`, and of
-- no others, whatever the order of the map.
pub is_builtin-implicit_imports :
    (dict : GoMap ClassName (List Label)) (c : Text)
    → is_builtin (implicit_imports dict) c
      ≡ (contains (java_lang ++ c) (keys dict) && not (contains dot c))
unfolding implicit_imports
is_builtin-implicit_imports dict c =
    let names = simple_names [] (keys dict) in
    is_builtin-contains (sort_by text_less names) c (sort_by-IsSorted names)
    ∙ (contains-sort_by text_less names c ∙ contains-simple_names (keys dict) [] c)
