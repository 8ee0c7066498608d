-- ===== src/Parser/ClassNames/Extracted.antt =====
-- ExtractClassNameFromQualifiedName takes the package and the first class name behind it.
use tools_jvm_autodeps.Base.{
  ℕ, suc, ◌+◌, ◌≡◌, refl, ap, ◌∙◌, ◌↔◌, inl, inr, true, false, some, List, [], ◌∷◌, ◌++◌,
  append_assoc, arith, Bool-cases, length, Text, nat_eq, text_eq,
}
use tools_jvm_autodeps.Strings.{dot, join_byte}
use tools_jvm_autodeps.Parser.ClassNames.{
  Unicode, is_lower_case, looks_like_simple_class_name, extract_from,
  extract_class_name_from_qualified_name,
}

module _ (unicode : Unicode) where
  -- the parts of a package: in lower case, and not like a class name
  abbrev pub ArePackage : List Text → Type 0
  ArePackage [] = Unit
  ArePackage (p ∷ parts) =
      (looks_like_simple_class_name unicode p ≡ false)
      × (is_lower_case unicode p ≡ true)
      × ArePackage parts

  -- The parts are a package, a class name at the index `i`, and any parts behind it.
  pub record IsQualified (parts : List Text) (name : Text) (i : ℕ) : Type 0 where
    pub package_parts : List Text
    pub class_part : Text
    pub behind : List Text
    pub splits : parts ≡ package_parts ++ class_part ∷ behind
    pub are_package : ArePackage package_parts
    pub is_class : looks_like_simple_class_name unicode class_part ≡ true
    pub index_is : i ≡ length package_parts
    pub name_is : name ≡ join_byte (package_parts ++ class_part ∷ []) dot

  extract_from-package :
      (i : ℕ) (result pre : List Text) (c : Text) (rest : List Text)
      → ArePackage pre
      → looks_like_simple_class_name unicode c ≡ true
      → extract_from unicode i result (pre ++ c ∷ rest)
        ≡ some (join_byte (result ++ (pre ++ c ∷ [])) dot, i + length pre)
  unfolding extract_from
  extract_from-package i result [] c rest all looks = ground arith
  extract_from-package i result (p ∷ pre) c rest (not_class, lower, all) looks = ground (
    arith,
    extract_from-package (suc i) (result ++ p ∷ []) pre c rest all looks,
    append_assoc result (p ∷ []) (pre ++ c ∷ []),
    ap (λ ps. join_byte ps dot),
  )

  extract_from-some :
      (i : ℕ) (result parts : List Text) (name : Text) (k : ℕ)
      → extract_from unicode i result parts ≡ some (name, k)
      → (pre : List Text) × (c : Text) × (rest : List Text) × (parts ≡ pre ++ c ∷ rest)
        × ArePackage pre
        × (looks_like_simple_class_name unicode c ≡ true)
        × (k ≡ i + length pre)
        × (name ≡ join_byte (result ++ (pre ++ c ∷ [])) dot)
  unfolding extract_from
  extract_from-some i result [] name k h = cc
  extract_from-some i result (p ∷ parts) name k h =
      elim (Bool-cases (looks_like_simple_class_name unicode p)) [
        | inl looks ↦ ([], p, parts, refl, tt, looks, ground arith, ground arith)
        | inr other ↦ elim (Bool-cases (is_lower_case unicode p)) [
          | inr upper ↦ ground arith
          | inl lower ↦
              let (pre, c, rest, splits, all, looks, at, named) =
                extract_from-some (suc i) (result ++ p ∷ []) parts name k (ground arith) in
              (
                p ∷ pre,
                c,
                rest,
                ap (λ ps. p ∷ ps) splits,
                (other, lower, all),
                looks,
                omega arith,
                named ∙ ap (λ ps. join_byte ps dot) (append_assoc result (p ∷ []) (pre ++ c ∷ [])),
              )
        ]
      ]

  -- The result is a name and an index exactly if the parts are a package, a class name at that index,
  -- and more; the name is that of the class in its package.
  pub extract_class_name_iff :
      (parts : List Text) (name : Text) (i : ℕ)
      → (extract_class_name_from_qualified_name unicode parts ≡ some (name, i))
        ↔ IsQualified parts name i
  unfolding extract_class_name_from_qualified_name
  extract_class_name_iff parts name i = (
    λ h.
        let (pre, c, rest, splits, all, looks, at, named) = extract_from-some 0 [] parts name i h in
        record {
          package_parts = pre;
          class_part = c;
          behind = rest;
          splits = splits;
          are_package = all;
          is_class = looks;
          index_is = omega arith;
          name_is = named;
        },
    λ q.
        ap (extract_from unicode 0 []) q.splits
        ∙ (extract_from-package 0 [] q.package_parts q.class_part q.behind q.are_package q.is_class
            ∙ ground arith),
  )
