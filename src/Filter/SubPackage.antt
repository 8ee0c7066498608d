-- ===== src/Filter/SubPackage.antt =====
-- subPackageOf: its byte read is in range, and what it decides.
use tools_jvm_autodeps.Base.{
  ◌≡◌, ◌↔◌, ◌⊎◌, inl, inr, refl, text_eq, nat_eq, ◌∷◌, [], ◌++◌, arith, ◌<◌, ◌==◌, Text, false, ℕ,
  true, length, Bool-cases, text_beq_iff, ◌∙◌, append-nil, sym, ap,
}
use tools_jvm_autodeps.Filter.{sub_package_of, byte_at}
use tools_jvm_autodeps.Strings.{has_prefix, slash}
use tools_jvm_autodeps.Strings.Laws.{has_prefix-append, has_prefix-split}

-- Wherever `subpackage[len(pkg)]` is read, the index is in range.
pub sub_package_of_in_range :
    (subpackage pkg : Text)
    → (subpackage == pkg) ≡ false
    → has_prefix subpackage pkg ≡ true
    → length pkg < length subpackage
unfolding has_prefix
sub_package_of_in_range [] [] h p = cc
sub_package_of_in_range (c ∷ s) [] h p = omega arith
sub_package_of_in_range [] (d ∷ t) h p = cc
sub_package_of_in_range (c ∷ s) (d ∷ t) h p =
    omega (arith, sub_package_of_in_range s t (ground arith) (ground arith))

byte_at-length-append : (p s : Text) (c : ℕ) → byte_at (p ++ c ∷ s) (length p) ≡ c
byte_at-length-append [] s c = refl
byte_at-length-append (d ∷ p) s c = byte_at-length-append p s c

-- What a package's sub-packages are: itself, those below it, and all of them for the root.
abbrev pub SubPackage : Text → Text → Type 0
SubPackage subpackage pkg =
    (subpackage ≡ pkg) ⊎ ((pkg ≡ []) ⊎ ((rest : Text) × (subpackage ≡ pkg ++ slash ∷ rest)))

below : (pkg rest : Text) → sub_package_of (pkg ++ slash ∷ rest) pkg ≡ true
unfolding sub_package_of
below pkg rest =
    ground (arith, has_prefix-append pkg (slash ∷ rest), byte_at-length-append pkg rest slash)

rest_below :
    (subpackage pkg rest : Text)
    → (subpackage == pkg) ≡ false
    → subpackage ≡ pkg ++ rest
    → byte_at subpackage (length pkg) ≡ slash
    → (r : Text) × (subpackage ≡ pkg ++ slash ∷ r)
rest_below subpackage pkg [] h e b = cc ((text_beq_iff subpackage pkg).1 (e ∙ append-nil pkg))
rest_below subpackage pkg (c ∷ rest) h e b =
    let f : c ≡ slash =
      sym (byte_at-length-append pkg rest c) ∙ ap (λ t. byte_at t (length pkg)) (sym e) ∙ b in
    (rest, e ∙ ap (λ x. pkg ++ x ∷ rest) f)

SubPackage-of_true :
    (subpackage pkg : Text) → sub_package_of subpackage pkg ≡ true → SubPackage subpackage pkg
unfolding sub_package_of
SubPackage-of_true subpackage pkg h = elim (Bool-cases (subpackage == pkg)) [
  | inl same ↦ inl ((text_beq_iff subpackage pkg).0 same)
  | inr other ↦ elim (Bool-cases (pkg == [])) [
    | inl root ↦ inr (inl ((text_beq_iff pkg []).0 root))
    | inr deep ↦
        let starts : has_prefix subpackage pkg ≡ true = ground arith in
        let byte : byte_at subpackage (length pkg) ≡ slash = ground arith in
        let (rest, e) = has_prefix-split subpackage pkg starts in
        inr (inr (rest_below subpackage pkg rest other e byte))
  ]
]

true_of-SubPackage :
    (subpackage pkg : Text) → SubPackage subpackage pkg → sub_package_of subpackage pkg ≡ true
unfolding sub_package_of
true_of-SubPackage subpackage pkg (inl e) = rw ((text_beq_iff subpackage pkg).1 e)
true_of-SubPackage subpackage pkg (inr (inl e)) = ground (arith, text_beq_iff pkg [])
true_of-SubPackage subpackage pkg (inr (inr (rest, e))) = rw e (below pkg rest)

-- subPackageOf returns true exactly for a package itself, the packages below it, and for every
-- package where `pkg` is the root.
pub sub_package_of_iff :
    (subpackage pkg : Text) → (sub_package_of subpackage pkg ≡ true) ↔ SubPackage subpackage pkg
sub_package_of_iff subpackage pkg =
    (SubPackage-of_true subpackage pkg, true_of-SubPackage subpackage pkg)
