-- ===== src/Bazel/Split.antt =====
-- Label.Split takes a label apart that a rule or a package and a name make.
use tools_jvm_autodeps.Base.{
  ◌≡◌, nat_eq, text_eq, ◌∷◌, [], ◌++◌, true, false, inl, inr, arith, Text, Bool-cases,
  take-length-append, drop-suc-length-append,
}
use tools_jvm_autodeps.Bazel.{split, make_label, rule_label, Rule, slashes, name}
use tools_jvm_autodeps.Strings.{trim_prefix, has_prefix, colon, at_sign}
use tools_jvm_autodeps.GoMap.{contains}
use tools_jvm_autodeps.Strings.Laws.{index_byte-append, trim_prefix-append}

-- Label.Split, behind the slashes.
split_at_colon :
    (l pkg n : Text)
    → trim_prefix l slashes ≡ pkg ++ colon ∷ n
    → contains colon pkg ≡ false
    → split l ≡ (pkg, n)
unfolding split
split_at_colon l pkg n e h =
    rw (e, index_byte-append pkg n colon h)
      (cc (take-length-append pkg (colon ∷ n), drop-suc-length-append pkg colon n))

trim_prefix-at_sign :
    (pkg s : Text)
    → has_prefix pkg (at_sign ∷ []) ≡ true
    → trim_prefix (pkg ++ s) slashes ≡ pkg ++ s
unfolding trim_prefix
trim_prefix-at_sign [] s h = ground arith
trim_prefix-at_sign (c ∷ pkg) s h = ground arith

-- Label.Split at the label of a package and a name.
pub split-make_label :
    (pkg n : Text) → contains colon pkg ≡ false → split (make_label pkg n) ≡ (pkg, n)
unfolding make_label
split-make_label pkg n h = elim (Bool-cases (has_prefix pkg (at_sign ∷ []))) [
  | inl e ↦ rw e (split_at_colon _ pkg n (trim_prefix-at_sign pkg (colon ∷ n) e) h)
  | inr e ↦ rw e (split_at_colon _ pkg n (trim_prefix-append slashes (pkg ++ colon ∷ n)) h)
]

-- A rule whose package name holds no colon has a label that Label.Split takes apart into the
-- package name and the rule name, in the main repository and in an external one.
pub split-rule_label :
    (r : Rule) → contains colon r.pkg_name ≡ false → split (rule_label r) ≡ (r.pkg_name, name r)
unfolding rule_label
split-rule_label r h = split-make_label r.pkg_name (name r) h
