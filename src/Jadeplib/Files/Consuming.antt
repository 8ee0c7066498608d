-- ===== src/Jadeplib/Files/Consuming.antt =====
-- What RulesConsumingFile finds for a file below a BUILD file.
use tools_jvm_autodeps.Base.{Bool, List, map, Eq, Text, nat_eq, text_eq}
use tools_jvm_autodeps.Bazel.{Rule, Package}
use tools_jvm_autodeps.PkgLoading.{Loader}

module _ {E Ref : Type 0} ⦃e : Eq Ref⦄ (deref : Ref → Rule) (file_exists : Text → Bool)
    (load : Loader E Ref) (workspace_dir : Text) where
  -- the rules of a package
  abbrev pub rules_of : Package Ref → List Ref
  rules_of pkg = map (λ entry. entry.1) pkg.rules
