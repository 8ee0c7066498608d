-- ===== src/Jadeplib/Files/Tests.antt =====
-- A new test rule.
use tools_jvm_autodeps.Base.{ℕ, Bool, [], ◌∷◌, ◌==◌, Text, nat_eq, text_eq}
use tools_jvm_autodeps.GoMap.{contains}
use tools_jvm_autodeps.Strings.{codes}
use tools_jvm_autodeps.Bazel.{Rule, Package}
use tools_jvm_autodeps.PkgLoading.{ok, Loader}
use tools_jvm_autodeps.Jadeplib.Files.{NamingRule, create_rule}

abbrev tests : NamingRule
tests = record { file_name_matcher = λ f. contains b'T' f; rule_kind = codes "java_test" }

abbrev file_name : Text
file_name = codes "java/com/FooTest.java"

abbrev deref : ℕ → Rule
deref r = create_rule file_name (tests ∷ []) (codes "java_library")

abbrev pkg : Package ℕ
pkg = record {
  path = codes "java/com";
  default_visibility = [];
  files = [];
  rules = (codes "FooTest", 5) ∷ [];
  package_groups = [];
}

abbrev load : Loader ℕ ℕ
load names = ok ((codes "java/com", pkg) ∷ [])

abbrev file_exists : Text → Bool
file_exists f = f == codes "/ws/java/com/BUILD"
