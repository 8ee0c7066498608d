-- ===== src/Jadeplib/Files/Created.antt =====
-- CreateRule makes a rule that RulesConsumingFile finds for the file.
use tools_jvm_autodeps.Base.{
  ◌≡◌, refl, ap, ◌∙◌, true, some, List, [], ◌∷◌, arith, if◌then◌else◌, ◌==◌, Text, text_beq_iff,
  nat_eq, text_eq,
}
use tools_jvm_autodeps.Paths.{dir, dot_path, rel, elements}
use tools_jvm_autodeps.Paths.Parents.{AreNames, path_of, dir-path_of, path_of-ne-dot}
use tools_jvm_autodeps.Paths.Children.{base-path_of, rel-path_of}
use tools_jvm_autodeps.Jadeplib.Files.{NamingRule, srcs_file, create_rule}

-- the package of a directory of the workspace: the root has the empty name
abbrev pub package_of : List Text → Text
package_of [] = []
package_of (y ∷ stack) = path_of (y ∷ stack)

dir-package_of :
    (x : Text) (stack : List Text)
    → AreNames (x ∷ stack)
    → (if dir (path_of (x ∷ stack)) == dot_path then [] else dir (path_of (x ∷ stack)))
      ≡ package_of stack
dir-package_of x [] ns = rw (dir-path_of x [] ns) refl
dir-package_of x (y ∷ stack) (n, ns) =
    rw (dir-path_of x (y ∷ stack) (n, ns), path_of-ne-dot y stack ns) refl

pub rel-package_of :
    (x : Text) (stack : List Text)
    → AreNames (x ∷ stack)
    → rel (package_of stack) (path_of (x ∷ stack)) ≡ some x
unfolding rel elements
rel-package_of x [] ns = rel-path_of x [] ns
rel-package_of x (y ∷ stack) ns = rel-path_of x (y ∷ stack) ns

-- For a relative file name, the new rule stands in the package of the file's directory, and it has the
-- file in its srcs by the very name, relative to that package, that RulesConsumingFile looks for.
pub srcs_file-create_rule :
    (x : Text) (stack : List Text) (naming_rules : List NamingRule) (default_rule_kind : Text)
    → AreNames (x ∷ stack)
    → let r = create_rule (path_of (x ∷ stack)) naming_rules default_rule_kind in
      (r.pkg_name ≡ package_of stack)
      × (rel r.pkg_name (path_of (x ∷ stack)) ≡ some x)
      × (srcs_file r x ≡ true)
unfolding create_rule srcs_file
srcs_file-create_rule x stack naming_rules default_rule_kind ns =
    let pkg = dir-package_of x stack ns in
    (
      pkg,
      ap (λ p. rel p (path_of (x ∷ stack))) pkg ∙ rel-package_of x stack ns,
      ground (arith, base-path_of x stack ns, text_beq_iff x x),
    )
