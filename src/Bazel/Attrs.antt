-- ===== src/Bazel/Attrs.antt =====
-- NewRule: the attributes and the label of a rule that it makes.
use tools_jvm_autodeps.Base.{◌≡◌, refl, text_eq, ◌∷◌, [], none, arith, Text}
use tools_jvm_autodeps.Bazel.{Attr, new_rule, put_all, name}
use tools_jvm_autodeps.GoMap.{GoMap, lookup, put, lookup-put}
use tools_jvm_autodeps.Strings.{codes}

-- The first entry of an association list counts, so a written map reads as the one behind it.
lookup-put_all :
    (k : Text) (attrs more : GoMap Text Attr)
    → lookup k more ≡ none
    → lookup k (put_all attrs more) ≡ lookup k attrs
unfolding put_all
lookup-put_all k attrs [] h = refl
lookup-put_all k attrs ((j, v) ∷ more) h =
    ground (arith, lookup-put_all k (put j v attrs) more, lookup-put j k v attrs)

-- A rule that NewRule makes from attributes with no `name` has the given name, kind and package.
pub name-new_rule :
    (schema pkg n : Text) (attributes : GoMap Text Attr)
    → lookup (codes "name") attributes ≡ none
    → (name (new_rule schema pkg n attributes) ≡ n)
      × ((new_rule schema pkg n attributes).pkg_name ≡ pkg)
      × ((new_rule schema pkg n attributes).schema ≡ schema)
unfolding new_rule name
name-new_rule schema pkg n attributes h = (
  rw (lookup-put_all (codes "name") ((codes "name", Attr.str n) ∷ []) attributes h) refl,
  refl,
  refl,
)
