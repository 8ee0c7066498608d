-- ===== src/Parser/Xrefs/Placed.antt =====
-- buildSymbolTables panics where a declaration stands in no container.
use tools_jvm_autodeps.Base.{
  ℕ, zero, suc, ◌≡◌, Bool, true, false, not, ◌&&◌, ◌||◌, List, [], ◌∷◌, Eq, nat_eq, text_eq,
}
use tools_jvm_autodeps.PkgLoading.{Result, ok, err}
use tools_jvm_autodeps.Parser.Ast.{Kind, Ast}
use tools_jvm_autodeps.Parser.Xrefs.{Stop, panics}
use tools_jvm_autodeps.Parser.Xrefs.Walk.{IsTree}
use tools_jvm_autodeps.Parser.Xrefs.Tables.{Tables, is_container, container_of, import_name}

-- a computation that returns where the test holds, and panics where it does not
abbrev pub ByTest : {A : Type 0} → Bool → Result Stop A → Type 0
ByTest {A} test r = (test ≡ true → (a : A) × (r ≡ ok a)) × (test ≡ false → r ≡ err panics)

module _ {Node : Type 0} ⦃e : Eq Node⦄ (ast : Ast Node) where
  -- whether stOfContainer finds a container for the node
  abbrev pub in_container : Node → Bool
  in_container n = is_container (ast.kind (container_of ast n))

  -- whether the node stands in a container, or declares nothing; an import with no name does not
  abbrev pub placed_as : Kind → Node → Bool
  placed_as Kind.java_method n = in_container n
  placed_as Kind.java_enum_constant n = in_container n
  placed_as Kind.java_field n = in_container n
  placed_as Kind.java_class n = in_container n
  placed_as Kind.java_enum n = in_container n
  placed_as Kind.java_interface n = in_container n
  placed_as Kind.java_type_parameter n = in_container n
  placed_as Kind.java_annotation_type n = in_container n
  placed_as Kind.java_import n =
      not (ast.is_valid (ast.first_child_of_type Kind.java_name n))
      || not (ast.is_valid (import_name ast n))
      || in_container n
  placed_as _ n = true

  abbrev pub all_of : (Node → Bool) → List Node → Bool
  all_of test [] = true
  all_of test (n ∷ nodes) = test n && all_of test nodes

  -- whether all declarations of the tree, in so many levels, stand in containers
  abbrev pub all_placed : ℕ → Node → Bool
  all_placed zero n = true
  all_placed (suc levels) n =
      placed_as (ast.kind n) n && all_of (all_placed levels) (ast.children n)

  -- a tree of at most so many levels
  abbrev pub HasLevels : ℕ → Node → Type 0
  HasLevels levels n = IsTree ast (λ place m. Unit {0}) (λ place m. place) levels false n
