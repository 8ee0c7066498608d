-- ===== src/Parser/Xrefs/Tables.antt =====
-- buildSymbolTables: the declarations that each container holds.
use tools_jvm_autodeps.Base.{ℕ, Bool, true, false, not, [], if◌then◌else◌, Eq, nat_eq, text_eq}
use tools_jvm_autodeps.GoMap.{GoMap, get, put}
use tools_jvm_autodeps.PkgLoading.{Result, ok, err, ◌>>=◌}
use tools_jvm_autodeps.Parser.Ast.{Kind, Ast}
use tools_jvm_autodeps.Parser.Xrefs.{
  Stop, panics, SymbolTable, new_table, put_type, append_member, add_type, add_member, add_vars,
  walk,
}

abbrev pub Tables : Type 0 → Type 0
Tables Node = GoMap Node (SymbolTable Node)

-- isContainer
unfoldable pub is_container : Kind → Bool
is_container Kind.java_annotation_type = true
is_container Kind.java_constructor = true
is_container Kind.java_enum = true
is_container Kind.java_enum_constant = true
is_container Kind.java_file = true
is_container Kind.java_interface = true
is_container Kind.java_method = true
is_container Kind.java_new = true
is_container Kind.java_class = true
is_container _ = false

abbrev is_generic_clause : Kind → Bool
is_generic_clause Kind.java_method_generic_clause = true
is_generic_clause _ = false

module _ {Node : Type 0} ⦃e : Eq Node⦄ (ast : Ast Node) where
  -- the node whose table stOfContainer returns
  unfoldable pub container_of : Node → Node
  container_of n =
      let p = ast.parent (ast.parent n) in
      let container = (if ast.is_valid p then p else ast.parent n) in
      if is_generic_clause (ast.kind container) then ast.parent container else container

  -- a write to the table that stOfContainer returns, which it makes where there is none
  unfoldable pub with_table :
      Node → (SymbolTable Node → SymbolTable Node) → Tables Node → Result Stop (Tables Node)
  unfolding container_of is_container
  with_table n write tables =
      let container = container_of n in
      if is_container (ast.kind container)
      then ok (put container (write (get new_table container tables)) tables)
      else err panics

  abbrev pub import_name : Node → Node
  import_name n =
      ast.last_child_of_type Kind.java_identifier (ast.first_child_of_type Kind.java_name n)

  -- the case of an import
  unfoldable pub declare_import : Node → Tables Node → Result Stop (Tables Node)
  unfolding with_table
  declare_import n tables =
      let static = ast.is_valid (ast.first_child_of_type Kind.java_static n) in
      let name = ast.text (import_name n) in
      if not (ast.is_valid (ast.first_child_of_type Kind.java_name n))
      then ok tables
      else if not (ast.is_valid (import_name n))
      then ok tables
      else with_table n (if static then append_member name n else put_type name n) tables

  -- what `before` does with a node, by its type
  unfoldable pub declare : Kind → Node → Tables Node → Result Stop (Tables Node)
  unfolding with_table add_type add_member add_vars declare_import
  declare Kind.java_method n tables = with_table n (add_member ast n) tables
  declare Kind.java_enum_constant n tables = with_table n (add_member ast n) tables
  declare Kind.java_field n tables = with_table n (λ st. add_vars ast st (ast.children n)) tables
  declare Kind.java_class n tables = with_table n (add_type ast n) tables
  declare Kind.java_enum n tables = with_table n (add_type ast n) tables
  declare Kind.java_interface n tables = with_table n (add_type ast n) tables
  declare Kind.java_type_parameter n tables = with_table n (add_type ast n) tables
  declare Kind.java_annotation_type n tables = with_table n (add_type ast n) tables
  declare Kind.java_import n tables = declare_import n tables
  declare _ n tables = ok tables

  unfoldable pub before_tables : Node → Tables Node → Result Stop (Tables Node × ℕ)
  unfolding declare
  before_tables n tables = declare (ast.kind n) n tables >>= λ later. ok (later, 0)

  -- buildSymbolTables
  unfoldable pub build_symbol_tables : ℕ → Node → Result Stop (Tables Node)
  unfolding walk before_tables
  build_symbol_tables fuel root = walk ast before_tables (λ n i tables. tables) fuel root []
