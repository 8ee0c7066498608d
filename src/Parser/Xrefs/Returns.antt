-- ===== src/Parser/Xrefs/Returns.antt =====
-- Where declarations stand in containers, names have identifiers and local variables stand in
-- blocks, the walks return: no panic, and no stack that is left behind.
use tools_jvm_autodeps.Base.{
  ℕ, zero, suc, ◌-◌, ◌≡◌, refl, inl, inr, Bool, true, false, not, ◌||◌, List, [], ◌∷◌, arith,
  if◌then◌else◌, Bool-cases, length, drop, Eq, nat_eq, text_eq,
}
use tools_jvm_autodeps.GoMap.{get, put}
use tools_jvm_autodeps.PkgLoading.{ok}
use tools_jvm_autodeps.Parser.Ast.{Kind, Ast}
use tools_jvm_autodeps.Parser.Xrefs.{
  SymbolTable, new_table, add_type, add_member, add_vars, put_type, append_member,
}
use tools_jvm_autodeps.Parser.Xrefs.Walk.{IsTree, walk_total}
use tools_jvm_autodeps.Parser.Xrefs.Tables.{
  Tables, is_container, container_of, with_table, import_name, declare_import, declare,
  before_tables, build_symbol_tables,
}
use tools_jvm_autodeps.Parser.Xrefs.Scopes.{type_in_scope}
use tools_jvm_autodeps.Parser.Xrefs.Resolve.{
  State, opens_block, bind_type, enter, leave, before_types, on_type_name, resolve_types,
}

-- the nodes that stOfContainer is asked for
abbrev pub declares : Kind → Bool
declares Kind.java_method = true
declares Kind.java_enum_constant = true
declares Kind.java_field = true
declares Kind.java_class = true
declares Kind.java_enum = true
declares Kind.java_interface = true
declares Kind.java_type_parameter = true
declares Kind.java_annotation_type = true
declares Kind.java_import = true
declares _ = false

-- the names, which have an identifier
abbrev pub is_name : Kind → Bool
is_name Kind.java_type_name = true
is_name Kind.java_type_or_expr_name = true
is_name Kind.java_expr_name = true
is_name _ = false

-- the local variables, which stand in a block
abbrev pub is_local : Kind → Bool
is_local Kind.java_local_vars = true
is_local Kind.java_for_init = true
is_local _ = false

abbrev pub is_empty : {A : Type 0} → List A → Bool
is_empty [] = true
is_empty (x ∷ xs) = false

abbrev pub implies : Bool → Bool → Bool
implies a b = not a || b

pub length-drop : {A : Type 0} (n : ℕ) (xs : List A) → length (drop n xs) ≡ length xs - n
length-drop zero xs = omega arith
length-drop (suc n) [] = omega arith
length-drop (suc n) (x ∷ xs) = omega (arith, length-drop n xs)

module _ {Node : Type 0} ⦃e : Eq Node⦄ (ast : Ast Node) where
  -- what the grammar says of a node, where `in_block` says whether a block is around it
  abbrev pub Fits : Bool → Node → Type 0
  Fits in_block n =
      (implies (declares (ast.kind n)) (is_container (ast.kind (container_of ast n))) ≡ true)
      × (implies (is_name (ast.kind n))
            (not (is_empty (ast.children_of_type Kind.java_identifier n)))
          ≡ true)
      × (implies (is_local (ast.kind n)) in_block ≡ true)

  abbrev pub or_block : Bool → Node → Bool
  or_block in_block n = in_block || opens_block (ast.kind n)

  with_table_total :
      (n : Node) (write : SymbolTable Node → SymbolTable Node) (tables : Tables Node)
      → is_container (ast.kind (container_of ast n)) ≡ true
      → (later : Tables Node) × (with_table ast n write tables ≡ ok later)
  unfolding with_table
  with_table_total n write tables fits =
      let c = container_of ast n in (put c (write (get new_table c tables)) tables, ground arith)

  declare_import_total :
      (n : Node) (tables : Tables Node)
      → is_container (ast.kind (container_of ast n)) ≡ true
      → (later : Tables Node) × (declare_import ast n tables ≡ ok later)
  unfolding declare_import
  declare_import_total n tables fits =
      let name = ast.text (import_name ast n) in
      let static = ast.is_valid (ast.first_child_of_type Kind.java_static n) in
      let (later, ran) =
        with_table_total n (if static then append_member name n else put_type name n) tables fits in
      elim (Bool-cases (ast.is_valid (ast.first_child_of_type Kind.java_name n))) [
        | inr nameless ↦ (tables, ground arith)
        | inl has_name ↦ elim (Bool-cases (ast.is_valid (import_name ast n))) [
          | inr no_id ↦ (tables, ground arith)
          | inl has_id ↦ (later, ground arith)
        ]
      ]

  declare_total :
      (k : Kind) (n : Node) (tables : Tables Node)
      → implies (declares k) (is_container (ast.kind (container_of ast n))) ≡ true
      → (later : Tables Node) × (declare ast k n tables ≡ ok later)
  unfolding declare
  declare_total Kind.java_method n tables fits = with_table_total n (add_member ast n) tables fits
  declare_total Kind.java_enum_constant n tables fits =
      with_table_total n (add_member ast n) tables fits
  declare_total Kind.java_field n tables fits =
      with_table_total n (λ st. add_vars ast st (ast.children n)) tables fits
  declare_total Kind.java_class n tables fits = with_table_total n (add_type ast n) tables fits
  declare_total Kind.java_enum n tables fits = with_table_total n (add_type ast n) tables fits
  declare_total Kind.java_interface n tables fits = with_table_total n (add_type ast n) tables fits
  declare_total Kind.java_type_parameter n tables fits =
      with_table_total n (add_type ast n) tables fits
  declare_total Kind.java_annotation_type n tables fits =
      with_table_total n (add_type ast n) tables fits
  declare_total Kind.java_import n tables fits = declare_import_total n tables fits
  declare_total _ n tables fits = (tables, refl)

  pub build_symbol_tables_total :
      (fuel : ℕ) (root : Node)
      → IsTree ast Fits or_block fuel false root
      → (tables : Tables Node) × (build_symbol_tables ast fuel root ≡ ok tables)
  unfolding build_symbol_tables before_tables
  build_symbol_tables_total fuel root tree =
      let (tables, ran, q) =
        walk_total ast (before_tables ast) (λ n i t. t) Fits or_block (λ place t. Unit {0})
          (λ s t. Unit {0}) (λ s. tt) (λ s t u p q. tt) (λ place s t p q. tt)
          (λ place n t (declared, named, locals) p.
            let (later, one) = declare_total (ast.kind n) n t declared in
            (later, 0, rw one refl, tt, λ done q. tt))
          fuel false root [] tree tt in
      (tables, ran)

  bind_type_total :
      (ids : List Node) (s : State Node)
      → is_empty ids ≡ false
      → (done : State Node) × (bind_type ast ids s ≡ ok done)
  unfolding bind_type
  bind_type_total [] s full = cc
  bind_type_total (id ∷ ids) s full =
      elim (Bool-cases (ast.is_valid (type_in_scope ast s.tables s.stack (ast.text id)))) [
        | inl valid ↦ rw valid (_, refl)
        | inr unknown ↦ rw unknown (s, refl)
      ]

  on_type_name_total :
      (k : Kind) (n : Node) (s : State Node)
      → implies (is_name k) (not (is_empty (ast.children_of_type Kind.java_identifier n))) ≡ true
      → (done : State Node) × (on_type_name ast k n s ≡ ok done)
  on_type_name_total Kind.java_type_name n s fits =
      bind_type_total (ast.children_of_type Kind.java_identifier n) s (ground arith)
  on_type_name_total _ n s fits = (s, refl)

  pub resolve_types_total :
      (fuel : ℕ) (root : Node) (s : State Node)
      → IsTree ast Fits or_block fuel false root
      → (done : State Node) × (resolve_types ast fuel root s ≡ ok done)
  unfolding resolve_types before_types
  resolve_types_total fuel root s tree =
      let (done, ran, q) =
        walk_total ast (before_types ast) (leave ast) Fits or_block (λ place t. Unit {0})
          (λ s t. Unit {0}) (λ s. tt) (λ s t u p q. tt) (λ place s t p q. tt)
          (λ place n t (declared, named, locals) p.
            let (later, one) = on_type_name_total (ast.kind n) n (enter ast n t).0 named in
            (later, (enter ast n t).1, rw one refl, tt, λ done q. tt))
          fuel false root s tree tt in
      (done, ran)
