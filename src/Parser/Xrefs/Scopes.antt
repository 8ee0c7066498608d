-- ===== src/Parser/Xrefs/Scopes.antt =====
-- Looking names up: typeInScope, fieldInScope, resolveTypeChain, resolveIdentifierChain, typeBinding.
use tools_jvm_autodeps.Base.{
  ℕ, suc, ◌&&◌, ◌||◌, Option, none, some, List, [], ◌∷◌, if◌then◌else◌, Eq, Text, nat_eq, text_eq,
}
use tools_jvm_autodeps.GoMap.{GoMap, lookup, get, put}
use tools_jvm_autodeps.Parser.Ast.{Kind, Ast, is_var_decl, is_import, is_class_type, is_some_type}
use tools_jvm_autodeps.Parser.Xrefs.{SymbolTable, new_table}
use tools_jvm_autodeps.Parser.Xrefs.Tables.{Tables}

-- an entry of the stack of symbol tables
pub data Scope (Node : Type 0) : Type 0 where
  of_container : Node → Scope Node
  of_block : SymbolTable Node → Scope Node

abbrev pub Bindings : Type 0 → Type 0
Bindings Node = GoMap Node Node

module _ {Node : Type 0} ⦃e : Eq Node⦄ (ast : Ast Node) (tables : Tables Node) where
  abbrev pub table_of : Scope Node → SymbolTable Node
  table_of (of_container n) = get new_table n tables
  table_of (of_block st) = st

  unfoldable pub type_in_scope : List (Scope Node) → Text → Node
  type_in_scope [] id = ast.invalid
  type_in_scope (scope ∷ scopes) id = elim (lookup id (table_of scope).types) [
    | some n ↦ n
    | none ↦ type_in_scope scopes id
  ]

  -- the inner loop of fieldInScope
  unfoldable pub first_field : List Node → Option Node
  first_field [] = none
  first_field (n ∷ members) =
      let rest = first_field members in
      if is_var_decl (ast.kind n) || is_import (ast.kind n) then some n else rest

  unfoldable pub field_in_scope : List (Scope Node) → Text → Node
  unfolding first_field
  field_in_scope [] id = ast.invalid
  field_in_scope (scope ∷ scopes) id = elim (first_field (get [] id (table_of scope).members)) [
    | some n ↦ n
    | none ↦ field_in_scope scopes id
  ]

  abbrev pub type_named : Text → Option (SymbolTable Node) → Option Node
  type_named id none = none
  type_named id (some st) = lookup id st.types

  -- resolveTypeChain, at the index `i`
  unfoldable pub resolve_type_chain :
      ℕ → Node → List Node → Bindings Node → ℕ × Node × Bindings Node
  resolve_type_chain i curr [] bindings = (i, curr, bindings)
  resolve_type_chain i curr (id ∷ identifiers) bindings =
      elim (type_named (ast.text id) (lookup curr tables)) [
        | none ↦ (i, curr, bindings)
        | some n ↦ resolve_type_chain (suc i) n identifiers (put id n bindings)
      ]

  -- what the last identifier of the name in a class type is bound to
  abbrev pub bound_type : Bindings Node → Node → Node
  bound_type bindings n =
      get ast.invalid
        (ast.last_child_of_type Kind.java_identifier
          (ast.first_child_of_type Kind.java_type_name n))
        bindings

  -- typeBinding of what Prev(classTypeSelector) returns: a class type or the invalid node
  abbrev pub class_type_binding : Bindings Node → Node → Node
  class_type_binding bindings n =
      if is_class_type (ast.kind n) then bound_type bindings n else ast.invalid

  abbrev pub binding_by : Bindings Node → Node → Kind → Node
  binding_by bindings n Kind.java_class = n
  binding_by bindings n Kind.java_enum = n
  binding_by bindings n Kind.java_interface = n
  binding_by bindings n Kind.java_class_type = bound_type bindings n
  binding_by bindings n Kind.java_var_decl = class_type_binding bindings (ast.prev is_class_type n)
  binding_by bindings n _ = ast.invalid

  unfoldable pub type_binding : Node → Bindings Node → Node
  type_binding n bindings = binding_by bindings n (ast.kind n)

  -- the inner loop of resolveIdentifierChain, up to the field that it takes
  unfoldable pub first_typed : List Node → Option Node
  first_typed [] = none
  first_typed (m ∷ members) =
      let rest = first_typed members in
      if is_var_decl (ast.kind m) && ast.is_valid (ast.prev is_some_type m) then some m else rest

  abbrev pub members_named : Text → Option (SymbolTable Node) → List Node
  members_named id none = []
  members_named id (some st) = get [] id st.members

  -- resolveIdentifierChain
  unfoldable pub resolve_identifier_chain : Node → List Node → Bindings Node → Bindings Node
  unfolding type_binding first_typed
  resolve_identifier_chain curr [] bindings = bindings
  resolve_identifier_chain curr (id ∷ identifiers) bindings =
      elim (first_typed
        (members_named (ast.text id) (lookup (type_binding curr bindings) tables))) [
          | none ↦ bindings
          | some m ↦
              let later = put id m bindings in
              let decl = bound_type later (ast.prev is_class_type m) in
              if is_class_type (ast.kind (ast.prev is_some_type m)) && ast.is_valid decl
              then resolve_identifier_chain decl identifiers later
              else later
        ]
