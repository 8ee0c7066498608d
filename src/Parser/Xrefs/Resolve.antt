-- ===== src/Parser/Xrefs/Resolve.antt =====
-- Resolve: the two walks that bind identifiers.
use tools_jvm_autodeps.Base.{
  ℕ, suc, Bool, true, false, ◌&&◌, List, [], ◌∷◌, if◌then◌else◌, is_some, drop, Eq, nat_eq, text_eq,
}
use tools_jvm_autodeps.GoMap.{lookup, get, put}
use tools_jvm_autodeps.PkgLoading.{Result, ok, err, ◌>>=◌}
use tools_jvm_autodeps.Parser.Ast.{Kind, Ast}
use tools_jvm_autodeps.Parser.Xrefs.{Stop, panics, new_table, add_vars, walk}
use tools_jvm_autodeps.Parser.Xrefs.Tables.{Tables, is_container}
use tools_jvm_autodeps.Parser.Xrefs.Scopes.{
  Scope, of_container, of_block, Bindings, type_in_scope, field_in_scope, resolve_type_chain,
  resolve_identifier_chain,
}

-- the tables of the resolver, the local stack and `bindings`
pub record State (Node : Type 0) : Type 0 where
  pub tables : Tables Node
  pub stack : List (Scope Node)
  pub bindings : Bindings Node

abbrev pub opens_block : Kind → Bool
opens_block Kind.java_block = true
opens_block Kind.java_switch_block = true
opens_block Kind.java_basic_for = true
opens_block Kind.java_enh_for = true
opens_block _ = false

module _ {Node : Type 0} ⦃e : Eq Node⦄ (ast : Ast Node) where
  abbrev pub has_table : State Node → Node → Bool
  has_table s n = is_container (ast.kind n) && is_some (lookup n s.tables)

  abbrev pub push_scope : Scope Node → State Node → State Node
  push_scope scope s = record s { stack = scope ∷ s.stack }

  -- the table of a container goes on the stack
  unfoldable pub enter : Node → State Node → State Node × ℕ
  unfolding is_container
  enter n s = if has_table s n then (push_scope (of_container n) s, 1) else (s, 0)

  unfoldable pub leave : Node → ℕ → State Node → State Node
  leave n pushed s = record s { stack = drop pushed s.stack }

  -- the case JavaTypeName, with the identifiers of the name
  unfoldable pub bind_type : List Node → State Node → Result Stop (State Node)
  unfolding type_in_scope resolve_type_chain
  bind_type [] s = err panics
  bind_type (id ∷ ids) s =
      let typ = type_in_scope ast s.tables s.stack (ast.text id) in
      if ast.is_valid typ
      then ok (record s {
        bindings = (resolve_type_chain ast s.tables 0 typ ids (put id typ s.bindings)).2;
      })
      else ok s

  abbrev pub on_type_name : Kind → Node → State Node → Result Stop (State Node)
  on_type_name Kind.java_type_name n s = bind_type (ast.children_of_type Kind.java_identifier n) s
  on_type_name _ n s = ok s

  unfoldable pub before_types : Node → State Node → Result Stop (State Node × ℕ)
  unfolding enter bind_type
  before_types n s =
      let (later, pushed) = enter n s in
      (on_type_name (ast.kind n) n later >>= λ done. ok (done, pushed))

  -- resolveTypes
  unfoldable pub resolve_types : ℕ → Node → State Node → Result Stop (State Node)
  unfolding walk before_types leave
  resolve_types fuel root s = walk ast before_types leave fuel root s

  -- `st.addMember` on the top of the stack
  unfoldable pub add_locals : List Node → State Node → Result Stop (State Node)
  unfolding add_vars
  add_locals vars s = elim s.stack [
    | [] ↦ err panics
    | of_container c ∷ scopes ↦
        ok (record s { tables = put c (add_vars ast (get new_table c s.tables) vars) s.tables })
    | of_block st ∷ scopes ↦ ok (record s { stack = of_block (add_vars ast st vars) ∷ scopes })
  ]

  abbrev pub bind_field : Node → List Node → State Node → State Node
  bind_field id ids s =
      let field = field_in_scope ast s.tables s.stack (ast.text id) in
      if ast.is_valid field
      then record s {
        bindings = resolve_identifier_chain ast s.tables field ids (put id field s.bindings);
      }
      else s

  -- the case of an expression name
  unfoldable pub bind_expr : List Node → State Node → Result Stop (State Node)
  unfolding type_in_scope field_in_scope resolve_type_chain resolve_identifier_chain
  bind_expr [] s = err panics
  bind_expr (id ∷ ids) s =
      let typ = type_in_scope ast s.tables s.stack (ast.text id) in
      let (last_idx, last_typ, bound) =
        resolve_type_chain ast s.tables 0 typ ids (put id typ s.bindings) in
      if ast.is_valid typ
      then ok (record s {
        bindings = resolve_identifier_chain ast s.tables last_typ (drop last_idx ids) bound;
      })
      else ok (bind_field id ids s)

  abbrev pub on_expr : Kind → Node → State Node → Result Stop (State Node)
  on_expr Kind.java_local_vars n s = add_locals (ast.children n) s
  on_expr Kind.java_for_init n s = add_locals (ast.children n) s
  on_expr Kind.java_type_or_expr_name n s =
      bind_expr (ast.children_of_type Kind.java_identifier n) s
  on_expr Kind.java_expr_name n s = bind_expr (ast.children_of_type Kind.java_identifier n) s
  on_expr _ n s = ok s

  -- the case of a block
  unfoldable pub enter_block : Node → State Node × ℕ → State Node × ℕ
  enter_block n (s, pushed) =
      if opens_block (ast.kind n)
      then (push_scope (of_block new_table) s, suc pushed)
      else (s, pushed)

  unfoldable pub before_non_types : Node → State Node → Result Stop (State Node × ℕ)
  unfolding enter enter_block add_locals bind_expr
  before_non_types n s =
      let (later, pushed) = enter_block n (enter n s) in
      (on_expr (ast.kind n) n later >>= λ done. ok (done, pushed))

  -- resolveNonTypes, with a stack of its own
  unfoldable pub resolve_non_types : ℕ → Node → State Node → Result Stop (State Node)
  unfolding walk before_non_types leave
  resolve_non_types fuel root s =
      walk ast before_non_types leave fuel root (record s { stack = [] })

  -- Resolve, for the tables of NewResolver
  unfoldable pub resolve : ℕ → Node → Tables Node → Result Stop (State Node)
  unfolding resolve_types resolve_non_types
  resolve fuel root tables =
      resolve_types fuel root (record { tables = tables; stack = []; bindings = [] })
      >>= resolve_non_types fuel root
