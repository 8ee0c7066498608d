-- ===== src/Parser/Xrefs/Tests.antt =====
-- The tree of `class A { A f; void m() { f; } }`, with its nodes as numbers.
use tools_jvm_autodeps.Base.{
  ℕ, ◌≡◌, refl, Bool, true, false, ◌&&◌, List, [], ◌∷◌, ltb, if◌then◌else◌, ◌==◌, Text, nat_eq,
  text_eq,
}
use tools_jvm_autodeps.GoMap.{GoMap, get}
use tools_jvm_autodeps.Strings.{codes}
use tools_jvm_autodeps.PkgLoading.{ok, ◌>>=◌}
use tools_jvm_autodeps.Parser.Ast.{Kind, Ast}
use tools_jvm_autodeps.Parser.Xrefs.{identifier, add_type, add_member, add_vars, walk_all, walk}
use tools_jvm_autodeps.Parser.Xrefs.Tables.{
  Tables, is_container, container_of, with_table, declare, before_tables, build_symbol_tables,
}
use tools_jvm_autodeps.Parser.Xrefs.Scopes.{
  type_in_scope, first_field, field_in_scope, resolve_type_chain, resolve_identifier_chain,
}
use tools_jvm_autodeps.Parser.Xrefs.Resolve.{
  enter, leave, bind_type, before_types, resolve_types, add_locals, bind_expr, enter_block,
  before_non_types, resolve_non_types, resolve,
}
use tools_jvm_autodeps.Parser.Xrefs.Lexical.{lexical, resolve_types-eq-lexical}

-- a node: its type, its text, its parent and its children
abbrev Row : Type 0
Row = Kind × Text × ℕ × List ℕ

abbrev no_row : Row
no_row = (Kind.other, [], 0, [])

abbrev rows : GoMap ℕ Row
rows =
    (1, (Kind.java_file, [], 0, 2 ∷ []))
    ∷ (2, (Kind.java_class, [], 1, 3 ∷ 4 ∷ []))
    ∷ (3, (Kind.java_identifier_name, codes "A", 2, []))
    ∷ (4, (Kind.other, [], 2, 5 ∷ 11 ∷ []))
    ∷ (5, (Kind.java_field, [], 4, 6 ∷ 9 ∷ []))
    ∷ (6, (Kind.java_class_type, [], 5, 7 ∷ []))
    ∷ (7, (Kind.java_type_name, [], 6, 8 ∷ []))
    ∷ (8, (Kind.java_identifier, codes "A", 7, []))
    ∷ (9, (Kind.java_var_decl, [], 5, 10 ∷ []))
    ∷ (10, (Kind.java_identifier_name, codes "f", 9, []))
    ∷ (11, (Kind.java_method, [], 4, 12 ∷ []))
    ∷ (12, (Kind.java_block, [], 11, 13 ∷ []))
    ∷ (13, (Kind.java_expr_name, [], 12, 14 ∷ []))
    ∷ (14, (Kind.java_identifier, codes "f", 13, []))
    ∷ []

abbrev kind_at : ℕ → Kind
kind_at n = (get no_row n rows).0

abbrev children_at : ℕ → List ℕ
children_at n = (get no_row n rows).3

-- the types of children that the code asks for
abbrev same : Kind → Kind → Bool
same Kind.java_identifier Kind.java_identifier = true
same Kind.java_identifier_name Kind.java_identifier_name = true
same Kind.java_type_name Kind.java_type_name = true
same _ _ = false

abbrev of_type : Kind → List ℕ → List ℕ
of_type k [] = []
of_type k (n ∷ ns) = let rest = of_type k ns in if same k (kind_at n) then n ∷ rest else rest

abbrev first_of : List ℕ → ℕ
first_of [] = 0
first_of (n ∷ ns) = n

abbrev last_of : List ℕ → ℕ
last_of [] = 0
last_of (n ∷ []) = n
last_of (n ∷ m ∷ ns) = last_of (m ∷ ns)

abbrev tree : Ast ℕ
tree = record {
  invalid = 0;
  is_valid = λ n. ltb 0 n;
  kind = kind_at;
  text = λ n. (get no_row n rows).1;
  parent = λ n. (get no_row n rows).2;
  children = children_at;
  first_child_of_type = λ k n. first_of (of_type k (children_at n));
  last_child_of_type = λ k n. last_of (of_type k (children_at n));
  children_of_type = λ k n. of_type k (children_at n);
  child = λ sel n. 0;
  prev = λ sel n. if n == 9 && sel (kind_at 6) then 6 else 0;
}

abbrev tables : Tables ℕ
tables =
    (1, record { types = (codes "A", 2) ∷ []; members = [] })
    ∷ (2, record { types = []; members = (codes "f", 9 ∷ []) ∷ [] })
    ∷ []

builds : build_symbol_tables tree 8 1 ≡ ok tables
unfolding build_symbol_tables walk walk_all before_tables declare with_table container_of
    is_container add_type add_member add_vars identifier
builds = refl

binds :
    resolve tree 8 1 tables
    ≡ ok (record { tables = tables; stack = []; bindings = (8, 2) ∷ (14, 9) ∷ [] })
unfolding resolve resolve_types resolve_non_types walk walk_all before_types before_non_types enter
    enter_block leave is_container bind_type bind_expr add_locals type_in_scope field_in_scope
    first_field resolve_type_chain resolve_identifier_chain
binds = refl

resolve_types-eq-lexical_example :
    resolve_types tree 8 1 (record { tables = tables; stack = []; bindings = [] }) ≡ (
      lexical tree tables 8 (λ id. 0) 1 [] >>= λ bindings.
      ok (record { tables = tables; stack = []; bindings = bindings }))
resolve_types-eq-lexical_example = resolve_types-eq-lexical tree 8 1 tables

-- The type of the field is the class around it.
binds_types : lexical tree tables 8 (λ id. 0) 1 [] ≡ ok ((8, 2) ∷ [])
unfolding is_container resolve_type_chain
binds_types = refl
