-- ===== src/Parser/Xrefs/Named.antt =====
-- The symbol tables hold each declaration under its name.
use tools_jvm_autodeps.Base.{
  ℕ, ◌≡◌, refl, ap, subst, subst₂, ◌⊎◌, inl, inr, true, some, List, [], ◌∷◌, ◌++◌, arith,
  if◌then◌else◌, Bool-cases, Option-cases, Eq, ◌==◌, Text, text_beq_iff, nat_eq, text_eq,
}
use tools_jvm_autodeps.GoMap.{
  contains, lookup, get, put, lookup-put, get-put, contains-concat, get-none, get-some,
}
use tools_jvm_autodeps.PkgLoading.{ok, >>=-eq-ok}
use tools_jvm_autodeps.Parser.Ast.{Kind, Ast, is_var_decl, is_import}
use tools_jvm_autodeps.Parser.Xrefs.{
  SymbolTable, new_table, put_type, append_member, identifier, add_type, add_member, add_vars,
}
use tools_jvm_autodeps.Parser.Xrefs.Walk.{walk_keeps}
use tools_jvm_autodeps.Parser.Xrefs.Tables.{
  Tables, is_container, container_of, with_table, import_name, declare_import, declare,
  before_tables, build_symbol_tables,
}

module _ {Node : Type 0} ⦃e : Eq Node⦄ (ast : Ast Node) where
  -- A declaration has a name of its own, or it is an import and has the last one that it imports.
  abbrev pub Names : Node → Text → Type 0
  Names d id =
      (identifier ast d ≡ id)
      ⊎ ((is_import (ast.kind d) ≡ true) × (ast.text (import_name ast d) ≡ id))

  pub record IsNamed (st : SymbolTable Node) : Type 0 where
    pub typed : (id : Text) (d : Node) → lookup id st.types ≡ some d → Names d id
    pub membered : (id : Text) (d : Node) → contains d (get [] id st.members) ≡ true → Names d id

  pub new_table-IsNamed : IsNamed new_table
  new_table-IsNamed = record { typed = λ id d h. cc; membered = λ id d h. cc }

  put_type-IsNamed :
      (name : Text) (n : Node) (st : SymbolTable Node)
      → Names n name
      → IsNamed st
      → IsNamed (put_type name n st)
  put_type-IsNamed name n st named h = record {
    typed = λ id d there. elim (Bool-cases (name == id)) [
      | inl same ↦
          subst₂ Names (ground (arith, lookup-put name id n st.types))
            ((text_beq_iff name id).0 same) named
      | inr other ↦ h.typed id d (ground (arith, lookup-put name id n st.types))
    ];
    membered = λ id d there. h.membered id d there;
  }

  append_member-IsNamed :
      (name : Text) (n : Node) (st : SymbolTable Node)
      → Names n name
      → IsNamed st
      → IsNamed (append_member name n st)
  append_member-IsNamed name n st named h = record {
    typed = λ id d there. h.typed id d there;
    membered = λ id d there.
        let all = get [] name st.members ++ n ∷ [] in
        elim (Bool-cases (name == id)) [
          | inl same ↦ elim (Bool-cases (n == d)) [
            | inl new ↦ subst₂ Names ((e.beq_iff n d).0 new) ((text_beq_iff name id).0 same) named
            | inr old ↦ h.membered id d (
                ground (
                  arith,
                  get-put [] name id all st.members,
                  contains-concat d n (get [] name st.members),
                  text_beq_iff name id,
                ))
          ]
          | inr other ↦ h.membered id d (ground (arith, get-put [] name id all st.members))
        ];
  }

  add_type-IsNamed : (n : Node) (st : SymbolTable Node) → IsNamed st → IsNamed (add_type ast n st)
  unfolding add_type
  add_type-IsNamed n st h = elim (Bool-cases (identifier ast n == [])) [
    | inl nameless ↦ rw nameless h
    | inr named ↦ rw named (put_type-IsNamed (identifier ast n) n st (inl refl) h)
  ]

  pub add_member-IsNamed :
      (n : Node) (st : SymbolTable Node) → IsNamed st → IsNamed (add_member ast n st)
  unfolding add_member
  add_member-IsNamed n st h = elim (Bool-cases (identifier ast n == [])) [
    | inl nameless ↦ rw nameless h
    | inr named ↦ rw named (append_member-IsNamed (identifier ast n) n st (inl refl) h)
  ]

  pub add_vars-IsNamed :
      (vars : List Node) (st : SymbolTable Node) → IsNamed st → IsNamed (add_vars ast st vars)
  unfolding add_vars
  add_vars-IsNamed [] st h = h
  add_vars-IsNamed (n ∷ vars) st h = elim (Bool-cases (is_var_decl (ast.kind n))) [
    | inl var ↦ rw var (add_vars-IsNamed vars (add_member ast n st) (add_member-IsNamed n st h))
    | inr not_var ↦ rw not_var (add_vars-IsNamed vars st h)
  ]

  abbrev pub AreNamed : Tables Node → Type 0
  AreNamed tables = (c : Node) (st : SymbolTable Node) → lookup c tables ≡ some st → IsNamed st

  pub get-IsNamed :
      (c : Node) (tables : Tables Node) → AreNamed tables → IsNamed (get new_table c tables)
  get-IsNamed c tables h = elim (Option-cases (lookup c tables)) [
    | inl e ↦ rw (get-none new_table c tables e) new_table-IsNamed
    | inr (st, e) ↦ rw (get-some new_table c st tables e) (h c st e)
  ]

  pub put-AreNamed :
      (c : Node) (st : SymbolTable Node) (tables : Tables Node)
      → IsNamed st
      → AreNamed tables
      → AreNamed (put c st tables)
  put-AreNamed c st tables named h = λ j found there.
      let e' = lookup-put c j st tables in
      elim (Bool-cases (c == j)) [
        | inl same ↦ subst IsNamed (ground arith) named
        | inr other ↦ h j found (ground arith)
      ]

  with_table-AreNamed :
      (n : Node) (write : SymbolTable Node → SymbolTable Node) (tables later : Tables Node)
      → ((st : SymbolTable Node) → IsNamed st → IsNamed (write st))
      → AreNamed tables
      → with_table ast n write tables ≡ ok later
      → AreNamed later
  unfolding with_table
  with_table-AreNamed n write tables later keeps h ran =
      let c = container_of ast n in
      elim (Bool-cases (is_container (ast.kind c))) [
        | inl good ↦ subst AreNamed (ground arith) (
            put-AreNamed c (write (get new_table c tables)) tables
              (keeps (get new_table c tables) (get-IsNamed c tables h)) h)
        | inr bad ↦ ground arith
      ]

  declare_import-AreNamed :
      (n : Node) (tables later : Tables Node)
      → ast.kind n ≡ Kind.java_import
      → AreNamed tables
      → declare_import ast n tables ≡ ok later
      → AreNamed later
  unfolding declare_import
  declare_import-AreNamed n tables later import h ran =
      let named : Names n (ast.text (import_name ast n)) = inr (ap is_import import, refl) in
      let name = ast.text (import_name ast n) in
      let static = ast.is_valid (ast.first_child_of_type Kind.java_static n) in
      elim (Bool-cases (ast.is_valid (ast.first_child_of_type Kind.java_name n))) [
        | inr nameless ↦ subst AreNamed (ground arith) h
        | inl has_name ↦ elim (Bool-cases (ast.is_valid (import_name ast n))) [
          | inr no_id ↦ subst AreNamed (ground arith) h
          | inl has_id ↦
              with_table-AreNamed n (if static then append_member name n else put_type name n)
                tables later
                (λ st g. elim (Bool-cases static) [
                  | inl is_static ↦ rw is_static (append_member-IsNamed name n st named g)
                  | inr not_static ↦ rw not_static (put_type-IsNamed name n st named g)
                ])
                h (ground arith)
        ]
      ]

  declare-AreNamed :
      (k : Kind) (n : Node) (tables later : Tables Node)
      → ast.kind n ≡ k
      → AreNamed tables
      → declare ast k n tables ≡ ok later
      → AreNamed later
  unfolding declare
  declare-AreNamed Kind.java_method n tables later is_k h ran =
      with_table-AreNamed n (add_member ast n) tables later (add_member-IsNamed n) h ran
  declare-AreNamed Kind.java_enum_constant n tables later is_k h ran =
      with_table-AreNamed n (add_member ast n) tables later (add_member-IsNamed n) h ran
  declare-AreNamed Kind.java_field n tables later is_k h ran =
      with_table-AreNamed n (λ st. add_vars ast st (ast.children n)) tables later
        (λ st. add_vars-IsNamed (ast.children n) st) h ran
  declare-AreNamed Kind.java_class n tables later is_k h ran =
      with_table-AreNamed n (add_type ast n) tables later (add_type-IsNamed n) h ran
  declare-AreNamed Kind.java_enum n tables later is_k h ran =
      with_table-AreNamed n (add_type ast n) tables later (add_type-IsNamed n) h ran
  declare-AreNamed Kind.java_interface n tables later is_k h ran =
      with_table-AreNamed n (add_type ast n) tables later (add_type-IsNamed n) h ran
  declare-AreNamed Kind.java_type_parameter n tables later is_k h ran =
      with_table-AreNamed n (add_type ast n) tables later (add_type-IsNamed n) h ran
  declare-AreNamed Kind.java_annotation_type n tables later is_k h ran =
      with_table-AreNamed n (add_type ast n) tables later (add_type-IsNamed n) h ran
  declare-AreNamed Kind.java_import n tables later is_k h ran =
      declare_import-AreNamed n tables later is_k h ran
  declare-AreNamed _ n tables later is_k h ran = subst AreNamed (cc) h

  -- buildSymbolTables puts each declaration under its name.
  pub build_symbol_tables-AreNamed :
      (fuel : ℕ) (root : Node) (tables : Tables Node)
      → build_symbol_tables ast fuel root ≡ ok tables
      → AreNamed tables
  unfolding build_symbol_tables
  build_symbol_tables-AreNamed fuel root tables ran =
      walk_keeps ast (before_tables ast) (λ n i t. t) AreNamed keeps (λ n x t h. h) fuel root []
        tables (λ c st h. cc) ran
    where
      keeps :
          (n : Node) (t later : Tables Node) (x : ℕ)
          → AreNamed t
          → before_tables ast n t ≡ ok (later, x)
          → AreNamed later
      keeps n t later x h one =
          let (done, same, made) = >>=-eq-ok (declare ast (ast.kind n) n t) _ one in
          subst AreNamed (cc) (declare-AreNamed (ast.kind n) n t done refl h made)
