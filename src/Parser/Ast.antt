-- ===== src/Parser/Ast.antt =====
-- What the parser asks of a syntax tree of thirdparty/golang/parsers.
use tools_jvm_autodeps.Base.{Bool, true, false, List, Text, nat_eq, text_eq}

-- the types of nodes that the code tells apart
pub data Kind : Type 0 where
  java_file java_class java_enum java_interface java_type_parameter java_annotation_type : Kind
  java_method java_constructor java_new java_enum_constant java_field java_var_decl : Kind
  java_method_generic_clause java_import java_static java_package : Kind
  java_block java_switch_block java_basic_for java_enh_for java_local_vars java_for_init : Kind
  java_type_name java_type_or_expr_name java_expr_name java_name java_name_star : Kind
  java_identifier java_identifier_name java_class_type java_primitive_type java_array_type : Kind
  other : Kind

abbrev pub is_var_decl : Kind → Bool
is_var_decl java_var_decl = true
is_var_decl _ = false

abbrev pub is_import : Kind → Bool
is_import java_import = true
is_import _ = false

abbrev pub is_class_type : Kind → Bool
is_class_type java_class_type = true
is_class_type _ = false

-- typeSelector
abbrev pub is_some_type : Kind → Bool
is_some_type java_class_type = true
is_some_type java_primitive_type = true
is_some_type java_array_type = true
is_some_type _ = false

-- The operations answer for the invalid node too. `children` is what FirstChild and NextSibling go
-- through.
pub record Ast (Node : Type 0) : Type 0 where
  pub invalid : Node
  pub is_valid : Node → Bool
  pub kind : Node → Kind
  pub text : Node → Text
  pub parent : Node → Node
  pub children : Node → List Node
  pub first_child_of_type : Kind → Node → Node
  pub last_child_of_type : Kind → Node → Node
  pub children_of_type : Kind → Node → List Node
  pub child : (Kind → Bool) → Node → Node
  pub prev : (Kind → Bool) → Node → Node
