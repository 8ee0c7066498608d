-- ===== src/Parser/Xrefs.antt =====
-- lang/java/parser/xrefs/xrefs.go: the symbol tables of a file, and the declarations that its
-- identifiers stand for.
--
-- A stack of symbol tables has its top first. The table of a container is shared with the tables of
-- the file, so the stack holds the container; the table of a block is on the stack only. A walk stops
-- where the code panics and where the fuel for the depth of the tree runs out.
pub mod Tables
pub mod Scopes
pub mod Resolve
pub mod Walk
pub mod Named
pub mod Bound
pub mod Sound
pub mod Returns
pub mod Balanced
pub mod Lexical
pub mod Placed
pub mod LocalTests
pub mod Tests
use tools_jvm_autodeps.Base.{
  ℕ, zero, suc, List, [], ◌∷◌, ◌++◌, if◌then◌else◌, ◌==◌, Text, nat_eq, text_eq,
}
use tools_jvm_autodeps.GoMap.{GoMap, get, put}
use tools_jvm_autodeps.PkgLoading.{Result, ok, err, ◌>>=◌}
use tools_jvm_autodeps.Parser.Ast.{Kind, Ast, is_var_decl}

pub data Stop : Type 0 where
  panics out_of_fuel : Stop

pub record SymbolTable (Node : Type 0) : Type 0 where
  pub types : GoMap Text Node
  pub members : GoMap Text (List Node)

abbrev pub new_table : {Node : Type 0} → SymbolTable Node
new_table = record { types = []; members = [] }

module _ {Node : Type 0} where
  abbrev pub put_type : Text → Node → SymbolTable Node → SymbolTable Node
  put_type id n st = record st { types = put id n st.types }

  abbrev pub append_member : Text → Node → SymbolTable Node → SymbolTable Node
  append_member id n st = record st { members = put id (get [] id st.members ++ n ∷ []) st.members }

module _ {Node : Type 0} (ast : Ast Node) where
  -- identifier
  unfoldable pub identifier : Node → Text
  identifier n = ast.text (ast.first_child_of_type Kind.java_identifier_name n)

  -- addType and addMember
  unfoldable pub add_type : Node → SymbolTable Node → SymbolTable Node
  unfolding identifier
  add_type n st = if identifier n == [] then st else put_type (identifier n) n st

  unfoldable pub add_member : Node → SymbolTable Node → SymbolTable Node
  unfolding identifier
  add_member n st = if identifier n == [] then st else append_member (identifier n) n st

  -- the loops over the children that add each JavaVarDecl
  unfoldable pub add_vars : SymbolTable Node → List Node → SymbolTable Node
  unfolding add_member
  add_vars st [] = st
  add_vars st (child ∷ siblings) =
      add_vars (if is_var_decl (ast.kind child) then add_member child st else st) siblings

  module _ {S : Type 0} (before : Node → S → Result Stop (S × ℕ)) (after : Node → ℕ → S → S) where
    -- `for child := n.FirstChild(); child.IsValid(); child = child.NextSibling()`
    unfoldable pub walk_all : (Node → S → Result Stop S) → List Node → S → Result Stop S
    walk_all go [] s = ok s
    walk_all go (child ∷ siblings) s = go child s >>= walk_all go siblings

    -- walk, with fuel for the depth
    unfoldable pub walk : ℕ → Node → S → Result Stop S
    unfolding walk_all
    walk zero n s = err out_of_fuel
    walk (suc fuel) n s = do
      (later, x) ← before n s
      done ← walk_all (walk fuel) (ast.children n) later
      ok (after n x done)
