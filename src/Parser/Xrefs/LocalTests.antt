-- ===== src/Parser/Xrefs/LocalTests.antt =====
-- A class that is declared in a block of an `if`: a file, a class, its body, a method, its block, the
-- `if`, its block and the class. Each node has the next one as its only child.
use tools_jvm_autodeps.Base.{
  ℕ, suc, ◌-◌, ◌≡◌, refl, ◌||◌, [], ◌∷◌, ltb, if◌then◌else◌, ◌==◌, nat_eq, text_eq,
}
use tools_jvm_autodeps.Strings.{codes}
use tools_jvm_autodeps.PkgLoading.{err}
use tools_jvm_autodeps.Parser.Ast.{Kind, Ast}
use tools_jvm_autodeps.Parser.Xrefs.{panics, identifier, add_type, add_member, walk_all, walk}
use tools_jvm_autodeps.Parser.Xrefs.Tables.{
  Tables, is_container, container_of, with_table, declare, before_tables, build_symbol_tables,
}

abbrev kind_at : ℕ → Kind
kind_at n =
    if n == 1
    then Kind.java_file
    else if n == 2 || n == 8
    then Kind.java_class
    else if n == 4
    then Kind.java_method
    else if n == 5 || n == 7
    then Kind.java_block
    else Kind.other

abbrev chain : Ast ℕ
chain = record {
  invalid = 0;
  is_valid = λ n. ltb 0 n;
  kind = kind_at;
  text = λ n. codes "A";
  parent = λ n. n - 1;
  children = λ n. if n == 8 then [] else suc n ∷ [];
  first_child_of_type = λ k n. 0;
  last_child_of_type = λ k n. 0;
  children_of_type = λ k n. [];
  child = λ sel n. 0;
  prev = λ sel n. 0;
}

panics_runs : build_symbol_tables chain 8 1 ≡ err panics
unfolding build_symbol_tables walk walk_all before_tables declare with_table container_of
    is_container add_type add_member identifier
panics_runs = refl
