-- ===== src/Parser.antt =====
-- lang/java/parser: the class names that Java files reference.
--
-- The syntax trees are those of the thirdparty parsers, whose nodes and operations are parameters.
pub mod Ast
pub mod Xrefs
pub mod Builtin
pub mod ClassNames
pub mod Tests
