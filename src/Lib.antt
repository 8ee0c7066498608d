-- ===== src/Lib.antt =====
-- Jadep adds missing dependencies to the BUILD files of Java programs. It reads a Java file,
-- finds the class names that it uses, asks resolvers which Bazel rules provide them, drops the
-- rules that the rule of the file may not depend on, and edits the BUILD file.
--
-- The parts and their files:
-- * Base (Lists, Equality, Int): shared names, lists and their numbers, equality of keys. Strings
--   are lists of bytes. GoMap: Go's maps and sets as association lists, in the order of the list; a
--   theorem that holds for every such list holds for every order of iteration that Go may choose.
--   GoMap.Entries: what holds of every entry of a map. Strings (Laws): what the code uses of Go's
--   strings and path packages. Paths (Parents, Children): what it uses of filepath on Unix.
-- * Bazel (Split, Absolute, Relative, Attrs) is bazel/bazel.go: `split` is Label.Split,
--   `parse_absolute_label` and `parse_relative_label` the two parsers, `new_rule` NewRule, and
--   `label_list_attr` and its like the accessors of attributes. The texts of errors are left to one
--   constructor for each place that makes an error.
-- * PkgLoading (Lookup, Filtering, Caching) is pkgloading/pkgloading.go. A loader is a function
--   from package names to a result. `load_rules` and `load_package_groups` are LoadRules and
--   LoadPackageGroups. Caching holds CachingLoader: `advance` is its Load, cut at the places where
--   other calls can come between, `Step` takes one piece of any call, and `Reachable` are the
--   states of any number of interleaved calls. `cached_load` is a call with none beside it.
--   Filtering holds FilteringLoader. Siblings (Closest) holds Siblings and findPackageName.
-- * Filter (SubPackage, Search) is filter/filter.go. Search holds CheckVisibility: `start` makes
--   the first nodes of its search, `layer` is one turn of the loop, and `loop` takes fuel for the
--   number of turns.
-- * Graphs (Post, Ends) is graphs/graphs.go, the depth-first search.
-- * ResolverUtil (Cover, Satisfied) is resolverutil/resolverutil.go.
-- * Jadeplib (Partition, Missing, Selection, Names) is jadeplib/jadeplib.go: `resolve_all` is
--   resolveAll over resolvers that are parameters, and Missing holds `missing_deps`, which is
--   MissingDeps: it asks the resolvers, filters by Filter's tests and CheckVisibility, and sorts
--   with Sorting, which stands for Go's sort package. Names holds ExcludeClassNames and
--   GetKindForNewRule, and Files (Created, Consuming) holds CreateRule, RulesConsumingFile,
--   ImplicitImports and UnfilteredMissingDeps. Selection is jadeplib/UserInteractionHandler.go:
--   `select_deps_to_add` is SelectDepsToAdd on a sequence of lines that the user types.
-- * DictResolver (Loops, Answers) is dictresolver/dictresolver.go, and BazelDeps (Chains, Jars,
--   Listed, Tops, Answers) is bazeldepsresolver/bazeldepsresolver.go with
--   listclassesinjar/listclassesinjar.go. FsResolver (Edges, Provided) is fsresolver/fsresolver.go,
--   over PkgLoading.Siblings and Graphs; its depth-first search has fuel for all edges of the graph
--   of the package. All are resolvers of Jadeplib and load through PkgLoading; DictResolver uses
--   ResolverUtil.
-- * GrpcLoader is grpcloader/grpcloader.go: Proto (RoundTrip, Ints) holds DeserializeProto, Dial
--   (Address, Ends, Fresh) holds `dial_and_start`, which is dialAndStart over an `Env` of what the
--   server and the system do, with a log of events, and Buffer the buffer for the output of the
--   server, as a step relation between the pieces of its calls.
-- * Parser is lang/java/parser/parser.go: Builtin (Order, Search, Implicit) holds isBuiltin, and
--   ClassNames (Extracted) `referenced_classes`, which is ReferencedClasses. Parser.Xrefs is
--   lang/java/parser/xrefs/xrefs.go: Tables builds the symbol tables, Scopes looks names up, and
--   Resolve has the two walks that bind identifiers; Lexical has lexical scoping as a recursion
--   without a stack, to which resolveTypes is compared, and Placed tells where buildSymbolTables
--   panics; Walk, Named, Bound, Sound, Returns and Balanced hold what is kept by the walks. A tree
--   is a value of `Ast`, which has the operations that the code calls.
-- * Buildozer is buildozer/buildozer.go, and Cli (Sources) is cli/cli.go: `rules_to_fix` and
--   `class_names_to_resolve` are what the main program starts from, over Jadeplib.Files, Buildozer
--   and Parser.
-- * Counting has the measures by which the searches end.
-- * The modules named Tests hold runs of the definitions.
--
-- Bounds and fuel: the walks of Parser.Xrefs take fuel for the levels of the tree. `find_from` of
-- findPackageName takes one round more than the directories on the path, and `attempt_dial` one
-- dial more than the units of time of the timeout, since a dial that runs into its deadline takes
-- time. `search_from` of SearchStrings has one round more than there are strings. `top_of` of the
-- bazel-deps resolver takes one step more than the length of the longest chain of exports; that
-- exports have no cycles is a hypothesis, which Bazel enforces. `find_workspace` and
-- `search_layers` take fuel for the directories and the layers. `visit` of DFS takes fuel for its
-- depth, of which one more than the nodes is enough. `loop` of CheckVisibility takes fuel; where
-- a finite list holds the labels of all package groups that can be reached, one turn more than
-- there are pairs of a query and a label of that list is enough. Numbers that the code keeps as
-- int are counts of things in memory and are natural numbers here, attributes that are int are
-- integers without bounds.
--
-- What a loader does is a parameter. A theorem that speaks of the workspace assumes that the
-- packages that the loader returns are those of one workspace; it says so.
--
-- Not modelled: two calls of Write of closeableBuffer that overlap, which os/exec rules out where
-- it is used; of grpcloader, the passing on of arguments to the connection by NewLoader, Connect
-- and Load; of cli, reports and profiling. Also left out are the Java server, logging and timing,
-- terminal output, flags and the main programs, the table of regular expressions in ruleconsts,
-- test support, and the parsers under thirdparty, a copy of another project. Buildozer, the file
-- system, jars, the CSV reader, regular expressions, the tables of Unicode and the operations of
-- syntax trees are parameters.
pub mod Base
pub mod GoMap
pub mod Counting
pub mod Bazel
pub mod PkgLoading
pub mod Filter
pub mod FsResolver
pub mod Strings
pub mod Sorting
pub mod Paths
pub mod DictResolver
pub mod Parser
pub mod Buildozer
pub mod BazelDeps
pub mod Cli
pub mod Graphs
pub mod ResolverUtil
pub mod Jadeplib
pub mod GrpcLoader
