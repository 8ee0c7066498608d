-- ===== src/FsResolver/Edges.antt =====
-- The graph of a package: which rules provide the classes of a source.
use tools_jvm_autodeps.Base.{
  ◌≡◌, true, ap, if◌then◌else◌, Bool, false, ◌&&◌, ◌||◌, List, [], ◌∷◌, ◌++◌, arith, ◌==◌, Text,
  text_beq_iff, nat_eq, text_eq,
}
use tools_jvm_autodeps.GoMap.{GoMap, contains, lookup, get, get-put, contains-concat}
use tools_jvm_autodeps.Strings.{codes}
use tools_jvm_autodeps.Graphs.{Graph}
use tools_jvm_autodeps.Bazel.{Rule, string_list_attr}
use tools_jvm_autodeps.FsResolver.{append_edge, is_filegroup, add_exports, add_srcs, add_rules}

-- whether an edge is there
abbrev pub has_edge : Text → Text → Graph → Bool
has_edge u v graph = contains v (get [] u graph)

has_edge-append_edge :
    (u v x y : Text) (graph : Graph)
    → has_edge x y (append_edge u v graph) ≡ (has_edge x y graph || (x == u && y == v))
has_edge-append_edge u v x y graph = ground (
  arith,
  get-put [] u x (get [] u graph ++ v ∷ []) graph,
  contains-concat y v (get [] u graph),
  text_beq_iff u x,
  text_beq_iff x u,
  text_beq_iff v y,
  text_beq_iff y v,
)

has_edge-if :
    (c : Bool) (u v x y : Text) (graph : Graph)
    → has_edge x y (if c then append_edge u v graph else graph)
      ≡ (has_edge x y graph || (c && (x == u && y == v)))
has_edge-if false u v x y graph = ground arith
has_edge-if true u v x y graph = has_edge-append_edge u v x y graph

has_edge-add_exports :
    (n : Text) (graph : Graph) (exports : List Text) (x y : Text)
    → has_edge x y (add_exports n graph exports)
      ≡ (has_edge x y graph || (contains x exports && y == n))
unfolding add_exports
has_edge-add_exports n graph [] x y = ground arith
has_edge-add_exports n graph (s ∷ exports) x y = ground (
  arith,
  has_edge-add_exports n (append_edge s n graph) exports x y,
  has_edge-append_edge s n x y graph,
  text_beq_iff x s,
  text_beq_iff s x,
)

-- the two tests on a source `s`, as one on `x`
either_edge :
    (later old y_n : Bool) {here twice once kind_s kind_x s_file x_file x_s s_x : Bool}
    → here ≡ (twice || (later && (x_file || kind_x) && y_n))
    → twice ≡ (once || (kind_s && (x_s && y_n)))
    → once ≡ (old || (s_file && (x_file && y_n)))
    → (s_x ≡ true → kind_s ≡ kind_x)
    → (s_x ≡ true → s_file ≡ x_file)
    → x_s ≡ s_x
    → (s_file ≡ true → x_file ≡ true → s_x ≡ true)
    → here ≡ (old || ((s_x || later) && (x_file || kind_x) && y_n))
either_edge later old y_n a b c d e f g = ground arith

module _ {Ref : Type 0} (deref : Ref → Rule) where
  has_edge-add_srcs :
      (rules : GoMap Text Ref) (file n : Text) (graph : Graph) (srcs : List Text) (x y : Text)
      → has_edge x y (add_srcs deref rules file n graph srcs) ≡ (
          has_edge x y graph
          || (contains x srcs && (x == file || is_filegroup deref (lookup x rules)) && y == n))
  unfolding add_srcs
  has_edge-add_srcs rules file n graph [] x y = ground arith
  has_edge-add_srcs rules file n graph (s ∷ srcs) x y =
      let once = if s == file then append_edge file n graph else graph in
      let twice = if is_filegroup deref (lookup s rules) then append_edge s n once else once in
      let kind : s == x ≡ true
          → is_filegroup deref (lookup s rules) ≡ is_filegroup deref (lookup x rules) =
        λ h. ap (λ k. is_filegroup deref (lookup k rules)) ((text_beq_iff s x).0 h) in
      let at_file : s == x ≡ true → (s == file) ≡ (x == file) =
        λ h. ap (λ k. k == file) ((text_beq_iff s x).0 h) in
      let flip : (x == s) ≡ (s == x) = ground (arith, text_beq_iff x s, text_beq_iff s x) in
      let joins : s == file ≡ true → x == file ≡ true → s == x ≡ true =
        λ h k. ground (arith, text_beq_iff s x, text_beq_iff s file, text_beq_iff x file) in
      either_edge (contains x srcs) (has_edge x y graph) (y == n)
        (has_edge-add_srcs rules file n twice srcs x y)
        (has_edge-if (is_filegroup deref (lookup s rules)) s n x y once)
        (has_edge-if (s == file) file n x y graph) kind at_file flip joins

  -- whether a rule of the package has the source, directly or as a part of what it exports
  abbrev pub provides : GoMap Text Ref → Text → List (Text × Ref) → Text → Text → Bool
  provides rules file [] x y = false
  provides rules file ((n, r) ∷ more) x y =
      (contains x (string_list_attr (deref r) (codes "exports"))
          || (contains x (string_list_attr (deref r) (codes "srcs"))
              && (x == file || is_filegroup deref (lookup x rules))))
        && y == n
      || provides rules file more x y

  pub has_edge-add_rules :
      (rules : GoMap Text Ref) (file : Text) (graph : Graph) (more : List (Text × Ref))
      → (x y : Text)
      → has_edge x y (add_rules deref rules file graph more)
        ≡ (has_edge x y graph || provides rules file more x y)
  unfolding add_rules
  has_edge-add_rules rules file graph [] x y = ground arith
  has_edge-add_rules rules file graph ((n, r) ∷ more) x y =
      let exported = add_exports n graph (string_list_attr (deref r) (codes "exports")) in
      ground (
        arith,
        has_edge-add_rules rules file
            (add_srcs deref rules file n exported (string_list_attr (deref r) (codes "srcs"))) more
            x y,
        has_edge-add_srcs rules file n exported (string_list_attr (deref r) (codes "srcs")) x y,
        has_edge-add_exports n graph (string_list_attr (deref r) (codes "exports")) x y,
      )
