-- ===== src/Paths.antt =====
-- What the code uses of Go's path/filepath on Unix. A path is taken apart at its slashes, and its
-- elements are kept on a stack, the last one first.
pub mod Parents
pub mod Children
use mathlib.Core.Option
use tools_jvm_autodeps.Base.{
  ℕ, suc, Bool, false, not, ◌||◌, Option, none, some, List, [], ◌∷◌, ◌++◌, if◌then◌else◌, take,
  drop, ◌==◌, Text, nat_eq, text_eq,
}
use tools_jvm_autodeps.Strings.{
  slash, dot, codes, has_prefix, split_byte, last_index_byte, join_byte, after_last, base,
}

abbrev pub dots : Text
dots = dot ∷ dot ∷ []

-- the path `.`
abbrev pub dot_path : Text
dot_path = dot ∷ []

-- `..` takes the last element away, if there is one; at the root it is dropped
abbrev pub pop : Bool → List Text → List Text
pop rooted [] = if rooted then [] else dots ∷ []
pop rooted (top ∷ stack) = if top == dots then dots ∷ top ∷ stack else stack

-- one element of the path
abbrev pub push : Bool → List Text → Text → List Text
push rooted stack elem =
    if elem == [] || elem == (dot ∷ [])
    then stack
    else if elem == dots
    then pop rooted stack
    else elem ∷ stack

unfoldable pub push_all : Bool → List Text → List Text → List Text
push_all rooted stack [] = stack
push_all rooted stack (elem ∷ elems) = push_all rooted (push rooted stack elem) elems

abbrev pub is_abs : Text → Bool
is_abs [] = false
is_abs (c ∷ s) = c == slash

-- the stack of a path
unfoldable pub elements : Text → List Text
unfolding push_all split_byte
elements s = push_all (is_abs s) [] (split_byte s slash)

-- the path of a stack
abbrev pub join_stack : List Text → Text
join_stack [] = []
join_stack (x ∷ []) = x
join_stack (x ∷ y ∷ stack) = join_stack (y ∷ stack) ++ slash ∷ x

abbrev pub or_dot : Text → Text
or_dot [] = dot ∷ []
or_dot (c ∷ s) = c ∷ s

-- filepath.Clean
unfoldable pub clean : Text → Text
clean s = if is_abs s then slash ∷ join_stack (elements s) else or_dot (join_stack (elements s))

-- filepath.Join
unfoldable pub path_join : List Text → Text
unfolding clean join_byte
path_join [] = []
path_join ([] ∷ elems) = path_join elems
path_join ((c ∷ s) ∷ elems) = clean (join_byte ((c ∷ s) ∷ elems) slash)

abbrev pub up_to : Option ℕ → Text → Text
up_to none s = []
up_to (some i) s = take (suc i) s

-- filepath.Dir
unfoldable pub dir : Text → Text
unfolding last_index_byte
dir s = clean (up_to (last_index_byte s slash) s)

abbrev pub from_index : Option ℕ → Text → Text
from_index none s = []
from_index (some i) s = drop i s

-- filepath.Ext
unfoldable pub ext : Text → Text
unfolding after_last last_index_byte
ext s = let last = after_last s slash in from_index (last_index_byte last dot) last

-- the rest of the two paths behind their common start, in the order of the path
abbrev pub strip : List Text → List Text → List Text × List Text
strip [] ts = ([], ts)
strip (b ∷ bs) [] = (b ∷ bs, [])
strip (b ∷ bs) (t ∷ ts) = let rest = strip bs ts in if b == t then rest else (b ∷ bs, t ∷ ts)

abbrev pub rev_onto : List Text → List Text → List Text
rev_onto [] out = out
rev_onto (x ∷ stack) out = rev_onto stack (x ∷ out)

abbrev pub ups : List Text → List Text
ups [] = []
ups (b ∷ bs) = dots ∷ ups bs

abbrev pub rel_of : List Text × List Text → Option Text
rel_of ([], ts) = some (or_dot (join_byte ts slash))
rel_of (b ∷ bs, ts) = if b == dots then none else some (join_byte (ups (b ∷ bs) ++ ts) slash)

-- filepath.Rel, where `none` is its error
unfoldable pub rel : Text → Text → Option Text
unfolding join_byte
rel base_path target =
    if (if is_abs base_path then is_abs target else not (is_abs target))
    then rel_of (strip (rev_onto (elements base_path) []) (rev_onto (elements target) []))
    else none
