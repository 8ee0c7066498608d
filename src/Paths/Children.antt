-- ===== src/Paths/Children.antt =====
-- The last element of a path, and a path relative to its parent.
use tools_jvm_autodeps.Base.{
  ℕ, suc, ◌≡◌, refl, sym, ap, ◌∙◌, false, some, List, [], ◌∷◌, ◌++◌, append-nil, append_assoc,
  arith, length, drop, ◌==◌, Text, text_beq_iff, nat_eq, text_eq,
}
use tools_jvm_autodeps.GoMap.{contains}
use tools_jvm_autodeps.Strings.{slash, trim_right_slash, after_last, base, join_byte, split_byte}
use tools_jvm_autodeps.Strings.Laws.{last_index_byte-none}
use tools_jvm_autodeps.Paths.{elements, is_abs, join_stack, push_all, rel, rel_of, rev_onto, strip}
use tools_jvm_autodeps.Paths.Parents.{
  IsName, AreNames, path_of, path_of-names, push_all-join_stack, is_abs-join_stack,
  last_index_byte-middle,
}

trim_right_slash_name :
    (c : ℕ) (x : Text) → contains slash (c ∷ x) ≡ false → trim_right_slash (c ∷ x) ≡ c ∷ x
unfolding trim_right_slash
trim_right_slash_name c [] h = ground arith
trim_right_slash_name c (d ∷ x) h = ground (arith, trim_right_slash_name d x)

trim_right_slash_behind :
    (p : Text) (c : ℕ) (x : Text)
    → trim_right_slash (c ∷ x) ≡ c ∷ x
    → trim_right_slash (p ++ c ∷ x) ≡ p ++ c ∷ x
unfolding trim_right_slash
trim_right_slash_behind [] c x h = h
trim_right_slash_behind (d ∷ []) c x h = ground (arith, trim_right_slash_behind [] c x h)
trim_right_slash_behind (d ∷ e ∷ p) c x h = ground (arith, trim_right_slash_behind (e ∷ p) c x h)

trim_slash_name :
    (c : ℕ) (x : Text)
    → contains slash (c ∷ x) ≡ false
    → trim_right_slash (slash ∷ c ∷ x) ≡ slash ∷ c ∷ x
unfolding trim_right_slash
trim_slash_name c x h = ground (arith, trim_right_slash_name c x h)

append-ne-nil : (p x : Text) → (p ++ slash ∷ x == []) ≡ false
append-ne-nil [] x = refl
append-ne-nil (c ∷ p) x = refl

drop-middle : (p x : Text) → drop (suc (length p)) (p ++ slash ∷ x) ≡ x
drop-middle [] x = refl
drop-middle (c ∷ p) x = drop-middle p x

-- the last element, where a slash stands in front of it or nothing does
base_of_last :
    (s x : Text)
    → (s == []) ≡ false
    → (x == []) ≡ false
    → trim_right_slash s ≡ s
    → after_last s slash ≡ x
    → base s ≡ x
unfolding base
base_of_last s x full kept trimmed last = ground (arith, ap (λ t. after_last t slash) trimmed)

base-behind : (p x : Text) → IsName x → base (p ++ slash ∷ x) ≡ x
unfolding after_last
base-behind p [] n = ground (arith, n.not_empty)
base-behind p (c ∷ x) n =
    let kept = trim_right_slash_behind p slash (c ∷ x) (trim_slash_name c x n.no_slash) in
    base_of_last (p ++ slash ∷ c ∷ x) (c ∷ x) (append-ne-nil p (c ∷ x)) refl kept
      (ground (arith, last_index_byte-middle p (c ∷ x) n.no_slash, drop-middle p (c ∷ x)))

base_name : (x : Text) → IsName x → base x ≡ x
unfolding after_last
base_name [] n = ground (arith, n.not_empty)
base_name (c ∷ x) n =
    base_of_last (c ∷ x) (c ∷ x) refl refl (trim_right_slash_name c x n.no_slash)
      (ground (arith, last_index_byte-none (c ∷ x) slash n.no_slash))

pub base-path_of :
    (x : Text) (stack : List Text) → AreNames (x ∷ stack) → base (path_of (x ∷ stack)) ≡ x
base-path_of x [] (n, ns) = ap base (path_of-names x [] (n, ns)) ∙ base_name x n
base-path_of x (y ∷ stack) (n, ns) =
    ap base (path_of-names x (y ∷ stack) (n, ns)) ∙ base-behind (join_stack (y ∷ stack)) x n

is_abs-path_of : (stack : List Text) → AreNames stack → is_abs (path_of stack) ≡ false
is_abs-path_of [] ns = refl
is_abs-path_of (x ∷ stack) ns =
    let p = join_stack (x ∷ stack) in
    ap is_abs (path_of-names x stack ns)
    ∙ (ap is_abs (sym (append-nil p)) ∙ is_abs-join_stack x stack [] ns)

elements-path_of : (stack : List Text) → AreNames stack → elements (path_of stack) ≡ stack
unfolding elements
elements-path_of [] ns = refl
elements-path_of (x ∷ stack) ns =
    ap (λ rooted. push_all rooted [] (split_byte (path_of (x ∷ stack)) slash))
      (is_abs-path_of (x ∷ stack) ns)
    ∙ (ap (λ s. push_all false [] (split_byte s slash)) (path_of-names x stack ns)
        ∙ push_all-join_stack x stack ns)

rev_onto-append : (stack out : List Text) → rev_onto stack out ≡ rev_onto stack [] ++ out
rev_onto-append [] out = refl
rev_onto-append (x ∷ stack) out =
    rev_onto-append stack (x ∷ out)
    ∙ (sym (append_assoc (rev_onto stack []) (x ∷ []) out)
        ∙ ap (λ s. s ++ out) (sym (rev_onto-append stack (x ∷ []))))

strip-append : (bs ts : List Text) → strip bs (bs ++ ts) ≡ ([], ts)
strip-append [] ts = refl
strip-append (b ∷ bs) ts = ground (arith, strip-append bs ts, text_beq_iff b b)

-- the relative path of the last element
rel_of_last :
    (x : Text) (stack : List Text)
    → IsName x
    → rel_of (strip (rev_onto stack []) (rev_onto (x ∷ stack) [])) ≡ some x
unfolding join_byte
rel_of_last [] stack n = ground (arith, n.not_empty)
rel_of_last (c ∷ x) stack n =
    ap (λ ts. rel_of (strip (rev_onto stack []) ts)) (rev_onto-append stack ((c ∷ x) ∷ []))
    ∙ ap rel_of (strip-append (rev_onto stack []) ((c ∷ x) ∷ []))

-- A path relative to its parent is its last element.
pub rel-path_of :
    (x : Text) (stack : List Text)
    → AreNames (x ∷ stack)
    → rel (path_of stack) (path_of (x ∷ stack)) ≡ some x
unfolding rel
rel-path_of x stack (n, ns) =
    rw (is_abs-path_of stack ns, is_abs-path_of (x ∷ stack) (n, ns))
      (ap (λ bs. rel_of (strip (rev_onto bs []) (rev_onto (elements (path_of (x ∷ stack))) [])))
          (elements-path_of stack ns)
        ∙ (ap (λ ts. rel_of (strip (rev_onto stack []) (rev_onto ts [])))
              (elements-path_of (x ∷ stack) (n, ns))
            ∙ rel_of_last x stack n))
