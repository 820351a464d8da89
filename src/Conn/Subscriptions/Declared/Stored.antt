-- ===== src/Conn/Subscriptions/Declared/Stored.antt =====
-- What `new` of conn/mod.rs stores of the declared paths.
use wrpc.Prelude.{
  ℕ, ◌≤◌, ◌≡◌, refl, Bool, true, ◌||◌, List, [], ◌∷◌, ◌++◌, append_assoc, append-nil, Option, none,
  some, arith, if◌then◌else◌, length, length-append, is_none, ltb,
}
use wrpc.BTree.{ℕ_ord, option_ord, BTreeMap, get, eq}
use wrpc.BTree.Order.{eq→≡}
use wrpc.BTree.Laws.{get-insert}
use wrpc.Conn.Subscriptions.{
  Pattern, Subscriptions, is_declared, pattern_or_default, set_wildcard, declare_prefixes, collect,
  insert_declared, declare,
}
use wrpc.Conn.Subscriptions.Declared.{next_after}

next_after_long : (k q : List (Option ℕ)) → length q ≤ length k → next_after k q ≡ none
unfolding next_after
next_after_long k [] h = refl
next_after_long [] (j ∷ q) h = absurd (omega arith)
next_after_long (x ∷ k) (j ∷ q) h = ground (arith, next_after_long k q)

next_after_same :
    (k b r : List (Option ℕ)) (i : Option ℕ)
    → length k ≡ length b
    → next_after k (b ++ i ∷ r) ≡ (if eq b k then some i else none)
unfolding next_after eq
next_after_same [] [] r i h = refl
next_after_same [] (y ∷ b) r i h = absurd (omega arith)
next_after_same (x ∷ k) [] r i h = absurd (omega arith)
next_after_same (x ∷ k) (y ∷ b) r i h = ground (arith, next_after_same k b r i)

-- What declaring a path stores at a prefix after which it goes on with `next`.
abbrev pub mark : Option (Option ℕ) → Option Pattern → Option Pattern
mark none o = o
mark (some i) o = some (record (pattern_or_default o) { wildcard = some (is_none i) })

get-declare_prefixes :
    (before rest k : List (Option ℕ)) (m : BTreeMap (Option ℕ) Pattern)
    → get k (declare_prefixes before rest m) ≡ (
        if ltb (length k) (length before)
        then get k m
        else mark (next_after k (before ++ rest)) (get k m))
unfolding declare_prefixes
get-declare_prefixes before [] k m = ground (arith, append-nil before, next_after_long k before)
get-declare_prefixes before (i ∷ rest) k m = ground (
  arith,
  get-declare_prefixes (before ++ i ∷ []) rest k (set_wildcard before (is_none i) m),
  append_assoc before (i ∷ []) rest,
  length-append before (i ∷ []),
  get-insert before k (record (pattern_or_default (get before m)) { wildcard = some (is_none i) })
      m,
  next_after_same k before rest i,
  eq→≡ before k,
)

abbrev pub wildcard_of : Option Pattern → Option Bool
wildcard_of none = none
wildcard_of (some p) = p.wildcard

-- The answer of a later declaration, if there is one.
abbrev pub or_else : Option (Option ℕ) → Option Bool → Option Bool
or_else none w = w
or_else (some i) w = some (is_none i)

insert_declared-patterns :
    (c : Option (List ℕ)) (s : Subscriptions) → (insert_declared c s).patterns ≡ s.patterns
insert_declared-patterns none s = refl
insert_declared-patterns (some path) s = refl

get-declare :
    (s : Subscriptions) (i : Option ℕ) (rest k : List (Option ℕ))
    → get k (declare s (i ∷ rest)).patterns ≡ (
        if eq (i ∷ rest) k
        then some (record (pattern_or_default (get (i ∷ rest) s.patterns)) { declared = true })
        else mark (next_after k (i ∷ rest)) (get k s.patterns))
unfolding declare
get-declare s i rest k =
    let m = declare_prefixes [] (i ∷ rest) s.patterns in
    rw (insert_declared-patterns (collect (i ∷ rest))) (
      ground (
        arith,
        get-insert (i ∷ rest) k (record (pattern_or_default (get (i ∷ rest) m)) { declared = true })
            m,
        get-declare_prefixes [] (i ∷ rest) k s.patterns,
        get-declare_prefixes [] (i ∷ rest) (i ∷ rest) s.patterns,
        next_after_long (i ∷ rest) (i ∷ rest),
      ))

pub wildcard-declare :
    (s : Subscriptions) (q k : List (Option ℕ))
    → wildcard_of (get k (declare s q).patterns)
      ≡ or_else (next_after k q) (wildcard_of (get k s.patterns))
wildcard-declare s [] k = unfold declare next_after in refl
wildcard-declare s (i ∷ rest) k =
    ground (arith, get-declare s i rest k, next_after_long (i ∷ rest) (i ∷ rest), eq→≡ (i ∷ rest) k)

pub declared-declare :
    (s : Subscriptions) (i : Option ℕ) (rest k : List (Option ℕ))
    → is_declared (get k (declare s (i ∷ rest)).patterns)
      ≡ (eq (i ∷ rest) k || is_declared (get k s.patterns))
declared-declare s i rest k = ground (arith, get-declare s i rest k)
