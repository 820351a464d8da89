-- ===== src/Conn/Subscriptions.antt =====
-- `Subscriptions` of crates/transport/src/frame/conn/mod.rs: which paths of an incoming stream are
-- declared, and where the data received for them goes. A channel is a number, of which `fresh` is
-- the next; its sender stands in `tx` and its receiver in `rx`. A permit of the semaphore
-- `unclaimed` is a Boolean. `indexed` counts the calls of `notify_one`.
pub mod Indexing
pub mod Routing
pub mod Declared
pub mod Invariant
pub mod Once
use wrpc.Prelude.{
  ℕ, zero, suc, ◌+◌, Bool, true, false, ◌&&◌, ◌||◌, List, [], ◌∷◌, ◌++◌, Option, none, some, ltb,
  if◌then◌else◌, length, max, is_some, is_none,
}
use wrpc.BTree.{Ord, ℕ_ord, option_ord, BTreeMap, get, insert, contains_key}

pub data TxSlot : Type 0 where
  open_to : ℕ → TxSlot
  closed : TxSlot

-- `MAX_UNCLAIMED_ELEMENTS` and `MAX_BUFFERED_CHUNKS`.
abbrev pub max_unclaimed_elements : ℕ
max_unclaimed_elements = 64

pub record Pattern : Type 0 where
  pub declared : Bool
  pub wildcard : Option Bool

pub record Subscription : Type 0 where
  pub tx : Option TxSlot
  pub rx : Option ℕ
  pub handles : ℕ
  pub permit : Bool

pub record Subscriptions : Type 0 where
  pub patterns : BTreeMap (Option ℕ) Pattern
  pub subs : BTreeMap ℕ Subscription
  pub next : BTreeMap ℕ ℕ
  pub unclaimed_closed : Bool
  pub indexed : ℕ
  pub all_closed : Bool
  pub depth : ℕ
  pub fresh : ℕ

-- `Subscription::default` and `Pattern::default`.
abbrev pub default : Subscription
default = record { tx = none; rx = none; handles = 0; permit = false }

abbrev pub default_pattern : Pattern
default_pattern = record { declared = false; wildcard = none }

-- `Subscription::new`, on the channel `c`.
abbrev pub new_subscription : Bool → ℕ → Subscription
new_subscription false c = default
new_subscription true c = record default { tx = some (open_to c); rx = some c }

abbrev pub pattern_or_default : Option Pattern → Pattern
pattern_or_default none = default_pattern
pattern_or_default (some p) = p

-- `patterns.entry(k).or_default().wildcard = Some(w)`, and the same of `declared`.
abbrev pub set_wildcard :
    List (Option ℕ) → Bool → BTreeMap (Option ℕ) Pattern → BTreeMap (Option ℕ) Pattern
set_wildcard k w m = insert k (record (pattern_or_default (get k m)) { wildcard = some w }) m

abbrev pub set_declared :
    List (Option ℕ) → BTreeMap (Option ℕ) Pattern → BTreeMap (Option ℕ) Pattern
set_declared k m = insert k (record (pattern_or_default (get k m)) { declared = true }) m

-- The loop over the elements of a path that is being declared, behind those in `before`.
unfoldable pub declare_prefixes :
    List (Option ℕ) → List (Option ℕ) → BTreeMap (Option ℕ) Pattern → BTreeMap (Option ℕ) Pattern
declare_prefixes before [] m = m
declare_prefixes before (i ∷ rest) m =
    declare_prefixes (before ++ i ∷ []) rest (set_wildcard before (is_none i) m)

-- `path.iter().copied().collect()` into an `Option`.
abbrev pub and_cons : Option ℕ → Option (List ℕ) → Option (List ℕ)
and_cons none rest = none
and_cons (some i) none = none
and_cons (some i) (some rest) = some (i ∷ rest)

unfoldable pub collect : List (Option ℕ) → Option (List ℕ)
collect [] = some []
collect (i ∷ rest) = and_cons i (collect rest)

-- `subs.insert(path, Subscription::new(true))` for a path with no wildcard.
abbrev pub insert_declared : Option (List ℕ) → Subscriptions → Subscriptions
insert_declared none s = s
insert_declared (some path) s = record s {
  subs = insert path (new_subscription true s.fresh) s.subs;
  fresh = suc s.fresh;
}

-- One path of the loop in `new`.
unfoldable pub declare : Subscriptions → List (Option ℕ) → Subscriptions
unfolding declare_prefixes collect
declare s [] = s
declare s (i ∷ rest) = insert_declared (collect (i ∷ rest)) (record s {
  depth = max s.depth (length (i ∷ rest));
  patterns = set_declared (i ∷ rest) (declare_prefixes [] (i ∷ rest) s.patterns);
})

unfoldable pub declare_all : Subscriptions → List (List (Option ℕ)) → Subscriptions
declare_all s [] = s
declare_all s (path ∷ paths) = declare_all (declare s path) paths

-- The state before any path is declared: the root, whose sender is that of the channel `root`.
abbrev pub root_only : ℕ → Subscriptions
root_only root = record {
  patterns = ([], record { declared = true; wildcard = none }) ∷ [];
  subs = ([], record default { tx = some (open_to root) }) ∷ [];
  next = [];
  unclaimed_closed = false;
  indexed = 0;
  all_closed = false;
  depth = 0;
  fresh = suc root;
}

unfoldable pub new : List (List (Option ℕ)) → ℕ → Subscriptions
new paths root = declare_all (root_only root) paths

-- The loop of `resolve`, at the node of the pattern `before`.
unfoldable pub resolve_from :
    BTreeMap (Option ℕ) Pattern
    → Option Pattern
    → List (Option ℕ)
    → List ℕ
    → Option (Pattern × List (Option ℕ))
resolve_from m none before path = none
resolve_from m (some node) before [] = some (node, before)
resolve_from m (some node) before (i ∷ path) = elim node.wildcard [
  | none ↦ none
  | some w ↦
      let pattern = before ++ (if w then none else some i) ∷ [] in
      resolve_from m (get pattern m) pattern path
]

unfoldable pub resolve : Subscriptions → List ℕ → Option (Pattern × List (Option ℕ))
resolve s path = resolve_from s.patterns (get [] s.patterns) [] path

-- A position of a path that a wildcard matches: `container` is the path before it, and `pattern`
-- the pattern up to it.
pub record Element : Type 0 where
  pub container : List ℕ
  pub position : ℕ
  pub pattern : List (Option ℕ)

-- `path[..=k]`.
abbrev pub element_path : Element → List ℕ
element_path e = e.container ++ e.position ∷ []

-- `pattern.iter().enumerate().filter(|(.., p)| p.is_none())`, with the slices of `path` and
-- `pattern` that the loops over it take.
unfoldable pub elements : List ℕ → List (Option ℕ) → List ℕ → List (Option ℕ) → List Element
elements cs qs [] pattern = []
elements cs qs (i ∷ path) [] = []
elements cs qs (i ∷ path) (some j ∷ pattern) =
    elements (cs ++ i ∷ []) (qs ++ some j ∷ []) path pattern
elements cs qs (i ∷ path) (none ∷ pattern) =
    record { container = cs; position = i; pattern = qs ++ none ∷ [] }
    ∷ elements (cs ++ i ∷ []) (qs ++ none ∷ []) path pattern

-- `next(path)`.
unfoldable pub next_of : Subscriptions → List ℕ → ℕ
next_of s path = elim (get path s.next) [ none ↦ 0 | some n ↦ n ]

abbrev pub is_declared : Option Pattern → Bool
is_declared none = false
is_declared (some p) = p.declared

-- The subscription that `subscribe` makes, whose sender is dropped if all senders are closed.
abbrev pub fresh_subscription : Bool → Bool → ℕ → Subscription
fresh_subscription true is_decl c = record (new_subscription is_decl c) { tx = none }
fresh_subscription false is_decl c = new_subscription is_decl c

unfoldable pub subscribe : Subscriptions → List ℕ → List (Option ℕ) → Subscriptions
subscribe s path pattern =
    if contains_key path s.subs
    then s
    else (let is_decl = is_declared (get pattern s.patterns) in
        record s {
          subs = insert path (fresh_subscription s.all_closed is_decl s.fresh) s.subs;
          fresh = if is_decl then suc s.fresh else s.fresh;
        })

-- Writes through the reference to a subscription.
abbrev pub modify_at :
    Option Subscription → List ℕ → (Subscription → Subscription) → Subscriptions → Subscriptions
modify_at none path f s = s
modify_at (some sub) path f s = record s { subs = insert path (f sub) s.subs }

unfoldable pub modify : List ℕ → (Subscription → Subscription) → Subscriptions → Subscriptions
modify path f s = modify_at (get path s.subs) path f s
