-- ===== src/Http/Lock/System.antt =====
-- The operations of the lock system.
use rustorr.Base.{
  ℕ, ◌+◌, Bool, true, false, Option, none, some, List, [], ◌∷◌, ◌++◌, ◌&&◌, ◌||◌, if◌then◌else◌,
  wrapping_add, Result, ok, err, ◌>>=◌, ok_or,
}
use rustorr.Base.Map.{Map, lookup, insert}
use rustorr.Text.{Text, text_eq, is_empty_text, text_has_eq, to_string}
use rustorr.Http.Clean.{slash_clean}
use rustorr.Http.Lock.{
  MemLs, Node, LockDetails, LockError, Condition, confirmation_failed, locked, no_such_lock,
  collect_expired, find_root, remove,
}
use rustorr.Http.Lock.Walk.{ancestors}

abbrev pub LockReply : Type 0 → Type 0
LockReply A = Result LockError A × MemLs

unfoldable pub contains_text : Text → List Text → Bool
contains_text x [] = false
contains_text x (y ∷ ys) = text_eq x y || contains_text x ys

-- The locks to hold for the two names.
unfoldable pub held_roots :
    MemLs → List Condition → List Text → List Text → Result LockError (List Text)
unfolding contains_text
held_roots ls cs [] roots = ok roots
held_roots ls cs (name ∷ names) roots =
    let skipped = held_roots ls cs names roots in
    if is_empty_text name then skipped else do
      root ← ok_or (find_root ls (slash_clean name) cs) confirmation_failed
      held_roots ls cs names (if contains_text root roots then roots else roots ++ root ∷ [])

unfoldable pub set_held : Bool → Map Text Node → List Text → Map Text Node
set_held held m [] = m
set_held held m (root ∷ roots) = elim (lookup root m) [
  | none ↦ set_held held m roots
  | some node ↦ set_held held (insert root (record node { held = held }) m) roots
]

unfoldable pub confirm : MemLs → ℕ → Text → Text → List Condition → LockReply (List Text)
unfolding held_roots set_held
confirm ls now name0 name1 cs =
    let ls' = collect_expired ls now in
    elim (held_roots ls' cs (name0 ∷ name1 ∷ []) []) [
      | err e ↦ (err e, ls')
      | ok roots ↦ (ok roots, record ls' { by_name = set_held true ls'.by_name roots })
    ]

unfoldable pub release : MemLs → List Text → MemLs
unfolding set_held
release ls roots = record ls { by_name = set_held false ls.by_name roots }

-- What `can_create` asks of one name on the way to the root.
unfoldable pub allows : MemLs → Bool → Bool → Text → Bool
allows ls zero_depth first name = elim (lookup name ls.by_name) [
  | none ↦ true
  | some node ↦
      if first
      then is_empty_text node.token && zero_depth
      else is_empty_text node.token || node.details.zero_depth
]

unfoldable pub all_allow : MemLs → Bool → Bool → List Text → Bool
unfolding allows
all_allow ls zero_depth first [] = true
all_allow ls zero_depth first (name ∷ names) =
    allows ls zero_depth first name && all_allow ls zero_depth false names

unfoldable pub can_create : MemLs → Text → Bool → Bool
unfolding all_allow
can_create ls name zero_depth = all_allow ls zero_depth true (ancestors name)

unfoldable pub blank_node : Text → Node
blank_node name = record {
  details = record { root = name; duration = none; owner_xml = []; zero_depth = false };
  token = [];
  ref_count = 0;
  expiry = none;
  held = false;
}

unfoldable pub node_or_blank : Text → Option Node → Node
unfolding blank_node
node_or_blank name none = blank_node name
node_or_blank name (some node) = node

unfoldable pub count_names : Map Text Node → List Text → Map Text Node
unfolding node_or_blank
count_names m [] = m
count_names m (name ∷ names) =
    let node = node_or_blank name (lookup name m) in
    count_names (insert name (record node { ref_count = wrapping_add node.ref_count 1 }) m) names

unfoldable pub expiry_at : ℕ → Option ℕ → Option ℕ
expiry_at now none = none
expiry_at now (some duration) = some (now + duration)

unfoldable pub locked_node : ℕ → LockDetails → Text → Node → Node
unfolding expiry_at
locked_node now details token node = record node {
  token = token;
  expiry = expiry_at now details.duration;
  details = details;
}

-- `create` for cleaned details that may be locked. The node of the root was just counted, so it is
-- there.
unfoldable pub add_lock : MemLs → ℕ → LockDetails → LockReply Text
unfolding count_names locked_node
add_lock ls now details =
    let m = count_names ls.by_name (ancestors details.root) in
    let generation = wrapping_add ls.generation 1 in
    let token = to_string generation in
    let node = locked_node now details token (node_or_blank details.root (lookup details.root m)) in
    (
      ok token,
      record {
        by_name = insert details.root node m;
        by_token = insert token details.root ls.by_token;
        generation = generation;
      },
    )

unfoldable pub create : MemLs → ℕ → LockDetails → LockReply Text
unfolding can_create add_lock
create ls now given =
    let ls' = collect_expired ls now in
    let details = record given { root = slash_clean given.root } in
    if can_create ls' details.root details.zero_depth
    then add_lock ls' now details
    else (err locked, ls')

unfoldable pub refreshed : ℕ → Option ℕ → Node → Node
unfolding expiry_at
refreshed now duration node = record node {
  details = record node.details { duration = duration };
  expiry = expiry_at now duration;
}

unfoldable pub refresh : MemLs → ℕ → Text → Option ℕ → LockReply LockDetails
unfolding refreshed
refresh ls now token duration =
    let ls' = collect_expired ls now in
    elim (lookup token ls'.by_token) [
      | none ↦ (err no_such_lock, ls')
      | some root ↦ elim (lookup root ls'.by_name) [
        | none ↦ (err no_such_lock, ls')
        | some node ↦ if node.held then (err locked, ls') else (
          ok (refreshed now duration node).details,
          record ls' { by_name = insert root (refreshed now duration node) ls'.by_name },
        )
      ]
    ]

unfoldable pub is_held : MemLs → Text → Bool
is_held ls root = elim (lookup root ls.by_name) [ none ↦ false | some node ↦ node.held ]

unfoldable pub unlock : MemLs → ℕ → Text → LockReply (Unit {0})
unfolding is_held
unlock ls now token =
    let ls' = collect_expired ls now in
    elim (lookup token ls'.by_token) [
      | none ↦ (err no_such_lock, ls')
      | some root ↦ if is_held ls' root then (err locked, ls') else (ok tt, remove ls' root)
    ]
