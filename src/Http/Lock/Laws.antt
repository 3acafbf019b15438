-- ===== src/Http/Lock/Laws.antt =====
-- The guarantees of a lock.
use mathlib.Core.List.{append_assoc}
use rustorr.Base.{
  ℕ, suc, ◌+◌, ◌≡◌, refl, sym, ap, ◌∙◌, ◌⊎◌, Has, some, Bool, true, false, List, [], ◌∷◌, ◌++◌,
  arith, Option-cases, Bool-cases, inl, inr, ok, err, ◌==◌, length, wrapping_add,
}
use rustorr.Base.Map.{Map, lookup, insert, lookup-insert, beq_self}
use rustorr.Text.{
  Text, text_eq, text_eq_iff, is_empty_text, starts_with, strip_prefix, text_has_eq, to_string,
  decimal,
}
use rustorr.Http.Clean.{slash_clean}
use rustorr.Http.Lock.{
  MemLs, Node, LockDetails, Condition, locked, collect_expired, expired_roots, remove_all,
  find_root, covers,
}
use rustorr.Http.Lock.System.{
  create, add_lock, can_create, all_allow, allows, expiry_at, locked_node, contains_text, set_held,
  count_names, node_or_blank,
}
use rustorr.Http.Lock.Walk.{ancestors, walk, root_path}

last_digit : (xs : Text) (d : ℕ) → is_empty_text (xs ++ d ∷ []) ≡ false
unfolding is_empty_text
last_digit [] d = refl
last_digit (x ∷ xs) d = refl

pub to_string_filled : (n : ℕ) → is_empty_text (to_string n) ≡ false
unfolding to_string decimal
to_string_filled n = last_digit _ _

-- A lock that is not of depth 0, on one of the names, keeps others out.
all_allow-contains :
    (ls : MemLs) (zero_depth first : Bool) (a : Text) (node : Node) (names : List Text)
    → lookup a ls.by_name ≡ some node
    → is_empty_text node.token ≡ false
    → node.details.zero_depth ≡ false
    → contains_text a names ≡ true
    → all_allow ls zero_depth first names ≡ false
unfolding all_allow allows contains_text
all_allow-contains ls z first a node [] p q r h = ground arith
all_allow-contains ls z first a node (n ∷ ns) p q r h = elim (Bool-cases (text_eq a n)) [
  | inl e ↦ ground (arith, text_eq_iff a n, e, p, q, r)
  | inr e ↦ ground (arith, e, all_allow-contains ls z false a node ns p q r)
]

-- No lock is given on or below a name that has a lock which is not of depth 0.
pub can_create_below :
    (ls : MemLs) (zero_depth : Bool) (name a : Text) (node : Node)
    → lookup a ls.by_name ≡ some node
    → is_empty_text node.token ≡ false
    → node.details.zero_depth ≡ false
    → contains_text a (ancestors name) ≡ true
    → can_create ls name zero_depth ≡ false
unfolding can_create
can_create_below ls z name a node p q r h =
    all_allow-contains ls z true a node (ancestors name) p q r h

-- What `create` leaves behind for the lock it gives.
pub record IsLocked (ls : MemLs) (now : ℕ) (details : LockDetails) (token : Text) : Type 0 where
  pub node : Node
  pub found : lookup details.root ls.by_name ≡ some node
  pub token_kept : node.token ≡ token
  pub details_kept : node.details ≡ details
  pub expiry_set : node.expiry ≡ expiry_at now details.duration
  pub named : lookup token ls.by_token ≡ some details.root
  pub excludes : (zero_depth : Bool) → can_create ls details.root zero_depth ≡ false

can_create_again :
    (ls : MemLs) (name : Text) (node : Node) (zero_depth : Bool)
    → lookup name ls.by_name ≡ some node
    → is_empty_text node.token ≡ false
    → can_create ls name zero_depth ≡ false
unfolding can_create ancestors all_allow allows walk
can_create_again ls name node z p q =
    let e : length name + 2 ≡ suc (length name + 1) = omega arith in rw e (ground (arith, p, q))

add_lock-IsLocked :
    (ls ls' : MemLs) (now : ℕ) (details : LockDetails) (token : Text)
    → add_lock ls now details ≡ (ok token, ls')
    → IsLocked ls' now details token
unfolding add_lock locked_node
add_lock-IsLocked ls ls' now details token e =
    let m = count_names ls.by_name (ancestors details.root) in
    let node =
      locked_node now details (to_string (wrapping_add ls.generation 1))
        (node_or_blank details.root (lookup details.root m)) in
    let at = lookup-insert details.root details.root node m in
    let found : lookup details.root ls'.by_name ≡ some node =
      ground (arith, e, at, beq_self details.root) in
    record {
      node = node;
      found = found;
      token_kept = ground (arith, e);
      details_kept = refl;
      expiry_set = refl;
      named = ground (arith, e, lookup-insert token token details.root ls.by_token, beq_self token);
      excludes = λ z.
          can_create_again ls' details.root node z found
            (to_string_filled (wrapping_add ls.generation 1));
    }

-- A lock that is created is found under its cleaned name and its token, has the details and the expiry
-- it was asked for, and no other lock can be created on that name.
pub create-IsLocked :
    (ls ls' : MemLs) (now : ℕ) (details : LockDetails) (token : Text)
    → create ls now details ≡ (ok token, ls')
    → IsLocked ls' now (record details { root = slash_clean details.root }) token
unfolding create
create-IsLocked ls ls' now details token e =
    let cleaned = record details { root = slash_clean details.root } in
    add_lock-IsLocked (collect_expired ls now) ls' now cleaned token (ground (arith, e))

-- While no lock is expired, a second lock on the same name is refused and changes nothing.
pub create-create :
    (ls ls' : MemLs) (now later : ℕ) (details other : LockDetails) (token : Text)
    → create ls now details ≡ (ok token, ls')
    → expired_roots later ls'.by_name ≡ []
    → slash_clean other.root ≡ slash_clean details.root
    → create ls' later other ≡ (err locked, ls')
unfolding create collect_expired remove_all
create-create ls ls' now later details other token e live same =
    let locks = create-IsLocked ls ls' now details token e in
    ground (arith, live, same, locks.excludes other.zero_depth)

-- A lock reaches the name of its root and, unless its depth is 0, every name below it.
abbrev pub Reaches : LockDetails → Text → Type 0
Reaches details name =
    (name ≡ details.root)
    ⊎ ((details.zero_depth ≡ false)
        × ((details.root ≡ b'/' ∷ []) ⊎ ((below : Text) × (name ≡ details.root ++ b'/' ∷ below))))

strip_prefix-append :
    (prefix name rest : Text) → strip_prefix prefix name ≡ some rest → name ≡ prefix ++ rest
unfolding strip_prefix
strip_prefix-append [] name rest e = ground (arith, e)
strip_prefix-append (x ∷ xs) [] rest e = ground (arith, e)
strip_prefix-append (x ∷ xs) (y ∷ ys) rest e = elim (Bool-cases (x == y)) [
  | inl q ↦ ground (arith, e, q, strip_prefix-append xs ys rest)
  | inr q ↦ ground (arith, e, q)
]

starts_with-append :
    (prefix name : Text) → starts_with prefix name ≡ true → (rest : Text) × (name ≡ prefix ++ rest)
unfolding starts_with
starts_with-append prefix name e = elim (Option-cases (strip_prefix prefix name)) [
  | inl q ↦ ground (arith, e, q)
  | inr (rest, q) ↦ (rest, strip_prefix-append prefix name rest q)
]

covers-Reaches :
    (details : LockDetails) (name : Text) → covers details name ≡ true → Reaches details name
unfolding covers
covers-Reaches details name e = elim (Bool-cases (text_eq name details.root)) [
  | inl same ↦ inl ((text_eq_iff name details.root).0 same)
  | inr other ↦ elim (Bool-cases details.zero_depth) [
    | inl flat ↦ ground (arith, e, other, flat)
    | inr deep ↦ elim (Bool-cases (text_eq details.root root_path)) [
      | inl top ↦ inr (deep, inl ((text_eq_iff details.root root_path).0 top))
      | inr not_top ↦
          let (below, q) =
            starts_with-append (details.root ++ root_path) name
              (ground (arith, e, other, deep, not_top)) in
          inr (deep, inr (below, q ∙ append_assoc details.root root_path below))
    ]
  ]
]

-- A condition of the list names the token of a lock that is not held, roots at `root` and reaches `name`.
abbrev pub IsConfirmed : MemLs → Text → Text → List Condition → Type 0
IsConfirmed ls name root cs =
    (c : Condition) × (node : Node) × Has c cs
    × (lookup c.token ls.by_token ≡ some root)
    × (lookup root ls.by_name ≡ some node)
    × (node.held ≡ false)
    × Reaches node.details name

IsConfirmed-later :
    (ls : MemLs) (name root : Text) (c : Condition) (cs : List Condition)
    → IsConfirmed ls name root cs
    → IsConfirmed ls name root (c ∷ cs)
IsConfirmed-later ls name root c cs (d, node, has, named, found, held, reach) =
    (d, node, inr has, named, found, held, reach)

-- The root that conditions give for a name is that of a lock whose token one of the conditions names;
-- the lock is not held, and the name is its root or, unless its depth is 0, lies below its root.
pub find_root_found :
    (ls : MemLs) (name root : Text) (cs : List Condition)
    → find_root ls name cs ≡ some root
    → IsConfirmed ls name root cs
unfolding find_root
find_root_found ls name root [] e = ground arith
find_root_found ls name root (c ∷ cs) e =
    let later : find_root ls name cs ≡ some root → IsConfirmed ls name root (c ∷ cs) =
      λ q. IsConfirmed-later ls name root c cs (find_root_found ls name root cs q) in
    elim (Option-cases (lookup c.token ls.by_token)) [
      | inl p ↦ later (ground (arith, e, p))
      | inr (r, p) ↦ elim (Option-cases (lookup r ls.by_name)) [
        | inl q ↦ later (ground (arith, e, p, q))
        | inr (node, q) ↦ elim (Bool-cases node.held) [
          | inl h ↦ later (ground (arith, e, p, q, h))
          | inr h ↦ elim (Bool-cases (covers node.details name)) [
            | inl k ↦
                let same : r ≡ root = ground (arith, e, p, q, h, k) in
                (
                  c,
                  node,
                  inl refl,
                  p ∙ ap some same,
                  ap (λ x. lookup x ls.by_name) (sym same) ∙ q,
                  h,
                  covers-Reaches node.details name k,
                )
            | inr k ↦ later (ground (arith, e, p, q, h, k))
          ]
        ]
      ]
    ]

-- Holding does not move nodes.
set_held-kept :
    (held : Bool) (m : Map Text Node) (roots : List Text) (r : Text) (node : Node)
    → lookup r m ≡ some node
    → node.held ≡ held
    → (node' : Node) × (lookup r (set_held held m roots) ≡ some node') × (node'.held ≡ held)
unfolding set_held
set_held-kept held m [] r node p h = (node, p, h)
set_held-kept held m (root ∷ roots) r node p h = elim (Option-cases (lookup root m)) [
  | inl q ↦ rw (q, set_held) (set_held-kept held m roots r node p h)
  | inr (other, q) ↦
      let at = lookup-insert root r (record other { held = held }) m in
      rw (q, set_held)
        (elim (Bool-cases (text_eq root r)) [
          | inl e ↦
              set_held-kept held (insert root (record other { held = held }) m) roots r
                (record other { held = held }) (ground (arith, at, e)) refl
          | inr e ↦
              set_held-kept held (insert root (record other { held = held }) m) roots r node
                (ground (arith, at, e, p)) h
        ])
]
