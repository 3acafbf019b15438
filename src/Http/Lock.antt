-- ===== src/Http/Lock.antt =====
-- crates/rustorr-http/src/webdav/lock.rs: the lock system in memory. An instant is a number of
-- seconds, `now` an argument; a `HashMap` is walked in the order of its entries.
pub mod Walk
pub mod System
pub mod Laws
pub mod Header
mod Tests
use rustorr.Base.{
  ℕ, ◌+◌, Bool, true, false, Option, none, some, List, [], ◌∷◌, ◌++◌, leb, ◌==◌, ◌&&◌, ◌||◌, not,
  if◌then◌else◌, wrapping_add, wrapping_sub,
}
use rustorr.Base.Map.{Map, lookup, insert}
use rustorr.Base.Map
use rustorr.Text.{Text, text_eq, is_empty_text, starts_with, text_has_eq}
use Walk.{ancestors, root_path}

pub data LockError : Type 0 where
  confirmation_failed locked no_such_lock : LockError

pub record Condition : Type 0 where
  pub negated : Bool
  pub token : Text
  pub etag : Text

pub record LockDetails : Type 0 where
  pub root : Text
  -- `none` is an infinite lock.
  pub duration : Option ℕ
  pub owner_xml : Text
  pub zero_depth : Bool

pub record Node : Type 0 where
  pub details : LockDetails
  pub token : Text
  pub ref_count : ℕ
  pub expiry : Option ℕ
  pub held : Bool

pub record MemLs : Type 0 where
  pub by_name : Map Text Node
  pub by_token : Map Text Text
  pub generation : ℕ

unfoldable pub new : ℕ → MemLs
new unix_seconds = record { by_name = []; by_token = []; generation = unix_seconds }

unfoldable pub is_expired : ℕ → Node → Bool
is_expired now node =
    not node.held
    && (not (is_empty_text node.token)
        && elim node.expiry [ none ↦ false | some expiry ↦ leb expiry now ])

unfoldable pub expired_roots : ℕ → Map Text Node → List Text
unfolding is_expired
expired_roots now [] = []
expired_roots now ((name, node) ∷ m) =
    let rest = expired_roots now m in if is_expired now node then node.details.root ∷ rest else rest

-- One step of the walk of `remove`.
unfoldable pub release_name : Map Text Node → Text → Map Text Node
release_name m name = elim (lookup name m) [
  | none ↦ m
  | some node ↦
      let count = wrapping_sub node.ref_count 1 in
      if count == 0 then Map.remove name m else insert name (record node { ref_count = count }) m
]

unfoldable pub release_names : Map Text Node → List Text → Map Text Node
unfolding release_name
release_names m [] = m
release_names m (name ∷ names) = release_names (release_name m name) names

-- The token and the expiry are cleared before the walk.
unfoldable pub forget : MemLs → Text → MemLs
forget ls root = elim (lookup root ls.by_name) [
  | none ↦ ls
  | some node ↦ record ls {
    by_name = insert root (record node { token = []; expiry = none }) ls.by_name;
    by_token = Map.remove node.token ls.by_token;
  }
]

unfoldable pub remove : MemLs → Text → MemLs
unfolding forget release_names
remove ls root =
    let ls' = forget ls root in record ls' { by_name = release_names ls'.by_name (ancestors root) }

unfoldable pub remove_all : MemLs → List Text → MemLs
unfolding remove
remove_all ls [] = ls
remove_all ls (root ∷ roots) = remove_all (remove ls root) roots

unfoldable pub collect_expired : MemLs → ℕ → MemLs
unfolding remove_all expired_roots
collect_expired ls now = remove_all ls (expired_roots now ls.by_name)

-- Whether a lock on `details` reaches the name.
unfoldable pub covers : LockDetails → Text → Bool
covers details name =
    text_eq name details.root
    || (not details.zero_depth
        && (text_eq details.root root_path || starts_with (details.root ++ root_path) name))

unfoldable pub find_root : MemLs → Text → List Condition → Option Text
unfolding covers
find_root ls name [] = none
find_root ls name (c ∷ cs) =
    let rest = find_root ls name cs in
    elim (lookup c.token ls.by_token) [
      | none ↦ rest
      | some root ↦ elim (lookup root ls.by_name) [
        | none ↦ rest
        | some node ↦
            if node.held then rest else if covers node.details name then some root else rest
      ]
    ]
