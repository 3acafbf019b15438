-- ===== src/Http/Lock/Walk.antt =====
-- `walk_to_root` of crates/rustorr-http/src/webdav/lock.rs. The names it visits are a list: each is
-- shorter than the one before, so as many rounds as the name has characters, and two more, are
-- enough.
use rustorr.Base.{
  ℕ, zero, suc, ◌+◌, ◌<◌, ◌≡◌, refl, ap, Option, none, some, List, [], ◌∷◌, ◌==◌, if◌then◌else◌,
  length, arith, Option-cases, Bool-cases, ◌⊎◌, inl, inr,
}
use rustorr.Text.{Text, text_eq, text_eq_iff}

abbrev pub root_path : Text
root_path = b'/' ∷ []

-- What is before the last slash.
unfoldable pub before_last_slash : Text → Option Text
before_last_slash [] = none
before_last_slash (c ∷ cs) = elim (before_last_slash cs) [
  | none ↦ if c == b'/' then some [] else none
  | some before ↦ some (c ∷ before)
]

-- `truncate` at the last slash, or at 0 without one; an empty name becomes the root.
unfoldable pub or_root : Option Text → Text
or_root none = root_path
or_root (some []) = root_path
or_root (some (c ∷ cs)) = c ∷ cs

unfoldable pub parent : Text → Text
unfolding before_last_slash or_root
parent name = or_root (before_last_slash name)

unfoldable pub walk : ℕ → Text → List Text
walk zero name = []
walk (suc rounds) name =
    let rest = walk rounds (parent name) in name ∷ (if text_eq name root_path then [] else rest)

unfoldable pub ancestors : Text → List Text
unfolding walk
ancestors name = walk (length name + 2) name

unfoldable pub last_of : List Text → Option Text
last_of [] = none
last_of (x ∷ []) = some x
last_of (x ∷ y ∷ ys) = last_of (y ∷ ys)

length-before_last_slash :
    (s before : Text) → before_last_slash s ≡ some before → length before < length s
unfolding before_last_slash
length-before_last_slash [] before e = cc
length-before_last_slash (c ∷ cs) before e = elim (Option-cases (before_last_slash cs)) [
  | inl q ↦ ground (arith, q)
  | inr (b, q) ↦ ground (arith, q, length-before_last_slash cs b q)
]

-- The parent is the root or shorter.
-- The parent is the root or shorter.
length-parent : (s : Text) → (parent s ≡ root_path) ⊎ (length (parent s) < length s)
unfolding parent or_root
length-parent s = elim (Option-cases (before_last_slash s)) [
  | inl q ↦ inl (rw q refl)
  | inr ([], q) ↦ inl (rw q refl)
  | inr (c ∷ cs, q) ↦ inr (rw q (length-before_last_slash s (c ∷ cs) q))
]

walk_last :
    (rounds : ℕ) (name : Text)
    → length name + 1 < rounds
    → last_of (walk rounds name) ≡ some root_path
unfolding walk last_of text_eq
walk_last zero name h = absurd (omega arith)
walk_last (suc zero) name h = absurd (omega arith)
walk_last (suc (suc rounds)) name h = elim (Bool-cases (text_eq name root_path)) [
  | inl e ↦ rw e (ap some ((text_eq_iff name root_path).0 e))
  | inr e ↦ rw e (elim (length-parent name) [
    | inl r ↦ rw r refl
    | inr k ↦ walk_last (suc rounds) (parent name) (omega (arith, k))
  ])
]

-- The walk ends at the root, from every name.
pub last_of-ancestors : (name : Text) → last_of (ancestors name) ≡ some root_path
unfolding ancestors
last_of-ancestors name = walk_last (length name + 2) name (omega arith)
