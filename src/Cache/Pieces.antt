-- ===== src/Cache/Pieces.antt =====
-- `PieceSet` of crates/rustorr-cache/src/layout.rs
mod Tests
use rustorr.Base.{
  ℕ, suc, ◌+◌, ◌≤◌, ◌<◌, ◌≡◌, ◌≢◌, refl, Bool, true, false, Option, none, some, List, [], ◌∷◌,
  arith, ltb, ◌==◌, if◌then◌else◌, Result, ok, err, length, get_elem?, set, replicate, length-set,
  get_elem?-set_self, get_elem?-set_ne, Bool-cases, inl, inr, ◌||◌,
}
use rustorr.Domain.Index.{PieceIndex}
use rustorr.Cache.Error.{CacheError, piece_out_of_range}

pub record PieceSet : Type 0 where
  pub complete : List Bool

unfoldable pub new : ℕ → PieceSet
new piece_count = record { complete = replicate piece_count false }

unfoldable pub insert : PieceSet → PieceIndex → Result CacheError PieceSet
insert s piece =
    if ltb piece.index (length s.complete)
    then ok (record { complete = set s.complete piece.index true })
    else err (piece_out_of_range piece (length s.complete))

unfoldable pub contains : PieceSet → PieceIndex → Bool
contains s piece = elim (get_elem? s.complete piece.index) [ none ↦ false | some b ↦ b ]

indexes_from : ℕ → List Bool → List PieceIndex
indexes_from i [] = []
indexes_from i (b ∷ bs) =
    let rest = indexes_from (i + 1) bs in if b then record { index = i } ∷ rest else rest

unfoldable pub indexes : PieceSet → List PieceIndex
unfolding indexes_from
indexes s = indexes_from 0 s.complete

set_lem :
    (bs : List Bool) (i j : ℕ)
    → i < length bs
    → get_elem? (set bs i true) j ≡ (if i == j then some true else get_elem? bs j)
set_lem bs i j h = elim (Bool-cases (i == j)) [
  | inl e ↦ ground (arith, get_elem?-set_self bs i true h)
  | inr e ↦ rw e (get_elem?-set_ne bs i j true (λ q. ground arith))
]

-- After an insert that succeeds the piece is in the set, the others are as they were, and the set has
-- room for as many as before.
pub contains-insert :
    (s s' : PieceSet) (p q : PieceIndex)
    → insert s p ≡ ok s'
    → (contains s' q ≡ ((p.index == q.index) || contains s q))
      × (length s'.complete ≡ length s.complete)
unfolding insert contains
contains-insert s s' p q e =
    ground (arith, set_lem s.complete p.index q.index, length-set s.complete p.index true)
