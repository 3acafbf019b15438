-- ===== src/Cache/Pieces/Tests.antt =====
-- A piece is inserted into a set of three.
use rustorr.Base.{ℕ, ◌≡◌, refl, true, false, [], ◌∷◌, ok}
use rustorr.Domain.Index.{PieceIndex}
use rustorr.Cache.Pieces.{PieceSet, new, insert}

abbrev after : PieceSet
after = record { complete = false ∷ true ∷ false ∷ [] }

abbrev piece : ℕ → PieceIndex
piece i = record { index = i }

inserts : insert (new 3) (piece 1) ≡ ok after
unfolding insert new
inserts = refl
