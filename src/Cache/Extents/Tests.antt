-- ===== src/Cache/Extents/Tests.antt =====
-- Runs of the extents, and the theorems about them at an input.
use rustorr.Base.{
  ℕ, ◌-◌, ◌≡◌, ◌↔◌, refl, true, false, [], ◌∷◌, some, none, arith, ◌&&◌, ◌||◌, not, wrapping_add,
  wrapping_sub,
}
use rustorr.Domain.Range.{ByteRange, IsOrdered, is_empty, new}
use rustorr.Cache.Extents.Spans.{Span, last_at_most, between, remove, insert_entry, measure, holds}
use rustorr.Cache.Extents.Bitmap.{within, count}
use rustorr.Cache.Extents.Valid.{
  IsCanonical, insert-IsCanonical, insert-eq-bitmap, covers-iff-holds,
}
use rustorr.Cache.Extents.Persist.{from_spans-spans, from_spans_touching}
use rustorr.Cache.Extents.{
  Extents, empty, insert, insert_spans, added_bytes, covers, reaches, from_spans,
}

abbrev span : ℕ → ℕ → Span
span s e = record { start = s; end = e }

abbrev range : ℕ → ℕ → ByteRange
range s e = record { start = s; end = e }

abbrev three : Extents
three = record { spans = span 0 5 ∷ span 10 15 ∷ span 20 25 ∷ []; total = 15 }

bridges : insert three (range 3 22) ≡ (record { spans = span 0 25 ∷ []; total = 25 }, 10)
unfolding insert insert_spans added_bytes is_empty last_at_most between remove insert_entry
    wrapping_add wrapping_sub
bridges = refl

gap : (covers three (range 2 5) ≡ true) × (covers three (range 5 11) ≡ false)
unfolding covers reaches last_at_most is_empty
gap = (refl, refl)

overlap_refused : from_spans (span 0 10 ∷ span 5 20 ∷ []) ≡ none
unfolding from_spans new insert insert_spans added_bytes is_empty last_at_most between remove
    insert_entry empty wrapping_sub
overlap_refused = refl

three-IsCanonical : IsCanonical three
unfolding measure
three-IsCanonical = record { separated = omega arith; in_word = omega arith; total = refl }

middle-IsOrdered : IsOrdered (range 3 22)
middle-IsOrdered = record { ordered = omega arith; in_word = omega arith }

insert-IsCanonical_example : IsCanonical (insert three (range 3 22)).0
insert-IsCanonical_example =
    insert-IsCanonical three (range 3 22) three-IsCanonical middle-IsOrdered

insert-eq-bitmap_example :
    ((n : ℕ)
      → holds (insert three (range 3 22)).0.spans n
        ≡ (within (range 3 22) n || holds three.spans n))
    × ((insert three (range 3 22)).1
        ≡ count 30 (λ n. within (range 3 22) n && not (holds three.spans n)))
    × ((insert three (range 3 22)).0.total ≡ count 30 (holds (insert three (range 3 22)).0.spans))
insert-eq-bitmap_example =
    insert-eq-bitmap three (range 3 22) 30 three-IsCanonical middle-IsOrdered (omega arith)
      (omega arith)

covers-iff-holds_example :
    (covers three (range 3 22) ≡ true)
    ↔ ((n : ℕ) → within (range 3 22) n ≡ true → holds three.spans n ≡ true)
covers-iff-holds_example = covers-iff-holds three (range 3 22) three-IsCanonical middle-IsOrdered

from_spans-spans_example : from_spans three.spans ≡ some three
from_spans-spans_example = from_spans-spans three three-IsCanonical

from_spans_touching_example :
    from_spans (span 0 10 ∷ span 10 20 ∷ [])
    ≡ some (record { spans = span 0 20 ∷ []; total = 20 - 0 })
from_spans_touching_example = from_spans_touching 0 10 20 (omega arith) (omega arith) (omega arith)
