-- ===== src/Cache/Extents.antt =====
-- crates/rustorr-cache/src/extents.rs. A `BTreeMap<u64, u64>` from start to end is the list of its
-- entries in ascending order of the key; the map's own operations are those of the standard library.
pub mod Spans
pub mod Merge
pub mod Bitmap
pub mod Bytes
pub mod Valid
pub mod Persist
mod Tests
use rustorr.Base.{
  ℕ, ◌+◌, ◌≤◌, ◌<◌, Bool, true, false, Option, none, some, List, [], ◌∷◌, ◌++◌, map, max, ltb, leb,
  ◌==◌, ◌&&◌, if◌then◌else◌, wrapping_add, wrapping_sub, ok, err,
}
use rustorr.Domain.Range.{ByteRange, is_empty, new}
use Spans.{Span, last_at_most, between, remove, insert_entry}

pub record Extents : Type 0 where
  pub spans : List Span
  pub total : ℕ

unfoldable pub empty : Extents
empty = record { spans = []; total = 0 }

-- The variables of the two loops that collect what the range absorbs.
pub record Absorbed : Type 0 where
  pub starts : List ℕ
  pub bytes : ℕ
  pub start : ℕ
  pub end : ℕ

-- `if let Some((s, e)) = predecessor.filter(..)`
pub absorb_predecessor : ByteRange → Option Span → Absorbed
absorb_predecessor r none = record { starts = []; bytes = 0; start = r.start; end = r.end }
absorb_predecessor r (some p) =
    if leb r.start p.end
    then record {
      starts = p.start ∷ [];
      bytes = wrapping_sub p.end p.start;
      start = p.start;
      end = max r.end p.end;
    }
    else record { starts = []; bytes = 0; start = r.start; end = r.end }

-- The `for` over the spans that begin inside the range or where it ends, and its body.
pub absorb : Absorbed → Span → Absorbed
absorb a p = record a {
  starts = a.starts ++ p.start ∷ [];
  bytes = wrapping_add a.bytes (wrapping_sub p.end p.start);
  end = max a.end p.end;
}

pub absorb_following : Absorbed → List Span → Absorbed
unfolding absorb
absorb_following a [] = a
absorb_following a (p ∷ ps) = absorb_following (absorb a p) ps

remove_all : List ℕ → List Span → List Span
remove_all [] spans = spans
remove_all (s ∷ ss) spans = remove_all ss (remove s spans)

unfoldable pub absorbed : List Span → ByteRange → Absorbed
unfolding absorb_predecessor absorb_following
absorbed spans r =
    absorb_following (absorb_predecessor r (last_at_most r.start spans))
      (between r.start r.end spans)

unfoldable pub insert_spans : List Span → ByteRange → List Span
unfolding absorbed remove_all
insert_spans spans r =
    let a = absorbed spans r in insert_entry a.start a.end (remove_all a.starts spans)

unfoldable pub added_bytes : List Span → ByteRange → ℕ
unfolding absorbed
added_bytes spans r = let a = absorbed spans r in wrapping_sub (wrapping_sub a.end a.start) a.bytes

-- Returns the new set and how many bytes were not covered before.
unfoldable pub insert : Extents → ByteRange → Extents × ℕ
insert x r = if is_empty r then (x, 0) else (
  record { spans = insert_spans x.spans r; total = wrapping_add x.total (added_bytes x.spans r) },
  added_bytes x.spans r,
)

unfoldable pub reaches : ByteRange → Option Span → Bool
reaches r none = false
reaches r (some p) = leb r.end p.end

unfoldable pub covers : Extents → ByteRange → Bool
covers x r = if is_empty r then true else reaches r (last_at_most r.start x.spans)

pub from_spans_loop : Extents → List Span → Option Extents
from_spans_loop x [] = some x
from_spans_loop x (p ∷ ps) = elim (new p.start p.end) [
  | err _ ↦ none
  | ok r ↦
      let (x', added) = insert x r in
      let rest = from_spans_loop x' ps in if added == wrapping_sub p.end p.start then rest else none
]

-- Reads back a persisted list, which is refused unless every span adds all its bytes.
unfoldable pub from_spans : List Span → Option Extents
unfolding from_spans_loop
from_spans ps = from_spans_loop empty ps
