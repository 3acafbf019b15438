-- ===== src/Http/Range.antt =====
-- crates/rustorr-http/src/range.rs: the `Range` header, whose ranges include their end.
pub mod Laws
mod Tests
use rustorr.Base.{
  ℕ, ◌+◌, ◌-◌, Bool, true, false, Option, none, some, List, [], ◌∷◌, ◌++◌, min, ltb, leb, ◌==◌,
  if◌then◌else◌, Result, ok, err, ◌>>=◌, ok_or, wrapping_add, wrapping_sub, length,
}
use rustorr.Text.{Text, is_empty_text, strip_prefix, split, split_once, trim, parse_u64}

pub record HttpRange : Type 0 where
  pub start : ℕ
  pub end : ℕ

unfoldable pub len : HttpRange → ℕ
len r = wrapping_add (wrapping_sub r.end r.start) 1

pub data RangeError : Type 0 where
  invalid unsatisfiable : RangeError

abbrev pub bytes_prefix : Text
bytes_prefix = b'b' ∷ b'y' ∷ b't' ∷ b'e' ∷ b's' ∷ b'=' ∷ []

-- `-n`: the last `n` bytes.
unfoldable pub suffix_range : Text → ℕ → Result RangeError HttpRange
suffix_range end size = do
  suffix ← ok_or (parse_u64 end) invalid
  if suffix == 0 then err unsatisfiable else ok (record { start = size - suffix; end = size - 1 })

unfoldable pub end_of : Text → ℕ → Result RangeError ℕ
end_of end size =
    if is_empty_text end
    then ok (size - 1)
    else (do last ← ok_or (parse_u64 end) invalid; ok (min last (size - 1)))

-- `a-b` and `a-`.
unfoldable pub closed_range : Text → Text → ℕ → Result RangeError HttpRange
unfolding end_of
closed_range start end size = do
  from ← ok_or (parse_u64 start) invalid
  if leb size from then err unsatisfiable else do
    to ← end_of end size
    if ltb to from then err unsatisfiable else ok (record { start = from; end = to })

unfoldable pub range_of : Text → ℕ → Result RangeError HttpRange
unfolding suffix_range closed_range
range_of value size = do
  parts ← ok_or (split_once b'-' (trim value)) invalid
  if is_empty_text parts.0 then suffix_range parts.1 size else closed_range parts.0 parts.1 size

unfoldable pub parse_values : List Text → ℕ → List HttpRange → Result RangeError (List HttpRange)
unfolding range_of
parse_values [] size ranges = ok ranges
parse_values (v ∷ vs) size ranges = do
  r ← range_of v size
  if ltb 64 (length (ranges ++ r ∷ []))
      then err invalid
      else parse_values vs size (ranges ++ r ∷ [])

unfoldable pub parse : Text → ℕ → Result RangeError (List HttpRange)
unfolding parse_values
parse value size = do
  values ← ok_or (strip_prefix bytes_prefix value) invalid
  if size == 0 then err unsatisfiable else do
    ranges ← parse_values (split b',' values) size []
    if length ranges == 0 then err invalid else ok ranges
