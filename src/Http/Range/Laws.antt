-- ===== src/Http/Range/Laws.antt =====
-- The ranges that the header names lie in the content.
use rustorr.Base.{
  ℕ, ◌+◌, ◌-◌, ◌≤◌, ◌<◌, ◌≡◌, some, List, [], ◌∷◌, ◌++◌, arith, Option-cases, Result-cases,
  Bool-cases, inl, inr, ok, All, length, length-append, u64_mod, wrapping_add, wrapping_sub, ltb,
  subst,
}
use rustorr.Text.{Text, is_empty_text, strip_prefix, split, split_once, trim, parse_u64}
use rustorr.Http.Range.{
  HttpRange, len, suffix_range, closed_range, end_of, range_of, parse_values, parse, bytes_prefix,
}

-- A range that is not empty and ends in the content.
abbrev pub IsInside : ℕ → HttpRange → Type 0
IsInside size r = (r.start ≤ r.end) × (r.end < size)

suffix_range-IsInside :
    (end : Text) (size : ℕ) (r : HttpRange)
    → 0 < size
    → suffix_range end size ≡ ok r
    → IsInside size r
unfolding suffix_range
suffix_range-IsInside end size r h e = elim (Option-cases (parse_u64 end)) [
  | inl p ↦ absurd (ground (arith, e, p))
  | inr (n, p) ↦ (ground (arith, e, p), ground (arith, e, p))
]

end_of_below : (end : Text) (size n : ℕ) → 0 < size → end_of end size ≡ ok n → n < size
unfolding end_of
end_of_below end size n h e = elim (Option-cases (parse_u64 end)) [
  | inl p ↦ ground (arith, e, p)
  | inr (m, p) ↦ ground (arith, e, p)
]

closed_range-IsInside :
    (start end : Text) (size : ℕ) (r : HttpRange)
    → 0 < size
    → closed_range start end size ≡ ok r
    → IsInside size r
unfolding closed_range
closed_range-IsInside start end size r h e = elim (Option-cases (parse_u64 start)) [
  | inl p ↦ absurd (ground (arith, e, p))
  | inr (n, p) ↦ elim (Result-cases (end_of end size)) [
    | inl (m, q) ↦ (ground (arith, e, p, q), ground (arith, e, p, q, end_of_below end size m h q))
    | inr (x, q) ↦ absurd (ground (arith, e, p, q))
  ]
]

range_of-IsInside :
    (value : Text) (size : ℕ) (r : HttpRange)
    → 0 < size
    → range_of value size ≡ ok r
    → IsInside size r
unfolding range_of
range_of-IsInside value size r h e = elim (Option-cases (split_once b'-' (trim value))) [
  | inl p ↦ absurd (ground (arith, e, p))
  | inr ((start, end), p) ↦ elim (Bool-cases (is_empty_text start)) [
    | inl q ↦ suffix_range-IsInside end size r h (ground (arith, e, p, q))
    | inr q ↦ closed_range-IsInside start end size r h (ground (arith, e, p, q))
  ]
]

All-append :
    (P : HttpRange → Type 0) (xs : List HttpRange) (y : HttpRange)
    → All P xs
    → P y
    → All P (xs ++ y ∷ [])
All-append P [] y a p = (p, tt)
All-append P (x ∷ xs) y a p = (a.0, All-append P xs y a.1 p)

parse_values-IsInside :
    (vs : List Text) (size : ℕ) (ranges out : List HttpRange)
    → 0 < size
    → All (IsInside size) ranges
    → length ranges ≤ 64
    → parse_values vs size ranges ≡ ok out
    → All (IsInside size) out × (length out ≡ length ranges + length vs) × (length out ≤ 64)
unfolding parse_values
parse_values-IsInside [] size ranges out h a k e =
    let w : ranges ≡ out = ground (arith, e) in
    (subst (λ l. All (IsInside size) l) w a, ground (arith, e), ground (arith, e))
parse_values-IsInside (v ∷ vs) size ranges out h a k e = elim (Result-cases (range_of v size)) [
  | inr (x, p) ↦ absurd (ground (arith, e, p))
  | inl (r, p) ↦ elim (Bool-cases (ltb 64 (length (ranges ++ r ∷ [])))) [
    | inl q ↦ absurd (ground (arith, e, p, q))
    | inr q ↦
        let n = length-append ranges (r ∷ []) in
        let (all, count, most) =
          parse_values-IsInside vs size (ranges ++ r ∷ []) out h
            (All-append (IsInside size) ranges r a (range_of-IsInside v size r h p))
            (ground (arith, q)) (ground (arith, e, p, q)) in
        (all, omega (arith, count, n), most)
  ]
]

-- A header that is accepted names at least one and at most 64 ranges, one for each of its values, and
-- each range is not empty and ends in the content.
pub parse-IsInside :
    (value : Text) (size : ℕ) (out : List HttpRange)
    → parse value size ≡ ok out
    → (values : Text) × (strip_prefix bytes_prefix value ≡ some values)
      × (length out ≡ length (split b',' values))
      × (0 < length out)
      × (length out ≤ 64)
      × All (IsInside size) out
unfolding parse
parse-IsInside value size out e = elim (Option-cases (strip_prefix bytes_prefix value)) [
  | inl p ↦ absurd (ground (arith, e, p))
  | inr (values, p) ↦ elim (Result-cases (parse_values (split b',' values) size [])) [
    | inr (x, q) ↦ absurd (ground (arith, e, p, q))
    | inl (ranges, q) ↦
        let full : 0 < size = ground (arith, e, p) in
        let w : ranges ≡ out = ground (arith, e, p, q) in
        let (all, count, most) =
          parse_values-IsInside (split b',' values) size [] ranges full tt (omega arith) q in
        (
          values,
          p,
          ground (arith, w, count),
          ground (arith, e, p, q),
          ground (arith, w, most),
          subst (λ l. All (IsInside size) l) w all,
        )
  ]
]

-- The length of a range that lies in the content is the number of its bytes.
pub len_inside :
    (size : ℕ) (r : HttpRange) → size < u64_mod → IsInside size r → len r ≡ r.end - r.start + 1
unfolding len wrapping_add wrapping_sub
len_inside size r h i = omega (arith, i.0, i.1)
