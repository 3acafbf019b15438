-- ===== src/Cache/Extents/Bytes.antt =====
-- The number of bytes that `insert` reports. Below the largest `u64` none of its sums wraps.
use rustorr.Base.{
  ℕ, ◌+◌, ◌-◌, ◌≤◌, ◌<◌, ◌≡◌, List, [], ◌∷◌, arith, leb, min, max, u64_mod, wrapping_sub,
  wrapping_add_lem, wrapping_sub_lem, true, Bool-cases, inl, inr,
}
use rustorr.Domain.Range.{ByteRange}
use rustorr.Cache.Extents.Spans.{Span, between, Separated, EndsBelow, measure}
use rustorr.Cache.Extents.Merge.{
  swallow, merge, touching, absorbed-skip, absorbed-touching, between_in, between_above,
  between_nil, last_at_most_above, start-absorb_following,
}
use rustorr.Cache.Extents.{
  Absorbed, absorb, absorb_predecessor, absorb_following, absorbed, added_bytes,
}

abbrev pub largest : ℕ
largest = u64_mod - 1

-- The absorbed bytes lie between the start and the end that are collected.
abbrev Fits : Absorbed → ℕ → Type 0
Fits a c = (a.start + a.bytes < c) × (a.start + a.bytes ≤ a.end) × (a.end ≤ largest)

absorb-bytes :
    (a : Absorbed) (p : Span)
    → a.bytes + (p.end - p.start) ≤ largest
    → p.start < p.end
    → p.end ≤ largest
    → (absorb a p).bytes ≡ a.bytes + (p.end - p.start)
unfolding absorb
absorb-bytes a p h k l =
    rw (wrapping_sub_lem p.end p.start (omega arith) (omega arith))
      (wrapping_add_lem a.bytes (p.end - p.start) (omega arith))

absorb-Fits :
    (a : Absorbed) (p : Span) (c : ℕ)
    → Fits a c
    → c ≤ p.start
    → p.start < p.end
    → p.end ≤ largest
    → Fits (absorb a p) (p.end + 1)
unfolding absorb
absorb-Fits a p c f h k l = let e = absorb-bytes a p (omega arith) k l in ground (arith, e)

-- The second loop counts the spans that the merge swallows.
record Swallows (limit : ℕ) (a a' : Absorbed) (ps : List Span) : Type 0 where
  fits : a.start + a'.bytes ≤ a'.end
  in_word : a'.end ≤ largest
  balance :
      measure (swallow a.start a.end limit ps) + a'.bytes
      ≡ (a'.end - a.start) + a.bytes + measure ps

Swallows-absorb :
    (limit : ℕ) (a : Absorbed) (p : Span) (ps : List Span) (a' : Absorbed)
    → leb p.start limit ≡ true
    → (absorb a p).bytes ≡ a.bytes + (p.end - p.start)
    → Swallows limit (absorb a p) a' ps
    → Swallows limit a a' (p ∷ ps)
unfolding absorb swallow measure
Swallows-absorb limit a p ps a' e b h = record {
  fits = h.fits;
  in_word = h.in_word;
  balance = ground (arith, h.balance);
}

absorb_following-Swallows :
    (lo limit c : ℕ) (a : Absorbed) (ps : List Span)
    → lo < c
    → Fits a c
    → Separated c ps
    → EndsBelow largest ps
    → Swallows limit a (absorb_following a (between lo limit ps)) ps
unfolding absorb_following swallow measure
absorb_following-Swallows lo limit c a [] l f s h =
    rw (between_nil lo limit) (record { fits = f.1; in_word = f.2; balance = omega arith })
absorb_following-Swallows lo limit c a (p ∷ ps) l f s h = elim (Bool-cases (leb p.start limit)) [
  | inl e ↦
      let bytes = absorb-bytes a p (omega arith) s.1 h.0 in
      let ih =
        absorb_following-Swallows lo limit (p.end + 1) (absorb a p) ps (omega arith)
          (absorb-Fits a p c f s.0 s.1 h.0) s.2 h.1 in
      rw (between_in lo limit p ps (omega arith) (ground arith))
        (Swallows-absorb limit a p ps _ e bytes ih)
  | inr e ↦
      rw (between_above lo limit p.start (p ∷ ps) (omega arith, s.1, s.2) (ground arith))
        (record { fits = f.1; in_word = f.2; balance = ground arith })
]

touching-Fits :
    (b : ℕ) (p : Span) (ps : List Span) (r : ByteRange)
    → Separated b (p ∷ ps)
    → EndsBelow largest (p ∷ ps)
    → r.start < r.end
    → r.end ≤ largest
    → p.start ≤ r.end
    → r.start ≤ p.end
    → Fits (touching r p) (p.end + 1)
unfolding touching
touching-Fits b p ps r s h k l m n =
    rw (wrapping_sub_lem p.end p.start (omega arith) (omega arith)) (ground arith)

-- Neither subtraction wraps.
added-Swallows :
    (limit : ℕ) (a a' : Absorbed) (ps : List Span)
    → Swallows limit a a' ps
    → measure ps + a.bytes + wrapping_sub (wrapping_sub a'.end a.start) a'.bytes
      ≡ measure (swallow a.start a.end limit ps)
added-Swallows limit a a' ps w =
    let f = w.fits in
    let k = w.in_word in
    rw (wrapping_sub_lem a'.end a.start (omega arith) (omega arith)) (
      rw (wrapping_sub_lem (a'.end - a.start) a'.bytes (omega arith) (omega arith))
        (omega (arith, w.balance)))

added_bytes-touching :
    (b : ℕ) (p : Span) (ps : List Span) (r : ByteRange)
    → Separated b (p ∷ ps)
    → EndsBelow largest (p ∷ ps)
    → r.start < r.end
    → r.end ≤ largest
    → p.start ≤ r.end
    → r.start ≤ p.end
    → measure (p ∷ ps) + added_bytes (p ∷ ps) r
      ≡ measure (swallow (min r.start p.start) (max r.end p.end) r.end ps)
unfolding added_bytes
added_bytes-touching b p ps r s h k l m n =
    let a = touching r p in
    let w =
      absorb_following-Swallows r.start r.end (p.end + 1) a ps (omega arith)
        (touching-Fits b p ps r s h k l m n) s.2 h.1 in
    rw (absorbed-touching b p ps r s n m, start-absorb_following a (between r.start r.end ps))
      (unfold touching measure in
        omega (
          arith,
          added-Swallows r.end a (absorb_following a (between r.start r.end ps)) ps w,
          wrapping_sub_lem p.end p.start (omega arith) (omega arith),
        ))

added_bytes-before :
    (b : ℕ) (ps : List Span) (r : ByteRange)
    → Separated b ps
    → r.start < r.end
    → r.end < b
    → r.end ≤ largest
    → added_bytes ps r ≡ r.end - r.start
unfolding added_bytes absorbed
added_bytes-before b ps r s h k l =
    rw (last_at_most_above r.start b ps s (omega arith), between_above r.start r.end b ps s k)
      (unfold absorb_predecessor absorb_following in
        rw (wrapping_sub_lem r.end r.start (omega arith) (omega arith))
          (omega (arith, wrapping_sub_lem (r.end - r.start) 0 (omega arith) (omega arith))))

added_bytes-skip :
    (p : Span) (ps : List Span) (r : ByteRange)
    → p.start < p.end
    → p.end < r.start
    → added_bytes (p ∷ ps) r ≡ added_bytes ps r
unfolding added_bytes
added_bytes-skip p ps r h k = rw (absorbed-skip p ps r h k)

-- What `insert` reports is the growth of the merged spans.
pub measure-merge :
    (b : ℕ) (spans : List Span) (r : ByteRange)
    → Separated b spans
    → EndsBelow largest spans
    → r.start < r.end
    → r.end ≤ largest
    → measure spans + added_bytes spans r ≡ measure (merge r spans)
unfolding measure merge
measure-merge b [] r s h k l =
    omega (arith, added_bytes-before (r.end + 1) [] r tt k (omega arith) l)
measure-merge b (p ∷ ps) r s h k l = ground (
  arith,
  added_bytes-skip p ps r,
  added_bytes-before p.start (p ∷ ps) r (omega arith, s.1, s.2) k,
  added_bytes-touching b p ps r s h k l,
  measure-merge (p.end + 1) ps r s.2 h.1 k l,
)
