-- ===== src/Cache/Disk/Manifest/Fields.antt =====
-- Each value of a manifest is read back as what was printed.
use mathlib.Core.List.{append_assoc}
use rustorr.Base.{
  ℕ, ◌+◌, ◌<◌, ◌≡◌, refl, ap, ◌∙◌, Bool, true, false, some, List, [], ◌∷◌, ◌++◌, map, arith, All,
  ◌==◌, u64_mod, length, get_elem?, set, replicate, length-append,
}
use rustorr.Text.{Text, is_empty_text, join, to_string, is_digit}
use rustorr.Text.Numbers.{to_string_filled, to_string-AreDigits, parse_u64-to_string}
use rustorr.Text.Parts.{Lacks, Lacks-append, AreDigits-Lacks, split-join, split_once-append}
use rustorr.Cache.Extents.{Extents}
use rustorr.Cache.Extents.Spans.{Span}
use rustorr.Cache.Disk.Manifest.{
  joined_numbers, parse_numbers, parse_each, span_text, spans_text, parse_span, parse_span_list,
  parse_spans, completed_from, mark_pieces,
}

pub to_string-Lacks : (c n : ℕ) → is_digit c ≡ false → Lacks c (to_string n)
to_string-Lacks c n h = AreDigits-Lacks c (to_string n) h (to_string-AreDigits n)

pub map-Lacks : (c : ℕ) (ns : List ℕ) → is_digit c ≡ false → All (λ s. Lacks c s) (map to_string ns)
map-Lacks c [] h = tt
map-Lacks c (n ∷ ns) h = (to_string-Lacks c n h, map-Lacks c ns h)

abbrev pub AreWords : List ℕ → Type 0
AreWords ns = All (λ n. n < u64_mod) ns

parse_each-map : (ns : List ℕ) → AreWords ns → parse_each (map to_string ns) ≡ some ns
unfolding parse_each
parse_each-map [] h = refl
parse_each-map (n ∷ ns) h = ground (arith, parse_u64-to_string n h.0, parse_each-map ns h.1)

-- A text that starts with a filled one is filled.
join_filled :
    (sep : ℕ) (p : Text) (ps : List Text)
    → is_empty_text p ≡ false
    → is_empty_text (join sep (p ∷ ps)) ≡ false
unfolding join is_empty_text
join_filled sep [] ps h = cc
join_filled sep (c ∷ cs) [] h = refl
join_filled sep (c ∷ cs) (q ∷ ps) h = refl

to_string-filled : (n : ℕ) → is_empty_text (to_string n) ≡ false
to_string-filled n = let (c, cs, e) = to_string_filled n in rw e (unfold is_empty_text in refl)

pub parse_numbers-joined_numbers :
    (ns : List ℕ) → AreWords ns → parse_numbers (joined_numbers ns) ≡ some ns
unfolding parse_numbers joined_numbers
parse_numbers-joined_numbers [] h = unfold join is_empty_text in refl
parse_numbers-joined_numbers (n ∷ ns) h =
    rw (join_filled b',' (to_string n) (map to_string ns) (to_string-filled n)) (
      rw
        (split-join b',' (to_string n) (map to_string ns)
          (map-Lacks b',' (n ∷ ns) (unfold is_digit in refl)))
        (parse_each-map (n ∷ ns) h))

abbrev pub AreWordSpans : List Span → Type 0
AreWordSpans ps = All (λ p. (p.start < u64_mod) × (p.end < u64_mod)) ps

span_text-Lacks :
    (c : ℕ) (p : Span) → is_digit c ≡ false → (b'-' == c) ≡ false → Lacks c (span_text p)
unfolding span_text
span_text-Lacks c p h k =
    Lacks-append c (to_string p.start) (b'-' ∷ to_string p.end) (to_string-Lacks c p.start h)
      (k, to_string-Lacks c p.end h)

pub span_texts-Lacks :
    (c : ℕ) (ps : List Span)
    → is_digit c ≡ false
    → (b'-' == c) ≡ false
    → All (λ s. Lacks c s) (map span_text ps)
span_texts-Lacks c [] h k = tt
span_texts-Lacks c (p ∷ ps) h k = (span_text-Lacks c p h k, span_texts-Lacks c ps h k)

parse_span-span_text :
    (p : Span) → p.start < u64_mod → p.end < u64_mod → parse_span (span_text p) ≡ some p
unfolding parse_span span_text
parse_span-span_text p h k = ground (
  arith,
  split_once-append b'-' (to_string p.start) (to_string p.end)
      (to_string-Lacks b'-' p.start (unfold is_digit in refl)),
  parse_u64-to_string p.start h,
  parse_u64-to_string p.end k,
)

parse_span_list-map :
    (ps : List Span) → AreWordSpans ps → parse_span_list (map span_text ps) ≡ some ps
unfolding parse_span_list
parse_span_list-map [] h = refl
parse_span_list-map (p ∷ ps) h =
    ground (arith, parse_span-span_text p h.0.0 h.0.1, parse_span_list-map ps h.1)

span_text-filled : (p : Span) → is_empty_text (span_text p) ≡ false
unfolding span_text
span_text-filled p =
    let (c, cs, e) = to_string_filled p.start in rw e (unfold is_empty_text in refl)

pub parse_spans-spans_text :
    (x : Extents) → AreWordSpans x.spans → parse_spans (spans_text x) ≡ some x.spans
unfolding spans_text
parse_spans-spans_text x h = spans x.spans h
  where
    spans :
        (ps : List Span) → AreWordSpans ps → parse_spans (join b',' (map span_text ps)) ≡ some ps
    spans [] h = unfold parse_spans join is_empty_text in refl
    spans (p ∷ ps) h =
        unfold parse_spans in
        rw (join_filled b',' (span_text p) (map span_text ps) (span_text-filled p)) (
          rw
            (split-join b',' (span_text p) (map span_text ps)
              (span_texts-Lacks b',' (p ∷ ps) (unfold is_digit in refl) refl))
            (parse_span_list-map (p ∷ ps) h))

get_elem?-append :
    (ps rest : List Bool) (b : Bool) → get_elem? (ps ++ b ∷ rest) (length ps) ≡ some b
get_elem?-append [] rest b = refl
get_elem?-append (p ∷ ps) rest b = get_elem?-append ps rest b

set-append :
    (ps rest : List Bool) (b c : Bool) → set (ps ++ b ∷ rest) (length ps) c ≡ ps ++ c ∷ rest
set-append [] rest b c = refl
set-append (p ∷ ps) rest b c = ap (λ l. p ∷ l) (set-append ps rest b c)

mark_pieces-cons :
    (i : ℕ) (is : List ℕ) (bs : List Bool)
    → get_elem? bs i ≡ some false
    → mark_pieces (i ∷ is) bs ≡ mark_pieces is (set bs i true)
unfolding mark_pieces
mark_pieces-cons i is bs h = ground (arith, h)

-- A bit that is done joins those before it.
mark_next :
    (ps bs : List Bool) (b : Bool)
    → mark_pieces
        (completed_from (length (ps ++ b ∷ [])) bs)
        ((ps ++ b ∷ []) ++ replicate (length bs) false)
      ≡ some ((ps ++ b ∷ []) ++ bs)
    → mark_pieces (completed_from (length ps + 1) bs) (ps ++ b ∷ replicate (length bs) false)
      ≡ some (ps ++ b ∷ bs)
mark_next ps bs b h =
    rw
      (
        length-append ps (b ∷ []),
        append_assoc ps (b ∷ []) (replicate (length bs) false),
        append_assoc ps (b ∷ []) bs,
      )
      at h

-- Marking, behind bits that are done already.
mark-completed_from :
    (ps bs : List Bool)
    → mark_pieces (completed_from (length ps) bs) (ps ++ replicate (length bs) false)
      ≡ some (ps ++ bs)
unfolding completed_from
mark-completed_from ps [] = unfold mark_pieces in refl
mark-completed_from ps (false ∷ bs) =
    mark_next ps bs false (mark-completed_from (ps ++ false ∷ []) bs)
mark-completed_from ps (true ∷ bs) =
    mark_pieces-cons (length ps) (completed_from (length ps + 1) bs)
      (ps ++ false ∷ replicate (length bs) false)
      (get_elem?-append ps (replicate (length bs) false) false)
    ∙ rw (set-append ps (replicate (length bs) false) false true)
        (mark_next ps bs true (mark-completed_from (ps ++ true ∷ []) bs))

pub mark_pieces-completed :
    (bs : List Bool) → mark_pieces (completed_from 0 bs) (replicate (length bs) false) ≡ some bs
mark_pieces-completed bs = mark-completed_from [] bs
