-- ===== src/Http/Etag/Laws.antt =====
-- What the scanner of tags and the comparisons promise.
use rustorr.Base.{
  ℕ, ◌+◌, ◌≡◌, refl, ap, ◌∙◌, Bool, true, false, Option, none, some, [], ◌∷◌, ◌++◌, arith,
  Option-cases, inl, inr, ◌==◌, subst, length, suc,
}
use rustorr.Text.{Text, text_eq_iff, is_empty_text, strip_prefix, trim_with}
use rustorr.Http.Etag.{
  scan_quoted, scan_strong, scan_trimmed, scan_etag, is_space, weak_prefix, strong_match,
  weak_match, is_quoted, without_weak, or_empty, Headers, Content, Check, failed, not_modified,
  tag_list, tag_loop, preconditions, answer, if_match_check, if_none_match_check, after_match,
}

scan_quoted-append : (s tag rest : Text) → scan_quoted s ≡ some (tag, rest) → s ≡ tag ++ rest
unfolding scan_quoted
scan_quoted-append [] tag rest e = ground arith
scan_quoted-append (c ∷ cs) tag rest e = elim (Option-cases (scan_quoted cs)) [
  | inl p ↦ ground (arith, e, p)
  | inr ((t, r), p) ↦ ground (arith, e, p, scan_quoted-append cs t r p)
]

scan_strong-append :
    (s tag rest : Text)
    → scan_strong s ≡ some (tag, rest)
    → (s ≡ tag ++ rest) × (is_quoted tag ≡ true)
unfolding scan_strong is_quoted
scan_strong-append [] tag rest e = ground arith
scan_strong-append (c ∷ cs) tag rest e = elim (Option-cases (scan_quoted cs)) [
  | inl p ↦ ground (arith, e, p)
  | inr ((t, r), p) ↦ (ground (arith, e, p, scan_quoted-append cs t r p), ground (arith, e, p))
]

strip_prefix-append : (p s rest : Text) → strip_prefix p s ≡ some rest → s ≡ p ++ rest
unfolding strip_prefix
strip_prefix-append [] s rest e = ground arith
strip_prefix-append (c ∷ cs) [] rest e = ground arith
strip_prefix-append (c ∷ cs) (d ∷ ds) rest e = ground (arith, e, strip_prefix-append cs ds rest)

without_weak_quoted : (t : Text) → is_quoted t ≡ true → without_weak t ≡ t
unfolding is_quoted without_weak
without_weak_quoted [] h = refl
without_weak_quoted (c ∷ []) h = refl
without_weak_quoted (c ∷ d ∷ cs) h = ground (arith, h)

-- A tag that is scanned and the rest make up the text without the blanks around it, and the tag, but
-- for `W/`, starts with a quote.
pub scan_etag-append :
    (s tag rest : Text)
    → scan_etag s ≡ some (tag, rest)
    → (trim_with is_space s ≡ tag ++ rest) × (is_quoted (without_weak tag) ≡ true)
unfolding scan_etag scan_trimmed without_weak
scan_etag-append s tag rest e =
    elim (Option-cases (strip_prefix weak_prefix (trim_with is_space s))) [
      | inl p ↦
          let (whole, quoted) =
            scan_strong-append (trim_with is_space s) tag rest (ground (arith, e, p)) in
          (whole, rw (without_weak_quoted tag quoted) quoted)
      | inr (after, p) ↦ elim (Option-cases (scan_strong after)) [
        | inl q ↦ absurd (ground (arith, e, p, q))
        | inr ((t, r), q) ↦
            let (whole, quoted) = scan_strong-append after t r q in
            (
              ground (
                arith,
                e,
                p,
                q,
                whole,
                strip_prefix-append weak_prefix (trim_with is_space s) after p,
              ),
              ground (arith, e, p, q, quoted, without_weak_quoted t quoted),
            )
      ]
    ]

-- Tags that match strongly match weakly too.
pub weak_match-strong_match :
    (tag : Text) (etag : Option Text) → strong_match tag etag ≡ true → weak_match tag etag ≡ true
unfolding strong_match weak_match or_empty
weak_match-strong_match tag none e = ground arith
weak_match-strong_match tag (some etag) e =
    ground (arith, e, text_eq_iff tag etag, text_eq_iff (without_weak tag) (without_weak etag))

-- A tag starts with a quote or a `W`.
first_of_tag :
    (tag : Text)
    → is_quoted (without_weak tag) ≡ true
    → (c : ℕ) × (cs : Text) × (tag ≡ c ∷ cs) × ((c == b',') ≡ false) × ((c == b'*') ≡ false)
unfolding is_quoted without_weak
first_of_tag [] h = ground arith
first_of_tag (c ∷ []) h = (c, [], refl, ground arith, ground arith)
first_of_tag (c ∷ d ∷ cs) h = (c, d ∷ cs, refl, ground arith, ground arith)

append_nil : (s : Text) → s ++ [] ≡ s
append_nil [] = refl
append_nil (c ∷ cs) = ap (λ l. c ∷ l) (append_nil cs)

tag_list_one :
    (tag : Text) (star : Check) (matches : Text → Bool)
    → scan_etag tag ≡ some (tag, [])
    → matches tag ≡ true
    → tag_list tag star matches ≡ answer star
unfolding tag_list tag_loop
tag_list_one tag star matches e h =
    let (whole, quoted) = scan_etag-append tag tag [] e in
    let (c, cs, w, comma, any) = first_of_tag tag quoted in
    let t : trim_with is_space tag ≡ c ∷ cs = whole ∙ append_nil tag ∙ w in
    let scanned : scan_etag (c ∷ cs) ≡ some (tag, []) =
      subst (λ l. scan_etag l ≡ some (tag, [])) w e in
    let rounds : length tag + 1 ≡ suc (length tag) = omega arith in
    rw (rounds, t, tag_loop) (ground (arith, comma, any, scanned, h))

-- A `GET` or `HEAD` request whose `If-None-Match` is the content's tag, one that is scanned as a whole,
-- with no `If-Match` and no date in `If-Unmodified-Since`, is told that nothing was modified.
pub preconditions_same_tag :
    (http_date : Text → Option ℕ) (h : Headers) (content : Content) (tag : Text)
    → scan_etag tag ≡ some (tag, [])
    → h.if_match ≡ []
    → http_date h.if_unmodified_since ≡ none
    → h.if_none_match ≡ tag
    → content.etag ≡ some tag
    → preconditions http_date true h content ≡ not_modified
unfolding preconditions if_match_check if_none_match_check is_empty_text after_match weak_match
    or_empty answer
preconditions_same_tag http_date h content tag e a b c d =
    let (k, cs, w, comma, any) = first_of_tag tag (scan_etag-append tag tag [] e).1 in
    let hit =
      tag_list_one tag failed (λ t. weak_match t (some tag)) e
        ((text_eq_iff (without_weak tag) (without_weak tag)).1 refl) in
    ground (arith, a, b, c, d, hit, w)
