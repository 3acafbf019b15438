-- ===== src/Http/Serve/Laws.antt =====
-- What an answer promises.
use rustorr.Base.{
  ℕ, ◌+◌, ◌≤◌, ◌<◌, ◌≡◌, inl, inr, refl, Bool, true, false, Option, none, some, List, [], ◌∷◌,
  arith, u64_mod, All, Result, ok, err, Bool-cases, ltb, ◌==◌,
}
use rustorr.Text.{Text}
use rustorr.Http.Range.{HttpRange, RangeError, invalid, unsatisfiable, parse}
use rustorr.Http.Range.Laws.{IsInside, parse-IsInside, len_inside}
use rustorr.Http.Etag.{
  Headers, Content, Outcome, precondition_failed, not_modified, proceed, preconditions,
}
use rustorr.Http.Serve.{
  Method, bytes, Selection, chosen, refused, select, select_parsed, is_get_or_head, serve,
  answer_outcome, answer_selection, answer_ranges, whole, partial, multipart, refusal, serve_error,
  with_base, sum_len, not_modified_answer, body_for,
}

-- Every range that is chosen lies in the content.
abbrev AreInside : ℕ → Selection → Type 0
AreInside size (chosen ranges) = All (IsInside size) ranges
AreInside size (refused e) = Unit

select_parsed-AreInside :
    (size : ℕ) (r : Result RangeError (List HttpRange))
    → ((ranges : List HttpRange) → r ≡ ok ranges → All (IsInside size) ranges)
    → AreInside size (select_parsed size r)
unfolding select_parsed
select_parsed-AreInside size (ok ranges) h = elim (Bool-cases (ltb size (sum_len ranges))) [
  | inl e ↦ rw e tt
  | inr e ↦ rw e (h ranges refl)
]
select_parsed-AreInside size (err unsatisfiable) h = elim (Bool-cases (size == 0)) [
  | inl e ↦ rw e tt
  | inr e ↦ rw e tt
]
select_parsed-AreInside size (err invalid) h = tt

select-AreInside : (size : ℕ) (range : Option Text) → AreInside size (select size range)
unfolding select
select-AreInside size none = tt
select-AreInside size (some value) = select_parsed-AreInside size (parse value size) (λ ranges e.
    let (values, prefixed, count, some_range, most, all) = parse-IsInside value size ranges e in
    all)

module _ (is_value : Text → Bool) (content : Content) (readable : ℕ → ℕ → Bool)
    (type_length size : ℕ) (fits : size < u64_mod) where
  answer_ranges-body :
      (method : Method) (ranges : List HttpRange) (start n : ℕ)
      → All (IsInside size) ranges
      → (answer_ranges is_value content readable type_length size method ranges).body
        ≡ bytes start n
      → start + n ≤ size
  unfolding answer_ranges whole partial multipart serve_error body_for with_base
  answer_ranges-body method [] start n a e = ground (arith, e)
  answer_ranges-body method (r ∷ []) start n a e = ground (arith, e, len_inside size r fits a.0)
  answer_ranges-body method (r ∷ s ∷ rs) start n a e = ground (arith, e)

  answer_selection-body :
      (method : Method) (s : Selection) (start n : ℕ)
      → AreInside size s
      → (answer_selection is_value content readable type_length size method s).body ≡ bytes start n
      → start + n ≤ size
  unfolding answer_selection refusal serve_error
  answer_selection-body method (chosen ranges) start n a e =
      answer_ranges-body method ranges start n a e
  answer_selection-body method (refused unsatisfiable) start n a e = cc
  answer_selection-body method (refused invalid) start n a e = cc

  answer_outcome-body :
      (typed : Bool) (method : Method) (o : Outcome) (start n : ℕ)
      → (answer_outcome is_value content readable type_length typed size method o).body
        ≡ bytes start n
      → start + n ≤ size
  unfolding answer_outcome with_base not_modified_answer serve_error
  answer_outcome-body typed method precondition_failed start n e = cc
  answer_outcome-body typed method not_modified start n e = cc
  answer_outcome-body true method (proceed range) start n e =
      answer_selection-body method (select size range) start n (select-AreInside size range) e
  answer_outcome-body false method (proceed range) start n e = cc

  -- For content whose size fits a word, the bytes of an answer's body, if it has one stretch of them,
  -- lie in the content.
  pub serve_inside :
      (http_date : Text → Option ℕ) (typed : Bool) (method : Method) (headers : Headers)
      (start n : ℕ)
      → (serve is_value content readable type_length http_date typed size method headers).body
        ≡ bytes start n
      → start + n ≤ size
  unfolding serve
  serve_inside http_date typed method headers start n e =
      answer_outcome-body typed method
        (preconditions http_date (is_get_or_head method) headers content) start n e
