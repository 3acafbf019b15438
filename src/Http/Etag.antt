-- ===== src/Http/Etag.antt =====
-- Entity tags and preconditions of crates/rustorr-http/src/serve_content.rs. The parser of dates is
-- another package's: it is an argument. A header that is absent, or is no text, is the empty text.
pub mod Laws
mod Tests
use rustorr.Base.{
  ℕ, zero, suc, ◌+◌, Bool, true, false, Option, none, some, List, [], ◌∷◌, ◌++◌, leb, ◌==◌, ◌&&◌,
  ◌||◌, not, if◌then◌else◌, length,
}
use rustorr.Text.{Text, text_eq, is_empty_text, strip_prefix, starts_with, trim_with}

unfoldable pub is_space : ℕ → Bool
is_space c = c == b' ' || (c == 9 || (c == 10 || c == 13))

-- The rest of a tag up to its closing quote, and what follows.
unfoldable pub scan_quoted : Text → Option (Text × Text)
scan_quoted [] = none
scan_quoted (c ∷ cs) =
    let found = scan_quoted cs in
    if c == b'"'
    then some (b'"' ∷ [], cs)
    else if c == 0x21 || ((leb 0x23 c && leb c 0x7e) || leb 0x80 c)
    then elim found [ none ↦ none | some (tag, rest) ↦ some (c ∷ tag, rest) ]
    else none

unfoldable pub scan_strong : Text → Option (Text × Text)
unfolding scan_quoted
scan_strong [] = none
scan_strong (c ∷ cs) =
    if c == b'"'
    then elim (scan_quoted cs) [ none ↦ none | some (tag, rest) ↦ some (c ∷ tag, rest) ]
    else none

abbrev pub weak_prefix : Text
weak_prefix = b'W' ∷ b'/' ∷ []

unfoldable pub scan_trimmed : Text → Option (Text × Text)
unfolding scan_strong
scan_trimmed s = elim (strip_prefix weak_prefix s) [
  | none ↦ scan_strong s
  | some after ↦ elim (scan_strong after) [
    | none ↦ none
    | some (tag, rest) ↦ some (weak_prefix ++ tag, rest)
  ]
]

-- The first entity tag and the rest.
unfoldable pub scan_etag : Text → Option (Text × Text)
unfolding scan_trimmed is_space
scan_etag s = scan_trimmed (trim_with is_space s)

unfoldable pub is_quoted : Text → Bool
is_quoted [] = false
is_quoted (c ∷ cs) = c == b'"'

unfoldable pub strong_match : Text → Option Text → Bool
unfolding is_quoted
strong_match tag none = false
strong_match tag (some etag) = text_eq tag etag && is_quoted tag

-- `trim_start_matches("W/")`: every `W/` at the start goes.
unfoldable pub without_weak : Text → Text
without_weak [] = []
without_weak (c ∷ []) = c ∷ []
without_weak (c ∷ d ∷ cs) =
    let rest = without_weak cs in if c == b'W' && d == b'/' then rest else c ∷ d ∷ cs

unfoldable pub or_empty : Option Text → Text
or_empty none = []
or_empty (some s) = s

unfoldable pub weak_match : Text → Option Text → Bool
unfolding without_weak or_empty
weak_match tag etag = text_eq (without_weak tag) (without_weak (or_empty etag))

pub data Check : Type 0 where
  unset passed failed : Check

unfoldable pub opposite : Check → Check
opposite passed = failed
opposite failed = passed
opposite unset = passed

unfoldable pub answer : Check → Check
answer passed = passed
answer _ = failed

-- The loop over a comma-separated list; each round takes at least one character.
unfoldable pub tag_loop : ℕ → Text → Check → (Text → Bool) → Check
unfolding opposite answer is_space
tag_loop zero s star matches = opposite star
tag_loop (suc rounds) s star matches = elim (trim_with is_space s) [
  | [] ↦ opposite star
  | c ∷ cs ↦
      if c == b','
      then tag_loop rounds cs star matches
      else if c == b'*'
      then star
      else elim (scan_etag (c ∷ cs)) [
        | none ↦ opposite star
        | some (tag, rest) ↦ if matches tag then answer star else tag_loop rounds rest star matches
      ]
]

unfoldable pub tag_list : Text → Check → (Text → Bool) → Check
unfolding tag_loop
tag_list list star matches = tag_loop (length list + 1) list star matches

-- The headers that decide, and what the content says of itself.
pub record Headers : Type 0 where
  pub if_match : Text
  pub if_unmodified_since : Text
  pub if_none_match : Text
  pub if_modified_since : Text
  pub if_range : Text
  pub range : Text

pub record Content : Type 0 where
  pub modified : Option ℕ
  pub etag : Option Text

pub data Outcome : Type 0 where
  precondition_failed not_modified : Outcome
  proceed : Option Text → Outcome

-- `modified <= since` where both are there.
unfoldable pub not_after : Option ℕ → Option ℕ → Option Bool
not_after (some modified) (some since) = some (leb modified since)
not_after _ _ = none

unfoldable pub check_of : Option Bool → Check
check_of none = unset
check_of (some true) = passed
check_of (some false) = failed

unfoldable pub equal_dates : Option ℕ → Option ℕ → Bool
equal_dates (some a) (some b) = a == b
equal_dates _ _ = false

unfoldable pub or_else : Check → Check → Check
or_else unset other = other
or_else check other = check

module _ (http_date : Text → Option ℕ) where
  unfoldable pub if_match_check : Headers → Content → Check
  unfolding tag_list strong_match check_of or_else not_after
  if_match_check h content =
      or_else
        (if is_empty_text h.if_match
          then unset
          else tag_list h.if_match passed (λ tag. strong_match tag content.etag))
        (check_of (not_after content.modified (http_date h.if_unmodified_since)))

  unfoldable pub if_none_match_check : Headers → Content → Check
  unfolding tag_list weak_match
  if_none_match_check h content =
      if is_empty_text h.if_none_match
      then unset
      else tag_list h.if_none_match failed (λ tag. weak_match tag content.etag)

  unfoldable pub is_unmodified : Headers → Content → Bool
  unfolding not_after
  is_unmodified h content = elim (not_after content.modified (http_date h.if_modified_since)) [
    | none ↦ false
    | some b ↦ b
  ]

  unfoldable pub is_fresh : Headers → Content → Bool
  unfolding scan_etag strong_match equal_dates
  is_fresh h content = elim (scan_etag h.if_range) [
    | some (tag, rest) ↦ strong_match tag content.etag
    | none ↦ equal_dates content.modified (http_date h.if_range)
  ]

  unfoldable pub wanted_range : Bool → Headers → Content → Option Text
  unfolding is_fresh
  wanted_range get_or_head h content =
      if is_empty_text h.range
      then none
      else if get_or_head && (not (is_empty_text h.if_range) && not (is_fresh h content))
      then none
      else some h.range

  unfoldable pub after_match : Check → Bool → Headers → Content → Outcome
  unfolding is_unmodified wanted_range
  after_match failed get_or_head h content =
      if get_or_head then not_modified else precondition_failed
  after_match unset get_or_head h content =
      if get_or_head && is_unmodified h content
      then not_modified
      else proceed (wanted_range get_or_head h content)
  after_match passed get_or_head h content = proceed (wanted_range get_or_head h content)

  unfoldable pub preconditions : Bool → Headers → Content → Outcome
  unfolding if_match_check if_none_match_check after_match
  preconditions get_or_head h content = elim (if_match_check h content) [
    | failed ↦ precondition_failed
    | _ ↦ after_match (if_none_match_check h content) get_or_head h content
  ]
