-- ===== src/Http/Etag/Tests.antt =====
-- Requests, and the theorems about tags and preconditions at them.
use rustorr.Base.{ℕ, ◌≡◌, ◌++◌, refl, true, false, [], ◌∷◌, none, some, Option}
use rustorr.Text.{Text, trim_with, is_empty_text, strip_prefix}
use rustorr.Http.Etag.{
  Headers, Content, scan_etag, preconditions, not_modified, precondition_failed,
}
use rustorr.Http.Etag.Laws.{preconditions_same_tag}

-- `"ab"`
abbrev tag : Text
tag = b'"' ∷ b'a' ∷ b'b' ∷ b'"' ∷ []

abbrev content : Content
content = record { modified = some 100; etag = some tag }

abbrev again : Headers
again = record {
  if_match = [];
  if_unmodified_since = [];
  if_none_match = tag;
  if_modified_since = [];
  if_range = [];
  range = [];
}

-- A parser that reads no date.
abbrev no_date : Text → Option ℕ
no_date s = none

scanned : scan_etag tag ≡ some (tag, [])
unfolding scan_etag strip_prefix trim_with
scanned = refl

list_scanned :
    scan_etag (b' ' ∷ b'W' ∷ b'/' ∷ tag ++ b',' ∷ []) ≡ some (b'W' ∷ b'/' ∷ tag, b',' ∷ [])
unfolding scan_etag strip_prefix trim_with
list_scanned = refl

any_tag :
    preconditions no_date false (record again { if_none_match = b'*' ∷ [] }) content
    ≡ precondition_failed
unfolding preconditions is_empty_text trim_with
any_tag = refl

preconditions_same_tag_example : preconditions no_date true again content ≡ not_modified
preconditions_same_tag_example =
    preconditions_same_tag no_date again content tag scanned refl refl refl refl
