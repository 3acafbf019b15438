-- ===== src/Http/Serve.antt =====
-- `serve` of crates/rustorr-http/src/serve_content.rs: the status, the validators and the bytes of an
-- answer. The check of header values, the reader of the source and the type of the content are
-- arguments, of the type its length; the texts of messages and of the multipart boundary are left out.
pub mod Laws
mod Tests
use rustorr.Base.{
  ℕ, ◌+◌, Bool, true, false, Option, none, some, List, [], ◌∷◌, ltb, ◌==◌, ◌||◌, if◌then◌else◌,
  wrapping_add, length, Result, ok, err,
}
use rustorr.Text.{Text, to_string}
use rustorr.Http.Range.{HttpRange, RangeError, invalid, unsatisfiable, parse, len}
use rustorr.Http.Etag.{
  Headers, Content, Outcome, precondition_failed, not_modified, proceed, preconditions,
}

pub data Method : Type 0 where
  get head other : Method

pub data ContentRange : Type 0 where
  -- `bytes a-b/size`
  span : HttpRange → ℕ → ContentRange
  -- `bytes */size`
  unsatisfied : ℕ → ContentRange

pub data Body : Type 0 where
  empty error_text : Body
  -- A start and a length.
  bytes : ℕ → ℕ → Body
  parts : List HttpRange → Body

pub record Response : Type 0 where
  pub status : ℕ
  pub body : Body
  pub content_length : Option ℕ
  pub content_range : Option ContentRange
  pub etag : Option Text
  pub last_modified : Option ℕ
  pub accept_ranges : Bool

pub data Selection : Type 0 where
  chosen : List HttpRange → Selection
  refused : RangeError → Selection

unfoldable pub sum_len : List HttpRange → ℕ
unfolding len
sum_len [] = 0
sum_len (r ∷ rs) = wrapping_add (len r) (sum_len rs)

unfoldable pub select_parsed : ℕ → Result RangeError (List HttpRange) → Selection
unfolding sum_len
select_parsed size (ok ranges) = if ltb size (sum_len ranges) then chosen [] else chosen ranges
select_parsed size (err unsatisfiable) = if size == 0 then chosen [] else refused unsatisfiable
select_parsed size (err invalid) = refused invalid

unfoldable pub select : ℕ → Option Text → Selection
unfolding select_parsed
select size none = chosen []
select size (some value) = select_parsed size (parse value size)

unfoldable pub is_head : Method → Bool
is_head head = true
is_head _ = false

unfoldable pub is_get_or_head : Method → Bool
is_get_or_head other = false
is_get_or_head _ = true

-- A body that a `HEAD` request does not get.
unfoldable pub body_for : Method → Body → Body
unfolding is_head
body_for method body = if is_head method then empty else body

unfoldable pub kept_etag : (Text → Bool) → Option Text → Option Text
kept_etag is_value none = none
kept_etag is_value (some etag) = if is_value etag then some etag else none

-- The head of a part has 107 characters besides the numbers and the type, 60 of them the boundary's;
-- the line that closes the parts has 66.
unfoldable pub part_head : ℕ → ℕ → HttpRange → ℕ
part_head size type_length r =
    107
    + length (to_string r.start)
    + length (to_string r.end)
    + length (to_string size)
    + type_length

unfoldable pub parts_length : ℕ → ℕ → List HttpRange → ℕ
unfolding part_head
parts_length size type_length [] = 0
parts_length size type_length (r ∷ rs) =
    wrapping_add (wrapping_add (part_head size type_length r) (wrapping_add (len r) 2))
      (parts_length size type_length rs)

module _ (is_value : Text → Bool) (content : Content) where
  -- An answer without a body that keeps the handler's headers.
  unfoldable pub with_base : ℕ → Response
  unfolding kept_etag
  with_base status = record {
    status = status;
    body = empty;
    content_length = none;
    content_range = none;
    etag = kept_etag is_value content.etag;
    last_modified = content.modified;
    accept_ranges = false;
  }

  -- `serve_error`, which drops the validators.
  unfoldable pub serve_error : ℕ → Response
  unfolding with_base
  serve_error status = record (with_base status) {
    body = error_text;
    etag = none;
    last_modified = none;
  }

  unfoldable pub not_modified_answer : Response
  unfolding with_base
  not_modified_answer = record (with_base 304) {
    last_modified = elim content.etag [ none ↦ content.modified | some etag ↦ none ];
  }

  unfoldable pub refusal : ℕ → RangeError → Response
  unfolding serve_error
  refusal size unsatisfiable = record (serve_error 416) { content_range = some (unsatisfied size) }
  refusal size invalid = serve_error 416

  unfoldable pub whole : ℕ → Method → Response
  unfolding with_base body_for
  whole size method = record (with_base 200) {
    body = body_for method (bytes 0 size);
    content_length = some size;
    accept_ranges = true;
  }

  unfoldable pub partial : ℕ → Method → HttpRange → Response
  unfolding with_base body_for
  partial size method r = record (with_base 206) {
    body = body_for method (bytes r.start (len r));
    content_length = some (len r);
    content_range = some (span r size);
    accept_ranges = true;
  }

  unfoldable pub multipart : ℕ → ℕ → Method → List HttpRange → Response
  unfolding with_base body_for parts_length
  multipart size type_length method ranges = record (with_base 206) {
    body = body_for method (parts ranges);
    content_length = some (wrapping_add (parts_length size type_length ranges) 66);
    accept_ranges = true;
  }

  module _ (readable : ℕ → ℕ → Bool) (type_length : ℕ) where
    unfoldable pub answer_ranges : ℕ → Method → List HttpRange → Response
    unfolding whole partial multipart serve_error is_head
    answer_ranges size method [] =
        if is_head method || readable 0 size then whole size method else serve_error 500
    answer_ranges size method (r ∷ []) =
        if is_head method || readable r.start (len r)
        then partial size method r
        else serve_error 416
    answer_ranges size method (r ∷ s ∷ rs) = multipart size type_length method (r ∷ s ∷ rs)

    unfoldable pub answer_selection : ℕ → Method → Selection → Response
    unfolding answer_ranges refusal
    answer_selection size method (chosen ranges) = answer_ranges size method ranges
    answer_selection size method (refused e) = refusal size e

    -- `typed` says that the type is known, or that the start of the source can be read to guess it.
    unfoldable pub answer_outcome : Bool → ℕ → Method → Outcome → Response
    unfolding answer_selection select not_modified_answer serve_error
    answer_outcome typed size method precondition_failed = with_base 412
    answer_outcome typed size method not_modified = not_modified_answer
    answer_outcome typed size method (proceed range) =
        if typed then answer_selection size method (select size range) else serve_error 500

    unfoldable pub serve : (Text → Option ℕ) → Bool → ℕ → Method → Headers → Response
    unfolding answer_outcome is_get_or_head
    serve http_date typed size method headers =
        answer_outcome typed size method
          (preconditions http_date (is_get_or_head method) headers content)
