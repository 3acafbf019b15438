-- ===== src/Http/Serve/Tests.antt =====
-- A request for a part, and the theorem about answers at it.
use rustorr.Http.Range.{parse}
use rustorr.Base.{◌+◌, ◌≤◌, ◌≡◌, refl, true, none, [], ◌∷◌, arith, wrapping_add, wrapping_sub}
use rustorr.Text.{is_empty_text, parse_u64, split, split_once, strip_prefix, trim}
use rustorr.Http.Etag.{Headers, Content, preconditions}
use rustorr.Http.Serve.{serve, get, bytes, Response}
use rustorr.Http.Serve.Laws.{serve_inside}

abbrev content : Content
content = record { modified = none; etag = none }

-- `bytes=2-4`
abbrev third_to_fifth : Headers
third_to_fifth = record {
  if_match = [];
  if_unmodified_since = [];
  if_none_match = [];
  if_modified_since = [];
  if_range = [];
  range = b'b' ∷ b'y' ∷ b't' ∷ b'e' ∷ b's' ∷ b'=' ∷ b'2' ∷ b'-' ∷ b'4' ∷ [];
}

abbrev answer_to : Headers → Response
answer_to headers = serve (λ s. true) content (λ start n. true) 9 (λ s. none) true 10 get headers

partial_status : (answer_to third_to_fifth).status ≡ 206
unfolding serve preconditions is_empty_text parse strip_prefix split split_once trim parse_u64
    wrapping_add wrapping_sub
partial_status = refl

partial_body : (answer_to third_to_fifth).body ≡ bytes 2 3
unfolding serve preconditions is_empty_text parse strip_prefix split split_once trim parse_u64
    wrapping_add wrapping_sub
partial_body = refl

past_the_end_status :
    (answer_to (record third_to_fifth {
      range = b'b' ∷ b'y' ∷ b't' ∷ b'e' ∷ b's' ∷ b'=' ∷ b'9' ∷ b'9' ∷ b'-' ∷ [];
    })).status
    ≡ 416
unfolding serve preconditions is_empty_text parse strip_prefix split split_once trim parse_u64
past_the_end_status = refl

serve_inside_example : 2 + 3 ≤ 10
serve_inside_example =
    serve_inside (λ s. true) content (λ start n. true) 9 10 (omega arith) (λ s. none) true get
      third_to_fifth 2 3 partial_body
