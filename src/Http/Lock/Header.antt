-- ===== src/Http/Lock/Header.antt =====
-- The `If` and `Timeout` headers of crates/rustorr-http/src/webdav/lock.rs. Each round of a loop takes
-- at least one character, so as many rounds as characters, and one more, are enough.
use rustorr.Base.{
  ℕ, zero, suc, ◌+◌, Bool, true, false, Option, none, some, List, [], ◌∷◌, ◌++◌, leb, ◌==◌, ◌&&◌,
  ◌||◌, not, if◌then◌else◌, length, Result, ok, err, ◌>>=◌, ok_or, u32_mod,
}
use rustorr.Text.{
  Text, text_eq, is_empty_text, strip_prefix, trim, trim_start, split, parse_digits, is_digit,
}
use rustorr.Http.Lock.{Condition}

pub data Token : Type 0 where
  eof error negation : Token
  str angle square : Text → Token
  char : ℕ → Token

unfoldable pub is_blank : ℕ → Bool
is_blank c = c == b' ' || c == 9

unfoldable pub is_delimiter : ℕ → Bool
unfolding is_blank
is_delimiter c =
    is_blank c
    || (c == b'(' || (c == b')' || (c == b'<' || (c == b'>' || (c == b'[' || c == b']')))))

-- What is before the first delimiter, and the rest with it.
unfoldable pub until_delimiter : Text → Text × Text
unfolding is_delimiter
until_delimiter [] = ([], [])
until_delimiter (c ∷ cs) =
    let (text, rest) = until_delimiter cs in
    if is_delimiter c then ([], c ∷ cs) else (c ∷ text, rest)

-- What is before the closing character, and the rest after it.
unfoldable pub until_close : ℕ → Text → Option (Text × Text)
until_close close [] = none
until_close close (c ∷ cs) =
    let found = until_close close cs in
    if c == close
    then some ([], cs)
    else elim found [ none ↦ none | some (inner, rest) ↦ some (c ∷ inner, rest) ]

abbrev not_word : Text
not_word = b'N' ∷ b'o' ∷ b't' ∷ []

unfoldable pub word : Text × Text → Token × Text
word (text, rest) = if text_eq text not_word then (negation, rest) else (str text, rest)

unfoldable pub enclosed : (Text → Token) → Option (Text × Text) → Token × Text
enclosed token none = (error, [])
enclosed token (some (inner, rest)) = (token inner, rest)

unfoldable pub delimited : ℕ → Text → Token × Text
unfolding enclosed until_close
delimited first cs =
    if first == b'<'
    then enclosed angle (until_close b'>' cs)
    else if first == b'['
    then enclosed square (until_close b']' cs)
    else (char first, cs)

unfoldable pub lex_trimmed : Text → Token × Text
unfolding delimited word until_delimiter
lex_trimmed [] = (eof, [])
lex_trimmed (c ∷ cs) = if is_delimiter c then delimited c cs else word (until_delimiter (c ∷ cs))

unfoldable pub lex : Text → Token × Text
unfolding lex_trimmed
lex s = lex_trimmed (trim_start is_blank s)

unfoldable pub named_condition : Bool → Token × Text → Option (Condition × Text)
named_condition negated (str text, rest) =
    some (record { negated = negated; token = text; etag = [] }, rest)
named_condition negated (angle text, rest) =
    some (record { negated = negated; token = text; etag = [] }, rest)
named_condition negated (square text, rest) =
    some (record { negated = negated; token = []; etag = text }, rest)
named_condition negated (_, rest) = none

unfoldable pub condition_of : Token × Text → Option (Condition × Text)
unfolding named_condition
condition_of (negation, rest) = named_condition true (lex rest)
condition_of (token, rest) = named_condition false (token, rest)

unfoldable pub parse_condition : Text → Option (Condition × Text)
unfolding condition_of
parse_condition s = condition_of (lex s)

pub record IfList : Type 0 where
  pub resource_tag : Text
  pub conditions : List Condition

unfoldable pub is_char : ℕ → Token → Bool
is_char c (char d) = c == d
is_char c _ = false

unfoldable pub is_none : List Condition → Bool
is_none [] = true
is_none (c ∷ cs) = false

-- The loop of `parse_list`, with the conditions read so far.
unfoldable pub parse_conditions : ℕ → List Condition → Text → Option (IfList × Text)
unfolding is_char is_none
parse_conditions zero conditions s = none
parse_conditions (suc rounds) conditions s =
    if is_char b')' (lex s).0
    then (if is_none conditions
        then none
        else some (record { resource_tag = []; conditions = conditions }, (lex s).1))
    else elim (parse_condition s) [
      | none ↦ none
      | some (c, rest) ↦ parse_conditions rounds (conditions ++ c ∷ []) rest
    ]

unfoldable pub parse_list : Text → Option (IfList × Text)
unfolding parse_conditions
parse_list s = if is_char b'(' (lex s).0 then parse_conditions (length s + 1) [] (lex s).1 else none

-- The loop over lists without a tag.
unfoldable pub untagged : ℕ → List IfList → Text → Option (List IfList)
unfolding parse_list
untagged zero lists s = none
untagged (suc rounds) lists s = elim (parse_list s) [
  | none ↦ none
  | some (list, rest) ↦
      if is_empty_text rest
      then some (lists ++ list ∷ [])
      else untagged rounds (lists ++ list ∷ []) rest
]

-- The variables of the loop over tagged lists.
pub record Tagging : Type 0 where
  pub tag : Text
  pub count : ℕ
  pub first : Bool
  pub lists : List IfList

unfoldable pub tagged_list : Tagging → IfList → Tagging
tagged_list t list = record {
  tag = t.tag;
  count = t.count + 1;
  first = false;
  lists = t.lists ++ record list { resource_tag = t.tag } ∷ [];
}

unfoldable pub new_tag : Tagging → Text → Tagging
new_tag t text = record t { tag = text; count = 0; first = false }

unfoldable pub tagged : ℕ → Tagging → Text → Option (List IfList)
unfolding parse_list tagged_list new_tag
tagged zero t s = none
tagged (suc rounds) t s = elim (lex s).0 [
  | angle text ↦
      if not t.first && t.count == 0 then none else tagged rounds (new_tag t text) (lex s).1
  | char c ↦
      if c == b'('
      then elim (parse_list s) [
        | none ↦ none
        | some (list, after) ↦
            if is_empty_text after
            then some (tagged_list t list).lists
            else tagged rounds (tagged_list t list) after
      ]
      else none
  | _ ↦ none
]

unfoldable pub parse_lists : Text → Option (List IfList)
unfolding untagged tagged
parse_lists s = elim (lex s).0 [
  | char c ↦ if c == b'(' then untagged (length s + 1) [] s else none
  | angle text ↦ tagged (length s + 1) (record { tag = []; count = 0; first = true; lists = [] }) s
  | _ ↦ none
]

unfoldable pub parse_if : Text → Option (List IfList)
unfolding parse_lists
parse_if header = parse_lists (trim header)

abbrev infinite_word : Text
infinite_word = b'I' ∷ b'n' ∷ b'f' ∷ b'i' ∷ b'n' ∷ b'i' ∷ b't' ∷ b'e' ∷ []

abbrev second_prefix : Text
second_prefix = b'S' ∷ b'e' ∷ b'c' ∷ b'o' ∷ b'n' ∷ b'd' ∷ b'-' ∷ []

unfoldable pub starts_with_digit : Text → Bool
unfolding is_digit
starts_with_digit [] = false
starts_with_digit (c ∷ cs) = is_digit c

unfoldable pub head_or_empty : List Text → Text
head_or_empty [] = []
head_or_empty (x ∷ xs) = x

-- `Duration` in seconds; `none` is infinite. `parse::<i64>` of digits has the bound 2^63.
unfoldable pub parse_seconds : Text → Result (Unit {0}) (Option ℕ)
unfolding starts_with_digit
parse_seconds s = do
  digits ← ok_or (strip_prefix second_prefix s) tt
  if not (starts_with_digit digits) then err tt else do
    seconds ← ok_or (parse_digits 9223372036854775808 0 digits) tt
    if leb u32_mod seconds then err tt else ok (some seconds)

unfoldable pub parse_timeout : Text → Result (Unit {0}) (Option ℕ)
unfolding parse_seconds head_or_empty
parse_timeout header =
    let first = trim (head_or_empty (split b',' header)) in
    if is_empty_text header
    then ok none
    else if text_eq first infinite_word
    then ok none
    else parse_seconds first
