-- ===== src/Discovery/Dns/Parse.antt =====
-- `Message::parse`, `read_name`, `read_record` and `escape_label`.
pub mod Bounds
use rustorr.Base.{
  ℕ, zero, suc, ◌+◌, ◌*◌, ◌/◌, ◌%◌, ◌^◌, Bool, true, false, Option, none, some, List, [], ◌∷◌, ◌++◌,
  ltb, leb, ◌==◌, ◌&&◌, ◌||◌, if◌then◌else◌, length, get_elem?, take, drop,
}
use rustorr.Base.Options.{◌>>=◌}
use rustorr.Text.{Text, join}
use rustorr.Discovery.Dns.{Message, Question, DnsRecord, RecordData, ptr, txt, type_ptr}

-- `from_be_bytes` of the two bytes at a place
unfoldable pub field : List ℕ → ℕ → Option ℕ
field bytes at = do
  high ← get_elem? bytes at
  low ← get_elem? bytes (at + 1)
  some (high * 256 + low)

-- The three decimal digits of a byte.
unfoldable pub three_digits : ℕ → Text
three_digits b = (48 + b / 100) ∷ (48 + b / 10 % 10) ∷ (48 + b % 10) ∷ []

is_special : ℕ → Bool
is_special b =
    b == b'.'
    || (b == b' '
        || (b == b'\''
            || (b == b'@'
                || (b == b';' || (b == b'(' || (b == b')' || (b == b'"' || b == b'\\')))))))

unfoldable pub escape_byte : ℕ → Text
unfolding three_digits is_special
escape_byte b =
    if is_special b
    then b'\\' ∷ b ∷ []
    else if leb 0x21 b && leb b 0x7e
    then b ∷ []
    else b'\\' ∷ three_digits b

unfoldable pub escape_label : List ℕ → Text
unfolding escape_byte
escape_label [] = []
escape_label (b ∷ bs) = escape_byte b ++ escape_label bs

-- `bytes.get(from..from + n)`
unfoldable pub get_slice : List ℕ → ℕ → ℕ → Option (List ℕ)
get_slice bytes from n =
    if leb (from + n) (length bytes) then some (take n (drop from bytes)) else none

-- Where a name ends: where its first pointer does.
abbrev pub get_or_insert : Option ℕ → ℕ → ℕ
get_or_insert none n = n
get_or_insert (some m) n = m

abbrev pub is_pointer : ℕ → Bool
is_pointer n = n / 64 == 3

-- Up to so many labels and pointers.
unfoldable pub read_labels : ℕ → List ℕ → ℕ → List Text → Option ℕ → Option (Text × ℕ)
unfolding escape_label get_slice
read_labels zero bytes offset labels end = none
read_labels (suc rounds) bytes offset labels end = elim (get_elem? bytes offset) [
  | none ↦ none
  | some n ↦
      if is_pointer n
      then elim (get_elem? bytes (offset + 1)) [
        | none ↦ none
        | some low ↦
            read_labels rounds bytes (n % 64 * 256 + low) labels
              (some (get_or_insert end (offset + 2)))
      ]
      else if n == 0
      then some (join b'.' labels ++ b'.' ∷ [], get_or_insert end (offset + 1))
      else elim (get_slice bytes (offset + 1) n) [
        | none ↦ none
        | some label ↦
            read_labels rounds bytes (offset + 1 + n) (labels ++ escape_label label ∷ []) end
      ]
]

unfoldable pub read_name : List ℕ → ℕ → Option (Text × ℕ)
unfolding read_labels
read_name bytes offset = read_labels 128 bytes offset [] none

unfoldable pub read_data : List ℕ → ℕ → ℕ → Option RecordData
unfolding read_name
read_data bytes kind start =
    if kind == type_ptr then (do target ← read_name bytes start; some (ptr target.0)) else none

-- The record after its name, and where it ends.
unfoldable pub read_fields : List ℕ → Text → ℕ → Option (Option DnsRecord × ℕ)
unfolding field get_slice read_data
read_fields bytes name offset = do
  kind ← field bytes offset
  class ← field bytes (offset + 2)
  high ← field bytes (offset + 4)
  low ← field bytes (offset + 6)
  length ← field bytes (offset + 8)
  content ← get_slice bytes (offset + 10) length
  some (
    elim (read_data bytes kind (offset + 10)) [
      | none ↦ none
      | some d ↦
          some (record { name = name; class = class; ttl = high * 2 ^ 16 + low; content = d })
    ],
    offset + 10 + length,
  )

unfoldable pub read_record : List ℕ → ℕ → Option (Option DnsRecord × ℕ)
unfolding read_name read_fields
read_record bytes offset = do name ← read_name bytes offset; read_fields bytes name.0 name.1

unfoldable pub read_question : List ℕ → ℕ → Option (Question × ℕ)
unfolding read_name field
read_question bytes offset = do
  name ← read_name bytes offset
  kind ← field bytes name.1
  class ← field bytes (name.1 + 2)
  some (record { name = name.0; kind = kind; class = class }, name.1 + 4)

unfoldable pub read_questions : ℕ → List ℕ → ℕ → Option (List Question × ℕ)
unfolding read_question
read_questions zero bytes offset = some ([], offset)
read_questions (suc n) bytes offset = do
  q ← read_question bytes offset
  qs ← read_questions n bytes q.1
  some (q.0 ∷ qs.0, qs.1)

-- What stands for a record that the responder does not understand.
unfoldable pub record_or_empty : Option DnsRecord → DnsRecord
record_or_empty (some r) = r
record_or_empty none = record { name = []; class = 0; ttl = 0; content = txt [] }

unfoldable pub read_records : ℕ → List ℕ → ℕ → Option (List DnsRecord × ℕ)
unfolding read_record record_or_empty
read_records zero bytes offset = some ([], offset)
read_records (suc n) bytes offset = do
  r ← read_record bytes offset
  rs ← read_records n bytes r.1
  some (record_or_empty r.0 ∷ rs.0, rs.1)

-- `flags & (1 << n) != 0`
abbrev pub flag : ℕ → ℕ → Bool
flag flags weight = flags / weight % 2 == 1

abbrev pub Sections : Type 0
Sections = List Question × List DnsRecord × List DnsRecord × List DnsRecord

-- The sections behind the header, by their counts.
unfoldable pub read_sections : List ℕ → ℕ → ℕ → ℕ → ℕ → Option Sections
unfolding read_questions read_records
read_sections bytes questions answers authority additional = do
  qs ← read_questions questions bytes 12
  first ← read_records answers bytes qs.1
  second ← read_records authority bytes first.1
  third ← read_records additional bytes second.1
  some (qs.0, first.0, second.0, third.0)

unfoldable pub message : ℕ → ℕ → Sections → Message
message id flags (questions, answers, authority, additional) = record {
  id = id;
  response = flag flags (2 ^ 15);
  opcode = flags / 2 ^ 11 % 16;
  authoritative = flag flags (2 ^ 10);
  recursion_desired = flag flags (2 ^ 8);
  checking_disabled = flag flags (2 ^ 4);
  questions = questions;
  answers = answers;
  authority = authority;
  additional = additional;
}

unfoldable pub read_counted : List ℕ → Option Sections
unfolding field read_sections
read_counted bytes = do
  questions ← field bytes 4
  answers ← field bytes 6
  authority ← field bytes 8
  additional ← field bytes 10
  read_sections bytes questions answers authority additional

unfoldable pub parse : List ℕ → Option Message
unfolding field read_counted message
parse bytes = do
  flags ← field bytes 2
  id ← field bytes 0
  sections ← read_counted bytes
  some (message id flags sections)
