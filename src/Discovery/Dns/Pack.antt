-- ===== src/Discovery/Dns/Pack.antt =====
-- `Message::pack` and `Writer`.
pub mod Header
use rustorr.Base.{
  ℕ, ◌+◌, ◌*◌, ◌-◌, ◌/◌, ◌%◌, ◌^◌, Bool, true, false, Option, none, some, List, [], ◌∷◌, ◌++◌, map,
  ltb, leb, min, ◌==◌, ◌&&◌, ◌||◌, not, if◌then◌else◌, length, take, drop,
}
use rustorr.Base.Map.{Map, lookup, insert}
use rustorr.Domain.Hash.Digits.{to_ascii_lowercase}
use rustorr.Text.{Text, text_has_eq, is_empty_text, split, trim_end, join}
use rustorr.Discovery.Dns.{Message, Question, DnsRecord, RecordData, ptr, srv, txt, a, aaaa, kind}

-- `to_be_bytes` of a `u16` and of a `u32`
abbrev pub be16 : ℕ → List ℕ
be16 n = (n / 256 % 256) ∷ (n % 256) ∷ []

abbrev pub be32 : ℕ → List ℕ
be32 n = (n / 2 ^ 24 % 256) ∷ (n / 2 ^ 16 % 256) ∷ be16 n

-- `count`, and the length of a record: what does not fit a `u16` is its greatest number.
unfoldable pub count : ℕ → ℕ
count n = min n 65535

pub record Writer : Type 0 where
  pub out : List ℕ
  -- The places of the suffixes of names, when they are shared.
  pub names : Option (Map Text ℕ)

abbrev pub append : Writer → List ℕ → Writer
append w bytes = record w { out = w.out ++ bytes }

unfoldable pub non_empty : List Text → List Text
non_empty [] = []
non_empty (l ∷ ls) = let rest = non_empty ls in if is_empty_text l then rest else l ∷ rest

unfoldable pub labels_of : Text → List Text
unfolding non_empty
labels_of name = non_empty (split b'.' (trim_end (λ b. b == b'.') name))

-- The place of a suffix that was written before.
unfoldable pub pointer : Writer → Bool → Text → Option ℕ
pointer w compressible suffix = elim w.names [
  | none ↦ none
  | some names ↦ if compressible then lookup suffix names else none
]

-- A place that a pointer can name is kept; the first one of a suffix stays.
unfoldable pub remember : Writer → Text → Writer
remember w suffix = elim w.names [
  | none ↦ w
  | some names ↦ elim (lookup suffix names) [
    | some p ↦ w
    | none ↦
        if ltb (length w.out) 0x3FFF
        then record w { names = some (insert suffix (length w.out) names) }
        else w
  ]
]

unfoldable pub write_labels : Writer → Bool → List Text → Writer
unfolding pointer remember
write_labels w compressible [] = append w (0 ∷ [])
write_labels w compressible (l ∷ ls) =
    let suffix = map to_ascii_lowercase (join b'.' (l ∷ ls)) in
    let n = min (length l) 63 in
    let rest = write_labels (append (remember w suffix) (n ∷ take n l)) compressible ls in
    elim (pointer w compressible suffix) [ some p ↦ append w (be16 (0xC000 + p)) | none ↦ rest ]

unfoldable pub write_name : Writer → Text → Bool → Writer
unfolding write_labels labels_of
write_name w name compressible = write_labels w compressible (labels_of name)

unfoldable pub strings_bytes : List Text → List ℕ
strings_bytes [] = []
strings_bytes (s ∷ ss) = let n = min (length s) 255 in n ∷ (take n s ++ strings_bytes ss)

-- An SRV target is not compressed.
unfoldable pub write_data : Writer → RecordData → Writer
unfolding write_name strings_bytes
write_data w (ptr target) = write_name w target true
write_data w (srv port target) = write_name (append w (0 ∷ 0 ∷ 0 ∷ 0 ∷ be16 port)) target false
write_data w (txt strings) = append w (strings_bytes strings)
write_data w (a octets) = append w octets
write_data w (aaaa octets) = append w octets

-- The bytes from a place on are counted into the two bytes before them.
unfoldable pub set_length : ℕ → Writer → Writer
unfolding count
set_length at w = record w {
  out = take at w.out ++ (be16 (count (length w.out - at - 2)) ++ drop (at + 2) w.out);
}

unfoldable pub write_record : Writer → DnsRecord → Writer
unfolding write_name write_data set_length
write_record w r =
    let head =
      append (write_name w r.name true) (be16 (kind r.content) ++ (be16 r.class ++ be32 r.ttl)) in
    set_length (length head.out) (write_data (append head (0 ∷ 0 ∷ [])) r.content)

unfoldable pub write_records : Writer → List DnsRecord → Writer
unfolding write_record
write_records w [] = w
write_records w (r ∷ rs) = write_records (write_record w r) rs

unfoldable pub write_question : Writer → Question → Writer
unfolding write_name
write_question w q = append (write_name w q.name true) (be16 q.kind ++ be16 q.class)

unfoldable pub write_questions : Writer → List Question → Writer
unfolding write_question
write_questions w [] = w
write_questions w (q ∷ qs) = write_questions (write_question w q) qs

abbrev pub bit : Bool → ℕ → ℕ
bit b weight = if b then weight else 0

-- The bits of `|=` do not meet.
unfoldable pub flags_of : Message → ℕ
flags_of m =
    bit m.response (2 ^ 15)
    + (m.opcode % 16 * 2 ^ 11
        + (bit m.authoritative (2 ^ 10)
            + (bit m.recursion_desired (2 ^ 8) + bit m.checking_disabled (2 ^ 4))))

unfoldable pub header : Message → List ℕ
unfolding flags_of count
header m =
    be16 m.id
    ++ (be16 (flags_of m)
        ++ (be16 (count (length m.questions))
            ++ (be16 (count (length m.answers))
                ++ (be16 (count (length m.authority)) ++ be16 (count (length m.additional))))))

unfoldable pub pack : Message → Bool → List ℕ
unfolding header write_questions write_records
pack m compress =
    let start : Writer = record { out = header m; names = if compress then some [] else none } in
    (write_records (write_questions start m.questions)
      (m.answers ++ (m.authority ++ m.additional))).out
