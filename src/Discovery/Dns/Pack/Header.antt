-- ===== src/Discovery/Dns/Pack/Header.antt =====
-- What is written stays, and so the header of a packed message is read back.
use mathlib.Core.List.{append-nil, append_assoc}
use rustorr.Base.{
  ℕ, ◌+◌, ◌*◌, ◌-◌, ◌/◌, ◌%◌, ◌^◌, ◌<◌, ◌≡◌, refl, sym, ap, ◌∙◌, subst, Bool, true, false, Option,
  none, some, List, [], ◌∷◌, ◌++◌, min, map, if◌then◌else◌, length, take, drop, arith, Option-cases,
  inl, inr,
}
use rustorr.Base.Map.{lookup}
use rustorr.Domain.Hash.Digits.{to_ascii_lowercase}
use rustorr.Text.{Text, text_has_eq, join}
use rustorr.Discovery.Dns.{Message, Question, DnsRecord, RecordData, ptr, srv, txt, a, aaaa, kind}
use rustorr.Discovery.Dns.Parse.{field, flag, parse, message}
use rustorr.Discovery.Dns.Parse.Bounds.{parse-bounds, parse-message}
use rustorr.Discovery.Dns.Pack.{
  Writer, append, be16, be32, labels_of, strings_bytes, count, pointer, remember, write_labels,
  write_name, write_data, set_length, write_record, write_records, write_question, write_questions,
  flags_of, header, pack,
}

-- The writer has written more.
Extends : List ℕ → Writer → Type 0
Extends out w = (more : List ℕ) × (w.out ≡ out ++ more)

append-Extends : (out bytes : List ℕ) (w : Writer) → Extends out w → Extends out (append w bytes)
unfolding Extends
append-Extends out bytes w (more, e) =
    (more ++ bytes, ap (λ o. o ++ bytes) e ∙ append_assoc out more bytes)

remember-out : (w : Writer) (suffix : Text) → (remember w suffix).out ≡ w.out
unfolding remember
remember-out w suffix = elim (Option-cases w.names) [
  | inl plain ↦ ground (arith, plain)
  | inr (names, has) ↦ elim (Option-cases (lookup suffix names)) [
    | inl fresh ↦ ground (arith, has, fresh)
    | inr (p, known) ↦ ground (arith, has, known)
  ]
]

write_labels-Extends :
    (out : List ℕ) (ls : List Text) (w : Writer) (compressible : Bool)
    → Extends out w
    → Extends out (write_labels w compressible ls)
unfolding write_labels Extends
write_labels-Extends out [] w compressible e = append-Extends out (0 ∷ []) w e
write_labels-Extends out (l ∷ ls) w compressible (more, e) =
    let suffix = map to_ascii_lowercase (join b'.' (l ∷ ls)) in
    let n = min (length l) 63 in
    let w' = remember w suffix in
    let kept : Extends out w' = (more, remember-out w suffix ∙ e) in
    let rest =
      write_labels-Extends out ls (append w' (n ∷ take n l)) compressible
        (append-Extends out (n ∷ take n l) w' kept) in
    let chosen : Option ℕ → Writer = λ o. elim o [
      | some p ↦ append w (be16 (0xC000 + p))
      | none ↦ write_labels (append w' (n ∷ take n l)) compressible ls
    ] in
    elim (Option-cases (pointer w compressible suffix)) [
      | inl fresh ↦ subst (Extends out) (sym (ap chosen fresh)) rest
      | inr (p, known) ↦
          subst (Extends out) (sym (ap chosen known))
            (append-Extends out (be16 (0xC000 + p)) w (more, e))
    ]

write_name-Extends :
    (out : List ℕ) (w : Writer) (name : Text) (compressible : Bool)
    → Extends out w
    → Extends out (write_name w name compressible)
unfolding write_name
write_name-Extends out w name compressible e =
    write_labels-Extends out (labels_of name) w compressible e

write_data-Extends :
    (out : List ℕ) (w : Writer) (d : RecordData) → Extends out w → Extends out (write_data w d)
unfolding write_data
write_data-Extends out w (ptr target) e = write_name-Extends out w target true e
write_data-Extends out w (srv port target) e =
    let fixed = 0 ∷ 0 ∷ 0 ∷ 0 ∷ be16 port in
    write_name-Extends out (append w fixed) target false (append-Extends out fixed w e)
write_data-Extends out w (txt strings) e = append-Extends out (strings_bytes strings) w e
write_data-Extends out w (a octets) e = append-Extends out octets w e
write_data-Extends out w (aaaa octets) e = append-Extends out octets w e

take_all : (xs ys : List ℕ) → take (length xs) (xs ++ ys) ≡ xs
take_all [] ys = refl
take_all (x ∷ xs) ys = ap (λ t. x ∷ t) (take_all xs ys)

set_length-Extends :
    (out : List ℕ) (w : Writer) → Extends out w → Extends out (set_length (length out) w)
unfolding set_length Extends
set_length-Extends out w (more, e) =
    let tail = be16 (count (length w.out - length out - 2)) ++ drop (length out + 2) w.out in
    (tail, ap (λ t. t ++ tail) (ap (take (length out)) e ∙ take_all out more))

trans_Extends : (out : List ℕ) (w w' : Writer) → Extends out w → Extends w.out w' → Extends out w'
unfolding Extends
trans_Extends out w w' (more, e) (more', e') =
    (more ++ more', e' ∙ ap (λ o. o ++ more') e ∙ append_assoc out more more')

self-Extends : (w : Writer) → Extends w.out w
unfolding Extends
self-Extends w = ([], sym (append-nil w.out))

write_record-Extends :
    (out : List ℕ) (w : Writer) (r : DnsRecord) → Extends out w → Extends out (write_record w r)
unfolding write_record
write_record-Extends out w r e =
    let fixed = be16 (kind r.content) ++ (be16 r.class ++ be32 r.ttl) in
    let named = write_name w r.name true in
    let head = append named fixed in
    let first = append-Extends out fixed named (write_name-Extends out w r.name true e) in
    let zeros = append head (0 ∷ 0 ∷ []) in
    let content =
      write_data-Extends head.out zeros r.content
        (append-Extends head.out (0 ∷ 0 ∷ []) head (self-Extends head)) in
    trans_Extends out head (set_length (length head.out) (write_data zeros r.content)) first
      (set_length-Extends head.out (write_data zeros r.content) content)

write_records-Extends :
    (out : List ℕ) (rs : List DnsRecord) (w : Writer)
    → Extends out w
    → Extends out (write_records w rs)
unfolding write_records
write_records-Extends out [] w e = e
write_records-Extends out (r ∷ rs) w e =
    write_records-Extends out rs (write_record w r) (write_record-Extends out w r e)

write_questions-Extends :
    (out : List ℕ) (qs : List Question) (w : Writer)
    → Extends out w
    → Extends out (write_questions w qs)
unfolding write_questions write_question
write_questions-Extends out [] w e = e
write_questions-Extends out (q ∷ qs) w e =
    let named = write_name w q.name true in
    let fixed = be16 q.kind ++ be16 q.class in
    write_questions-Extends out qs (append named fixed)
      (append-Extends out fixed named (write_name-Extends out w q.name true e))

pack-Extends :
    (m : Message) (compress : Bool) → (more : List ℕ) × (pack m compress ≡ header m ++ more)
unfolding pack Extends
pack-Extends m compress =
    let start : Writer = record { out = header m; names = if compress then some [] else none } in
    write_records-Extends (header m) (m.answers ++ (m.authority ++ m.additional))
      (write_questions start m.questions)
      (write_questions-Extends (header m) m.questions start (self-Extends start))

-- The two bytes of a `u16`.
word : (n : ℕ) → n < 2 ^ 16 → n / 256 % 256 * 256 + n % 256 ≡ n
word n h = omega arith

flags_of_below : (m : Message) → flags_of m < 2 ^ 16
unfolding flags_of
flags_of_below m = ground arith

-- The flags are read back from their bits.
flags_of-flag :
    (m : Message)
    → (flag (flags_of m) (2 ^ 15) ≡ m.response)
      × (flags_of m / 2 ^ 11 % 16 ≡ m.opcode % 16)
      × (flag (flags_of m) (2 ^ 10) ≡ m.authoritative)
      × (flag (flags_of m) (2 ^ 8) ≡ m.recursion_desired)
      × (flag (flags_of m) (2 ^ 4) ≡ m.checking_disabled)
unfolding flags_of
flags_of-flag m = (ground arith, ground arith, ground arith, ground arith, ground arith)

-- A message that is packed begins with its identifier, its flags and
-- the counts of its sections, each at most 65535: the reader finds them there.
field-pack :
    (m : Message) (compress : Bool)
    → m.id < 2 ^ 16
    → (field (pack m compress) 0 ≡ some m.id)
      × (field (pack m compress) 2 ≡ some (flags_of m))
      × (field (pack m compress) 4 ≡ some (min (length m.questions) 65535))
      × (field (pack m compress) 6 ≡ some (min (length m.answers) 65535))
      × (field (pack m compress) 8 ≡ some (min (length m.authority) 65535))
      × (field (pack m compress) 10 ≡ some (min (length m.additional) 65535))
unfolding header field count flags_of
field-pack m compress h =
    let (more, e) = pack-Extends m compress in
    let at = λ (i : ℕ). ap (λ o. field o i) e in
    (
      at 0 ∙ ap some (word m.id h),
      at 2 ∙ ap some (word (flags_of m) (flags_of_below m)),
      at 4 ∙ ap some (word (min (length m.questions) 65535) (omega arith)),
      at 6 ∙ ap some (word (min (length m.answers) 65535) (omega arith)),
      at 8 ∙ ap some (word (min (length m.authority) 65535) (omega arith)),
      at 10 ∙ ap some (word (min (length m.additional) 65535) (omega arith)),
    )

some_injective : {A : Type 0} (x y : A) → some x ≡ some y → x ≡ y
some_injective x y e = ap (λ o. elim o [ none ↦ x | some z ↦ z ]) e

-- When a message is packed, with its names compressed or not, and read again, its identifier and flags
-- are the same, of its opcode four bits, and there are as many questions and records of each section,
-- each at most 65535.
pub parse-pack_header :
    (m m' : Message) (compress : Bool)
    → m.id < 2 ^ 16
    → parse (pack m compress) ≡ some m'
    → (m'.id ≡ m.id)
      × (m'.response ≡ m.response)
      × (m'.opcode ≡ m.opcode % 16)
      × (m'.authoritative ≡ m.authoritative)
      × (m'.recursion_desired ≡ m.recursion_desired)
      × (m'.checking_disabled ≡ m.checking_disabled)
      × (length m'.questions ≡ min (length m.questions) 65535)
      × (length m'.answers ≡ min (length m.answers) 65535)
      × (length m'.authority ≡ min (length m.authority) 65535)
      × (length m'.additional ≡ min (length m.additional) 65535)
unfolding message
parse-pack_header m m' compress h e =
    let f = field-pack m compress h in
    let b = parse-bounds (pack m compress) m' e in
    let (flags, id, s, has_flags, has_id, same) = parse-message (pack m compress) m' e in
    let of_id : id ≡ m.id = some_injective id m.id (sym has_id ∙ f.0) in
    let of_flags : flags ≡ flags_of m = some_injective flags (flags_of m) (sym has_flags ∙ f.1) in
    let same' : m' ≡ message m.id (flags_of m) s =
      same ∙ ap (λ i. message i flags s) of_id ∙ ap (λ g. message m.id g s) of_flags in
    let bits = flags_of-flag m in
    (
      ap (λ (x : Message). x.id) same',
      ap (λ (x : Message). x.response) same' ∙ bits.0,
      ap (λ (x : Message). x.opcode) same' ∙ bits.1,
      ap (λ (x : Message). x.authoritative) same' ∙ bits.2,
      ap (λ (x : Message). x.recursion_desired) same' ∙ bits.3,
      ap (λ (x : Message). x.checking_disabled) same' ∙ bits.4,
      some_injective (length m'.questions) (min (length m.questions) 65535) (sym b.0 ∙ f.2),
      some_injective (length m'.answers) (min (length m.answers) 65535) (sym b.1 ∙ f.3),
      some_injective (length m'.authority) (min (length m.authority) 65535) (sym b.2 ∙ f.4),
      some_injective (length m'.additional) (min (length m.additional) 65535) (sym b.3 ∙ f.5),
    )
