-- ===== src/Discovery/Dns/Parse/Bounds.antt =====
-- What a message may hold is bounded by its bytes.
use rustorr.Base.{
  ℕ, zero, suc, ◌+◌, ◌*◌, ◌%◌, ◌≤◌, ◌<◌, ◌≡◌, sym, ap, ◌∙◌, Option, none, some, List, [], ◌∷◌, ◌++◌,
  ◌==◌, length, get_elem?, arith, subst, Option-cases, Bool-cases, inl, inr, get_elem?-IsBelow,
}
use rustorr.Base.Options.{>>=-eq-some}
use rustorr.Text.{Text}
use rustorr.Discovery.Dns.{Message, Question, DnsRecord}
use rustorr.Discovery.Dns.Parse.{
  field, get_slice, get_or_insert, is_pointer, escape_label, read_labels, read_name, read_fields,
  read_record, read_question, read_questions, read_records, parse, Sections, read_sections,
  read_counted, message,
}

field_below : (bytes : List ℕ) (at v : ℕ) → field bytes at ≡ some v → at + 2 ≤ length bytes
unfolding field
field_below bytes at v e =
    let (high, h, rest) = >>=-eq-some (get_elem? bytes at) _ e in
    let (low, l, last) = >>=-eq-some (get_elem? bytes (at + 1)) _ rest in
    omega (arith, get_elem?-IsBelow bytes (at + 1) low l)

-- The end that was set already, or a place behind the start.
abbrev EndsAfter : ℕ → Option ℕ → ℕ → Type 0
EndsAfter offset none n = offset < n
EndsAfter offset (some m) n = n ≡ m

EndsAfter-get_or_insert :
    (offset k : ℕ) (end : Option ℕ) (n : ℕ)
    → 0 < k
    → n ≡ get_or_insert end (offset + k)
    → EndsAfter offset end n
EndsAfter-get_or_insert offset k none n h e = omega (arith, e)
EndsAfter-get_or_insert offset k (some m) n h e = e

later_EndsAfter :
    (offset offset' : ℕ) (end : Option ℕ) (n : ℕ)
    → offset ≤ offset'
    → EndsAfter offset' end n
    → EndsAfter offset end n
later_EndsAfter offset offset' none n h e = omega (arith, e)
later_EndsAfter offset offset' (some m) n h e = e

read_labels_end :
    (rounds : ℕ) (bytes : List ℕ) (offset : ℕ) (labels : List Text) (end : Option ℕ) (r : Text × ℕ)
    → read_labels rounds bytes offset labels end ≡ some r
    → EndsAfter offset end r.1
unfolding read_labels
read_labels_end zero bytes offset labels end r e = ground (arith, e)
read_labels_end (suc rounds) bytes offset labels end r e =
    elim (Option-cases (get_elem? bytes offset)) [
      | inl gone ↦ ground (arith, e, gone)
      | inr (n, has) ↦ elim (Bool-cases (is_pointer n)) [
        | inl pointer ↦ elim (Option-cases (get_elem? bytes (offset + 1))) [
          | inl gone ↦ ground (arith, e, has, pointer, gone)
          | inr (low, has_low) ↦ EndsAfter-get_or_insert offset 2 end r.1 (omega arith) (
              read_labels_end rounds bytes (n % 64 * 256 + low) labels
                (some (get_or_insert end (offset + 2))) r
                (ground (arith, e, has, pointer, has_low)))
        ]
        | inr plain ↦ elim (Bool-cases (n == 0)) [
          | inl last ↦
              EndsAfter-get_or_insert offset 1 end r.1 (omega arith)
                (ground (arith, e, has, plain, last))
          | inr more ↦ elim (Option-cases (get_slice bytes (offset + 1) n)) [
            | inl gone ↦ ground (arith, e, has, plain, more, gone)
            | inr (label, has_label) ↦
                later_EndsAfter offset (offset + 1 + n) end r.1 (omega arith) (
                  read_labels_end rounds bytes (offset + 1 + n) (labels ++ escape_label label ∷ [])
                    end r (ground (arith, e, has, plain, more, has_label)))
          ]
        ]
      ]
    ]

read_name_end :
    (bytes : List ℕ) (offset : ℕ) (r : Text × ℕ) → read_name bytes offset ≡ some r → offset < r.1
unfolding read_name
read_name_end bytes offset r e = read_labels_end 128 bytes offset [] none r e

read_question_end :
    (bytes : List ℕ) (offset : ℕ) (q : Question × ℕ)
    → read_question bytes offset ≡ some q
    → (offset + 5 ≤ q.1) × (q.1 ≤ length bytes)
unfolding read_question
read_question_end bytes offset q e =
    let (name, n, rest) = >>=-eq-some (read_name bytes offset) _ e in
    let (kind, k, rest') = >>=-eq-some (field bytes name.1) _ rest in
    let (class, c, last) = >>=-eq-some (field bytes (name.1 + 2)) _ rest' in
    ground (arith, last, read_name_end bytes offset name n, field_below bytes (name.1 + 2) class c)

get_slice_inside :
    (bytes : List ℕ) (from n : ℕ) (s : List ℕ)
    → get_slice bytes from n ≡ some s
    → from + n ≤ length bytes
unfolding get_slice
get_slice_inside bytes from n s e = ground (arith, e)

read_fields_end :
    (bytes : List ℕ) (name : Text) (offset : ℕ) (r : Option DnsRecord × ℕ)
    → read_fields bytes name offset ≡ some r
    → (offset + 10 ≤ r.1) × (r.1 ≤ length bytes)
unfolding read_fields
read_fields_end bytes name offset r e =
    let (kind, k, rest₁) = >>=-eq-some (field bytes offset) _ e in
    let (class, c, rest₂) = >>=-eq-some (field bytes (offset + 2)) _ rest₁ in
    let (high, h, rest₃) = >>=-eq-some (field bytes (offset + 4)) _ rest₂ in
    let (low, l, rest₄) = >>=-eq-some (field bytes (offset + 6)) _ rest₃ in
    let (n, has, rest₅) = >>=-eq-some (field bytes (offset + 8)) _ rest₄ in
    let (content, slice, last) = >>=-eq-some (get_slice bytes (offset + 10) n) _ rest₅ in
    let inside = get_slice_inside bytes (offset + 10) n content slice in
    let stop : r.1 ≡ offset + 10 + n = ap (λ o. elim o [ none ↦ 0 | some x ↦ x.1 ]) (sym last) in
    omega (arith, inside, stop)

read_record_end :
    (bytes : List ℕ) (offset : ℕ) (r : Option DnsRecord × ℕ)
    → read_record bytes offset ≡ some r
    → (offset + 11 ≤ r.1) × (r.1 ≤ length bytes)
unfolding read_record
read_record_end bytes offset r e =
    let (name, n, rest) = >>=-eq-some (read_name bytes offset) _ e in
    let fields = read_fields_end bytes name.0 name.1 r rest in
    omega (arith, read_name_end bytes offset name n, fields.0, fields.1)

read_questions_end :
    (n : ℕ) (bytes : List ℕ) (offset : ℕ) (qs : List Question × ℕ)
    → offset ≤ length bytes
    → read_questions n bytes offset ≡ some qs
    → (length qs.0 ≡ n) × (offset + 5 * n ≤ qs.1) × (qs.1 ≤ length bytes)
unfolding read_questions
read_questions_end zero bytes offset qs h e = ground (arith, e, h)
read_questions_end (suc n) bytes offset qs h e =
    let (q, read, rest) = >>=-eq-some (read_question bytes offset) _ e in
    let (more, reads, last) = >>=-eq-some (read_questions n bytes q.1) _ rest in
    let near = read_question_end bytes offset q read in
    ground (arith, last, near, read_questions_end n bytes q.1 more near.1 reads)

read_records_end :
    (n : ℕ) (bytes : List ℕ) (offset : ℕ) (rs : List DnsRecord × ℕ)
    → offset ≤ length bytes
    → read_records n bytes offset ≡ some rs
    → (length rs.0 ≡ n) × (offset + 11 * n ≤ rs.1) × (rs.1 ≤ length bytes)
unfolding read_records
read_records_end zero bytes offset rs h e = ground (arith, e, h)
read_records_end (suc n) bytes offset rs h e =
    let (r, read, rest) = >>=-eq-some (read_record bytes offset) _ e in
    let (more, reads, last) = >>=-eq-some (read_records n bytes r.1) _ rest in
    let near = read_record_end bytes offset r read in
    ground (arith, last, near, read_records_end n bytes r.1 more near.1 reads)

-- The sections are as long as their counts, and their bytes are there.
AreCounted : List ℕ → ℕ → ℕ → ℕ → ℕ → Sections → Type 0
AreCounted bytes q an au ad (questions, answers, authority, additional) =
    (length questions ≡ q)
    × (length answers ≡ an)
    × (length authority ≡ au)
    × (length additional ≡ ad)
    × (12 + 5 * q + 11 * (an + au + ad) ≤ length bytes)

read_sections-AreCounted :
    (bytes : List ℕ) (q an au ad : ℕ) (s : Sections)
    → 12 ≤ length bytes
    → read_sections bytes q an au ad ≡ some s
    → AreCounted bytes q an au ad s
unfolding read_sections AreCounted
read_sections-AreCounted bytes q an au ad s h e =
    let (qs, has_q, e₁) = >>=-eq-some (read_questions q bytes 12) _ e in
    let (first, has_an, e₂) = >>=-eq-some (read_records an bytes qs.1) _ e₁ in
    let (second, has_au, e₃) = >>=-eq-some (read_records au bytes first.1) _ e₂ in
    let (third, has_ad, last) = >>=-eq-some (read_records ad bytes second.1) _ e₃ in
    let v₀ = read_questions_end q bytes 12 qs h has_q in
    let v₁ = read_records_end an bytes qs.1 first v₀.2 has_an in
    let v₂ = read_records_end au bytes first.1 second v₁.2 has_au in
    let v₃ = read_records_end ad bytes second.1 third v₂.2 has_ad in
    let same : s ≡ (qs.0, first.0, second.0, third.0) =
      ap (λ o. elim o [ none ↦ s | some x ↦ x ]) (sym last) in
    subst (AreCounted bytes q an au ad) (sym same)
      (v₀.0, v₁.0, v₂.0, v₃.0, omega (arith, v₀.1, v₁.1, v₂.1, v₃.1, v₃.2))

read_counted-AreCounted :
    (bytes : List ℕ) (s : Sections)
    → read_counted bytes ≡ some s
    → (q : ℕ) × (an : ℕ) × (au : ℕ) × (ad : ℕ) × (field bytes 4 ≡ some q)
      × (field bytes 6 ≡ some an)
      × (field bytes 8 ≡ some au)
      × (field bytes 10 ≡ some ad)
      × AreCounted bytes q an au ad s
unfolding read_counted
read_counted-AreCounted bytes s e =
    let (q, has_q, e₁) = >>=-eq-some (field bytes 4) _ e in
    let (an, has_an, e₂) = >>=-eq-some (field bytes 6) _ e₁ in
    let (au, has_au, e₃) = >>=-eq-some (field bytes 8) _ e₂ in
    let (ad, has_ad, last) = >>=-eq-some (field bytes 10) _ e₃ in
    (
      q,
      an,
      au,
      ad,
      has_q,
      has_an,
      has_au,
      has_ad,
      read_sections-AreCounted bytes q an au ad s (field_below bytes 10 ad has_ad) last,
    )

pub parse-message :
    (bytes : List ℕ) (m : Message)
    → parse bytes ≡ some m
    → (flags : ℕ) × (id : ℕ) × (s : Sections) × (field bytes 2 ≡ some flags)
      × (field bytes 0 ≡ some id)
      × (m ≡ message id flags s)
unfolding parse
parse-message bytes m e =
    let (flags, f, e₁) = >>=-eq-some (field bytes 2) _ e in
    let (id, i, e₂) = >>=-eq-some (field bytes 0) _ e₁ in
    let (s, counted, last) = >>=-eq-some (read_counted bytes) _ e₂ in
    (flags, id, s, f, i, ap (λ o. elim o [ none ↦ m | some x ↦ x ]) (sym last))

-- A message that is accepted holds as many questions and records as its header counts, and they take
-- their bytes: a question five at least, a record eleven.
pub parse-bounds :
    (bytes : List ℕ) (m : Message)
    → parse bytes ≡ some m
    → (field bytes 4 ≡ some (length m.questions))
      × (field bytes 6 ≡ some (length m.answers))
      × (field bytes 8 ≡ some (length m.authority))
      × (field bytes 10 ≡ some (length m.additional))
      × (12
            + 5 * length m.questions
            + 11 * (length m.answers + length m.authority + length m.additional)
          ≤ length bytes)
unfolding parse message AreCounted
parse-bounds bytes m e =
    let (flags, f, e₁) = >>=-eq-some (field bytes 2) _ e in
    let (id, i, e₂) = >>=-eq-some (field bytes 0) _ e₁ in
    let (s, counted, last) = >>=-eq-some (read_counted bytes) _ e₂ in
    let (q, an, au, ad, has_q, has_an, has_au, has_ad, v) =
      read_counted-AreCounted bytes s counted in
    let same : m ≡ message id flags s = ap (λ o. elim o [ none ↦ m | some x ↦ x ]) (sym last) in
    let of_q : length m.questions ≡ q = ap (λ (x : Message). length x.questions) same ∙ v.0 in
    let of_an : length m.answers ≡ an = ap (λ (x : Message). length x.answers) same ∙ v.1 in
    let of_au : length m.authority ≡ au = ap (λ (x : Message). length x.authority) same ∙ v.2 in
    let of_ad : length m.additional ≡ ad = ap (λ (x : Message). length x.additional) same ∙ v.3 in
    (
      has_q ∙ ap some (sym of_q),
      has_an ∙ ap some (sym of_an),
      has_au ∙ ap some (sym of_au),
      has_ad ∙ ap some (sym of_ad),
      omega (arith, of_q, of_an, of_au, of_ad, v.4),
    )
