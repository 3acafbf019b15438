-- ===== src/Cache/Disk/Manifest/RoundTrip.antt =====
-- What a store has recorded of a torrent is what a later one restores.
use mathlib.Core.List.{append-nil, append_assoc}
use rustorr.Base.{
  ℕ, zero, suc, ◌+◌, ◌%◌, ◌<◌, ◌≡◌, refl, sym, ◌∙◌, Bool, true, false, none, some, List, [], ◌∷◌,
  ◌++◌, arith, inl, inr, Option, Option-cases, u64_mod, u32_mod, length, replicate, ◌⊎◌,
}
use rustorr.Base.Map.{Map, lookup, remove, AreDistinct}
use rustorr.Base.Options.{◌>>=◌}
use rustorr.Text.{Text, text_eq, text_has_eq, to_string}
use rustorr.Text.Numbers.{parse_u64-to_string}
use rustorr.Cache.Extents.{Extents}
use rustorr.Cache.Extents.Spans.{Span, EndsBelow, Separated}
use rustorr.Cache.Extents.Bytes.{largest}
use rustorr.Cache.Extents.Valid.{IsCanonical}
use rustorr.Cache.Extents.Persist.{from_spans-spans}
use rustorr.Cache.Layout.{TorrentLayout, file_length, file_count}
use rustorr.Cache.Layout.Laws.{IsLayout, file_length-in_word}
use rustorr.Cache.Disk.Manifest.{
  DiskTorrent, manifest, joined_numbers, all_lengths, lengths_from, completed_from, spans_text,
  extents_key, version_key, piece_length_key, files_key, pieces_key, restore, restore_values,
  restore_parts, restore_files, restore_file, take_key, is_for, numbers_eq, is_empty_map, ends_past,
  is_some_within, mark_pieces,
}
use rustorr.Cache.Disk.Manifest.Entries.{
  extents_entries, lookup_head, remove_head, entries, manifest-render, entries-AreDistinct,
  entries-IsEntry,
}
use rustorr.Cache.Disk.Manifest.Lines.{parse_lines-render}
use rustorr.Cache.Disk.Manifest.Fields.{
  AreWords, AreWordSpans, parse_numbers-joined_numbers, parse_spans-spans_text,
  mark_pieces-completed,
}

-- The extents of file `i` are in canonical form and within the file, and the file on disk has them.
pub record IsStored (file_len : ℕ → Option ℕ) (l : TorrentLayout) (i : ℕ) (x : Extents)
    : Type 0 where
  pub canonical : IsCanonical x
  pub length : ℕ
  pub has_file : file_length l (record { index = i % u32_mod }) ≡ some length
  pub inside : EndsBelow length x.spans
  pub on_disk : (x.total ≡ 0) ⊎ ((n : ℕ) × (file_len i ≡ some n) × EndsBelow n x.spans)

abbrev pub AreStored : (ℕ → Option ℕ) → TorrentLayout → ℕ → List Extents → Type 0
AreStored file_len l i [] = Unit
AreStored file_len l i (x ∷ xs) = IsStored file_len l i x × AreStored file_len l (i + 1) xs

unfoldable pub sum_totals : List Extents → ℕ
sum_totals [] = 0
sum_totals (x ∷ xs) = x.total + sum_totals xs

-- A torrent as the store keeps it, with the files that are on disk.
pub record IsDiskTorrent (file_len : ℕ → Option ℕ) (t : DiskTorrent) : Type 0 where
  pub layout : IsLayout t.layout
  pub piece_length : t.layout.piece_length < u64_mod
  pub piece_count : t.layout.piece_count < u64_mod
  pub files : file_count t.layout < u64_mod
  pub count : length t.extents ≡ file_count t.layout
  pub stored : AreStored file_len t.layout 0 t.extents
  pub total : sum_totals t.extents < u64_mod
  pub completed : length t.completed ≡ t.layout.piece_count

ends_past-EndsBelow : (n : ℕ) (ps : List Span) → EndsBelow n ps → ends_past n ps ≡ false
unfolding ends_past
ends_past-EndsBelow n [] h = refl
ends_past-EndsBelow n (p ∷ ps) h = ground (arith, h, ends_past-EndsBelow n ps h.1)

EndsBelow-AreWordSpans :
    (b : ℕ) (ps : List Span) → Separated b ps → EndsBelow largest ps → AreWordSpans ps
EndsBelow-AreWordSpans b [] s h = tt
EndsBelow-AreWordSpans b (p ∷ ps) s h =
    ((omega arith, omega arith), EndsBelow-AreWordSpans (p.end + 1) ps s.2 h.1)

restore_file-spans_text :
    (file_len : ℕ → Option ℕ) (l : TorrentLayout) (i : ℕ) (x : Extents)
    → IsStored file_len l i x
    → restore_file file_len l i (spans_text x) ≡ some x
unfolding restore_file is_some_within
restore_file-spans_text file_len l i x v =
    let c = v.canonical in
    let parsed =
      parse_spans-spans_text x (EndsBelow-AreWordSpans 0 x.spans c.separated c.in_word) in
    let read = from_spans-spans x c in
    let near = ends_past-EndsBelow v.length x.spans v.inside in
    elim v.on_disk [
      | inl empty ↦ ground (arith, parsed, read, v.has_file, near, empty)
      | inr (n, has, far) ↦
          ground (arith, parsed, read, v.has_file, near, has, ends_past-EndsBelow n x.spans far)
    ]

restore_files-suc :
    (file_len : ℕ → Option ℕ) (l : TorrentLayout) (i n stored : ℕ) (done : List Extents)
    (raw : Text) (x : Extents) (m m' : Map Text Text)
    → lookup (extents_key i) m ≡ some raw
    → remove (extents_key i) m ≡ m'
    → restore_file file_len l i raw ≡ some x
    → stored + x.total < u64_mod
    → restore_files file_len l i (suc n) (record { extents = done; stored = stored; values = m })
      ≡ restore_files file_len l
          (i + 1)
          n
          (record { extents = done ++ x ∷ []; stored = stored + x.total; values = m' })
unfolding restore_files
restore_files-suc file_len l i n stored done raw x m m' p q r h =
    rw (p, ◌>>=◌, r) (rw q (ground (arith, h)))

restore_files-entries :
    (file_len : ℕ → Option ℕ) (l : TorrentLayout) (i stored : ℕ) (done xs : List Extents)
    → AreStored file_len l i xs
    → AreDistinct (extents_entries i xs)
    → stored + sum_totals xs < u64_mod
    → restore_files file_len l i
        (length xs)
        (record { extents = done; stored = stored; values = extents_entries i xs })
      ≡ some (record { extents = done ++ xs; stored = stored + sum_totals xs; values = [] })
unfolding sum_totals extents_entries
restore_files-entries file_len l i stored done [] a d h =
    unfold restore_files in ground (arith, append-nil done)
restore_files-entries file_len l i stored done (x ∷ xs) a d h =
    let found = lookup_head (extents_key i) (spans_text x) (extents_entries (i + 1) xs) in
    let left = remove_head (extents_key i) (spans_text x) (extents_entries (i + 1) xs) d.0 in
    let file = restore_file-spans_text file_len l i x a.0 in
    let ih =
      restore_files-entries file_len l (i + 1) (stored + x.total) (done ++ x ∷ []) xs a.1 d.1
        (omega arith) in
    restore_files-suc file_len l i (length xs) stored done (spans_text x) x
      ((extents_key i, spans_text x) ∷ extents_entries (i + 1) xs) (extents_entries (i + 1) xs)
      found left file (omega arith)
    ∙ ih
    ∙ ground (arith, append_assoc done (x ∷ []) xs)

take_key-head :
    (k v : Text) (m : Map Text Text) → lookup k m ≡ none → take_key k ((k, v) ∷ m) ≡ some (v, m)
unfolding take_key
take_key-head k v m h = ground (arith, lookup_head k v m, remove_head k v m h)

numbers_eq_self : (ns : List ℕ) → numbers_eq ns ns ≡ true
unfolding numbers_eq
numbers_eq_self [] = refl
numbers_eq_self (n ∷ ns) = ground (arith, numbers_eq_self ns)

completed_from-AreWords :
    (i : ℕ) (bs : List Bool) → i + length bs < u64_mod → AreWords (completed_from i bs)
unfolding completed_from
completed_from-AreWords i [] h = tt
completed_from-AreWords i (false ∷ bs) h = completed_from-AreWords (i + 1) bs (omega arith)
completed_from-AreWords i (true ∷ bs) h =
    (omega arith, completed_from-AreWords (i + 1) bs (omega arith))

lengths_from-AreWords : (l : TorrentLayout) (i n : ℕ) → IsLayout l → AreWords (lengths_from l i n)
unfolding lengths_from
lengths_from-AreWords l i zero v = tt
lengths_from-AreWords l i (suc n) v =
    elim (Option-cases (file_length l (record { index = i % u32_mod }))) [
      | inl e ↦ rw (e, lengths_from) (lengths_from-AreWords l (i + 1) n v)
      | inr (m, e) ↦
          rw (e, lengths_from)
            (
              file_length-in_word l (record { index = i % u32_mod }) m v e,
              lengths_from-AreWords l (i + 1) n v,
            )
    ]

restore_parts-entries :
    (file_len : ℕ → Option ℕ) (t : DiskTorrent)
    → IsDiskTorrent file_len t
    → AreDistinct (extents_entries 0 t.extents)
    → restore_parts file_len t.layout (completed_from 0 t.completed) (extents_entries 0 t.extents)
      ≡ some (t.extents, t.completed, sum_totals t.extents)
unfolding restore_parts is_empty_map
restore_parts-entries file_len t v d =
    let marked : mark_pieces (completed_from 0 t.completed) (replicate t.layout.piece_count false)
        ≡ some t.completed =
      rw (sym v.completed) (mark_pieces-completed t.completed) in
    let files =
      restore_files-entries file_len t.layout 0 0 [] t.extents v.stored d
        (omega (arith, v.total)) in
    rw (marked, ◌>>=◌) (rw (sym v.count) (rw (files, ◌>>=◌) (ground arith)))

all_lengths-AreWords : (l : TorrentLayout) → IsLayout l → AreWords (all_lengths l)
unfolding all_lengths
all_lengths-AreWords l v = lengths_from-AreWords l 0 (file_count l) v

restore_values-entries :
    (file_len : ℕ → Option ℕ) (t : DiskTorrent)
    → IsDiskTorrent file_len t
    → restore_values file_len t.layout (entries t)
      ≡ some (t.extents, t.completed, sum_totals t.extents)
unfolding restore_values entries is_for text_eq
restore_values-entries file_len t v =
    let keys = entries-AreDistinct t (omega (arith, v.count, v.files)) in
    let words = completed_from-AreWords 0 t.completed (omega (arith, v.completed, v.piece_count)) in
    ground (
      arith,
      take_key-head version_key (b'1' ∷ []) _ keys.0,
      take_key-head piece_length_key (to_string t.layout.piece_length) _ keys.1.0,
      take_key-head files_key (joined_numbers (all_lengths t.layout)) _ keys.1.1.0,
      take_key-head pieces_key (joined_numbers (completed_from 0 t.completed)) _ keys.1.1.1.0,
      parse_u64-to_string t.layout.piece_length v.piece_length,
      parse_numbers-joined_numbers (all_lengths t.layout) (all_lengths-AreWords t.layout v.layout),
      parse_numbers-joined_numbers (completed_from 0 t.completed) words,
      numbers_eq_self (all_lengths t.layout),
      restore_parts-entries file_len t v keys.1.1.1.1,
    )

-- A manifest is restored to the extents, the completed pieces and the bytes stored that it was printed
-- from, when the files on disk are as long as the extents need.
pub restore-manifest :
    (file_len : ℕ → Option ℕ) (t : DiskTorrent)
    → IsDiskTorrent file_len t
    → restore (some (manifest t)) file_len t.layout
      ≡ some (t.extents, t.completed, sum_totals t.extents)
unfolding restore
restore-manifest file_len t v =
    let printed = manifest-render t in
    let parsed =
      parse_lines-render (entries t) [] (entries-IsEntry t)
        (entries-AreDistinct t (omega (arith, v.count, v.files))) in
    ground (arith, printed, parsed, restore_values-entries file_len t v)
