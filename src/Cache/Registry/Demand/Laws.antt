-- ===== src/Cache/Registry/Demand/Laws.antt =====
-- What `record_demand` records.
use rustorr.Base.{
  ℕ, ◌+◌, ◌≤◌, ◌≡◌, ◌||◌, ◌∙◌, refl, ap, subst, some, ok, inl, inr, arith, take, ◌>>=◌, ok_or,
  map_err, bind-ok, ok_or-ok, checked_add, Result-cases,
}
use rustorr.Base.Map.{lookup, lookup-insert, beq_self}
use rustorr.Domain.Hash.{InfoHash, info_hash_eq}
use rustorr.Domain.Index.{FileIndex}
use rustorr.Domain.Range.{ByteRange, IsOrdered}
use rustorr.Domain.Range
use rustorr.Cache.Error.{
  domain, invalid_layout, unknown_file, demand_offset_overflows, demand_range_overflows,
}
use rustorr.Cache.Extents.Spans.{holds}
use rustorr.Cache.Extents.Bitmap.{within}
use rustorr.Cache.Extents.Valid.{IsCanonical, holds-insert, insert-IsCanonical}
use rustorr.Cache.Layout.{TorrentLayout}
use rustorr.Cache.Layout
use rustorr.Cache.Layout.Laws.{sum, sum_checked-eq, IsLayout, check_range_iff}
use rustorr.Cache.Registry.{Cache, Entry, put_entry}
use rustorr.Cache.Registry.Demand.{record_demand, demanded_range, demanding}

-- The place of a file's first byte in its torrent: the lengths of the files before it.
pub first_byte : TorrentLayout → FileIndex → ℕ
first_byte l file = sum (take file.index l.file_lengths)

abbrev pub delivery : TorrentLayout → FileIndex → ℕ → ℕ → ByteRange
delivery l file offset len = record {
  start = first_byte l file + offset;
  end = first_byte l file + offset + len;
}

file_offset-first_byte :
    (l : TorrentLayout) (file : FileIndex) (base : ℕ)
    → Layout.file_offset l file ≡ some base
    → base ≡ first_byte l file
unfolding Layout.file_offset first_byte
file_offset-first_byte l file base q =
    ground (arith, q, sum_checked-eq 0 (take file.index l.file_lengths))

placed-start_end :
    (base offset len : ℕ) (r : ByteRange)
    → (do
      start ← ok_or (checked_add base offset) (invalid_layout demand_offset_overflows)
      end ← ok_or (checked_add start len) (invalid_layout demand_range_overflows)
      map_err domain (Range.new start end))
      ≡ ok r
    → r ≡ record { start = base + offset; end = base + offset + len }
unfolding Range.new
placed-start_end base offset len r q = ground (arith, q)

demanded_range-delivery :
    (e : Entry) (t : InfoHash) (file : FileIndex) (offset len : ℕ) (r : ByteRange)
    → IsLayout e.layout
    → demanded_range e t file offset len ≡ ok r
    → (file_len : ℕ) × (Layout.file_length e.layout file ≡ some file_len)
      × (offset + len ≤ file_len)
      × (r ≡ delivery e.layout file offset len)
unfolding demanded_range
demanded_range-delivery e t file offset len r v q =
    let (inside, checked, e1) = bind-ok (Layout.check_range e.layout t file offset len) _ r q in
    let (base, at, e2) =
      bind-ok (ok_or (Layout.file_offset e.layout file) (unknown_file t file)) _ r e1 in
    let base_eq =
      file_offset-first_byte e.layout file base
        (ok_or-ok (Layout.file_offset e.layout file) (unknown_file t file) base at) in
    let (file_len, known, fits, s) =
      (check_range_iff e.layout t file offset len inside v).0 checked in
    (
      file_len,
      known,
      fits,
      placed-start_end base offset len r e2
          ∙ ap (λ b. record { start = b + offset; end = b + offset + len }) base_eq,
    )

demanded_range-IsOrdered :
    (e : Entry) (t : InfoHash) (file : FileIndex) (offset len : ℕ) (r : ByteRange)
    → demanded_range e t file offset len ≡ ok r
    → IsOrdered r
unfolding demanded_range Range.new
demanded_range-IsOrdered e t file offset len r q = ground arith

-- The entry that is left behind.
pub record IsDemanded {S : Type 0} (c : Cache S) (t : InfoHash) (e : Entry) (r : ByteRange)
    : Type 0 where
  pub after : Entry
  pub found : lookup t c.torrents ≡ some after
  pub stored_kept : after.stored ≡ e.stored
  pub pins_kept : after.pins ≡ e.pins
  pub canonical : IsCanonical after.demanded
  pub counted : (n : ℕ) → holds after.demanded.spans n ≡ (within r n || holds e.demanded.spans n)

record_demand-recorded :
    {S : Type 0} (c c' : Cache S) (t : InfoHash) (file : FileIndex) (offset len : ℕ) (e : Entry)
    → lookup t c.torrents ≡ some e
    → record_demand c t file offset len ≡ (ok tt, c')
    → (r : ByteRange) × (demanded_range e t file offset len ≡ ok r)
      × (c' ≡ put_entry c t (demanding e r))
unfolding record_demand
record_demand-recorded c c' t file offset len e p w =
    elim (Result-cases (demanded_range e t file offset len)) [
      | inl (r, q) ↦ (r, q, ground (arith, p, q, w))
      | inr (x, q) ↦ ground (arith, p, q, w)
    ]

-- When the torrent is registered under a layout that `new` built, and its demanded bytes are canonical,
-- a delivery that is recorded lies in a file of the torrent; it adds the bytes from `offset` behind the
-- file's first byte, `len` of them, to those demanded before, and no others. The set stays canonical,
-- and what is stored and pinned is as it was.
pub record_demand-IsDemanded :
    {S : Type 0} (c c' : Cache S) (t : InfoHash) (file : FileIndex) (offset len : ℕ) (e : Entry)
    → lookup t c.torrents ≡ some e
    → IsLayout e.layout
    → IsCanonical e.demanded
    → record_demand c t file offset len ≡ (ok tt, c')
    → (file_len : ℕ) × (Layout.file_length e.layout file ≡ some file_len)
      × (offset + len ≤ file_len)
      × IsDemanded c' t e (delivery e.layout file offset len)
unfolding demanding put_entry
record_demand-IsDemanded c c' t file offset len e p l v w =
    let (r, q, after) = record_demand-recorded c c' t file offset len e p w in
    let (file_len, known, fits, same) = demanded_range-delivery e t file offset len r l q in
    let o = demanded_range-IsOrdered e t file offset len r q in
    (
      file_len,
      known,
      fits,
      subst (IsDemanded c' t e) same (record {
        after = demanding e r;
        found = ground (arith, after, lookup-insert t t (demanding e r) c.torrents, beq_self t);
        stored_kept = refl;
        pins_kept = refl;
        canonical = insert-IsCanonical e.demanded r v o;
        counted = λ n. holds-insert e.demanded r n v o;
      }),
    )
