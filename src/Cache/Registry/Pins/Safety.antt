-- ===== src/Cache/Registry/Pins/Safety.antt =====
-- A live pin protects its torrent, over every history of calls.
use rustorr.Base.{
  ℕ, zero, suc, ◌+◌, ◌≤◌, ◌<◌, ◌≡◌, refl, ◌∙◌, true, Option, some, List, [], ◌∷◌, if◌then◌else◌,
  err, arith, u64_mod, wrapping_add, wrapping_add_lem, wrapping_sub_lem, length, get_elem?,
  Option-cases, inl, inr,
}
use rustorr.Base.Map.{lookup, lookup-insert}
use rustorr.Domain.Hash.{InfoHash, hash_eq, hash_eq_iff, info_hash_eq}
use rustorr.Cache.Error.{pinned}
use rustorr.Cache.Store.{PieceStore}
use rustorr.Cache.Registry.{
  Pin, ReaderRange, new, pin_inner, drop_pin, pinned_entry, unpinned_entry, set_cap_bytes,
}
use rustorr.Cache.Registry.Methods.{is_registered, discard_unowned, remove_torrent}
use rustorr.Cache.Registry.Pins.{
  AreCounted, Call, World, pins_of, count_held, pins_step, step, run, without_index, opens,
  discards, writes, reads, demands, completes, pins, drops, removes, caps,
}
use rustorr.Cache.Registry.Pins.Counts.{
  pins_of-read, pins_of-record_demand, pins_of-write, pins_of-piece_completed, pins_of-open,
  pins_of-remove,
}

count_held-le : (t : InfoHash) (ps : List Pin) → count_held t ps ≤ length ps
unfolding count_held
count_held-le t [] = omega arith
count_held-le t (p ∷ ps) = ground (arith, count_held-le t ps)

-- Taking one pin away.
count_held-without :
    (t : InfoHash) (ps : List Pin) (i : ℕ) (p : Pin)
    → get_elem? ps i ≡ some p
    → (if hash_eq p.torrent t then 1 else 0) + count_held t (without_index i ps) ≡ count_held t ps
unfolding count_held without_index
count_held-without t [] i p e = cc
count_held-without t (q ∷ ps) zero p e = ground arith
count_held-without t (q ∷ ps) (suc i) p e = omega (arith, count_held-without t ps i p e)

length-without : (ps : List Pin) (i : ℕ) → length (without_index i ps) ≤ length ps
unfolding without_index
length-without [] i = omega arith
length-without (q ∷ ps) zero = omega arith
length-without (q ∷ ps) (suc i) = omega (arith, length-without ps i)

module _ {S : Type 0} where
  pins_step-IsCounted :
      (w : World S) (t u : InfoHash) (range : Option ReaderRange)
      → length w.held + 1 < u64_mod
      → pins_of w.cache u ≡ count_held u w.held
      → pins_of w.cache t ≡ count_held t w.held
      → let v = pins_step (pin_inner w.cache t range) w.held in
        pins_of v.cache u ≡ count_held u v.held
  unfolding pins_step pin_inner pins_of count_held
  pins_step-IsCounted w t u range h k l = elim (Option-cases (lookup t w.cache.torrents)) [
    | inl q ↦ ground (arith, q)
    | inr (e, q) ↦ ground (
      arith,
      q,
      hash_eq_iff t u,
      lookup-insert t u (pinned_entry e w.cache.next_pin range) w.cache.torrents,
      wrapping_add_lem e.pins 1,
      count_held-le t w.held,
    )
  ]

  drops-IsCounted :
      (w : World S) (u : InfoHash) (i : ℕ) (p : Pin)
      → length w.held < u64_mod
      → get_elem? w.held i ≡ some p
      → pins_of w.cache u ≡ count_held u w.held
      → pins_of w.cache p.torrent ≡ count_held p.torrent w.held
      → pins_of (drop_pin w.cache p) u ≡ count_held u (without_index i w.held)
  unfolding drop_pin pins_of
  drops-IsCounted w u i p h e k l =
      let less = count_held-without u w.held i p e in
      let same = count_held-without p.torrent w.held i p e in
      elim (Option-cases (lookup p.torrent w.cache.torrents)) [
        | inl q ↦
            ground (arith, q, less, same, hash_eq_iff p.torrent u, hash_eq_iff p.torrent p.torrent)
        | inr (x, q) ↦ ground (
          arith,
          q,
          less,
          same,
          hash_eq_iff p.torrent u,
          hash_eq_iff p.torrent p.torrent,
          lookup-insert p.torrent u (unpinned_entry x p.id (wrapping_add w.cache.tick 1))
              w.cache.torrents,
          wrapping_sub_lem x.pins 1,
          count_held-le p.torrent w.held,
        )
      ]

module _ {S : Type 0} (ps : PieceStore S) where
  step-AreCounted :
      (w : World S) (c : Call)
      → length w.held + 1 < u64_mod
      → AreCounted w
      → AreCounted (step ps w c)
  unfolding step discard_unowned set_cap_bytes
  step-AreCounted w (opens t layout) h v = record {
    counted = λ u. pins_of-open ps w.cache t u layout ∙ v.counted u;
  }
  step-AreCounted w (discards owned) h v = record { counted = λ u. unfold pins_of in v.counted u }
  step-AreCounted w (writes t file offset bytes) h v = record {
    counted = λ u. pins_of-write ps w.cache t u file offset bytes ∙ v.counted u;
  }
  step-AreCounted w (reads t file offset n) h v = record {
    counted = λ u. pins_of-read ps w.cache t u file offset n ∙ v.counted u;
  }
  step-AreCounted w (demands t file offset len) h v = record {
    counted = λ u. pins_of-record_demand w.cache t u file offset len ∙ v.counted u;
  }
  step-AreCounted w (completes t piece) h v = record {
    counted = λ u. pins_of-piece_completed ps w.cache t u piece ∙ v.counted u;
  }
  step-AreCounted w (pins t range) h v = record {
    counted = λ u. pins_step-IsCounted w t u range h (v.counted u) (v.counted t);
  }
  step-AreCounted w (drops i) h v = elim (Option-cases (get_elem? w.held i)) [
    | inl q ↦ rw (q, step) v
    | inr (p, q) ↦
        rw (q, step)
          (record {
            counted =
                λ u. drops-IsCounted w u i p (omega arith) q (v.counted u) (v.counted p.torrent);
          })
  ]
  step-AreCounted w (removes t) h v = record {
    counted = λ u. pins_of-remove ps w.cache t u ∙ v.counted u;
  }
  step-AreCounted w (caps cap) h v = record { counted = λ u. unfold pins_of in v.counted u }

  length-step : (w : World S) (c : Call) → length (step ps w c).held ≤ length w.held + 1
  unfolding step pins_step
  length-step w (drops i) = ground (arith, length-without w.held i)
  length-step w (pins t range) = ground arith
  length-step w _ = omega arith

  run-AreCounted :
      (w : World S) (cs : List Call)
      → length w.held + length cs < u64_mod
      → AreCounted w
      → AreCounted (run ps w cs)
  unfolding run
  run-AreCounted w [] h v = v
  run-AreCounted w (c ∷ cs) h v =
      run-AreCounted (step ps w c) cs (omega (arith, length-step w c))
        (step-AreCounted w c (omega arith) v)

-- Over a new cache and any backing store, after fewer than 2^64 calls in any order, each entry's count
-- is the number of pins held on its torrent.
pub run-new-AreCounted :
    {S : Type 0} (ps : PieceStore S) (store : S) (limit : ℕ) (cs : List Call)
    → length cs < u64_mod
    → AreCounted (run ps (record { cache = new store limit; held = [] }) cs)
run-new-AreCounted ps store limit cs h =
    run-AreCounted ps (record { cache = new store limit; held = [] }) cs (omega arith)
      (record { counted = λ t. unfold pins_of new lookup count_held in refl })

pub count_held-mem :
    (ps : List Pin) (i : ℕ) (p : Pin) → get_elem? ps i ≡ some p → 0 < count_held p.torrent ps
unfolding count_held
count_held-mem [] i p e = cc
count_held-mem (q ∷ ps) zero p e = ground (arith, hash_eq_iff p.torrent p.torrent)
count_held-mem (q ∷ ps) (suc i) p e = omega (arith, count_held-mem ps i p e)

-- When the counts are those of the held pins, the torrent of a held pin is registered, and removing it
-- is refused and changes nothing.
pub remove-held :
    {S : Type 0} (ps : PieceStore S) (w : World S) (i : ℕ) (p : Pin)
    → AreCounted w
    → get_elem? w.held i ≡ some p
    → (remove_torrent ps w.cache p.torrent ≡ (err (pinned p.torrent), w.cache))
      × (is_registered w.cache p.torrent ≡ true)
unfolding remove_torrent is_registered pins_of
remove-held ps w i p v e = ground (arith, v.counted p.torrent, count_held-mem w.held i p e)
