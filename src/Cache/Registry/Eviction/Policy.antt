-- ===== src/Cache/Registry/Eviction/Policy.antt =====
-- What `eviction_candidates` names.
use rustorr.Base.{
  ℕ, zero, suc, ◌+◌, ◌-◌, ◌%◌, ◌≤◌, ◌<◌, ◌≡◌, ◌≢◌, refl, ap, ◌⊎◌, inl, inr, some, List, [], ◌∷◌,
  map, ◌==◌, arith, All, Has, Bool-cases, length, take, get_elem?, u64_mod, wrapping_add,
}
use rustorr.Base.Map.{Map, lookup, AreDistinct}
use rustorr.Domain.Hash.{InfoHash, info_hash_eq}
use rustorr.Cache.Registry.{Cache, Entry, Pin, sum_stored}
use rustorr.Cache.Registry.Eviction.{
  Item, idle, sort_by_last_read, victims, excess_of, eviction_candidates,
}
use rustorr.Cache.Registry.Eviction.Order.{
  IsByRecency, IsIdle, sort-IsByRecency, sort-Has, sort-AreDistinct, sort-All, idle-IsIdle,
  idle-AreDistinct, idle-Has,
}
use rustorr.Cache.Registry.Pins.{World, AreCounted, pins_of}
use rustorr.Cache.Registry.Pins.Safety.{count_held-mem}

-- The bytes that evicting the items would free.
pub total : List Item → ℕ
total [] = 0
total (x ∷ xs) = x.1.stored + total xs

abbrev keys : List Item → List InfoHash
keys = map (λ x. x.0)

victims-take :
    (excess : ℕ) (m : List Item) → victims excess m ≡ keys (take (length (victims excess m)) m)
unfolding victims
victims-take excess [] = refl
victims-take excess ((t, e) ∷ m) = elim (Bool-cases (excess == 0)) [
  | inl q ↦ rw q
  | inr q ↦ rw q (ap (◌∷◌ t) (victims-take (excess - e.stored) m))
]

victims_needed :
    (excess j : ℕ) (m : List Item) → j < length (victims excess m) → total (take j m) < excess
unfolding victims total
victims_needed excess j [] h = absurd (omega arith)
victims_needed excess zero ((t, e) ∷ m) h = ground arith
victims_needed excess (suc j) ((t, e) ∷ m) h =
    ground (arith, victims_needed (excess - e.stored) j m)

victims_enough :
    (excess : ℕ) (m : List Item)
    → (excess ≤ total (take (length (victims excess m)) m))
      ⊎ (take (length (victims excess m)) m ≡ m)
unfolding victims total
victims_enough excess [] = inr refl
victims_enough excess ((t, e) ∷ m) = elim (Bool-cases (excess == 0)) [
  | inl q ↦ rw q (inl (ground arith))
  | inr q ↦ rw q (elim (victims_enough (excess - e.stored) m) [
    | inl h ↦ inl (omega arith)
    | inr h ↦ inr (ap (◌∷◌ (t, e)) h)
  ])
]

All-take : (P : Item → Type 0) (n : ℕ) (xs : List Item) → All P xs → All P (take n xs)
All-take P zero xs h = tt
All-take P (suc n) [] h = tt
All-take P (suc n) (x ∷ xs) h = (h.0, All-take P n xs h.1)

-- `order` lists the idle torrents, each once: those that nobody watches and that hold bytes; least
-- recently read first. The candidates are the first of `order`: without the last of them what is stored
-- would stay above the cap, and without all of them it does not, or `order` has no more. The bytes that
-- are stored are added up as a `u64`.
pub record IsLru {S : Type 0} (c : Cache S) (order : List Item) : Type 0 where
  pub candidates : eviction_candidates c ≡ keys (take (length (eviction_candidates c)) order)
  pub by_recency : IsByRecency order
  pub each_idle : All (IsIdle c.torrents) order
  pub every_idle : (x : Item) → IsIdle c.torrents x → Has x order
  pub distinct : AreDistinct order
  pub needed :
      (j : ℕ)
      → j < length (eviction_candidates c)
      → total (take j order) + c.cap_bytes < total c.torrents % u64_mod
  pub enough :
      (total c.torrents % u64_mod
        ≤ total (take (length (eviction_candidates c)) order) + c.cap_bytes)
      ⊎ (take (length (eviction_candidates c)) order ≡ order)

sum_stored-total : (m : List Item) → sum_stored m ≡ total m % u64_mod
unfolding sum_stored total wrapping_add
sum_stored-total [] = refl
sum_stored-total (x ∷ xs) = omega (arith, sum_stored-total xs)

excess_above :
    {S : Type 0} (c : Cache S) (freed : ℕ)
    → freed < excess_of c
    → freed + c.cap_bytes < total c.torrents % u64_mod
unfolding excess_of
excess_above c freed h = omega (arith, sum_stored-total c.torrents)

excess_covered :
    {S : Type 0} (c : Cache S) (freed : ℕ)
    → excess_of c ≤ freed
    → total c.torrents % u64_mod ≤ freed + c.cap_bytes
unfolding excess_of
excess_covered c freed h = omega (arith, sum_stored-total c.torrents)

ordered-All-IsIdle :
    (m : Map InfoHash Entry) → AreDistinct m → All (IsIdle m) (sort_by_last_read (idle m))
ordered-All-IsIdle m d = sort-All (IsIdle m) (idle m) (idle-IsIdle m d)

-- When no torrent is registered twice, the candidates are the first of the idle torrents, all of them
-- listed once in ascending order of their last read: only idle torrents, no more than are needed to
-- bring what is stored under the cap, and enough for it unless every idle torrent is named.
pub eviction_candidates-IsLru :
    {S : Type 0} (c : Cache S) → AreDistinct c.torrents → (order : List Item) × IsLru c order
unfolding eviction_candidates
eviction_candidates-IsLru c d =
    let order = sort_by_last_read (idle c.torrents) in
    let k = length (victims (excess_of c) order) in
    (
      order,
      record {
        candidates = victims-take (excess_of c) order;
        by_recency = sort-IsByRecency (idle c.torrents);
        each_idle = ordered-All-IsIdle c.torrents d;
        every_idle = λ x h. sort-Has x (idle c.torrents) (idle-Has c.torrents x h);
        distinct = sort-AreDistinct (idle c.torrents) (idle-AreDistinct c.torrents d);
        needed =
            λ j h. excess_above c (total (take j order)) (victims_needed (excess_of c) j order h);
        enough = elim (victims_enough (excess_of c) order) [
          | inl h ↦ inl (excess_covered c (total (take k order)) h)
          | inr h ↦ inr h
        ];
      },
    )

keys-All :
    (m : Map InfoHash Entry) (t : InfoHash) (xs : List Item)
    → ((e : Entry) → lookup t m ≡ some e → e.pins ≢ 0)
    → All (IsIdle m) xs
    → All (λ u. u ≢ t) (keys xs)
keys-All m t [] h a = tt
keys-All m t ((u, e) ∷ xs) h a = (λ q. h e (ground (arith, a.0.0, q)) a.0.1, keys-All m t xs h a.1)

-- When no torrent is registered twice and the counts are those of the held pins, a torrent with a held
-- pin is no candidate.
pub eviction_candidates-held :
    {S : Type 0} (w : World S) (i : ℕ) (p : Pin)
    → AreDistinct w.cache.torrents
    → AreCounted w
    → get_elem? w.held i ≡ some p
    → All (λ t. t ≢ p.torrent) (eviction_candidates w.cache)
unfolding pins_of eviction_candidates
eviction_candidates-held w i p d v e =
    let order = sort_by_last_read (idle w.cache.torrents) in
    let k = length (eviction_candidates w.cache) in
    rw (victims-take (excess_of w.cache) order) (
      keys-All w.cache.torrents p.torrent (take k order)
        (λ x q z. ground (arith, v.counted p.torrent, count_held-mem w.held i p e))
        (All-take (IsIdle w.cache.torrents) k order (ordered-All-IsIdle w.cache.torrents d)))
