-- ===== src/Cache/Registry/Eviction.antt =====
-- `eviction_candidates` of crates/rustorr-cache/src/cache.rs. The order in which a `HashMap` is
-- walked is that of the entries; `sort_by_key` is a stable sort.
pub mod Order
pub mod Policy
use rustorr.Base.{ℕ, ◌-◌, Bool, true, false, List, [], ◌∷◌, ltb, leb, ◌==◌, ◌&&◌, if◌then◌else◌}
use rustorr.Base.Map.{Map}
use rustorr.Domain.Hash.{InfoHash}
use rustorr.Cache.Registry.{Cache, Entry, sum_stored}

abbrev pub Item : Type 0
Item = InfoHash × Entry

-- `filter(|(_, entry)| entry.pins == 0 && entry.stored > 0)`
unfoldable pub idle : List Item → List Item
idle [] = []
idle ((t, e) ∷ m) =
    let rest = idle m in if e.pins == 0 && ltb 0 e.stored then (t, e) ∷ rest else rest

unfoldable pub place : Item → List Item → List Item
place x [] = x ∷ []
place x (y ∷ ys) = if leb x.1.last_read y.1.last_read then x ∷ y ∷ ys else y ∷ place x ys

unfoldable pub sort_by_last_read : List Item → List Item
unfolding place
sort_by_last_read [] = []
sort_by_last_read (x ∷ xs) = place x (sort_by_last_read xs)

-- The `for` loop; `-` stops at 0 as `saturating_sub` does.
unfoldable pub victims : ℕ → List Item → List InfoHash
victims excess [] = []
victims excess ((t, e) ∷ m) =
    let rest = victims (excess - e.stored) m in if excess == 0 then [] else t ∷ rest

unfoldable pub excess_of : {S : Type 0} → Cache S → ℕ
unfolding sum_stored
excess_of c = sum_stored c.torrents - c.cap_bytes

unfoldable pub eviction_candidates : {S : Type 0} → Cache S → List InfoHash
unfolding excess_of idle sort_by_last_read victims
eviction_candidates c = victims (excess_of c) (sort_by_last_read (idle c.torrents))
