-- ===== src/Cache/Memory/Blocks/Bytes.antt =====
-- The blocks as an array of bytes: what the copying loops write and read.
use rustorr.Base.{
  ℕ, zero, suc, ◌+◌, ◌-◌, ◌/◌, ◌%◌, ◌≤◌, ◌≡◌, refl, Bool, true, false, none, some, List, [], ◌∷◌,
  ◌++◌, ◌==◌, ltb, leb, ◌&&◌, ◌||◌, if◌then◌else◌, length, get_or, take, drop, arith,
  get_or-replicate, length-take, length-drop, length-append, length-replicate, Bool-cases,
  Option-cases, inl, inr,
}
use rustorr.Base.Map.{lookup, insert, lookup-insert}
use rustorr.Cache.Memory.Blocks.{BlockMap, block_size, nat_eq, zeros, overwrite, block_at}

-- Byte `n`; a block that is not there reads as zeros here, and as an error in `read_loop`.
unfoldable pub byte_at : BlockMap → ℕ → ℕ
byte_at blocks n = get_or (block_at (n / block_size) blocks) (n % block_size) 0

unfoldable pub is_present : BlockMap → ℕ → Bool
is_present blocks n = elim (lookup (n / block_size) blocks) [ none ↦ false | some b ↦ true ]

-- Every block has `block_size` bytes.
pub record AreFull (blocks : BlockMap) : Type 0 where
  pub full : (k : ℕ) (b : List ℕ) → lookup k blocks ≡ some b → length b ≡ block_size

length-zeros : length zeros ≡ block_size
unfolding zeros
length-zeros = length-replicate {A = ℕ} block_size 0

get_or-zeros : (i : ℕ) → get_or zeros i 0 ≡ 0
unfolding zeros
get_or-zeros i = get_or-replicate block_size i 0

length-block_at :
    (k : ℕ) (blocks : BlockMap) → AreFull blocks → length (block_at k blocks) ≡ block_size
unfolding block_at
length-block_at k blocks f = elim (Option-cases (lookup k blocks)) [
  | inl e ↦ rw (e, block_at) length-zeros
  | inr (b, e) ↦ rw (e, block_at) (f.full k b e)
]

drop-nil : (n : ℕ) → drop {A = ℕ} n [] ≡ []
drop-nil zero = refl
drop-nil (suc n) = refl

-- Replacing a prefix.
get_or-prefix :
    (xs b : List ℕ) (j : ℕ)
    → get_or (xs ++ drop (length xs) b) j 0
      ≡ (if ltb j (length xs) then get_or xs j 0 else get_or b j 0)
get_or-prefix [] b j = ground arith
get_or-prefix (x ∷ xs) [] zero = ground arith
get_or-prefix (x ∷ xs) [] (suc j) = ground (arith, get_or-prefix xs [] j, drop-nil (length xs))
get_or-prefix (x ∷ xs) (c ∷ b) zero = ground arith
get_or-prefix (x ∷ xs) (c ∷ b) (suc j) = ground (arith, get_or-prefix xs b j)

get_or-overwrite :
    (at : ℕ) (xs b : List ℕ) (j : ℕ)
    → at ≤ length b
    → get_or (overwrite at xs b) j 0
      ≡ (if leb at j && ltb j (at + length xs) then get_or xs (j - at) 0 else get_or b j 0)
unfolding overwrite
get_or-overwrite zero xs b j h = ground (arith, get_or-prefix xs b j)
get_or-overwrite (suc at) xs [] j h = absurd (omega arith)
get_or-overwrite (suc at) xs (c ∷ b) zero h = ground arith
get_or-overwrite (suc at) xs (c ∷ b) (suc j) h =
    ground (arith, get_or-overwrite at xs b j (omega arith))

length-overwrite :
    (at : ℕ) (xs b : List ℕ) → at + length xs ≤ length b → length (overwrite at xs b) ≡ length b
unfolding overwrite
length-overwrite at xs b h = omega (
  arith,
  length-append (take at b) (xs ++ drop (length xs) (drop at b)),
  length-append xs (drop (length xs) (drop at b)),
  length-take at b,
  length-drop (length xs) (drop at b),
  length-drop at b,
)

-- One round of the writing loop.
unfoldable pub store_block : ℕ → List ℕ → BlockMap → BlockMap
store_block position xs blocks =
    let k = position / block_size in
    insert k (overwrite (position % block_size) xs (block_at k blocks)) blocks

block_at-insert :
    (k j : ℕ) (b : List ℕ) (blocks : BlockMap)
    → block_at j (insert k b blocks) ≡ (if k == j then b else block_at j blocks)
unfolding block_at
block_at-insert k j b blocks = ground (arith, lookup-insert k j b blocks)

pub byte_at-store :
    (position : ℕ) (xs : List ℕ) (blocks : BlockMap) (n : ℕ)
    → AreFull blocks
    → position % block_size + length xs ≤ block_size
    → byte_at (store_block position xs blocks) n ≡ (
        if leb position n && ltb n (position + length xs)
        then get_or xs (n - position) 0
        else byte_at blocks n)
unfolding byte_at store_block
byte_at-store position xs blocks n f h =
    elim (Bool-cases (position / block_size == n / block_size)) [
      | inl e ↦ ground (
        arith,
        e,
        block_at-insert (position / block_size) (n / block_size)
            (overwrite (position % block_size) xs (block_at (position / block_size) blocks)) blocks,
        get_or-overwrite (position % block_size) xs (block_at (position / block_size) blocks)
            (n % block_size),
        length-block_at (position / block_size) blocks f,
      )
      | inr e ↦ ground (
        arith,
        e,
        block_at-insert (position / block_size) (n / block_size)
            (overwrite (position % block_size) xs (block_at (position / block_size) blocks)) blocks,
      )
    ]

pub store-AreFull :
    (position : ℕ) (xs : List ℕ) (blocks : BlockMap)
    → AreFull blocks
    → position % block_size + length xs ≤ block_size
    → AreFull (store_block position xs blocks)
unfolding store_block
store-AreFull position xs blocks f h =
    let at = position / block_size in
    let new = overwrite (position % block_size) xs (block_at at blocks) in
    record {
      full = λ k b e. ground (
        arith,
        e,
        lookup-insert at k new blocks,
        f.full k b,
        length-overwrite (position % block_size) xs (block_at at blocks),
        length-block_at at blocks f,
      );
    }

pub is_present-store :
    (position : ℕ) (xs : List ℕ) (blocks : BlockMap) (n : ℕ)
    → is_present (store_block position xs blocks) n
      ≡ ((position / block_size == n / block_size) || is_present blocks n)
unfolding is_present store_block
is_present-store position xs blocks n =
    let at = position / block_size in
    ground (
      arith,
      lookup-insert at (n / block_size) (overwrite (position % block_size) xs (block_at at blocks))
          blocks,
    )
