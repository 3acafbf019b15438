-- ===== src/Cache/Memory/Blocks.antt =====
-- The two copying loops of crates/rustorr-cache/src/memory.rs, over blocks of `block_size` bytes. A
-- round of a loop copies at least one byte, so as many rounds as bytes are enough.
pub mod Bytes
pub mod Loops
use rustorr.Base.{
  ℕ, zero, suc, ◌+◌, ◌-◌, ◌*◌, ◌/◌, ◌%◌, ◌≡◌, Bool, true, false, Option, none, some, List, [], ◌∷◌,
  ◌++◌, ◌==◌, if◌then◌else◌, length, take, drop, replicate, min, arith, ==_iff,
}
use rustorr.Base.Map.{Eq, Map, lookup, insert}
use rustorr.Base.Map

abbrev pub block_size : ℕ
block_size = 16 * 1024

instance abbrev pub nat_eq : Eq ℕ
nat_eq = record { beq = λ a b. a == b; beq_iff = ==_iff }

abbrev pub BlockMap : Type 0
BlockMap = Map ℕ (List ℕ)

-- `vec![0; BLOCK_SIZE]`
pub zeros : List ℕ
zeros = replicate block_size 0

-- `block[at..at + xs.len()].copy_from_slice(xs)`
pub overwrite : ℕ → List ℕ → List ℕ → List ℕ
overwrite at xs block = take at block ++ (xs ++ drop (length xs) (drop at block))

-- `entry(..).or_insert_with(..)`
unfoldable pub block_at : ℕ → BlockMap → List ℕ
block_at k blocks = elim (lookup k blocks) [ none ↦ zeros | some b ↦ b ]

pub write_loop : ℕ → ℕ → List ℕ → BlockMap → BlockMap
write_loop zero position rest blocks = blocks
write_loop (suc rounds) position [] blocks = blocks
write_loop (suc rounds) position (x ∷ xs) blocks =
    let rest = x ∷ xs in
    let at = position % block_size in
    let count = min (length rest) (block_size - at) in
    let k = position / block_size in
    write_loop rounds (position + count) (drop count rest)
      (insert k (overwrite at (take count rest) (block_at k blocks)) blocks)

pub write_blocks : ℕ → List ℕ → BlockMap → BlockMap
write_blocks offset bytes blocks = write_loop (length bytes) offset bytes blocks

-- `n` bytes are still to be filled; `none` is a block that is not there.
pub read_loop : ℕ → ℕ → ℕ → BlockMap → Option (List ℕ)
read_loop zero position n blocks = some []
read_loop (suc rounds) position zero blocks = some []
read_loop (suc rounds) position (suc m) blocks =
    let n = suc m in
    let at = position % block_size in
    let count = min n (block_size - at) in
    let rest = read_loop rounds (position + count) (n - count) blocks in
    elim (lookup (position / block_size) blocks) [
      | none ↦ none
      | some block ↦ elim rest [
        | none ↦ none
        | some bytes ↦ some (take count (drop at block) ++ bytes)
      ]
    ]

pub read_blocks : ℕ → ℕ → BlockMap → Option (List ℕ)
read_blocks offset n blocks = read_loop n offset n blocks
