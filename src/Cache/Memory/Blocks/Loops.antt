-- ===== src/Cache/Memory/Blocks/Loops.antt =====
-- The copying loops write the bytes they are given, and read back what is there.
use rustorr.Base.{
  ℕ, zero, suc, ◌+◌, ◌-◌, ◌/◌, ◌%◌, ◌≤◌, ◌<◌, ◌≡◌, refl, ap, ◌∙◌, sym, true, some, List, [], ◌∷◌,
  ◌++◌, ltb, leb, ◌&&◌, if◌then◌else◌, length, get_or, take, drop, min, arith, get_or-drop,
  get_or-take, length-take, length-drop, Bool-cases, inl, inr,
}
use rustorr.Base.Map.{lookup}
use rustorr.Cache.Memory.Blocks.{
  BlockMap, block_size, nat_eq, block_at, write_loop, write_blocks, read_loop, read_blocks,
}
use rustorr.Cache.Memory.Blocks.Bytes.{
  byte_at, is_present, AreFull, store_block, byte_at-store, store-AreFull, is_present-store,
}

-- `after` has the bytes from `position` on, and elsewhere what `blocks` had.
pub record IsWritten (position : ℕ) (bytes : List ℕ) (blocks after : BlockMap) : Type 0 where
  pub full : AreFull after
  pub contents :
      (n : ℕ)
      → byte_at after n ≡ (
          if leb position n && ltb n (position + length bytes)
          then get_or bytes (n - position) 0
          else byte_at blocks n)
  pub present : (n : ℕ) → position ≤ n → n < position + length bytes → is_present after n ≡ true
  pub kept : (n : ℕ) → is_present blocks n ≡ true → is_present after n ≡ true

IsWritten-nil :
    (position : ℕ) (blocks : BlockMap) → AreFull blocks → IsWritten position [] blocks blocks
IsWritten-nil position blocks f = record {
  full = f;
  contents = λ n. ground arith;
  present = λ n h k. absurd (omega arith);
  kept = λ n h. h;
}

-- A round followed by the rounds for the bytes that are left.
IsWritten-step :
    (position count : ℕ) (bytes : List ℕ) (blocks after : BlockMap)
    → AreFull blocks
    → count ≤ length bytes
    → position % block_size + count ≤ block_size
    → IsWritten
        (position + count)
        (drop count bytes)
        (store_block position (take count bytes) blocks)
        after
    → IsWritten position bytes blocks after
IsWritten-step position count bytes blocks after f h k w =
    let taken = length-take count bytes in
    let left = length-drop count bytes in
    record {
      full = w.full;
      contents = λ n. ground (
        arith,
        w.contents n,
        taken,
        left,
        byte_at-store position (take count bytes) blocks n f,
        get_or-take count (n - position) bytes 0,
        get_or-drop count (n - (position + count)) bytes 0,
      );
      present = λ n a b. elim (Bool-cases (ltb n (position + count))) [
        | inl e ↦
            w.kept n (rw (is_present-store position (take count bytes) blocks n) (ground arith))
        | inr e ↦ w.present n (ground arith) (ground (arith, left))
      ];
      kept = λ n e.
          w.kept n (rw (is_present-store position (take count bytes) blocks n) (ground arith));
    }

write_loop-IsWritten :
    (rounds position : ℕ) (bytes : List ℕ) (blocks : BlockMap)
    → length bytes ≤ rounds
    → AreFull blocks
    → IsWritten position bytes blocks (write_loop rounds position bytes blocks)
unfolding write_loop store_block
write_loop-IsWritten zero position [] blocks h f = IsWritten-nil position blocks f
write_loop-IsWritten zero position (x ∷ xs) blocks h f = absurd (omega arith)
write_loop-IsWritten (suc rounds) position [] blocks h f = IsWritten-nil position blocks f
write_loop-IsWritten (suc rounds) position (x ∷ xs) blocks h f =
    let bytes = x ∷ xs in
    let count = min (length bytes) (block_size - position % block_size) in
    let stored = store_block position (take count bytes) blocks in
    let taken = length-take count bytes in
    let left = length-drop count bytes in
    IsWritten-step position count bytes blocks _ f (omega arith) (omega arith) (
      write_loop-IsWritten rounds (position + count) (drop count bytes) stored (omega (arith, left))
        (store-AreFull position (take count bytes) blocks f (omega (arith, taken))))

-- Writing: the bytes are there, no other byte has changed, and there were rounds enough.
pub write_blocks-IsWritten :
    (offset : ℕ) (bytes : List ℕ) (blocks : BlockMap)
    → AreFull blocks
    → IsWritten offset bytes blocks (write_blocks offset bytes blocks)
unfolding write_blocks
write_blocks-IsWritten offset bytes blocks f =
    write_loop-IsWritten (length bytes) offset bytes blocks (omega arith) f

-- The `n` bytes from `position` on.
unfoldable pub bytes_from : BlockMap → ℕ → ℕ → List ℕ
bytes_from blocks position zero = []
bytes_from blocks position (suc n) = byte_at blocks position ∷ bytes_from blocks (position + 1) n

bytes_from-append :
    (blocks : BlockMap) (position m n next total : ℕ)
    → next ≡ position + m
    → total ≡ m + n
    → bytes_from blocks position m ++ bytes_from blocks next n ≡ bytes_from blocks position total
unfolding bytes_from
bytes_from-append blocks position zero n next total e h = ground arith
bytes_from-append blocks position (suc m) n next zero e h = absurd (omega arith)
bytes_from-append blocks position (suc m) n next (suc total) e h =
    ap (◌∷◌ (byte_at blocks position))
      (bytes_from-append blocks (position + 1) m n next total (omega arith) (omega arith))

take-bytes_from :
    (blocks : BlockMap) (position count : ℕ) (c : List ℕ)
    → ((i : ℕ) → i < count → get_or c i 0 ≡ byte_at blocks (position + i))
    → count ≤ length c
    → take count c ≡ bytes_from blocks position count
unfolding bytes_from
take-bytes_from blocks position zero c h k = refl
take-bytes_from blocks position (suc count) [] h k = absurd (omega arith)
take-bytes_from blocks position (suc count) (x ∷ c) h k = ground (
  arith,
  h 0 (omega arith),
  take-bytes_from blocks (position + 1) count c (λ i l. ground (arith, h (suc i) (omega arith)))
      (omega arith),
)

present_block :
    (blocks : BlockMap) (n : ℕ)
    → is_present blocks n ≡ true
    → (block : List ℕ) × (lookup (n / block_size) blocks ≡ some block)
unfolding is_present
present_block blocks n e = ground arith

byte_at_block :
    (blocks : BlockMap) (n : ℕ) (block : List ℕ)
    → lookup (n / block_size) blocks ≡ some block
    → byte_at blocks n ≡ get_or block (n % block_size) 0
unfolding byte_at block_at
byte_at_block blocks n block e = ground (arith, e)

-- The bytes of one round.
round-bytes_from :
    (blocks : BlockMap) (position count : ℕ) (block : List ℕ)
    → lookup (position / block_size) blocks ≡ some block
    → length block ≡ block_size
    → position % block_size + count ≤ block_size
    → take count (drop (position % block_size) block) ≡ bytes_from blocks position count
round-bytes_from blocks position count block e l h =
    take-bytes_from blocks position count (drop (position % block_size) block)
      (λ i k.
        let same : (position + i) / block_size ≡ position / block_size = omega arith in
        let later : (position + i) % block_size ≡ position % block_size + i = omega arith in
        get_or-drop (position % block_size) i block 0
        ∙ sym (rw later at (byte_at_block blocks (position + i) block (rw same e))))
      (omega (arith, length-drop (position % block_size) block))

read_loop-bytes_from :
    (rounds position n : ℕ) (blocks : BlockMap)
    → n ≤ rounds
    → AreFull blocks
    → ((i : ℕ) → position ≤ i → i < position + n → is_present blocks i ≡ true)
    → read_loop rounds position n blocks ≡ some (bytes_from blocks position n)
unfolding read_loop
read_loop-bytes_from zero position zero blocks h f p = unfold bytes_from in refl
read_loop-bytes_from zero position (suc m) blocks h f p = absurd (omega arith)
read_loop-bytes_from (suc rounds) position zero blocks h f p = unfold bytes_from in refl
read_loop-bytes_from (suc rounds) position (suc m) blocks h f p =
    let count = min (suc m) (block_size - position % block_size) in
    let (block, e) = present_block blocks position (p position (omega arith) (omega arith)) in
    let ih =
      read_loop-bytes_from rounds (position + count) (suc m - count) blocks (omega arith) f
        (λ i a b. p i (omega arith) (omega arith)) in
    ground (
      arith,
      e,
      ih,
      round-bytes_from blocks position count block e (f.full _ block e) (omega arith),
      bytes_from-append blocks position count (suc m - count) (position + count) (suc m),
    )

-- Reading where every block is there returns the bytes, and there are rounds enough.
pub read_blocks-bytes_from :
    (offset n : ℕ) (blocks : BlockMap)
    → AreFull blocks
    → ((i : ℕ) → offset ≤ i → i < offset + n → is_present blocks i ≡ true)
    → read_blocks offset n blocks ≡ some (bytes_from blocks offset n)
unfolding read_blocks
read_blocks-bytes_from offset n blocks f p =
    read_loop-bytes_from n offset n blocks (omega arith) f p
