-- ===== src/Gstreamer/Mp4/Boxes.antt =====
-- Reading the boxes of a buffer. `be32` and `be64` would panic on fewer bytes; every caller has
-- compared the length before.
pub mod Bounds
use rustorr.Base.{
  ℕ, zero, suc, ◌+◌, ◌-◌, ◌*◌, ◌^◌, Bool, Option, none, some, List, [], ◌∷◌, u32_mod, if◌then◌else◌,
  ltb, ◌==◌, ◌||◌, length, get_or, get_elem?, take, drop,
}
use rustorr.Gstreamer.Mp4.{four_cc, Trex, tkhd_box, mdia_box, mdhd_box, hdlr_box}

unfoldable pub be32 : List ℕ → ℕ
be32 buf = four_cc (get_or buf 0 0) (get_or buf 1 0) (get_or buf 2 0) (get_or buf 3 0)

unfoldable pub be64 : List ℕ → ℕ
unfolding be32
be64 buf = be32 buf * u32_mod + be32 (drop 4 buf)

-- What `try_read_box` returns, and the position after it.
pub record BoxAt : Type 0 where
  pub kind : ℕ
  pub header : ℕ
  pub bytes : List ℕ
  pub end : ℕ

-- The box's size and the size of its header.
unfoldable pub box_size : List ℕ → ℕ → Option (ℕ × ℕ)
unfolding be32 be64
box_size buf start =
    let size32 = be32 (drop start buf) in
    if size32 == 1
    then (if ltb (length buf - start) 16 then none else some (be64 (drop (start + 8) buf), 16))
    else if size32 == 0
    then some (length buf - start, 8)
    else some (size32, 8)

unfoldable pub box_at : List ℕ → ℕ → ℕ × ℕ → Option BoxAt
unfolding be32
box_at buf start (size, header) =
    if ltb size header || (ltb (2 ^ 31 - 1) size || ltb (length buf - start) size)
    then none
    else some (record {
      kind = be32 (drop (start + 4) buf);
      header = header;
      bytes = take size (drop start buf);
      end = start + size;
    })

unfoldable pub try_read_box : List ℕ → ℕ → Option BoxAt
unfolding box_size box_at
try_read_box buf start =
    if ltb (length buf) start || ltb (length buf - start) 8
    then none
    else elim (box_size buf start) [ none ↦ none | some s ↦ box_at buf start s ]

-- `while let Some(..) = try_read_box(buf, &mut position)`: the boxes that the loop sees.
unfoldable pub boxes_loop : ℕ → List ℕ → ℕ → List BoxAt
unfolding try_read_box
boxes_loop zero buf position = []
boxes_loop (suc rounds) buf position = elim (try_read_box buf position) [
  | none ↦ []
  | some b ↦ b ∷ boxes_loop rounds buf b.end
]

unfoldable pub boxes : List ℕ → ℕ → List BoxAt
unfolding boxes_loop
boxes buf position = boxes_loop (length buf) buf position

find_kind : ℕ → List BoxAt → Option BoxAt
find_kind wanted [] = none
find_kind wanted (b ∷ bs) = if b.kind == wanted then some b else find_kind wanted bs

unfoldable pub find_box : List ℕ → ℕ → Option BoxAt
unfolding find_kind boxes
find_box buf wanted = find_kind wanted (boxes buf 0)

-- The word at the position, and the position after it.
unfoldable pub read_u32 : List ℕ → ℕ → Option (ℕ × ℕ)
unfolding be32
read_u32 buf position =
    if ltb (length buf) (position + 4) then none else some (be32 (drop position buf), position + 4)

unfoldable pub read_tfdt : List ℕ → ℕ → Option ℕ
unfolding be32 be64
read_tfdt buf header =
    let offset = header + 4 in
    let version = get_or buf header 0 in
    if ltb (length buf) (header + 8)
    then none
    else if version == 1
    then (if ltb (length buf) (offset + 8) then none else some (be64 (drop offset buf)))
    else if version == 0
    then some (be32 (drop offset buf))
    else none

word_at : List ℕ → ℕ → ℕ
unfolding be32
word_at buf offset = if ltb (length buf) (offset + 4) then 0 else be32 (drop offset buf)

unfoldable pub versioned_u32 : List ℕ → ℕ → ℕ
unfolding word_at
versioned_u32 buf header = elim (get_elem? buf header) [
  | none ↦ 0
  | some version ↦
      if version == 1
      then word_at buf (header + 20)
      else if version == 0
      then word_at buf (header + 12)
      else 0
]

unfoldable pub read_trex : List ℕ → ℕ → Option (ℕ × Trex)
unfolding be32
read_trex buf header =
    let track_id = be32 (drop (header + 4) buf) in
    let description_index = be32 (drop (header + 8) buf) in
    if ltb (length buf) (header + 24)
    then none
    else if track_id == 0 || description_index == 0
    then none
    else some (
      track_id,
      record {
        description_index = description_index;
        duration = be32 (drop (header + 12) buf);
        size = be32 (drop (header + 16) buf);
        flags = be32 (drop (header + 20) buf);
      },
    )

-- The variables of `read_track`.
pub record Track : Type 0 where
  pub track_id : ℕ
  pub timescale : ℕ
  pub handler : ℕ

handler_of : BoxAt → ℕ
unfolding be32
handler_of b =
    if ltb (length b.bytes) (b.header + 12) then 0 else be32 (drop (b.header + 8) b.bytes)

-- The loop over the boxes of `mdia`.
read_media : Track → List BoxAt → Track
unfolding versioned_u32 handler_of
read_media t [] = t
read_media t (b ∷ bs) =
    read_media
      (if b.kind == mdhd_box
        then record t { timescale = versioned_u32 b.bytes b.header }
        else if b.kind == hdlr_box
        then record t { handler = handler_of b }
        else t)
      bs

read_track_boxes : Track → List BoxAt → Track
unfolding versioned_u32 read_media boxes
read_track_boxes t [] = t
read_track_boxes t (b ∷ bs) =
    read_track_boxes
      (if b.kind == tkhd_box
        then record t { track_id = versioned_u32 b.bytes b.header }
        else if b.kind == mdia_box
        then read_media t (boxes b.bytes b.header)
        else t)
      bs

unfoldable pub read_track : List ℕ → ℕ → Track
unfolding read_track_boxes boxes
read_track trak header =
    read_track_boxes (record { track_id = 0; timescale = 0; handler = 0 }) (boxes trak header)
