-- ===== src/Gstreamer/Mp4/Queue.antt =====
-- The queues of fragments of a `Reader`, and the payload bytes that they refer to.
pub mod Laws
use rustorr.Base.{
  ℕ, ◌+◌, ◌-◌, Option, none, some, List, [], ◌∷◌, ◌++◌, if◌then◌else◌, ◌==◌, ltb, min, length, take,
  drop,
}
use rustorr.Gstreamer.Mp4.{Fragment}

-- The fields of the reader that `reclaim_payloads` reads and writes.
pub record Queue : Type 0 where
  pub video : List Fragment
  pub audio : List Fragment
  pub source_payload : List ℕ
  pub current_payload_start : ℕ

-- The least start of a payload that is not empty.
unfoldable pub min_start : List Fragment → Option ℕ
min_start [] = none
min_start (f ∷ fs) =
    let rest = min_start fs in
    if f.payload_len == 0
    then rest
    else some (elim rest [ none ↦ f.payload_start | some m ↦ min f.payload_start m ])

unfoldable pub moved : ℕ → Fragment → Fragment
moved m f = if f.payload_len == 0 then f else record f { payload_start = f.payload_start - m }

unfoldable pub moved_all : ℕ → List Fragment → List Fragment
unfolding moved
moved_all m [] = []
moved_all m (f ∷ fs) = moved m f ∷ moved_all m fs

-- No subtraction goes below 0: the start taken off is the least one.
unfoldable pub drain : Queue → ℕ → Queue
unfolding moved_all
drain q m = if m == 0 then q else record {
  video = moved_all m q.video;
  audio = moved_all m q.audio;
  source_payload = drop m q.source_payload;
  current_payload_start = q.current_payload_start - m;
}

unfoldable pub reclaim_payloads : Queue → Queue
unfolding min_start drain
reclaim_payloads q =
    if length q.source_payload == 0 then q else elim (min_start (q.video ++ q.audio)) [
      | none ↦ record q { source_payload = []; current_payload_start = 0 }
      | some m ↦ drain q m
    ]
