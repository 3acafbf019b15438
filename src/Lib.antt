-- ===== src/Lib.antt =====
-- Rustorr, a torrent streaming server: the value types of its crates, its byte cache, the parts of its
-- HTTP server that decide (ranges, conditional requests, WebDAV locks), its DNS messages, its reader of
-- Matroska cues and the fragments of MP4 that its segments are made of.
--
-- The cache keeps the bytes of torrents that are being played. `Cache`
-- (crates/rustorr-cache/src/cache.rs) holds an entry for each open torrent: its layout, the verified
-- pieces, the bytes stored, the pins that protect it from eviction and what its readers asked for. The
-- bytes are in a backing store, an implementation of `PieceStore`; the one kept in memory divides each
-- file into blocks and records in a set of byte spans which bytes were written, the one on disk writes
-- that set to a manifest from which a later process recovers it. A caller that plays a torrent pins
-- it, the owner of the engine asks for eviction candidates and then removes them. The HTTP server
-- reads what a player asks for: the preconditions decide whether a `Range` header counts, its parser
-- which bytes are meant, and the lock system which WebDAV client may change what. Before a film is
-- remuxed, its segment boundaries are taken from the cue points of a Matroska file; the fragments of
-- MP4 that the remuxer writes are read, divided and written again as segments. A responder that
-- announces the server reads DNS messages.
--
-- The files and what they model:
--   Domain/*            crates/rustorr-domain/src: `ByteRange` (Range), `FileIndex` and `PieceIndex`
--                       (Index), `InfoHash` with its parser and printer (Hash), the errors (Error)
--   Cache/Extents       extents.rs of crates/rustorr-cache/src: `Extents`; children: the sorted map
--                       (Spans), insertion as one merge (Merge), bytes held (Bytes, Bitmap), the
--                       invariant (Valid), the persisted form (Persist)
--   Cache/Layout        layout.rs: `TorrentLayout`
--   Cache/Pieces        layout.rs: `PieceSet`
--   Cache/Error, Store  error.rs and store.rs: the errors, `PieceStore`
--   Cache/Memory        memory.rs: `MemoryStore`; the copying loops are in Memory/Blocks
--   Cache/Disk          disk.rs: what is asked of the file system (FileSystem), `manifest` and `restore`
--                       (Manifest; its lines are in Manifest/Entries, its characters in
--                       Manifest/Ascii, the round trip in Manifest/RoundTrip), `DiskStore` (Store,
--                       with Store/Recovery and Store/Retry)
--   Cache/Registry      cache.rs: `Cache`; the methods that call the store are in Registry/Methods, the
--                       eviction order in Registry/Eviction, the reports in Registry/Demand, histories
--                       of calls and the pins that are held in Registry/Pins, the steps of
--                       several threads in Registry/Threads
--   Http/Range          crates/rustorr-http/src/range.rs: the `Range` header
--   Http/Etag           crates/rustorr-http/src/serve_content.rs: entity tags and preconditions
--   Http/Serve          `serve` of the same file: the status, the validators and the bytes of an answer
--   Http/Lock           crates/rustorr-http/src/webdav/lock.rs: `MemLs`; children: `walk_to_root` (Walk),
--                       the operations (System), their guarantees (Laws), the headers (Header)
--   Http/Clean          `clean` of crates/rustorr-vfs/src/lib.rs and `slash_clean` of lock.rs
--   Text                what these use of Rust's `str`; children: numbers (Numbers), splitting and
--                       joining (Parts)
--   Discovery/Dns       crates/rustorr-discovery/src/dns.rs: the messages of the mDNS responder, how they
--                       are read (Parse) and written (Pack)
--   Gstreamer/Cue       crates/rustorr-gstreamer/src/cue.rs: the elements of a Matroska file (Element), the
--                       metadata (Metadata), `parse_timeline` (Timeline; a description of its cue points
--                       in Timeline/Points and of its times in Timeline/CueTimes), `read_timeline`
--                       (Source)
--   Gstreamer/Mp4       crates/rustorr-gstreamer/src/mp4box.rs: reading boxes (Boxes), the init segment
--                       (Init) and a `moof` (Moof), writing boxes (Writer), the division of a fragment
--                       (Split), its payload and its times (Track), `reclaim_payloads` (Queue)
--   Base                lists over native numbers, Boolean tests, words, results, maps
-- In the cache `open` is `open_torrent`, and `remove` is `remove_torrent`; `MemLs::lookup` is `find_root`.
--
-- A method on shared state takes the state and returns its result with the new state. A `u64` is a
-- number whose sums and differences wrap at 2^64, as in a release build; `checked_add`,
-- `saturating_sub` and `saturating_add` are written out. A text is its list of code points (in DNS
-- messages, of UTF-8 bytes), a byte a number. A `HashMap` is a list of keys and values, a `BTreeMap`
-- one in ascending order. A round of a copying loop copies at least one byte, so the loops get as many
-- rounds as there are bytes. The walk from a name to the root visits shorter and shorter names, so it
-- gets as many rounds as characters, and two more. The parsers of headers take a character at least in
-- each round, and get as many rounds as characters, and one more. The loop over the elements of a
-- Matroska file gets as many rounds as there are bytes, since an element takes two at least, and so
-- does a loop over the boxes of an MP4 buffer. In the MP4 reader an `i32` and an `i64` are the words
-- of their two's complement. An instant is a number of seconds; the parser of HTTP dates, another
-- package's, is an argument.
--
-- Not modelled: the locks of the stores (each of their methods is one step; the steps of several
-- threads on a `Cache` are those of Cache/Registry/Threads); the framing of the MP4 stream and the
-- choice of the fragments of a segment, which uses floating point; the playlists, the client of the
-- engine and the tree of names, which decide things of their own; and the crates that are glue over
-- the network, the operating system or other libraries. The walk over a `HashMap` is in the order of
-- its list, where the source promises no order.
mod Base
pub mod Domain
pub mod Cache
pub mod Http
pub mod Text
pub mod Gstreamer
pub mod Discovery
