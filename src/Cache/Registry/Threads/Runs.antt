-- ===== src/Cache/Registry/Threads/Runs.antt =====
-- Every step keeps the accounts, so every reachable state has them.
use rustorr.Base.{
  ℕ, ◌≡◌, refl, sym, ap, ◌∙◌, subst, false, Option, none, some, List, ◌||◌, ok, err, arith,
  get_elem?, wrapping_add,
}
use rustorr.Base.Map.{lookup}
use rustorr.Domain.Hash.{InfoHash, info_hash_eq}
use rustorr.Domain.Index.{FileIndex}
use rustorr.Cache.Store.{PieceStore}
use rustorr.Cache.Registry.{
  Reply, ReaderRange, Cache, Entry, Pin, new, pin_inner, drop_pin, set_cap_bytes, put_entry,
}
use rustorr.Cache.Registry.Methods.{is_registered, read}
use rustorr.Cache.Registry.Demand.{record_demand}
use rustorr.Cache.Registry.Pins.{
  World, Call, step, without_index, opens, discards, writes, reads, demands, completes, pins, drops,
  removes, caps,
}
use rustorr.Cache.Registry.Threads.{
  Phase, Threads, is_writing, Whole, Step, Reach, here, next, IsCounting, uncounted, stored_of,
  start, whole, finds, stores, fails, accounts, completes_piece, fails_piece, marks, gathers,
  discards_rest, AreReleasedFor, IsReleased, AreReleased,
}
use rustorr.Cache.Registry.Threads.Counts.{
  stored_of-pin, stored_of-read, stored_of-drop_pin, stored_of-record_demand,
}
use rustorr.Cache.Registry.Threads.Accounts.{
  AgreesAt, idle_uncounted, AgreesIn, moved_AgreesIn, IsAccounted,
}
use rustorr.Cache.Registry.Threads.Calls.{open-AgreesIn, remove-AgreesIn}
use rustorr.Cache.Registry.Threads.Writes.{
  stores-AgreesIn, fails-AgreesIn, accounts-AgreesIn, finds-AgreesIn, completes-AgreesIn,
  marks-AgreesIn, gathers-AgreesIn, discards-AgreesIn,
}
use rustorr.Cache.Registry.Pins.{pins_step}

module _ {S : Type 0} where
  pins_step_cache : (r : Reply S Pin) (held : List Pin) → (pins_step r held).cache ≡ r.1
  unfolding pins_step
  pins_step_cache (ok p, c) held = refl
  pins_step_cache (err e, c) held = refl

  store-pin_inner :
      (c : Cache S) (t : InfoHash) (range : Option ReaderRange)
      → (pin_inner c t range).1.store ≡ c.store
  unfolding pin_inner
  store-pin_inner c t range = ground arith

  store-drop_pin : (c : Cache S) (p : Pin) → (drop_pin c p).store ≡ c.store
  unfolding drop_pin
  store-drop_pin c p = ground arith

  store-record_demand :
      (c : Cache S) (t : InfoHash) (file : FileIndex) (offset len : ℕ)
      → (record_demand c t file offset len).1.store ≡ c.store
  unfolding record_demand put_entry
  store-record_demand c t file offset len = ground arith

  store-read :
      (ps : PieceStore S) (c : Cache S) (t : InfoHash) (file : FileIndex) (offset n : ℕ)
      → (read ps c t file offset n).1.store ≡ c.store
  unfolding read
  store-read ps c t file offset n = ground arith

-- `step` of `drops`.
drops_step : {S : Type 0} → World S → List Pin → Option Pin → World S
drops_step w rest o = elim o [
  | none ↦ w
  | some p ↦ record { cache = drop_pin w.cache p; held = rest }
]

module _ {S : Type 0} {ps : PieceStore S} {size : S → InfoHash → ℕ} (k : IsCounting ps size) where
  pin-AgreesIn :
      (c : Cache S) (held : List Pin) (running : List Phase) (t u : InfoHash)
      (range : Option ReaderRange)
      → AgreesIn k c running u
      → AgreesIn k (pins_step (pin_inner c t range) held).cache running u
  pin-AgreesIn c held running t u range a = rw (pins_step_cache (pin_inner c t range) held) (
      moved_AgreesIn k c (pin_inner c t range).1 running u (stored_of-pin c t u range)
        (ap (λ x. size x u) (store-pin_inner c t range)) a)

  drop-AgreesIn :
      (w : World S) (running : List Phase) (u : InfoHash) (o : Option Pin) (rest : List Pin)
      → AgreesIn k w.cache running u
      → AgreesIn k (drops_step w rest o).cache running u
  unfolding drops_step
  drop-AgreesIn w running u none rest a = a
  drop-AgreesIn w running u (some p) rest a =
      moved_AgreesIn k w.cache (drop_pin w.cache p) running u (stored_of-drop_pin w.cache p u)
        (ap (λ x. size x u) (store-drop_pin w.cache p)) a

  whole-AgreesIn :
      (w : World S) (running : List Phase) (c : Call) (u : InfoHash)
      → Whole c
      → AreReleasedFor running c
      → ((t : InfoHash) → AgreesIn k w.cache running t)
      → AgreesIn k (step ps w c).cache running u
  unfolding step Whole AreReleasedFor stored_of set_cap_bytes drops_step
  whole-AgreesIn w running (opens t layout) u h free a =
      open-AgreesIn k w.cache running t u layout (a t) (a u)
  whole-AgreesIn w running (discards owned) u h free a = absurd h
  whole-AgreesIn w running (writes t file offset bytes) u h free a = absurd h
  whole-AgreesIn w running (reads t file offset n) u h free a =
      moved_AgreesIn k w.cache (read ps w.cache t file offset n).1 running u
        (stored_of-read w.cache t u ps file offset n)
        (ap (λ x. size x u) (store-read ps w.cache t file offset n)) (a u)
  whole-AgreesIn w running (demands t file offset len) u h free a =
      moved_AgreesIn k w.cache (record_demand w.cache t file offset len).1 running u
        (stored_of-record_demand w.cache t u file offset len)
        (ap (λ x. size x u) (store-record_demand w.cache t file offset len)) (a u)
  whole-AgreesIn w running (completes t piece) u h free a = absurd h
  whole-AgreesIn w running (pins t range) u h free a =
      pin-AgreesIn w.cache w.held running t u range (a u)
  whole-AgreesIn w running (drops i) u h free a =
      drop-AgreesIn w running u (get_elem? w.held i) (without_index i w.held) (a u)
  whole-AgreesIn w running (removes t) u h free a =
      remove-AgreesIn k w.cache running t u free (a t) (a u)
  whole-AgreesIn w running (caps n) u h free a = a u

  Step-IsAccounted :
      (w v : Threads S) (s : Step ps w v) → IsReleased ps s → IsAccounted k w → IsAccounted k v
  unfolding stored_of IsReleased
  Step-IsAccounted w v (whole c h e) free a =
      rw e (record { at = λ u. whole-AgreesIn w.world w.running c u h free a.at })
  Step-IsAccounted w v (finds t file offset bytes r e) free a = rw e (record {
    at = λ u. finds-AgreesIn k w.world.cache w.running t u file offset bytes r (a.at u);
  })
  Step-IsAccounted w v (stores i t file offset bytes n s has r e) free a = rw e (record {
    at = λ u. stores-AgreesIn k w.world.cache w.running i t u file offset bytes n s has r (a.at u);
  })
  Step-IsAccounted w v (fails i t file offset bytes x s has r e) free a = rw e (record {
    at = λ u. fails-AgreesIn k w.world.cache w.running i t u file offset bytes x s has r (a.at u);
  })
  Step-IsAccounted w v (accounts i t n has e) free a =
      rw e (record { at = λ u. accounts-AgreesIn k w.world.cache w.running i t u n has (a.at u) })
  Step-IsAccounted w v (completes_piece t piece s r e) free a = rw e (record {
    at = λ u.
        completes-AgreesIn k w.world.cache w.running t u piece s
          (ap (λ y. size y.1 u) (sym r) ∙ k.piece w.world.cache.store t u piece) (a.at u);
  })
  Step-IsAccounted w v (fails_piece t piece x s r e) free a = rw e (record {
    at = λ u.
        moved_AgreesIn k w.world.cache (record w.world.cache { store = s }) w.running u refl
          (ap (λ y. size y.1 u) (sym r) ∙ k.piece w.world.cache.store t u piece) (a.at u);
  })
  Step-IsAccounted w v (marks i t piece has e) free a =
      rw e (record { at = λ u. marks-AgreesIn k w.world.cache w.running i t u piece has (a.at u) })
  Step-IsAccounted w v (gathers owned e) free a = rw e (record {
    at = λ u.
        gathers-AgreesIn k w.world.cache w.running u (λ t. owned t || is_registered w.world.cache t)
          (a.at u);
  })
  Step-IsAccounted w v (discards_rest i keep has e) free a =
      rw e (record { at = λ u. discards-AgreesIn k w.world.cache w.running i u keep has (a.at u) })

  Reach-IsAccounted :
      (w v : Threads S) (r : Reach ps w v) → AreReleased ps r → IsAccounted k w → IsAccounted k v
  unfolding AreReleased
  Reach-IsAccounted w v here free a = a
  Reach-IsAccounted w v (next {u} r s) free a =
      Step-IsAccounted u v s free.1 (Reach-IsAccounted w u r free.0 a)

  start-IsAccounted : (store : S) (cap_bytes : ℕ) → IsAccounted k (start store cap_bytes)
  unfolding start new stored_of is_writing lookup
  start-IsAccounted store cap_bytes = record { at = λ u. refl }

  -- From a cache that knows no torrent, and over a store whose answers tell the bytes it holds, let the
  -- calls of several threads interleave in any way in which no torrent is removed while a write to it
  -- runs. Then the bytes counted of a registered torrent are those that the store holds, whenever no
  -- write to the torrent is running.
  pub stored-eq-size :
      (store : S) (cap_bytes : ℕ) (v : Threads S) (t : InfoHash) (e : Entry)
      (r : Reach ps (start store cap_bytes) v)
      → AreReleased ps r
      → lookup t v.world.cache.torrents ≡ some e
      → is_writing t v.running ≡ false
      → e.stored ≡ size v.world.cache.store t
  unfolding stored_of wrapping_add
  stored-eq-size store cap_bytes v t e r free q idle =
      let a =
        (Reach-IsAccounted (start store cap_bytes) v r free (start-IsAccounted store cap_bytes)).at
          t in
      let at_t : AgreesAt (some e.stored) (is_writing t v.running) (uncounted t v.running)
          (size v.world.cache.store t) =
        subst
          (λ o.
            AgreesAt o (is_writing t v.running) (uncounted t v.running)
              (size v.world.cache.store t))
          {y = some e.stored} (ground (arith, q)) a in
      omega (arith, at_t.0, at_t.1, idle_uncounted t v.running idle)
