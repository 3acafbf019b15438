-- ===== src/Cache/Registry/Threads/Writes.antt =====
-- The steps of `write`, `piece_completed` and `discard_unowned` keep the accounts.
use rustorr.Base.{
  ℕ, ◌≡◌, refl, sym, ap, ◌∙◌, subst, Bool, true, false, some, List, ◌∷◌, ◌||◌, ok, err, arith,
  get_elem?, wrapping_add, Bool-cases, inl, inr,
}
use rustorr.Domain.Hash.{InfoHash, hash_eq, hash_eq_iff, info_hash_eq}
use rustorr.Domain.Index.{FileIndex, PieceIndex}
use rustorr.Cache.Error.{CacheError}
use rustorr.Cache.Store.{PieceStore}
use rustorr.Cache.Registry.{Cache}
use rustorr.Cache.Registry.Methods.{is_registered, account, mark_piece}
use rustorr.Cache.Registry.Pins.{without_index}
use rustorr.Cache.Registry.Threads.{
  Phase, found, written, completed, gathered, is_write, is_writing, IsCounting, uncounted, left_of,
  stored_of,
}
use rustorr.Cache.Registry.Threads.Counts.{stored_of-account, stored_of-mark_piece}
use rustorr.Cache.Registry.Threads.Accounts.{
  uncounted-without, is_writing-without, is_writing-get_elem?, is_registered-stored_of, at_or_other,
  next_AgreesAt, add_stored, accounted_AgreesAt, counted_AgreesAt, store-account, store-mark_piece,
  AgreesIn,
}

module _ {S : Type 0} {ps : PieceStore S} {size : S → InfoHash → ℕ} (k : IsCounting ps size) where
  -- A call that writes to the store: what runs instead of it, and the bytes that it adds.
  pub stores-AgreesIn :
      (c : Cache S) (running : List Phase) (i : ℕ) (t u : InfoHash) (file : FileIndex) (offset : ℕ)
      (bytes : List ℕ) (n : ℕ) (s : S)
      → get_elem? running i ≡ some (found t file offset bytes)
      → ps.write c.store t file offset bytes ≡ (ok n, s)
      → AgreesIn k c running u
      → AgreesIn k (record c { store = s }) (written t n ∷ without_index i running) u
  unfolding stored_of is_writing is_write uncounted left_of wrapping_add
  stores-AgreesIn c running i t u file offset bytes n s has wrote a =
      let rest = without_index i running in
      let before = uncounted-without u running i (found t file offset bytes) has in
      next_AgreesAt (stored_of c u) (is_writing u running) (is_writing u (written t n ∷ rest))
        (uncounted u running) (uncounted u (written t n ∷ rest)) (size c.store u) (size s u)
        (λ idle. elim (Bool-cases (hash_eq t u)) [
          | inl same ↦
              ground
                (arith, idle, is_writing-get_elem? u running i (found t file offset bytes) has same)
          | inr other ↦ ground (arith, other, is_writing-without u running i idle)
        ])
        (λ m small e. elim (Bool-cases (hash_eq t u)) [
          | inl same ↦
              let now = k.wrote c.store s t file offset n bytes wrote in
              let at_u : size s u ≡ wrapping_add (size c.store u) n =
                subst (λ x. size s x ≡ wrapping_add (size c.store x) n) ((hash_eq_iff t u).0 same)
                  now in
              rw same (omega (arith, before, e, at_u))
          | inr other ↦
              let at_u : size s u ≡ size c.store u =
                ap (λ x. size x.1 u) (sym wrote)
                ∙ k.write_other c.store t u file offset bytes other in
              rw other (omega (arith, before, e, at_u))
        ])
        a

  pub fails-AgreesIn :
      (c : Cache S) (running : List Phase) (i : ℕ) (t u : InfoHash) (file : FileIndex) (offset : ℕ)
      (bytes : List ℕ) (x : CacheError) (s : S)
      → get_elem? running i ≡ some (found t file offset bytes)
      → ps.write c.store t file offset bytes ≡ (err x, s)
      → AgreesIn k c running u
      → AgreesIn k (record c { store = s }) (without_index i running) u
  unfolding stored_of left_of wrapping_add
  fails-AgreesIn c running i t u file offset bytes x s has failed a =
      let rest = without_index i running in
      let before = uncounted-without u running i (found t file offset bytes) has in
      let at_u : size s u ≡ size c.store u =
        at_or_other (λ y. size s y ≡ size c.store y) t u
          (k.write_failed c.store s t file offset bytes x failed)
          (λ other.
            ap (λ y. size y.1 u) (sym failed)
            ∙ k.write_other c.store t u file offset bytes other) in
      next_AgreesAt (stored_of c u) (is_writing u running) (is_writing u rest) (uncounted u running)
        (uncounted u rest) (size c.store u) (size s u) (is_writing-without u running i)
        (λ m small e. omega (arith, before, e, at_u)) a

  pub accounts-AgreesIn :
      (c : Cache S) (running : List Phase) (i : ℕ) (t u : InfoHash) (n : ℕ)
      → get_elem? running i ≡ some (written t n)
      → AgreesIn k c running u
      → AgreesIn k (account c t n) (without_index i running) u
  unfolding left_of wrapping_add
  accounts-AgreesIn c running i t u n has a =
      let rest = without_index i running in
      let before = uncounted-without u running i (written t n) has in
      let same_store = ap (λ s. size s u) (store-account c t n) in
      elim (Bool-cases (hash_eq t u)) [
        | inl same ↦
            let now : stored_of (account c t n) u ≡ add_stored n (stored_of c u) =
              ground (arith, stored_of-account c t u n, hash_eq_iff t u, same) in
            rw (now, same_store)
              (accounted_AgreesAt (stored_of c u) (is_writing u running) (is_writing u rest)
                (uncounted u running) (uncounted u rest) (size c.store u) n
                (is_writing-without u running i) (before ∙ rw same) a)
        | inr other ↦
            let now : stored_of (account c t n) u ≡ stored_of c u =
              ground (arith, stored_of-account c t u n, other) in
            let pending : uncounted u running ≡ wrapping_add 0 (uncounted u rest) =
              before ∙ rw other in
            rw (now, same_store)
              (next_AgreesAt (stored_of c u) (is_writing u running) (is_writing u rest)
                (uncounted u running) (uncounted u rest) (size c.store u) (size c.store u)
                (is_writing-without u running i) (λ m small e. omega (arith, pending, e)) a)
      ]

  pub keeps-AgreesIn :
      (c c' : Cache S) (running rest : List Phase) (u : InfoHash)
      → stored_of c' u ≡ stored_of c u
      → size c'.store u ≡ size c.store u
      → (is_writing u running ≡ false → is_writing u rest ≡ false)
      → wrapping_add 0 (uncounted u running) ≡ wrapping_add 0 (uncounted u rest)
      → AgreesIn k c running u
      → AgreesIn k c' rest u
  unfolding wrapping_add
  keeps-AgreesIn c c' running rest u e f g h a =
      rw (e, f)
        (next_AgreesAt (stored_of c u) (is_writing u running) (is_writing u rest)
          (uncounted u running) (uncounted u rest) (size c.store u) (size c.store u) g
          (λ m small q. omega (arith, h, q)) a)

  pub finds-AgreesIn :
      (c : Cache S) (running : List Phase) (t u : InfoHash) (file : FileIndex) (offset : ℕ)
      (bytes : List ℕ)
      → is_registered c t ≡ true
      → AgreesIn k c running u
      → AgreesIn k c (found t file offset bytes ∷ running) u
  unfolding is_writing is_write uncounted left_of wrapping_add
  finds-AgreesIn c running t u file offset bytes r a = elim (Bool-cases (hash_eq t u)) [
    | inl same ↦
        let (m, q) = is_registered-stored_of c t r in
        let at_u : stored_of c u ≡ some m =
          subst (λ x. stored_of c x ≡ some m) ((hash_eq_iff t u).0 same) q in
        counted_AgreesAt (stored_of c u) m (is_writing u running)
          (hash_eq t u || is_writing u running) (uncounted u running)
          (wrapping_add 0 (uncounted u running)) (size c.store u) at_u (omega arith) a
    | inr other ↦
        keeps-AgreesIn c c running (found t file offset bytes ∷ running) u refl refl
          (λ idle. ground (arith, other, idle)) (omega arith) a
  ]

  pub completes-AgreesIn :
      (c : Cache S) (running : List Phase) (t u : InfoHash) (piece : PieceIndex) (s : S)
      → size s u ≡ size c.store u
      → AgreesIn k c running u
      → AgreesIn k (record c { store = s }) (completed t piece ∷ running) u
  unfolding stored_of is_writing is_write uncounted left_of wrapping_add
  completes-AgreesIn c running t u piece s e a =
      keeps-AgreesIn c (record c { store = s }) running (completed t piece ∷ running) u refl e
        (λ h. h) (omega arith) a

  pub marks-AgreesIn :
      (c : Cache S) (running : List Phase) (i : ℕ) (t u : InfoHash) (piece : PieceIndex)
      → get_elem? running i ≡ some (completed t piece)
      → AgreesIn k c running u
      → AgreesIn k (mark_piece c t piece).1 (without_index i running) u
  unfolding left_of wrapping_add
  marks-AgreesIn c running i t u piece has a =
      let before = uncounted-without u running i (completed t piece) has in
      keeps-AgreesIn c (mark_piece c t piece).1 running (without_index i running) u
        (stored_of-mark_piece c t u piece) (ap (λ s. size s u) (store-mark_piece c t piece))
        (is_writing-without u running i) (omega (arith, before)) a

  pub gathers-AgreesIn :
      (c : Cache S) (running : List Phase) (u : InfoHash) (keep : InfoHash → Bool)
      → AgreesIn k c running u
      → AgreesIn k c (gathered keep ∷ running) u
  unfolding is_writing is_write uncounted left_of wrapping_add
  gathers-AgreesIn c running u keep a =
      keeps-AgreesIn c c running (gathered keep ∷ running) u refl refl (λ h. h) (omega arith) a

  pub discards-AgreesIn :
      (c : Cache S) (running : List Phase) (i : ℕ) (u : InfoHash) (keep : InfoHash → Bool)
      → get_elem? running i ≡ some (gathered keep)
      → AgreesIn k c running u
      → AgreesIn k
          (record c { store = (ps.discard_except c.store keep).1 })
          (without_index i running)
          u
  unfolding stored_of left_of wrapping_add
  discards-AgreesIn c running i u keep has a =
      let before = uncounted-without u running i (gathered keep) has in
      keeps-AgreesIn c (record c { store = (ps.discard_except c.store keep).1 }) running
        (without_index i running) u refl (k.discard c.store keep u) (is_writing-without u running i)
        (omega (arith, before)) a
