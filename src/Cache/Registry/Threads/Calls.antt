-- ===== src/Cache/Registry/Threads/Calls.antt =====
-- Opening and removing a torrent keep the accounts.
use rustorr.Base.{
  ℕ, ◌≡◌, refl, sym, ap, ◌∙◌, subst, false, none, List, arith, Option-cases, Result-cases, inl, inr,
}
use rustorr.Base.Map.{lookup, remove, lookup-remove}
use rustorr.Domain.Hash.{InfoHash, hash_eq, hash_eq_iff, info_hash_eq}
use rustorr.Cache.Layout.{TorrentLayout}
use rustorr.Cache.Store.{PieceStore, Recovered}
use rustorr.Cache.Registry.{Cache}
use rustorr.Cache.Registry.Methods.{register, open_torrent, remove_torrent}
use rustorr.Cache.Registry.Threads.{Phase, is_writing, IsCounting, stored_of}
use rustorr.Cache.Registry.Threads.Counts.{stored_of-register}
use rustorr.Cache.Registry.Threads.Accounts.{
  at_or_other, absent_stored_of, absent_idle, store-register, open_again, open_registers,
  open_failed, remove_kept, AgreesIn, moved_AgreesIn, fresh_AgreesIn, absent_AgreesIn,
}

module _ {S : Type 0} {ps : PieceStore S} {size : S → InfoHash → ℕ} (k : IsCounting ps size) where
  pub register-AgreesIn :
      (c : Cache S) (running : List Phase) (t : InfoHash) (layout : TorrentLayout) (r : Recovered)
      → lookup t c.torrents ≡ none
      → is_writing t running ≡ false
      → size c.store t ≡ r.stored_bytes
      → AgreesIn k (register c t layout r).1 running t
  register-AgreesIn c running t layout r q h f =
      let same = ap (λ s. size s t) (store-register c t layout r) ∙ f in
      elim (stored_of-register c t t layout r q) [
        | inl kept ↦
            absent_AgreesIn k (register c t layout r).1 running t h (kept ∙ absent_stored_of c t q)
        | inr fresh ↦
            fresh_AgreesIn k (register c t layout r).1 running t r.stored_bytes h
              (fresh ∙ ground (arith, hash_eq_iff t t)) same
      ]

  pub register_other :
      (c : Cache S) (t u : InfoHash) (layout : TorrentLayout) (r : Recovered)
      → lookup t c.torrents ≡ none
      → hash_eq t u ≡ false
      → stored_of (register c t layout r).1 u ≡ stored_of c u
  register_other c t u layout r q other = elim (stored_of-register c t u layout r q) [
    | inl kept ↦ kept
    | inr fresh ↦ fresh ∙ ground (arith, other)
  ]

  pub open-AgreesIn :
      (c : Cache S) (running : List Phase) (t u : InfoHash) (layout : TorrentLayout)
      → AgreesIn k c running t
      → AgreesIn k c running u
      → AgreesIn k (open_torrent ps c t layout).1 running u
  unfolding open_torrent stored_of
  open-AgreesIn c running t u layout at_t at_u =
      let (r, s) = ps.open_torrent c.store t layout in
      let c' : Cache S = record c { store = s } in
      elim (Option-cases (lookup t c.torrents)) [
        | inr (e, q) ↦ subst (λ d. AgreesIn k d running u) (sym (open_again ps c t layout e q)) at_u
        | inl q ↦
            let idle = absent_idle c running t (size c.store t) q at_t in
            elim (Result-cases (ps.open_torrent c.store t layout).0) [
              | inl (recovered, e) ↦
                  let c'' = (register c' t layout recovered).1 in
                  subst (λ d. AgreesIn k d running u)
                    (sym (open_registers ps c t layout recovered q e))
                    (at_or_other (AgreesIn k c'' running) t u
                      (register-AgreesIn c' running t layout recovered q idle
                        (k.opened c.store s t layout recovered (ap (λ x. (x, s)) e)))
                      (λ other.
                        moved_AgreesIn k c c'' running u
                          (register_other c' t u layout recovered q other)
                          (ap (λ x. size x u) (store-register c' t layout recovered)
                            ∙ k.open_other c.store t u layout other)
                          at_u))
              | inr (x, e) ↦
                  subst (λ d. AgreesIn k d running u) (sym (open_failed ps c t layout x q e))
                    (at_or_other (AgreesIn k c' running) t u
                      (absent_AgreesIn k c' running t idle (absent_stored_of c' t q))
                      (λ other.
                        moved_AgreesIn k c c' running u refl (k.open_other c.store t u layout other)
                          at_u))
            ]
      ]

  pub remove-AgreesIn :
      (c : Cache S) (running : List Phase) (t u : InfoHash)
      → is_writing t running ≡ false
      → AgreesIn k c running t
      → AgreesIn k c running u
      → AgreesIn k (remove_torrent ps c t).1 running u
  unfolding stored_of
  remove-AgreesIn c running t u h at_t at_u =
      let s = (ps.remove_torrent c.store t).1 in
      let c' : Cache S = record c { store = s } in
      let c'' : Cache S = record c' { torrents = remove t c.torrents } in
      elim (remove_kept ps c t) [
        | inl kept ↦ subst (λ d. AgreesIn k d running u) (sym kept) at_u
        | inr (inl (x, r, e)) ↦
            subst (λ d. AgreesIn k d running u) (sym e)
              (at_or_other (AgreesIn k c' running) t u
                (moved_AgreesIn k c c' running t refl
                  (k.remove_failed c.store s t x (ap (λ y. (y, s)) r)) at_t)
                (λ other.
                  moved_AgreesIn k c c' running u refl (k.remove_other c.store t u other) at_u))
        | inr (inr e) ↦
            subst (λ d. AgreesIn k d running u) (sym e)
              (at_or_other (AgreesIn k c'' running) t u
                (absent_AgreesIn k c'' running t h
                  (ground (arith, lookup-remove t t c.torrents, hash_eq_iff t t)))
                (λ other.
                  moved_AgreesIn k c c'' running u
                    (ground (arith, lookup-remove t u c.torrents, other))
                    (k.remove_other c.store t u other) at_u))
      ]
