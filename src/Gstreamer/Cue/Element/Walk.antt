-- ===== src/Gstreamer/Cue/Element/Walk.antt =====
-- The loops over elements end, and the elements they visit lie end to end.
use rustorr.Base.{
  ℕ, zero, suc, ◌+◌, ◌^◌, ◌≤◌, ◌<◌, ◌≡◌, refl, subst, true, none, some, List, [], ◌∷◌, ltb, ◌||◌,
  if◌then◌else◌, length, arith, Option-cases, inl, inr,
}
use rustorr.Base.Options.{>>=-eq-some}
use rustorr.Gstreamer.Cue.Element.{Element, end, read_element_at, element_within, walk, elements}
use rustorr.Gstreamer.Cue.Element.Bounds.{AreBytes, IsRead, read_element_at-IsRead}

-- Elements from one place to another without a gap, each of them behind its own header.
abbrev pub IsTiling : ℕ → ℕ → List Element → Type 0
IsTiling start stop [] = start ≡ stop
IsTiling start stop (e ∷ es) =
    (e.offset ≡ start) × (start + 2 ≤ e.data_offset) × IsTiling (e.data_offset + e.size) stop es

record IsNext (bytes : List ℕ) (offset limit : ℕ) (e : Element) : Type 0 where
  pub place : e.offset ≡ offset
  pub header : offset + 2 ≤ e.data_offset
  pub stop : end e ≡ e.data_offset + e.size
  pub inside : e.data_offset ≤ length bytes
  pub before : end e ≤ limit

element_within-IsNext :
    (bytes : List ℕ) (offset limit : ℕ) (e : Element)
    → AreBytes bytes
    → length bytes < 2 ^ 63
    → element_within bytes offset limit ≡ some e
    → IsNext bytes offset limit e
unfolding element_within end
element_within-IsNext bytes offset limit e a h r =
    let (e', read, kept) =
      >>=-eq-some (read_element_at bytes offset)
        (λ e'. if e'.unknown_size || ltb limit (end e') then none else some e') r in
    let same : e' ≡ e = ground (arith, kept) in
    let v = subst (IsRead bytes offset) same (read_element_at-IsRead bytes offset e' a read) in
    record {
      place = v.place;
      header = v.header;
      stop = omega (arith, v.inside, v.size);
      inside = v.inside;
      before = subst (λ x. end x ≤ limit) same (ground (arith, kept));
    }

element_within_past :
    (bytes : List ℕ) (offset limit : ℕ)
    → AreBytes bytes
    → length bytes < 2 ^ 63
    → length bytes ≤ offset
    → element_within bytes offset limit ≡ none
element_within_past bytes offset limit a h l =
    elim (Option-cases (element_within bytes offset limit)) [
      | inl none_there ↦ none_there
      | inr (e, found) ↦
          let v = element_within-IsNext bytes offset limit e a h found in
          absurd (omega (arith, v.header, v.inside))
    ]

-- The loop that starts with as many rounds as there are bytes has ended: more rounds change nothing.
walk_enough :
    (rounds k : ℕ) (bytes : List ℕ) (offset limit : ℕ)
    → AreBytes bytes
    → length bytes < 2 ^ 63
    → length bytes ≤ rounds + offset
    → walk (rounds + k) bytes offset limit ≡ walk rounds bytes offset limit
unfolding walk
walk_enough zero zero bytes offset limit a h f = refl
walk_enough zero (suc k) bytes offset limit a h f =
    ground (arith, element_within_past bytes offset limit a h (omega arith))
walk_enough (suc rounds) k bytes offset limit a h f =
    let shifted : suc (rounds + k) ≡ suc rounds + k = omega arith in
    subst (λ n. walk n bytes offset limit ≡ walk (suc rounds) bytes offset limit) shifted
      (elim (Option-cases (element_within bytes offset limit)) [
        | inl none_there ↦ ground (arith, none_there)
        | inr (e, found) ↦
            let v = element_within-IsNext bytes offset limit e a h found in
            let later : length bytes ≤ rounds + end e = omega (arith, v.header, v.stop, f) in
            ground (arith, found, walk_enough rounds k bytes (end e) limit a h later)
      ])

walk-IsTiling :
    (rounds : ℕ) (bytes : List ℕ) (offset limit : ℕ)
    → AreBytes bytes
    → length bytes < 2 ^ 63
    → offset ≤ limit
    → (walk rounds bytes offset limit).1 ≡ true
    → IsTiling offset limit (walk rounds bytes offset limit).0
unfolding walk
walk-IsTiling zero bytes offset limit a h f c = ground (arith, c)
walk-IsTiling (suc rounds) bytes offset limit a h f c =
    elim (Option-cases (element_within bytes offset limit)) [
      | inl none_there ↦ ground (arith, c, none_there)
      | inr (e, found) ↦
          let v = element_within-IsNext bytes offset limit e a h found in
          ground (
            arith,
            c,
            found,
            v.place,
            v.header,
            v.stop,
            v.before,
            walk-IsTiling rounds bytes (end e) limit a h v.before,
          )
    ]

-- The loop over elements ends within as many rounds as there are bytes: more rounds change nothing.
pub elements_enough :
    (bytes : List ℕ) (offset limit k : ℕ)
    → AreBytes bytes
    → length bytes < 2 ^ 63
    → walk (length bytes + k) bytes offset limit ≡ elements bytes offset limit
unfolding elements
elements_enough bytes offset limit k a h =
    walk_enough (length bytes) k bytes offset limit a h (omega arith)

-- When the loop over elements reached the limit, the elements it visited lie end to end from the start
-- to the limit.
pub elements-IsTiling :
    (bytes : List ℕ) (offset limit : ℕ)
    → AreBytes bytes
    → length bytes < 2 ^ 63
    → offset ≤ limit
    → (elements bytes offset limit).1 ≡ true
    → IsTiling offset limit (elements bytes offset limit).0
unfolding elements
elements-IsTiling bytes offset limit a h f c =
    walk-IsTiling (length bytes) bytes offset limit a h f c
