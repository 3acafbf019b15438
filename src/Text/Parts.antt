-- ===== src/Text/Parts.antt =====
-- Cutting and joining texts.
use rustorr.Base.{
  ℕ, ◌≡◌, refl, ap, Bool, true, false, some, List, [], ◌∷◌, ◌++◌, ◌==◌, ◌&&◌, arith, All, not,
}
use rustorr.Text.{Text, split, split_parts, split_once, lines, join}
use rustorr.Text.Numbers.{AreDigits}
use rustorr.Text.{is_digit}

-- The character does not occur.
abbrev pub Lacks : ℕ → Text → Type 0
Lacks c s = All (λ x. (x == c) ≡ false) s

-- The same as a test, for texts that are given.
abbrev pub lacks : ℕ → Text → Bool
lacks c [] = true
lacks c (x ∷ xs) = not (x == c) && lacks c xs

pub lacks_sound : (c : ℕ) (s : Text) → lacks c s ≡ true → Lacks c s
lacks_sound c [] h = tt
lacks_sound c (x ∷ xs) h = (ground (arith, h), lacks_sound c xs (ground (arith, h)))

pub Lacks-append : (c : ℕ) (s t : Text) → Lacks c s → Lacks c t → Lacks c (s ++ t)
Lacks-append c [] t a b = b
Lacks-append c (x ∷ xs) t a b = (a.0, Lacks-append c xs t a.1 b)

-- Digits are none of the marks of a text.
pub AreDigits-Lacks : (c : ℕ) (s : Text) → is_digit c ≡ false → AreDigits s → Lacks c s
unfolding is_digit
AreDigits-Lacks c [] h d = tt
AreDigits-Lacks c (x ∷ xs) h d = (ground (arith, d.0), AreDigits-Lacks c xs h d.1)

pub split_once-append :
    (sep : ℕ) (s rest : Text) → Lacks sep s → split_once sep (s ++ sep ∷ rest) ≡ some (s, rest)
unfolding split_once
split_once-append sep [] rest h = ground arith
split_once-append sep (c ∷ cs) rest h = ground (arith, h.0, split_once-append sep cs rest h.1)

split_parts_whole : (sep : ℕ) (s : Text) → Lacks sep s → split_parts sep s ≡ (s, [])
unfolding split_parts
split_parts_whole sep [] h = refl
split_parts_whole sep (c ∷ cs) h = rw (h.0, split_parts_whole sep cs h.1) refl

split_parts-append :
    (sep : ℕ) (s rest : Text)
    → Lacks sep s
    → split_parts sep (s ++ sep ∷ rest) ≡ (s, (split_parts sep rest).0 ∷ (split_parts sep rest).1)
unfolding split_parts
split_parts-append sep [] rest h = ground arith
split_parts-append sep (c ∷ cs) rest h = rw (h.0, split_parts-append sep cs rest h.1) refl

-- Parts without the mark are found again where they were joined.
pub split-join :
    (sep : ℕ) (p : Text) (ps : List Text)
    → All (λ s. Lacks sep s) (p ∷ ps)
    → split sep (join sep (p ∷ ps)) ≡ p ∷ ps
unfolding split join
split-join sep p [] h = rw (split_parts_whole sep p h.0) refl
split-join sep p (q ∷ qs) h =
    rw (split_parts-append sep p (join sep (q ∷ qs)) h.0)
      (ap (λ l. p ∷ l) (split-join sep q qs h.1))

-- A line of its own: no line feed and no carriage return.
abbrev pub IsLine : Text → Type 0
IsLine s = Lacks 10 s × Lacks 13 s

-- A line with its line feed is cut off whole.
pub lines-append : (l rest : Text) → IsLine l → lines (l ++ 10 ∷ rest) ≡ l ∷ lines rest
unfolding lines
lines-append [] rest h = refl
lines-append (c ∷ cs) rest h = ground (arith, h.0.0, h.1.0, lines-append cs rest (h.0.1, h.1.1))

pub Lacks-join :
    (c sep : ℕ) (ps : List Text)
    → (sep == c) ≡ false
    → All (λ s. Lacks c s) ps
    → Lacks c (join sep ps)
unfolding join
Lacks-join c sep [] h a = tt
Lacks-join c sep (p ∷ []) h a = a.0
Lacks-join c sep (p ∷ q ∷ ps) h a =
    Lacks-append c p (sep ∷ join sep (q ∷ ps)) a.0 (h, Lacks-join c sep (q ∷ ps) h a.1)
