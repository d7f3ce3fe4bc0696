-- ===== src/Bwprof/Split/RoundTrip.antt =====
-- `splitString` on cells that are joined, and on lines.
use hmsdk.Base.{
  ℕ, ◌≡◌, refl, ap, ◌≢◌, inl, inr, true, false, ◌==◌, Bool-cases, All-append, List, [], ◌∷◌, ◌++◌,
  append_assoc, append-nil, arith, Bytes, Lacks, All,
}
use hmsdk.Bwprof.Split.{split_from, split_string, cells}

-- Every line before a delimiter.
abbrev pub lines : ℕ → List Bytes → Bytes
lines d [] = []
lines d (p ∷ ps) = p ++ (d ∷ lines d ps)

abbrev pub get_last : Bytes → List Bytes → Bytes
get_last p [] = p
get_last p (q ∷ qs) = get_last q qs

split_from-append :
    (d : ℕ) (p rest token : Bytes)
    → Lacks d p
    → split_from d token (p ++ rest) ≡ split_from d (token ++ p) rest
unfolding split_from
split_from-append d [] rest token l = simp append-nil
split_from-append d (c ∷ p) rest token l =
    ground
      (arith, split_from-append d p rest (token ++ (c ∷ [])) l.1, append_assoc token (c ∷ []) p)

split_from_at : (d : ℕ) (s token : Bytes) → split_from d token (d ∷ s) ≡ token ∷ split_from d [] s
unfolding split_from
split_from_at d s token = ground arith

split_from_end : (d : ℕ) (token : Bytes) → token ≢ [] → split_from d token [] ≡ token ∷ []
unfolding split_from
split_from_end d [] h = absurd (h refl)
split_from_end d (c ∷ s) h = refl

split_from-cells :
    (d : ℕ) (p : Bytes) (ps : List Bytes)
    → All (Lacks d) ps
    → get_last p ps ≢ []
    → split_from d p (cells d ps) ≡ p ∷ ps
split_from-cells d p [] l h = split_from_end d p h
split_from-cells d p (q ∷ qs) l h =
    rw (split_from_at d (q ++ cells d qs) p, split_from-append d q (cells d qs) [] l.0)
      (ap (◌∷◌ p) (split_from-cells d q qs l.1 h))

-- A line of cells that hold no delimiter, the last one not empty, is split into these cells.
pub split_string-cells :
    (d : ℕ) (p : Bytes) (ps : List Bytes)
    → Lacks d p
    → All (Lacks d) ps
    → get_last p ps ≢ []
    → split_string (p ++ cells d ps) d ≡ p ∷ ps
unfolding split_string
split_string-cells d p ps lp l h =
    rw (split_from-append d p (cells d ps) [] lp) (split_from-cells d p ps l h)

-- Lines that hold no newline, each ended by one, are read back.
pub split_string-lines :
    (d : ℕ) (ls : List Bytes) → All (Lacks d) ls → split_string (lines d ls) d ≡ ls
unfolding split_string split_from
split_string-lines d [] l = refl
split_string-lines d (p ∷ ps) l =
    unfold split_string in
    rw (split_from-append d p (d ∷ lines d ps) [] l.0, split_from_at d (lines d ps) p)
      (ap (◌∷◌ p) (split_string-lines d ps l.1))

pub get_last-ne-nil :
    (p : Bytes) (ps : List Bytes) → p ≢ [] → All (λ q. q ≢ []) ps → get_last p ps ≢ []
get_last-ne-nil p [] h l = h
get_last-ne-nil p (q ∷ qs) h l = get_last-ne-nil q qs l.0 l.1

-- Writing one more line at the end of the file.
pub lines-append :
    (d : ℕ) (ls : List Bytes) (l : Bytes) → lines d ls ++ (l ++ (d ∷ [])) ≡ lines d (ls ++ (l ∷ []))
lines-append d [] l = refl
lines-append d (p ∷ ps) l = rw append_assoc (ap (λ s. p ++ (d ∷ s)) (lines-append d ps l))

split_from_other :
    (d c : ℕ) (s token : Bytes)
    → (c == d) ≡ false
    → split_from d token (c ∷ s) ≡ split_from d (token ++ (c ∷ [])) s
unfolding split_from
split_from_other d c s token e = rw (e, split_from)

split_from_same :
    (d c : ℕ) (s token : Bytes)
    → (c == d) ≡ true
    → split_from d token (c ∷ s) ≡ token ∷ split_from d [] s
unfolding split_from
split_from_same d c s token e = rw (e, split_from)

-- No token holds the delimiter.
split_from-Lacks : (d : ℕ) (s token : Bytes) → Lacks d token → All (Lacks d) (split_from d token s)
split_from-Lacks d [] [] l = unfold split_from in tt
split_from-Lacks d [] (t ∷ token) l = unfold split_from in (l, tt)
split_from-Lacks d (c ∷ s) token l = elim (Bool-cases (c == d)) [
  | inl same ↦ rw (split_from_same d c s token same) (l, split_from-Lacks d s [] tt)
  | inr other ↦ rw (split_from_other d c s token other) (
      split_from-Lacks d s (token ++ (c ∷ []))
        (All-append _ token (c ∷ []) l (λ e. ground arith, tt)))
]

pub split_string-Lacks : (s : Bytes) (d : ℕ) → All (Lacks d) (split_string s d)
unfolding split_string
split_string-Lacks s d = split_from-Lacks d s [] tt
