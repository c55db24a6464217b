-- ===== src/StringTools/Chunks.antt =====
-- `SplitString(s, uSizeOfParts)`: the parts of a fixed size.
use homecontrol_server.Common.{
  ℕ, zero, suc, ◌+◌, ◌-◌, ◌%◌, ◌^◌, ◌≤◌, ◌<◌, ◌≡◌, ◌≢◌, refl, ap, sym, ◌∙◌, true, false, Text, List,
  [], ◌∷◌, ◌++◌, none, some, arith, ltb, length, length-append, take, drop, append_assoc,
  append-nil, ltb→lt, Bool-cases, inl, inr,
}
use homecontrol_server.StringTools.{split_parts}

abbrev pub joined : List Text → Text
joined [] = []
joined (p ∷ ps) = p ++ joined ps

-- Every part has the size `k`, but for the last, which may be shorter and is not empty.
abbrev pub Chunked : ℕ → List Text → Type 0
Chunked k [] = Unit {0}
Chunked k (p ∷ []) = (0 < length p) × (length p ≤ k)
Chunked k (p ∷ q ∷ ps) = (length p ≡ k) × Chunked k (q ∷ ps)

take-nil : (k : ℕ) → ◌≡◌ {A = Text} (take k []) []
take-nil zero = refl
take-nil (suc k) = refl

drop-nil : (k : ℕ) → ◌≡◌ {A = Text} (drop k []) []
drop-nil zero = refl
drop-nil (suc k) = refl

take-drop : (o k : ℕ) (s : Text) → take k (drop o s) ++ drop (o + k) s ≡ drop o s
take-drop zero zero s = ground arith
take-drop zero (suc k) [] = ground arith
take-drop zero (suc k) (c ∷ s) = ground (arith, take-drop zero k s)
take-drop (suc o) k [] = ground (arith, take-nil k, drop-nil (suc o + k))
take-drop (suc o) k (c ∷ s) =
    let e : suc o + k ≡ suc (o + k) = omega arith in rw e (take-drop o k s)

length-drop : (o : ℕ) (s : Text) → length (drop o s) ≡ length s - o
length-drop zero s = omega arith
length-drop (suc o) [] = omega arith
length-drop (suc o) (c ∷ s) = omega (arith, length-drop o s)

length-take_le : (k : ℕ) (s : Text) → length (take k s) ≤ k
length-take_le zero s = omega arith
length-take_le (suc k) [] = omega arith
length-take_le (suc k) (c ∷ s) = omega (arith, length-take_le k s)

length-take_full : (k : ℕ) (s : Text) → k ≤ length s → length (take k s) ≡ k
length-take_full zero s h = omega arith
length-take_full (suc k) [] h = absurd (omega arith)
length-take_full (suc k) (c ∷ s) h = omega (arith, length-take_full k s)

length-take_short : (k : ℕ) (s : Text) → length s ≤ k → length (take k s) ≡ length s
length-take_short zero [] h = refl
length-take_short zero (c ∷ s) h = absurd (omega arith)
length-take_short (suc k) [] h = refl
length-take_short (suc k) (c ∷ s) h = omega (arith, length-take_short k s)

Chunked-pos : (k : ℕ) (ps : List Text) → 0 < k → ps ≢ [] → Chunked k ps → 0 < length (joined ps)
Chunked-pos k [] h e c = absurd (e refl)
Chunked-pos k (p ∷ []) h e c = omega (arith, length-append p [])
Chunked-pos k (p ∷ q ∷ ps) h e c = omega (arith, length-append p (joined (q ∷ ps)))

Chunked-cons :
    (k o : ℕ) (s : Text) (ps : List Text)
    → 0 < k
    → o < length s
    → joined ps ≡ drop (o + k) s
    → Chunked k ps
    → Chunked k (take k (drop o s) ∷ ps)
Chunked-cons k o s [] h l e c = grind (
  arith,
  length-drop o s,
  length-take_le k (drop o s),
  length-take_full k (drop o s),
  length-take_short k (drop o s),
)
Chunked-cons k o s (q ∷ ps) h l e c = (
  length-take_full k (drop o s) (
      omega (
        arith,
        Chunked-pos k (q ∷ ps) h (cc) c,
        ap length e,
        length-drop (o + k) s,
        length-drop o s,
      )),
  c,
)

split_parts_stop :
    (n k o : ℕ) (s : Text) (parts : List Text)
    → ltb o (length s) ≡ false
    → split_parts (suc n) s k o parts ≡ some parts
unfolding split_parts
split_parts_stop n k o s parts h = rw h

split_parts_step :
    (n k o : ℕ) (s : Text) (parts : List Text)
    → ltb o (length s) ≡ true
    → split_parts (suc n) s k o parts
      ≡ split_parts n s k ((o + k) % 2 ^ 32) (parts ++ take k (drop o s) ∷ [])
unfolding split_parts
split_parts_step n k o s parts h = rw h

nil_of_length : (s : Text) → length s ≡ 0 → ◌≡◌ {A = Text} [] s
nil_of_length [] h = refl
nil_of_length (c ∷ s) h = absurd (omega arith)

abbrev SplitFrom : ℕ → ℕ → ℕ → Text → List Text → Type 0
SplitFrom n k o s parts =
    (ps : List Text) × (split_parts n s k o parts ≡ some (parts ++ ps))
    × (joined ps ≡ drop o s)
    × Chunked k ps

-- The rounds from an offset on.
split_from :
    (n k o : ℕ) (s : Text) (parts : List Text)
    → 0 < k
    → length s + k < 2 ^ 32
    → length s - o < n
    → SplitFrom n k o s parts
split_from zero k o s parts p f g = absurd (omega arith)
split_from (suc n) k o s parts p f g = elim (Bool-cases (ltb o (length s))) [
  | inl e ↦
      let l : o < length s = ltb→lt o (length s) e in
      let part = take k (drop o s) in
      let no_wrap : (o + k) % 2 ^ 32 ≡ o + k = omega arith in
      let (ps, r, j, c) = split_from n k (o + k) s (parts ++ part ∷ []) p f (omega arith) in
      (
        part ∷ ps,
        split_parts_step n k o s parts e
            ∙ ap (λ t. split_parts n s k t (parts ++ part ∷ [])) no_wrap
            ∙ r
            ∙ ap some (append_assoc parts (part ∷ []) ps),
        ap (◌++◌ part) j ∙ take-drop o k s,
        Chunked-cons k o s ps p l j c,
      )
  | inr e ↦ (
    [],
    split_parts_stop n k o s parts e ∙ ap some (sym (append-nil parts)),
    nil_of_length (drop o s) (ground (arith, length-drop o s)),
    tt,
  )
]

-- For a positive size, and a text short enough that the 32-bit offset does not wrap, the loop ends:
-- one round more than the text has characters is fuel enough. The parts spell the text, all have
-- the size but for the last, and none is empty.
pub split_parts_total :
    (s : Text) (k : ℕ)
    → 0 < k
    → length s + k < 2 ^ 32
    → (ps : List Text) × (split_parts (suc (length s)) s k 0 [] ≡ some ps)
      × (joined ps ≡ s)
      × Chunked k ps
split_parts_total s k p f = split_from (suc (length s)) k 0 s [] p f (omega arith)

-- With the size 0 the loop does not end on any text but the empty one: no fuel is enough.
pub split_parts_endless :
    (n : ℕ) (s : Text) (parts : List Text) → s ≢ [] → split_parts n s 0 0 parts ≡ none
unfolding split_parts
split_parts_endless zero s parts h = refl
split_parts_endless (suc n) [] parts h = absurd (h refl)
split_parts_endless (suc n) (c ∷ s) parts h =
    ground (arith, split_parts_endless n (c ∷ s) (parts ++ [] ∷ []) h)
