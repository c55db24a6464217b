-- ===== src/StringTools/Lines.antt =====
-- `SplitString(s, delim)` and the lines that it finds.
use homecontrol_server.Common.{
  ℕ, zero, suc, ◌≤◌, ◌≡◌, ◌≢◌, refl, ap, sym, ◌∙◌, Text, List, [], ◌∷◌, ◌++◌, some, arith, length,
  length-append, append_assoc, append-nil, All, inl, inr, ◌⊎◌,
}
use homecontrol_server.StringTools.{cut_line, getline, split_string_in_strings, split_string}

-- Each line with the delimiter behind it.
abbrev pub terminated : ℕ → List Text → Text
terminated delim [] = []
terminated delim (l ∷ ls) = l ++ delim ∷ terminated delim ls

abbrev pub Lacks : ℕ → Text → Type 0
Lacks delim = All (λ c. c ≢ delim)

cut_line-terminated :
    (delim : ℕ) (l rest : Text) → Lacks delim l → cut_line delim (l ++ delim ∷ rest) ≡ (l, rest)
unfolding cut_line
cut_line-terminated delim [] rest h = ground arith
cut_line-terminated delim (c ∷ l) rest h = ground (arith, cut_line-terminated delim l rest h.1)

getline-terminated :
    (delim : ℕ) (l rest : Text) → Lacks delim l → getline delim (l ++ delim ∷ rest) ≡ some (l, rest)
unfolding getline
getline-terminated delim [] rest h = ap some (cut_line-terminated delim [] rest h)
getline-terminated delim (c ∷ l) rest h = ap some (cut_line-terminated delim (c ∷ l) rest h)

split_step :
    (n delim : ℕ) (s item rest : Text) (elems : List Text)
    → getline delim s ≡ some (item, rest)
    → split_string_in_strings (suc n) delim s elems
      ≡ split_string_in_strings n delim rest (elems ++ item ∷ [])
unfolding split_string_in_strings
split_step n delim s item rest elems h = rw (h, split_string_in_strings)

split-terminated :
    (delim : ℕ) (ls : List Text) (n : ℕ) (elems : List Text)
    → All (Lacks delim) ls
    → length (terminated delim ls) ≤ n
    → split_string_in_strings n delim (terminated delim ls) elems ≡ elems ++ ls
unfolding split_string_in_strings
split-terminated delim [] zero elems h f = sym (append-nil elems)
split-terminated delim [] (suc n) elems h f = unfold getline in sym (append-nil elems)
split-terminated delim (l ∷ ls) zero elems h f =
    absurd (omega (arith, length-append l (delim ∷ terminated delim ls)))
split-terminated delim (l ∷ ls) (suc n) elems h f =
    split_step n delim (l ++ delim ∷ terminated delim ls) l (terminated delim ls) elems
      (getline-terminated delim l (terminated delim ls) h.0)
    ∙ split-terminated delim ls n (elems ++ l ∷ []) h.1
        (omega (arith, length-append l (delim ∷ terminated delim ls)))
    ∙ append_assoc elems (l ∷ []) ls

-- Lines that hold no delimiter are read back from the text that ends each of them with one.
pub split_string-terminated :
    (delim : ℕ) (ls : List Text)
    → All (Lacks delim) ls
    → split_string (terminated delim ls) delim ≡ ls
unfolding split_string
split_string-terminated delim ls h =
    split-terminated delim ls (length (terminated delim ls)) [] h (omega arith)

-- How a text falls into its first line and the rest.
abbrev Cut : ℕ → Text → Text × Text → Type 0
Cut delim s r = Lacks delim r.0 × ((s ≡ r.0 ++ delim ∷ r.1) ⊎ ((s ≡ r.0) × (r.1 ≡ [])))

cut_line_lem : (delim : ℕ) (s : Text) → Cut delim s (cut_line delim s)
unfolding cut_line
cut_line_lem delim [] = (tt, inr (refl, refl))
cut_line_lem delim (c ∷ s) = ground (arith, cut_line_lem delim s)

split_acc :
    (n delim : ℕ) (s : Text) (elems : List Text)
    → split_string_in_strings n delim s elems ≡ elems ++ split_string_in_strings n delim s []
unfolding split_string_in_strings
split_acc zero delim s elems = sym (append-nil elems)
split_acc (suc n) delim [] elems = unfold getline in sym (append-nil elems)
split_acc (suc n) delim (c ∷ s) elems =
    let (item, rest) = cut_line delim (c ∷ s) in
    let first : getline delim (c ∷ s) ≡ some (item, rest) = unfold getline in refl in
    split_step n delim (c ∷ s) item rest elems first
    ∙ split_acc n delim rest (elems ++ item ∷ [])
    ∙ append_assoc elems (item ∷ []) _
    ∙ ap (◌++◌ elems)
        (sym (split_step n delim (c ∷ s) item rest [] first ∙ split_acc n delim rest (item ∷ [])))

abbrev Split : ℕ → Text → List Text → Type 0
Split delim s ls =
    All (Lacks delim) ls × ((terminated delim ls ≡ s) ⊎ (terminated delim ls ≡ s ++ delim ∷ []))

split_nil : (n delim : ℕ) → split_string_in_strings n delim [] [] ≡ []
unfolding split_string_in_strings getline
split_nil zero delim = refl
split_nil (suc n) delim = refl

split_cons :
    (n delim c : ℕ) (s : Text)
    → split_string_in_strings (suc n) delim (c ∷ s) []
      ≡ (cut_line delim (c ∷ s)).0 ∷ split_string_in_strings n delim (cut_line delim (c ∷ s)).1 []
split_cons n delim c s =
    let (item, rest) = cut_line delim (c ∷ s) in
    split_step n delim (c ∷ s) item rest [] (unfold getline in refl)
    ∙ split_acc n delim rest (item ∷ [])

Split-more :
    (delim : ℕ) (s item rest : Text) (ls : List Text)
    → Lacks delim item
    → s ≡ item ++ delim ∷ rest
    → Split delim rest ls
    → Split delim s (item ∷ ls)
Split-more delim s item rest ls h e (all, inl t) = ((h, all), inl (rw t (sym e)))
Split-more delim s item rest ls h e (all, inr t) =
    ((h, all), inr (rw (t, e) (sym (append_assoc item (delim ∷ rest) (delim ∷ [])))))

split_string_in_strings_lem :
    (n delim : ℕ) (s : Text) → length s ≤ n → Split delim s (split_string_in_strings n delim s [])
split_string_in_strings_lem zero delim [] f = rw (split_nil zero delim) (tt, inl refl)
split_string_in_strings_lem zero delim (c ∷ s) f = absurd (omega arith)
split_string_in_strings_lem (suc n) delim [] f = rw (split_nil (suc n) delim) (tt, inl refl)
split_string_in_strings_lem (suc n) delim (c ∷ s) f =
    let (item, rest) = cut_line delim (c ∷ s) in
    let (lacks, how) = cut_line_lem delim (c ∷ s) in
    rw (split_cons n delim c s) (elim how [
      | inl e ↦ Split-more delim (c ∷ s) item rest _ lacks e (
          split_string_in_strings_lem n delim rest
            (omega (arith, ap length e, length-append item (delim ∷ rest))))
      | inr (e, r) ↦
          rw (r, split_nil n delim) ((lacks, tt), inr (ap (λ t. t ++ delim ∷ []) (sym e)))
    ])

-- For every text: no line holds the delimiter, and the lines, each ended by a delimiter, spell the
-- text, or the text with one delimiter more behind it if it did not end with one.
pub split_string_lem :
    (s : Text) (delim : ℕ)
    → All (Lacks delim) (split_string s delim)
      × ((terminated delim (split_string s delim) ≡ s)
          ⊎ (terminated delim (split_string s delim) ≡ s ++ delim ∷ []))
unfolding split_string
split_string_lem s delim = split_string_in_strings_lem (length s) delim s (omega arith)
