-- ===== src/StringTools/Tokens.antt =====
-- `GetStringByToken`: what it returns stands between the token and the end marker.
use homecontrol_server.Common.{
  ℕ, ◌+◌, ◌-◌, ◌≡◌, ◌≢◌, refl, ap, ap₂, sym, ◌∙◌, true, Text, [], ◌∷◌, ◌++◌, some, arith, length,
  length-append, take, drop, append_assoc, Option-cases, Bool-cases, inl, inr,
}
use homecontrol_server.StringTools.{is_prefix, find_here, find, substr, get_string_by_token}

is_prefix_sound : (t s : Text) → is_prefix t s ≡ true → (post : Text) × (s ≡ t ++ post)
unfolding is_prefix
is_prefix_sound [] s h = (s, refl)
is_prefix_sound (c ∷ t) [] h = absurd (ground arith)
is_prefix_sound (c ∷ t) (d ∷ s) h =
    let (post, e) = is_prefix_sound t s (ground arith) in (post, ground arith)

-- A text split at a place, with a token right behind the place.
abbrev HasAt : Text → Text → ℕ → Type 0
HasAt s token i = (pre : Text) × (post : Text) × (s ≡ pre ++ token ++ post) × (length pre ≡ i)

find_here_sound : (token s : Text) (i : ℕ) → find_here token s ≡ some i → HasAt s token i
unfolding find_here
find_here_sound token [] i h = elim (Bool-cases (is_prefix token [])) [
  | inl e ↦ let (post, p) = is_prefix_sound token [] e in ([], post, p, ground arith)
  | inr e ↦ absurd (ground arith)
]
find_here_sound token (c ∷ s) i h = elim (Bool-cases (is_prefix token (c ∷ s))) [
  | inl e ↦ let (post, p) = is_prefix_sound token (c ∷ s) e in ([], post, p, ground arith)
  | inr e ↦ elim (Option-cases (find_here token s)) [
    | inl n ↦ absurd (ground arith)
    | inr (j, f) ↦
        let (pre, post, p, l) = find_here_sound token s j f in
        (c ∷ pre, post, ap (◌∷◌ c) p, ground arith)
  ]
]

find_sound :
    (s token : Text) (start i : ℕ)
    → find s token start ≡ some i
    → (j : ℕ) × (i ≡ start + j) × HasAt (drop start s) token j
unfolding find
find_sound s token start i h = elim (Option-cases (find_here token (drop start s))) [
  | inl n ↦ absurd (ground arith)
  | inr (j, f) ↦ (j, ground arith, find_here_sound token (drop start s) j f)
]

drop_prefix : (a b : Text) → drop (length a) (a ++ b) ≡ b
drop_prefix [] b = refl
drop_prefix (c ∷ a) b = drop_prefix a b

take_prefix : (a b : Text) → take (length a) (a ++ b) ≡ a
take_prefix [] b = refl
take_prefix (c ∷ a) b = ap (◌∷◌ c) (take_prefix a b)

Found : Text → Text → Text → Text → Type 0
Found s token endmarker r =
    (found : ℕ) × (e : ℕ) × (find s token 0 ≡ some found)
    × (find s endmarker (found + length token) ≡ some e)
    × (r ≡ substr s (found + length token) (e - (found + length token)))

get_string-Found :
    (s token endmarker : Text)
    → get_string_by_token s token endmarker ≢ []
    → Found s token endmarker (get_string_by_token s token endmarker)
unfolding get_string_by_token Found
get_string-Found s token endmarker h = elim (Option-cases (find s token 0)) [
  | inl n ↦ absurd (h (ground arith))
  | inr (found, f) ↦ elim (Option-cases (find s endmarker (found + length token))) [
    | inl n ↦ absurd (h (ground arith))
    | inr (e, g) ↦ (found, e, f, g, ground (arith, h))
  ]
]

regroup : (a b c d : Text) → a ++ (b ++ c ++ d) ≡ a ++ b ++ c ++ d
regroup a b c d = simp append_assoc

-- A text that is found, if it is not empty, stands in the source text directly behind the token and
-- directly before the end marker.
pub get_string_by_token_sound :
    (s token endmarker : Text)
    → get_string_by_token s token endmarker ≢ []
    → (pre : Text) × (post : Text) × (s
        ≡ pre ++ token ++ get_string_by_token s token endmarker ++ endmarker ++ post)
unfolding Found
get_string_by_token_sound s token endmarker h =
    let r = get_string_by_token s token endmarker in
    let (found, e, f, g, sub) = get_string-Found s token endmarker h in
    let (i, at_start, (pre, behind, split, before)) = find_sound s token 0 found f in
    let (j, at_end, (mid, post, split', between)) =
      find_sound s endmarker (found + length token) e g in
    let start : found + length token ≡ length (pre ++ token) =
      omega (arith, length-append pre token, before) in
    let rest : drop (found + length token) s ≡ behind =
      ap₂ drop start split ∙ drop_prefix (pre ++ token) behind in
    let size : e - (found + length token) ≡ length mid = omega (arith, at_end, between) in
    let is_mid : r ≡ mid =
      sub
      ∙ ap₂ take size (split' ∙ append_assoc mid endmarker post)
      ∙ take_prefix mid (endmarker ++ post) in
    (
      pre,
      post,
      split
          ∙ ap (◌++◌ (pre ++ token))
              (sym rest ∙ split' ∙ ap (λ t. t ++ endmarker ++ post) (sym is_mid))
          ∙ regroup (pre ++ token) r endmarker post,
    )
