-- ===== src/Tests/JsonTree.antt =====
-- A JSON library in which the laws of Json.antt hold: values are trees, and the text of a tree is its
-- prefix code.
use homecontrol_server.Common.{
  ℕ, zero, suc, ◌+◌, ◌≤◌, ◌≡◌, refl, ap, sym, ◌∙◌, ℤ, pos, negsuc, Bool, true, false, Text, text_eq,
  List, [], ◌∷◌, ◌++◌, append_assoc, Option, none, some, ◌>>=◌, arith, length, length-append,
  append-nil, ◌==◌, take, drop, if◌then◌else◌,
}
use homecontrol_server.Common.Strings.{text_eq_refl}
use homecontrol_server.Json.{JsonLib, JsonLaws, ReadLaws}

pub data Tree : Type 0 where
  null_value : Tree
  integer : ℤ → Tree
  double : ℕ → Tree
  text : Text → Tree
  truth : Bool → Tree
  no_elements : Tree
  element : Tree → Tree → Tree
  member : Tree → Text → Tree → Tree

unfoldable pub member_of : Tree → Text → Option Tree
member_of (member v n x) k = let rest = member_of v k in if text_eq n k then some x else rest
member_of null_value k = some null_value
member_of _ k = none

abbrev pub is_some : Option Tree → Bool
is_some none = false
is_some (some v) = true

-- Behind each tag stand the parts; a text stands behind its length.
pub encode : Tree → Text
encode null_value = 0 ∷ []
encode (integer (pos n)) = 1 ∷ n ∷ []
encode (integer (negsuc n)) = 2 ∷ n ∷ []
encode (double d) = 3 ∷ d ∷ []
encode (text s) = 4 ∷ length s ∷ s
encode (truth b) = 6 ∷ (if b then 1 else 0) ∷ []
encode no_elements = 7 ∷ []
encode (element v x) = 8 ∷ 0 ∷ encode v ++ encode x
encode (member v n x) = 5 ∷ length n ∷ n ++ (encode v ++ encode x)

pub decode : ℕ → Text → Option (Tree × Text)
decode zero s = none
decode (suc f) [] = none
decode (suc f) (tag ∷ []) =
    if tag == 0 then some (null_value, []) else if tag == 7 then some (no_elements, []) else none
decode (suc f) (tag ∷ n ∷ s) =
    let first = decode f (drop n s) in
    if tag == 0
    then some (null_value, n ∷ s)
    else if tag == 1
    then some (integer (pos n), s)
    else if tag == 2
    then some (integer (negsuc n), s)
    else if tag == 3
    then some (double n, s)
    else if tag == 4
    then some (text (take n s), drop n s)
    else if tag == 6
    then some (truth (n == 1), s)
    else if tag == 7
    then some (no_elements, n ∷ s)
    else if tag == 8
    then first
      >>= (λ (v : Tree × Text). decode f v.1 >>= (λ (x : Tree × Text). some (element v.0 x.0, x.1)))
    else first >>= (λ (v : Tree × Text).
      decode f v.1 >>= (λ (x : Tree × Text). some (member v.0 (take n s) x.0, x.1)))

height : Tree → ℕ
height (member v n x) = suc (height v + height x)
height (element v x) = suc (height v + height x)
height _ = 1

drop_prefix : (a b : Text) → drop (length a) (a ++ b) ≡ b
drop_prefix [] b = refl
drop_prefix (x ∷ a) b = drop_prefix a b

take_prefix : (a b : Text) → take (length a) (a ++ b) ≡ a
take_prefix [] b = refl
take_prefix (x ∷ a) b = ap (◌∷◌ x) (take_prefix a b)

decode-encode :
    (f : ℕ) (v : Tree) (rest : Text) → height v ≤ f → decode f (encode v ++ rest) ≡ some (v, rest)
unfolding decode encode height
decode-encode zero null_value rest h = absurd (omega arith)
decode-encode zero (integer n) rest h = absurd (omega arith)
decode-encode zero (double d) rest h = absurd (omega arith)
decode-encode zero (text s) rest h = absurd (omega arith)
decode-encode zero (truth b) rest h = absurd (omega arith)
decode-encode zero no_elements rest h = absurd (omega arith)
decode-encode zero (element v x) rest h = absurd (omega arith)
decode-encode zero (member v n x) rest h = absurd (omega arith)
decode-encode (suc f) null_value [] h = refl
decode-encode (suc f) null_value (c ∷ rest) h = refl
decode-encode (suc f) (integer (pos n)) rest h = refl
decode-encode (suc f) (integer (negsuc n)) rest h = refl
decode-encode (suc f) (double d) rest h = refl
decode-encode (suc f) (text s) rest h = rw (take_prefix s rest, drop_prefix s rest)
decode-encode (suc f) (truth true) rest h = refl
decode-encode (suc f) (truth false) rest h = refl
decode-encode (suc f) no_elements [] h = refl
decode-encode (suc f) no_elements (c ∷ rest) h = refl
decode-encode (suc f) (element v x) rest h = rw (append_assoc (encode v) (encode x) rest) (
    rw (decode-encode f v (encode x ++ rest) (omega arith))
      (rw (decode-encode f x rest (omega arith)) refl))
decode-encode (suc f) (member v n x) rest h =
    rw (append_assoc n (encode v ++ encode x) rest, append_assoc (encode v) (encode x) rest)
      (rw
        (
          take_prefix n (encode v ++ (encode x ++ rest)),
          drop_prefix n (encode v ++ (encode x ++ rest)),
        )
        (rw (decode-encode f v (encode x ++ rest) (omega arith))
          (rw (decode-encode f x rest (omega arith)) refl)))

height_le : (v : Tree) → height v ≤ length (encode v)
unfolding height encode
height_le null_value = omega arith
height_le (integer (pos n)) = omega arith
height_le (integer (negsuc n)) = omega arith
height_le (double d) = omega arith
height_le (text s) = omega arith
height_le (truth b) = omega arith
height_le no_elements = omega arith
height_le (element v x) =
    omega (arith, height_le v, height_le x, length-append (encode v) (encode x))
height_le (member v n x) = omega (
  arith,
  height_le v,
  height_le x,
  length-append n (encode v ++ encode x),
  length-append (encode v) (encode x),
)

pub whole : Option (Tree × Text) → Option Tree
whole (some (v, [])) = some v
whole _ = none

unfoldable pub elements : List Tree → Tree
elements [] = no_elements
elements (v ∷ vs) = element v (elements vs)

unfoldable pub elements_of : Tree → Option (List Tree)
elements_of no_elements = some []
elements_of (element v x) = elements_of x >>= (λ vs. some (v ∷ vs))
elements_of _ = none

abbrev pub tree_json : JsonLib
tree_json = record {
  Json = Tree;
  parse = λ s. whole (decode (length s) s);
  field = member_of;
  is_null = λ v. elim v [ null_value ↦ true | _ ↦ false ];
  is_integer = λ v. elim v [ integer n ↦ true | _ ↦ false ];
  as_integer = λ v. elim v [ integer n ↦ some n | _ ↦ none ];
  as_double = λ v. elim v [ double d ↦ some d | _ ↦ none ];
  as_string = λ v. elim v [ text s ↦ some s | _ ↦ none ];
  as_bool = λ v. elim v [ truth b ↦ some b | _ ↦ none ];
  has_field = λ v n. is_some (member_of v n);
  is_boolean = λ v. elim v [ truth b ↦ true | _ ↦ false ];
  is_array = λ v. elim v [ no_elements ↦ true | element x y ↦ true | _ ↦ false ];
  as_array = elements_of;
  null = null_value;
  with_field = member;
  number = integer;
  double_number = double;
  string = text;
  boolean = truth;
  array = elements;
  serialize = encode;
}

pub parse-encode : (v : Tree) → whole (decode (length (encode v)) (encode v)) ≡ some v
unfolding whole
parse-encode v =
    ap (λ s. whole (decode (length (encode v)) s)) (sym (append-nil (encode v)))
    ∙ ap whole (decode-encode (length (encode v)) v [] (height_le v))

member_of-same : (v : Tree) (n : Text) (x : Tree) → member_of (member v n x) n ≡ some x
unfolding member_of
member_of-same v n x = rw (text_eq_refl n)

member_of-other :
    (v : Tree) (n k : Text) (x : Tree)
    → text_eq n k ≡ false
    → member_of (member v n x) k ≡ member_of v k
unfolding member_of
member_of-other v n k x h = rw h

pub tree_laws : JsonLaws tree_json
tree_laws = record {
  is_object = λ v. true;
  is_object-null = refl;
  is_object-with_field = λ v n x h. refl;
  field-same = λ v n x h. member_of-same v n x;
  field-other = λ v n k x h d. member_of-other v n k x d;
  is_integer-number = λ n. refl;
  as_integer-number = λ n. refl;
  as_double-double_number = λ d h. refl;
  has_text = λ v. true;
  has_text-null = refl;
  has_text-number = λ n. refl;
  has_text-double_number = λ d h. refl;
  has_text-string = λ s. refl;
  has_text-with_field = λ v n x h k. refl;
  parse-serialize = λ v h. parse-encode v;
}

elements_of-elements : (vs : List Tree) → elements_of (elements vs) ≡ some vs
unfolding elements elements_of
elements_of-elements [] = refl
elements_of-elements (v ∷ vs) = rw (elements_of-elements vs) refl

elements_is_array : (vs : List Tree) → tree_json.is_array (elements vs) ≡ true
unfolding elements
elements_is_array [] = refl
elements_is_array (v ∷ vs) = refl

pub tree_read_laws : ReadLaws tree_json
tree_read_laws = record {
  is_null-with_field = λ v n x. refl;
  as_string-string = λ s. refl;
  is_array-array = elements_is_array;
  as_array-array = elements_of-elements;
  is_boolean-boolean = λ b. refl;
  as_bool-boolean = λ b. refl;
}
