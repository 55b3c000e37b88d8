-- ===== src/Utils/Bytes/Windows.antt =====
-- What stands at an index of a byte string.
use mathlib.Core.List.{append_assoc, append-nil}
use orbitersdk_cpp.Prelude.{
  ℕ, zero, suc, ◌+◌, ◌≤◌, ◌<◌, ◌≡◌, refl, sym, ap, ◌∙◌, List, [], ◌∷◌, ◌++◌, length, length-append,
  take, drop, take-append, drop-append, get_elem?, le→leb, ok, arith,
}
use orbitersdk_cpp.Utils.Bytes.{substr}

-- The bytes `here` stand at the index `at` of the text.
pub record Holds (text : List ℕ) (at : ℕ) (here : List ℕ) : Type 0 where
  pub front : List ℕ
  pub rest : List ℕ
  pub split : text ≡ front ++ (here ++ rest)
  pub length-front : length front ≡ at

module _ {text : List ℕ} {at : ℕ} where
  pub Holds-bound : {here : List ℕ} → Holds text at here → at + length here ≤ length text
  Holds-bound {here} h = rw (h.split) (
      omega
        (arith, h.length-front, length-append h.front (here ++ h.rest), length-append here h.rest))

  pub Holds-left : {xs : List ℕ} (ys : List ℕ) → Holds text at (xs ++ ys) → Holds text at xs
  Holds-left {xs} ys h = record {
    front = h.front;
    rest = ys ++ h.rest;
    split = h.split ∙ ap (λ l. h.front ++ l) (append_assoc xs ys h.rest);
    length-front = h.length-front;
  }

  pub Holds-right :
      (xs : List ℕ) {ys : List ℕ} → Holds text at (xs ++ ys) → Holds text (at + length xs) ys
  Holds-right xs {ys} h = record {
    front = h.front ++ xs;
    rest = h.rest;
    split = h.split ∙ rw (append_assoc xs ys h.rest, append_assoc h.front xs (ys ++ h.rest)) refl;
    length-front = omega (arith, h.length-front, length-append h.front xs);
  }

  pub take-drop-Holds :
      {here : List ℕ} → Holds text at here → take (length here) (drop at text) ≡ here
  take-drop-Holds {here} h =
      rw (h.split, ← h.length-front, drop-append h.front (here ++ h.rest)) (take-append here h.rest)

-- A field that stands at an index, read by its position
pub substr-Holds :
    {text here : List ℕ} {at : ℕ} (pos n : ℕ)
    → Holds text at here
    → at ≡ pos
    → length here ≡ n
    → substr text pos n ≡ ok here
unfolding substr
substr-Holds {text} {here} {at} pos n h place size =
    rw (← place, ← size, le→leb at (length text) (omega (arith, Holds-bound h)), take-drop-Holds h)
      refl

-- All of the text stands at its start.
pub Holds-all : (text : List ℕ) → Holds text 0 text
Holds-all text = record {
  front = [];
  rest = [];
  split = sym (append-nil text);
  length-front = refl;
}

get_elem?-append :
    (xs ys : List ℕ) (i j : ℕ) → i ≡ length xs + j → get_elem? (xs ++ ys) i ≡ get_elem? ys j
get_elem?-append [] ys i j h = ap (get_elem? ys) (omega (arith, h))
get_elem?-append (x ∷ xs) ys zero j h = absurd (omega arith)
get_elem?-append (x ∷ xs) ys (suc i) j h = get_elem?-append xs ys i j (omega arith)

get_elem?-append_left :
    (xs ys : List ℕ) (i : ℕ) → i < length xs → get_elem? (xs ++ ys) i ≡ get_elem? xs i
get_elem?-append_left [] ys i h = elim h [ ]
get_elem?-append_left (x ∷ xs) ys zero h = refl
get_elem?-append_left (x ∷ xs) ys (suc i) h = get_elem?-append_left xs ys i (omega arith)

pub get_elem?-Holds :
    {text here : List ℕ} {at : ℕ} (j : ℕ)
    → Holds text at here
    → j < length here
    → get_elem? text (at + j) ≡ get_elem? here j
get_elem?-Holds {text} {here} {at} j h small =
    ap (λ t. get_elem? t (at + j)) h.split
    ∙ get_elem?-append h.front (here ++ h.rest) (at + j) j (omega (arith, h.length-front))
    ∙ get_elem?-append_left here h.rest j small
