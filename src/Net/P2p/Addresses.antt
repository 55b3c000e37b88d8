-- ===== src/Net/P2p/Addresses.antt =====
-- The text of an address that the decoder of nodes writes and lets boost read.
use mathlib.Core.List.{append_assoc}
use orbitersdk_cpp.Prelude.{
  ℕ, suc, ◌+◌, ◌<◌, ◌≡◌, refl, sym, ap, All, List, [], ◌∷◌, ◌++◌, length, length-append, take,
  take-append, Result, ok, err, runtime_error, ◌==◌, if◌then◌else◌, arith,
}
use orbitersdk_cpp.Net.P2p.Answers.{IpAddress, v4, to_string, groups, pop_back}

-- Decimal numbers with `sign` between them
unfoldable pub joined : ℕ → ℕ → List ℕ → List ℕ
joined sign b [] = to_string b
joined sign b (c ∷ bytes) = to_string b ++ (sign ∷ joined sign c bytes)

pub count : ℕ → List ℕ → ℕ
count c [] = 0
count c (x ∷ s) = (if x == c then 1 else 0) + count c s

-- What boost documents of `from_string`: it reads four numbers with dots between them as an IPv4
-- address; no address has more than eight colons.
pub record IsFromString (from_string : List ℕ → Result IpAddress) : Type 0 where
  pub reads-v4 :
      (a b c d : ℕ)
      → All (λ x. x < 256) (a ∷ (b ∷ (c ∷ (d ∷ []))))
      → from_string (joined b'.' a (b ∷ (c ∷ (d ∷ [])))) ≡ ok (v4 (a ∷ (b ∷ (c ∷ (d ∷ [])))))
  pub refuses : (text : List ℕ) → 8 < count b':' text → from_string text ≡ err runtime_error

groups-joined :
    (sign b : ℕ) (bytes : List ℕ) → groups sign (b ∷ bytes) ≡ joined sign b bytes ++ (sign ∷ [])
unfolding groups joined
groups-joined sign b [] = refl
groups-joined sign b (c ∷ bytes) =
    rw (groups-joined sign c bytes)
      (sym (append_assoc (to_string b) (sign ∷ joined sign c bytes) (sign ∷ [])))

take-all_but_last :
    (xs : List ℕ) (c d : ℕ) (ys : List ℕ) → xs ++ (c ∷ []) ≡ d ∷ ys → take (length ys) (d ∷ ys) ≡ xs
take-all_but_last xs c d ys h =
    let size : length ys ≡ length xs = omega (arith, ap length h, length-append xs (c ∷ [])) in
    rw (size, ← h) (take-append xs (c ∷ []))

pop_back-append : (xs : List ℕ) (c : ℕ) → pop_back (xs ++ (c ∷ [])) ≡ ok xs
unfolding pop_back
pop_back-append [] c = refl
pop_back-append (x ∷ xs) c = ap ok (take-all_but_last (x ∷ xs) c x (xs ++ (c ∷ [])) refl)

pub ip_text :
    (sign b : ℕ) (bytes : List ℕ) → pop_back (groups sign (b ∷ bytes)) ≡ ok (joined sign b bytes)
ip_text sign b bytes = rw (groups-joined sign b bytes) (pop_back-append (joined sign b bytes) sign)

count-cons : (c : ℕ) (s : List ℕ) → count c (c ∷ s) ≡ suc (count c s)
unfolding count
count-cons c s = ground arith

count-append : (c : ℕ) (xs ys : List ℕ) → count c (xs ++ ys) ≡ count c xs + count c ys
unfolding count
count-append c [] ys = omega arith
count-append c (x ∷ xs) ys = omega (arith, count-append c xs ys)

-- A decimal number has no colon.
count-to_string : (n : ℕ) → n < 256 → count b':' (to_string n) ≡ 0
unfolding count to_string
count-to_string n h = ground arith

pub count-joined :
    (b : ℕ) (bytes : List ℕ)
    → All (λ x. x < 256) (b ∷ bytes)
    → count b':' (joined b':' b bytes) ≡ length bytes
unfolding joined
count-joined b [] (h, hs) = count-to_string b h
count-joined b (c ∷ bytes) (h, hs) = omega (
  arith,
  count-append b':' (to_string b) (b':' ∷ joined b':' c bytes),
  count-to_string b h,
  count-joined c bytes hs,
  count-cons b':' (joined b':' c bytes),
)

pub count-joined_dots :
    (b : ℕ) (bytes : List ℕ) → All (λ x. x < 256) (b ∷ bytes) → count b':' (joined b'.' b bytes) ≡ 0
unfolding joined count
count-joined_dots b [] (h, hs) = count-to_string b h
count-joined_dots b (c ∷ bytes) (h, hs) = omega (
  arith,
  count-append b':' (to_string b) (b'.' ∷ joined b'.' c bytes),
  count-to_string b h,
  count-joined_dots c bytes hs,
)
