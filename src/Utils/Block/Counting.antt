-- ===== src/Utils/Block/Counting.antt =====
-- The loops that count the entries of a block end.
use orbitersdk_cpp.Prelude.{
  ℕ, zero, suc, ◌+◌, ◌*◌, ◌-◌, ◌%◌, ◌^◌, ◌≤◌, ◌<◌, ◌≡◌, refl, ap, sym, ◌∙◌, inl, inr, not, List, [],
  ◌∷◌, length, take, drop, ltb, ok, if◌then◌else◌, arith,
}
use orbitersdk_cpp.Prelude.Throw.{Result-cases}
use orbitersdk_cpp.Utils.Bytes.{substr, from_big_endian, from_big_endian_loop}
use orbitersdk_cpp.Utils.Bytes.Fixed.{bytes_to_uint32}
use orbitersdk_cpp.Utils.Block.Parse.{entry_size, count_entries}

from_big_endian_loop_lt :
    (ret : ℕ) (bytes : List ℕ) → ret < 2 ^ 32 → from_big_endian_loop 32 ret bytes < 2 ^ 32
unfolding from_big_endian_loop
from_big_endian_loop_lt ret [] h = h
from_big_endian_loop_lt ret (byte ∷ bytes) h =
    from_big_endian_loop_lt ((ret * 256 + byte) % 2 ^ 32) bytes (omega arith)

length-take : (n : ℕ) (bytes : List ℕ) → length (take n bytes) ≤ length bytes
length-take zero bytes = omega arith
length-take (suc n) [] = omega arith
length-take (suc n) (byte ∷ bytes) = omega (arith, length-take n bytes)

length-take-drop :
    (n i : ℕ) (bytes : List ℕ)
    → length (take (suc n) (drop i bytes)) ≡ suc n
    → i + suc n ≤ length bytes
length-take-drop n zero bytes h = omega (arith, length-take (suc n) bytes, h)
length-take-drop n (suc i) [] h = absurd (omega (arith, h))
length-take-drop n (suc i) (byte ∷ bytes) h = omega (arith, length-take-drop n i bytes h)

-- A size that is read is within the bytes, and has 32 bits.
entry_size-ok :
    (bytes : List ℕ) (index size : ℕ)
    → entry_size bytes index ≡ ok size
    → (index + 4 ≤ length bytes) × (size < 2 ^ 32)
unfolding entry_size substr bytes_to_uint32 from_big_endian
entry_size-ok bytes index size h = ground (
  arith,
  h,
  length-take-drop 3 index bytes,
  from_big_endian_loop_lt 0 (take 4 (drop index bytes)),
)

count_entries-more :
    (bytes : List ℕ) (stop index count f fuel : ℕ)
    → length bytes < 2 ^ 63
    → length bytes < 4 * f + index
    → f ≤ fuel
    → count_entries (suc fuel) bytes stop index count ≡ count_entries (suc f) bytes stop index count
unfolding count_entries
count_entries-more bytes stop index count zero fuel h k l =
    elim (Result-cases (entry_size bytes index)) [
      | inl (e, thrown) ↦ rw thrown refl
      | inr (size, found) ↦ absurd (omega (arith, entry_size-ok bytes index size found, k))
    ]
count_entries-more bytes stop index count (suc f) zero h k l = absurd (omega (arith, l))
count_entries-more bytes stop index count (suc f) (suc fuel) h k l =
    elim (Result-cases (entry_size bytes index)) [
      | inl (e, thrown) ↦ rw thrown refl
      | inr (size, found) ↦
          let (inside, small) = entry_size-ok bytes index size found in
          let next = (index + (size + 4)) % 2 ^ 64 in
          let later =
            count_entries-more bytes stop next (count + 1) f fuel h
              (omega (arith, inside, small, h, k)) (omega (arith, l)) in
          rw found (ap (λ r. if not (ltb index stop) then ok count else r) later)
    ]

-- For a block of at least 217 bytes and less than 2 ^ 63 the loops that count end within as many rounds as it has bytes: more fuel gives the same count or the same exception.
pub count_entries-ends :
    (bytes : List ℕ) (stop index count fuel : ℕ)
    → 217 ≤ length bytes
    → length bytes < 2 ^ 63
    → length bytes ≤ fuel
    → count_entries fuel bytes stop index count
      ≡ count_entries (length bytes) bytes stop index count
count_entries-ends bytes stop index count fuel h k l =
    let f = length bytes - 1 in
    let less : length bytes ≡ suc f = omega (arith, h) in
    let more : fuel ≡ suc (fuel - 1) = omega (arith, h, l) in
    ap (λ n. count_entries n bytes stop index count) more
    ∙ count_entries-more bytes stop index count f (fuel - 1) k (omega arith) (omega arith)
    ∙ ap (λ n. count_entries n bytes stop index count) (sym less)
