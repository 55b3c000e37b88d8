-- ===== src/Contract/Abi/RoundTrip.antt =====
-- The decoder gives back the arguments that the encoder was given.
use mathlib.Core.List.{append-nil, append_assoc}
use native.Mathlib.Nat.{mod-eq_of_lt}
use orbitersdk_cpp.Prelude.{
  ℕ, ◌+◌, ◌*◌, ◌%◌, ◌^◌, ◌≤◌, ◌<◌, ◌≡◌, refl, sym, ap, ◌∙◌, List, [], ◌∷◌, ◌++◌, length,
  length-append, take, ok, arith,
}
use orbitersdk_cpp.Utils.Bytes.Wide.{Boost, IsBoost}
use orbitersdk_cpp.Utils.Bytes.Windows.{Holds, Holds-bound, Holds-left, Holds-right}
use orbitersdk_cpp.Contract.Abi.{Var, Types}
use orbitersdk_cpp.Contract.Abi.Encoder.{static_part, dynamic_part, offset_part, encode_loop}
use orbitersdk_cpp.Contract.Abi.Header.{check_header, encode}
use orbitersdk_cpp.Contract.Abi.Decoder.{decode_loop, decode}
use orbitersdk_cpp.Contract.Abi.Arguments.{
  AreOfTypes, none_left, one_more, decode_var_lem, offset_part_lem, length-static_part,
  length-ge-static_part,
}

module _ (boost : Boost) where
  -- What the loop adds to `data`
  heads : ℕ → List Var → List ℕ
  heads off [] = []
  heads off (v ∷ vs) = static_part boost off v ++ heads ((off + offset_part boost v) % 2 ^ 64) vs

  -- What it adds to `dynamicStr`
  tails : List Var → List ℕ
  tails [] = []
  tails (v ∷ vs) = dynamic_part boost v ++ tails vs

  encode_loop_lem :
      (out : List ℕ) (off : ℕ) (dyn : List ℕ) (vs : List Var)
      → encode_loop boost out off dyn vs ≡ (out ++ heads off vs) ++ (dyn ++ tails vs)
  unfolding encode_loop heads tails
  encode_loop_lem out off dyn [] = simp (append-nil)
  encode_loop_lem out off dyn (v ∷ vs) =
      encode_loop_lem (out ++ static_part boost off v) ((off + offset_part boost v) % 2 ^ 64)
        (dyn ++ dynamic_part boost v) vs
      ∙ simp (append_assoc)

  module _ (laws : IsBoost boost) where
    decode_loop_lem :
        (text : List ℕ) (start off : ℕ) {ts : List Types} {vs : List Var}
        → AreOfTypes ts vs
        → length text < 2 ^ 64
        → Holds text start (heads off vs)
        → Holds text off (tails vs)
        → start + 32 * length vs ≤ off
        → decode_loop boost ts text start ≡ ok vs
    unfolding decode_loop heads tails
    decode_loop_lem text start off none_left small p q before = refl
    decode_loop_lem text start off (one_more {t} {v} {ts} {vs} h hs) small p q before =
        let dyn : List ℕ = dynamic_part boost v in
        let off' : ℕ = (off + offset_part boost v) % 2 ^ 64 in
        let bound : off + (length dyn + length (tails vs)) ≤ length text =
          omega (arith, Holds-bound q, length-append dyn (tails vs)) in
        let same : off' ≡ off + length dyn =
          omega (arith, offset_part_lem boost laws h (omega (arith, small, bound)), small, bound) in
        let next : (start + 32) % 2 ^ 64 ≡ start + 32 =
          mod-eq_of_lt {n = start + 32} {m = 2 ^ 64} (omega (arith, small, bound, before)) in
        let width : start + length (static_part boost off v) ≡ start + 32 =
          omega (arith, length-static_part boost laws off h (omega (arith, small, bound))) in
        rw
          (
            decode_var_lem boost laws text small start off (omega (arith, before)) h
                (Holds-left (heads off' vs) p) (Holds-left (tails vs) q),
            next,
            decode_loop_lem text (start + 32) (off + length dyn) hs small
                (rw (width, same) at (Holds-right (static_part boost off v) p)) (Holds-right dyn q)
                (omega (arith, before)),
          )
          refl

    length-ge-heads :
        (off : ℕ) {ts : List Types} {vs : List Var}
        → AreOfTypes ts vs
        → 32 * length vs ≤ length (heads off vs)
    unfolding heads
    length-ge-heads off none_left = omega arith
    length-ge-heads off (one_more {t} {v} {ts} {vs} h hs) =
        let off' : ℕ = (off + offset_part boost v) % 2 ^ 64 in
        omega (
          arith,
          length-append (static_part boost off v) (heads off' vs),
          length-ge-static_part boost laws off h,
          length-ge-heads off' hs,
        )

    length-heads :
        (off : ℕ) {ts : List Types} {vs : List Var}
        → AreOfTypes ts vs
        → off < 2 ^ 64
        → length (heads off vs) ≡ 32 * length vs
    unfolding heads
    length-heads off none_left small = refl
    length-heads off (one_more {t} {v} {ts} {vs} h hs) small =
        let off' : ℕ = (off + offset_part boost v) % 2 ^ 64 in
        omega (
          arith,
          length-append (static_part boost off v) (heads off' vs),
          length-static_part boost laws off h (omega (arith, small)),
          length-heads off' hs (omega arith),
        )

  -- The encoding of the arguments, without a header
  abbrev pub body : List Var → List ℕ
  body vs = encode_loop boost [] (32 * length vs) [] vs

  -- The encoder returns for arguments without a header, and the decoder gives them back from what it returns, if the arguments are of the types that the decoder is given, integers have at most 256 bits, addresses have 20 bytes, and the encoding is shorter than 2 ^ 31 bytes.
  pub decode-encode :
      (sha3 : List ℕ → List ℕ) {ts : List Types} {vs : List Var}
      → IsBoost boost
      → AreOfTypes ts vs
      → length (body vs) < 2 ^ 31
      → (encode boost sha3 vs [] ≡ ok (body vs)) × (decode boost ts (body vs) ≡ ok vs)
  unfolding encode decode
  decode-encode sha3 {ts} {vs} laws h short =
      let n : ℕ = length vs in
      let front : List ℕ = heads (32 * n) vs in
      let whole : body vs ≡ front ++ tails vs = encode_loop_lem [] (32 * n) [] vs in
      let total = length-append front (tails vs) in
      let size : length (front ++ tails vs) < 2 ^ 31 = rw whole at short in
      let few = length-ge-heads laws (32 * n) h in
      let width : length front ≡ 32 * n =
        length-heads laws (32 * n) h (omega (arith, few, total, size)) in
      (
        refl,
        rw whole (
            decode_loop_lem laws (front ++ tails vs) 0 (32 * n) h (omega (arith, size))
              (record { front = []; rest = tails vs; split = refl; length-front = refl })
              (record {
                front = front;
                rest = [];
                split = ap (λ l. front ++ l) (sym (append-nil (tails vs)));
                length-front = width;
              })
              (omega arith)),
      )

  -- With a header that passes, the first four bytes of its hash come before that.
  pub encode_header :
      (sha3 : List ℕ → List ℕ) (vs : List Var) (c : ℕ) (func : List ℕ)
      → check_header (c ∷ func) vs ≡ ok tt
      → encode boost sha3 vs (c ∷ func) ≡ ok (take 4 (sha3 (c ∷ func)) ++ body vs)
  unfolding encode
  encode_header sha3 vs c func passes = rw passes (
      ap ok (
        encode_loop_lem (take 4 (sha3 (c ∷ func))) (32 * length vs) [] vs
        ∙ append_assoc (take 4 (sha3 (c ∷ func))) (heads (32 * length vs) vs) (tails vs)
        ∙ ap (λ l. take 4 (sha3 (c ∷ func)) ++ l)
            (sym (encode_loop_lem [] (32 * length vs) [] vs))))
