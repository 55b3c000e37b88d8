-- ===== src/Net/P2p/Canonical.antt =====
-- The decoders of broadcasts of net/p2p/p2pencoding.cpp accept only what the encoders make.
use orbitersdk_cpp.Prelude.{
  ℕ, zero, suc, ◌+◌, ◌*◌, ◌%◌, ◌^◌, ◌<◌, ◌≤◌, ◌≡◌, ◌↔◌, refl, sym, ap, ◌∙◌, List, [], ◌∷◌, ◌++◌,
  All, length, length-append, drop-append, Result, ok, arith,
}
use mathlib.Core.List.{append_assoc}
use orbitersdk_cpp.Prelude.Throw.{◌>>=◌}
use orbitersdk_cpp.Utils.Strings.{resize_lem}
use orbitersdk_cpp.Utils.Bytes.{from_big_endian, from_big_endian_loop}
use orbitersdk_cpp.Utils.Bytes.Fixed.{
  uint64_to_bytes, bytes_to_uint64, uint64_to_bytes-from_big_endian,
}
use orbitersdk_cpp.Utils.Bytes.Wide.{bytes_to_uint8, bytes_to_uint16}
use orbitersdk_cpp.Utils.Block.Entries.{substr_lem}
use orbitersdk_cpp.Net.P2p.{
  broadcasting, get_request_type, get_command_type, type, id, command, message, to_uint64, fnv_hash,
}
use orbitersdk_cpp.Net.P2p.RoundTrip.{
  broadcast_bytes, encode_lem, decode-broadcast_bytes, Accepted, decode-Accepted,
}
use orbitersdk_cpp.Net.P2p.Broadcasts.{encode, decode}

-- The parts of a message, as bytes
record Parts (raw : List ℕ) : Type 0 where
  kind : ℕ
  numbered : List ℕ
  high : ℕ
  low : ℕ
  rest : List ℕ
  split : raw ≡ (kind ∷ []) ++ (numbered ++ ((high ∷ (low ∷ [])) ++ rest))
  width : length numbered ≡ 8
  kind-small : kind < 256
  numbered-small : All (λ b. b < 256) numbered
  high-small : high < 256
  low-small : low < 256

-- Bytes in front of more
record Front (n : ℕ) (xs : List ℕ) : Type 0 where
  front : List ℕ
  rest : List ℕ
  split : xs ≡ front ++ rest
  width : length front ≡ n
  front-small : All (λ b. b < 256) front
  rest-small : All (λ b. b < 256) rest

split-Front : (n : ℕ) (xs : List ℕ) → n ≤ length xs → All (λ b. b < 256) xs → Front n xs
split-Front zero xs h small = record {
  front = [];
  rest = xs;
  split = refl;
  width = refl;
  front-small = tt;
  rest-small = small;
}
split-Front (suc n) [] h small = absurd (omega (arith, h))
split-Front (suc n) (x ∷ xs) h small =
    let f = split-Front n xs (omega (arith, h)) small.1 in
    record {
      front = x ∷ f.front;
      rest = f.rest;
      split = ap (λ l. x ∷ l) f.split;
      width = ap suc f.width;
      front-small = (small.0, f.front-small);
      rest-small = f.rest-small;
    }

-- The command and what is said, after the type and the id
rest-Parts :
    (t : ℕ) {raw : List ℕ} (f : Front 8 raw) (rest : List ℕ)
    → f.rest ≡ rest
    → 2 ≤ length rest
    → t < 256
    → All (λ b. b < 256) rest
    → Parts (t ∷ raw)
rest-Parts t f [] e h t_small small = absurd (omega (arith, h))
rest-Parts t f (x ∷ []) e h t_small small = absurd (omega (arith, h))
rest-Parts t f (x ∷ (y ∷ rest)) e h t_small small = record {
  kind = t;
  numbered = f.front;
  high = x;
  low = y;
  rest = rest;
  split = ap (λ l. t ∷ l) (f.split ∙ ap (λ l. f.front ++ l) e);
  width = f.width;
  kind-small = t_small;
  numbered-small = f.front-small;
  high-small = small.0;
  low-small = small.1.0;
}

split-Parts : (raw : List ℕ) → 11 ≤ length raw → All (λ b. b < 256) raw → Parts raw
split-Parts [] h small = absurd (omega (arith, h))
split-Parts (t ∷ raw) h small =
    let f : Front 8 raw = split-Front 8 raw (omega (arith, h)) small.1 in
    rest-Parts t f f.rest refl
      (omega (arith, h, ap length f.split, length-append f.front f.rest, f.width)) small.0
      f.rest-small

type_read : (t : ℕ) → t < 256 → get_request_type (t ∷ []) ≡ ok broadcasting → t ≡ broadcasting
unfolding get_request_type bytes_to_uint8 from_big_endian from_big_endian_loop
type_read t small h =
    let byte : (0 * 256 + t) % 2 ^ 8 ≡ t = omega (arith, small) in ground (arith, h, byte)

command_read :
    (x y c : ℕ)
    → x < 256
    → y < 256
    → c < 7
    → get_command_type (x ∷ (y ∷ [])) ≡ ok c
    → (x ≡ 0) × (y ≡ c)
unfolding get_command_type bytes_to_uint16 from_big_endian from_big_endian_loop
command_read x y c x_small y_small c_small h =
    let bytes : ((0 * 256 + x) % 2 ^ 16 * 256 + y) % 2 ^ 16 ≡ x * 256 + y = omega arith in
    let sum : x * 256 + y ≡ c = ground (arith, h, bytes) in (omega arith, omega arith)

number_read :
    (bytes : List ℕ) (n : ℕ)
    → All (λ b. b < 256) bytes
    → length bytes ≡ 8
    → bytes_to_uint64 bytes ≡ ok n
    → bytes ≡ uint64_to_bytes n
unfolding bytes_to_uint64
number_read bytes n small eight h =
    let read : from_big_endian 64 bytes ≡ n = ground (arith, h, eight) in
    sym (uint64_to_bytes-from_big_endian bytes small eight) ∙ ap uint64_to_bytes read

module _ (raw : List ℕ) (p : Parts raw) where
  -- The message up to what it says
  abbrev heading : List ℕ
  heading = (p.kind ∷ []) ++ (p.numbered ++ (p.high ∷ (p.low ∷ [])))

  type-parts : type raw ≡ get_request_type (p.kind ∷ [])
  unfolding type
  type-parts =
      rw
        (
          p.split,
          substr_lem [] (p.kind ∷ []) (p.numbered ++ (p.high ∷ (p.low ∷ p.rest))) 0 1 refl refl,
        )
        refl

  id-parts : id raw ≡ ok p.numbered
  unfolding id
  id-parts =
      rw (p.split, substr_lem (p.kind ∷ []) p.numbered (p.high ∷ (p.low ∷ p.rest)) 1 8 refl p.width)
        (ap ok (resize_lem 8 p.numbered p.width))

  command-parts : command raw ≡ get_command_type (p.high ∷ (p.low ∷ []))
  unfolding command
  command-parts =
      rw
        (
          p.split,
          substr_lem ((p.kind ∷ []) ++ p.numbered) (p.high ∷ (p.low ∷ [])) p.rest 9 2
              (omega (arith, p.width)) refl,
        )
        refl

  message-parts : message raw ≡ p.rest
  unfolding message
  message-parts =
      let size : length heading ≡ 11 =
        omega (arith, p.width, length-append p.numbered (p.high ∷ (p.low ∷ []))) in
      let regroup : raw ≡ heading ++ p.rest =
        p.split
        ∙ ap (λ l. p.kind ∷ l) (sym (append_assoc p.numbered (p.high ∷ (p.low ∷ [])) p.rest)) in
      rw (regroup, ← size) (drop-append heading p.rest)

  -- A message that a decoder accepts is what the encoder makes of what it says.
  Accepted-broadcast_bytes :
      {A : Type 0} (c : ℕ) (read : List ℕ → Result A) (a : A)
      → c < 7
      → Accepted c read raw a
      → raw ≡ broadcast_bytes c (message raw)
  unfolding to_uint64
  Accepted-broadcast_bytes c read a small accepted =
      let kind = type_read p.kind p.kind-small (sym type-parts ∙ accepted.typed) in
      let (high, low) =
        command_read p.high p.low c p.high-small p.low-small small
          (sym command-parts ∙ accepted.commanded) in
      let hashed : bytes_to_uint64 p.numbered ≡ ok (fnv_hash (message raw)) =
        ap (λ r. r >>= to_uint64) (sym id-parts) ∙ accepted.hashed in
      let numbered =
        number_read p.numbered (fnv_hash (message raw)) p.numbered-small p.width hashed in
      p.split ∙ rw (kind, high, low, numbered, message-parts) refl

-- A message of at least 11 bytes is decoded as a broadcast of one of the seven commands exactly if it is, to the byte, what the encoder makes of what it says, and what it says is read; both give the same object.
pub decode_iff_encode :
    {A : Type 0} (c : ℕ) (read : List ℕ → Result A) (raw : List ℕ) (a : A)
    → c < 7
    → 11 ≤ length raw
    → All (λ b. b < 256) raw
    → (decode c read raw ≡ ok a) ↔ ((encode c (message raw) ≡ ok raw) × (read (message raw) ≡ ok a))
decode_iff_encode c read raw a small size bytes = (
  λ decoded.
      let accepted = decode-Accepted c read raw a decoded in
      let p : Parts raw = split-Parts raw size bytes in
      (
        encode_lem c (message raw)
            ∙ ap ok (sym (Accepted-broadcast_bytes raw p c read a small accepted)),
        accepted.said,
      ),
  λ (encoded, said).
      let same : raw ≡ broadcast_bytes c (message raw) = cc (encoded, encode_lem c (message raw)) in
      ap (decode c read) same ∙ (decode-broadcast_bytes c (message raw) read small).1 ∙ said,
)
