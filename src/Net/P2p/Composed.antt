-- ===== src/Net/P2p/Composed.antt =====
-- The parts of a message that was composed.
use orbitersdk_cpp.Prelude.{
  ℕ, ◌+◌, ◌<◌, ◌≡◌, ◌*◌, ◌%◌, ◌^◌, sym, refl, ap, List, [], ◌∷◌, ◌++◌, length, length-append,
  drop-append, le→ltb_false, ok, arith,
}
use mathlib.Core.List.{append_assoc}
use orbitersdk_cpp.Utils.Strings.{resize_lem}
use orbitersdk_cpp.Utils.Bytes.{from_big_endian, from_big_endian_loop}
use orbitersdk_cpp.Utils.Bytes.Wide.{bytes_to_uint8, bytes_to_uint16}
use orbitersdk_cpp.Utils.Block.Entries.{substr_lem}
use orbitersdk_cpp.Net.P2p.{get_request_type, get_command_type, compose, type, id, command, message}

module _ (t : ℕ) (i : List ℕ) (c : ℕ) (said : List ℕ) where
  -- The bytes of the message
  abbrev pub composed : List ℕ
  composed = (t ∷ []) ++ (i ++ ((0 ∷ (c ∷ [])) ++ said))

  pub length-composed : length i ≡ 8 → length composed ≡ 11 + length said
  length-composed h = omega (arith, h, length-append i (0 ∷ (c ∷ said)))

  pub compose_lem : length i ≡ 8 → compose t i c said ≡ ok composed
  unfolding compose
  compose_lem h = rw (le→ltb_false (length composed) 11 (omega (arith, length-composed h))) refl

  pub type-composed : t < 3 → type composed ≡ ok t
  unfolding type get_request_type bytes_to_uint8 from_big_endian from_big_endian_loop
  type-composed h =
      let byte : (0 * 256 + t) % 2 ^ 8 ≡ t = omega (arith, h) in
      rw
        (
          substr_lem [] (t ∷ []) (i ++ (0 ∷ (c ∷ said))) 0 1 refl refl,
          byte,
          le→ltb_false 3 t (omega (arith, h)),
        )
        refl

  pub id-composed : length i ≡ 8 → id composed ≡ ok i
  unfolding id
  id-composed h = rw (substr_lem (t ∷ []) i (0 ∷ (c ∷ said)) 1 8 refl h) (ap ok (resize_lem 8 i h))

  pub command-composed : length i ≡ 8 → c < 7 → command composed ≡ ok c
  unfolding command get_command_type bytes_to_uint16 from_big_endian from_big_endian_loop
  command-composed h small =
      let front : List ℕ = (t ∷ []) ++ i in
      let bytes : ((0 * 256 + 0) % 2 ^ 16 * 256 + c) % 2 ^ 16 ≡ c = omega (arith, small) in
      rw
        (
          substr_lem front (0 ∷ (c ∷ [])) said 9 2 (omega (arith, h)) refl,
          bytes,
          le→ltb_false 7 c (omega (arith, small)),
        )
        refl

  pub message-composed : length i ≡ 8 → message composed ≡ said
  unfolding message
  message-composed h =
      let front : List ℕ = (t ∷ []) ++ (i ++ (0 ∷ (c ∷ []))) in
      let size : length front ≡ 11 = omega (arith, h, length-append i (0 ∷ (c ∷ []))) in
      let regroup : composed ≡ front ++ said =
        ap (λ l. t ∷ l) (sym (append_assoc i (0 ∷ (c ∷ [])) said)) in
      rw (regroup, ← size) (drop-append front said)
