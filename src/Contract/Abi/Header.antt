-- ===== src/Contract/Abi/Header.antt =====
-- The constructor of `ABI::Encoder`: it checks the header of a function against the arguments, and puts
-- the hash of the header in front of the encoded arguments.
use Prim.Native.Char.{code}
use Prim.Native.String.{String}
use orbitersdk_cpp.Prelude.{
  ℕ, zero, suc, ◌+◌, ◌-◌, ◌*◌, Bool, not, ◌&&◌, ◌||◌, Option, none, some, List, [], ◌∷◌, length,
  take, drop, get_elem?, Result, ok, err, runtime_error, undefined, ◌==◌, ltb, if◌then◌else◌,
}
use orbitersdk_cpp.Prelude.Throw.{◌>>=◌, ◌>>◌, throw_if}
use orbitersdk_cpp.Utils.Bytes.Wide.{Boost}
use orbitersdk_cpp.Core.Rdpos.{bytes_eq}
use orbitersdk_cpp.Contract.Abi.{
  Var, uint256_var, uint256_arr_var, address_var, address_arr_var, bool_var, bool_arr_var,
  string_var, string_arr_var,
}
use orbitersdk_cpp.Contract.Abi.Encoder.{encode_loop}

-- The characters of a text
abbrev pub codes : String → List ℕ
codes String.[] = []
codes (String.◌∷◌ c s) = code c ∷ codes s

-- `find(c)` in what is left of the string at the index `i`
unfoldable pub find : ℕ → ℕ → List ℕ → Option ℕ
find c i [] = none
find c i (x ∷ xs) = if x == c then some i else find c (i + 1) xs

unfoldable pub is_type : List ℕ → Bool
unfolding bytes_eq
is_type t =
    bytes_eq t (codes "uint256")
    || (bytes_eq t (codes "address")
        || (bytes_eq t (codes "bool")
            || (bytes_eq t (codes "bytes")
                || (bytes_eq t (codes "string")
                    || (bytes_eq t (codes "uint256[]")
                        || (bytes_eq t (codes "address[]")
                            || (bytes_eq t (codes "bool[]")
                                || (bytes_eq t (codes "bytes[]")
                                    || bytes_eq t (codes "string[]")))))))))

-- The value is of the type that the header names.
unfoldable pub holds_alternative : List ℕ → Var → Bool
unfolding bytes_eq
holds_alternative t (uint256_var n) = bytes_eq t (codes "uint256")
holds_alternative t (address_var a) = bytes_eq t (codes "address")
holds_alternative t (bool_var b) = bytes_eq t (codes "bool")
holds_alternative t (string_var s) = bytes_eq t (codes "bytes") || bytes_eq t (codes "string")
holds_alternative t (uint256_arr_var v) = bytes_eq t (codes "uint256[]")
holds_alternative t (address_arr_var v) = bytes_eq t (codes "address[]")
holds_alternative t (bool_arr_var v) = bytes_eq t (codes "bool[]")
holds_alternative t (string_arr_var v) =
    bytes_eq t (codes "bytes[]") || bytes_eq t (codes "string[]")

-- The type before a comma: it has a known name and is that of `data[ct]`, which is read unchecked.
unfoldable pub check_type : List ℕ → Option Var → Result (Unit {0})
unfolding is_type holds_alternative
check_type t arg = do
  throw_if (not (is_type t)) runtime_error
  elim arg [ none ↦ err undefined | some v ↦ throw_if (not (holds_alternative t v)) runtime_error ]

-- `while (e = funcTmp.find(",", b))`, with as much fuel as there are characters and one more. An `e` of
-- 0 ends it, and so does the end of the string, before the type there is looked at.
unfoldable pub check_types : ℕ → List ℕ → ℕ → ℕ → List Var → Result (Unit {0})
unfolding find check_type
check_types zero args b ct values = ok tt
check_types (suc fuel) args b ct values = elim (find b',' b (drop b args)) [
  | none ↦ ok tt
  | some e ↦ if e == 0 then ok tt else do
    check_type (take (e - b) (drop b args)) (get_elem? values ct)
    check_types fuel args (e + 1) (ct + 1) values
]

-- `funcTmp`, between the first "(" and the last character
unfoldable pub arguments : List ℕ → ℕ → Result (List ℕ)
arguments func open_at =
    if ltb (length func) (open_at + 2)
    then err undefined
    else ok (take (length func - (open_at + 2)) (drop (open_at + 1) func))

-- What is checked of a header that is not empty
unfoldable pub check_header : List ℕ → List Var → Result (Unit {0})
unfolding find arguments check_types
check_header func values = elim (find b'(' 0 func) [
  | none ↦ err runtime_error
  | some open_at ↦ elim (find b')' 0 func) [
    | none ↦ err runtime_error
    | some _ ↦ do
      args ← arguments func open_at
      throw_if (length args == 0 && not (length values == 0)) runtime_error
      check_types (suc (length args)) args 0 0 values
  ]
]

module _ (boost : Boost) (sha3 : List ℕ → List ℕ) where
  -- The constructor: what `getRaw` returns
  unfoldable pub encode : List Var → List ℕ → Result (List ℕ)
  unfolding check_header encode_loop
  encode values [] = ok (encode_loop boost [] (32 * length values) [] values)
  encode values (c ∷ func) = do
    check_header (c ∷ func) values
    ok (encode_loop boost (take 4 (sha3 (c ∷ func))) (32 * length values) [] values)
