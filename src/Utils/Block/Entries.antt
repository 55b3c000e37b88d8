-- ===== src/Utils/Block/Entries.antt =====
-- Reading the entries that `serialize_entries` wrote.
use mathlib.Core.List.{append_assoc}
use orbitersdk_cpp.Prelude.{
  ℕ, zero, suc, ◌+◌, ◌%◌, ◌^◌, ◌≤◌, ◌<◌, ◌≡◌, refl, ap, sym, ◌∙◌, true, All, List, [], ◌∷◌, ◌++◌,
  length, length-append, take-append, drop-append, ltb, Result, ok, arith,
}
use orbitersdk_cpp.Utils.Bytes.{substr}
use orbitersdk_cpp.Utils.Bytes.Fixed.{
  uint32_to_bytes, uint64_to_bytes, length-uint32_to_bytes, length-uint64_to_bytes,
  bytes_to_uint32-uint32_to_bytes, bytes_to_uint64-uint64_to_bytes,
}
use orbitersdk_cpp.Utils.Block.{serialize_entries}
use orbitersdk_cpp.Utils.Block.Parse.{entry_size, uint64_at, count_entries, read_entries}

-- A field after `p` and before `rest`
pub substr_lem :
    (p xs rest : List ℕ) (i n : ℕ)
    → length p ≡ i
    → length xs ≡ n
    → substr (p ++ (xs ++ rest)) i n ≡ ok xs
unfolding substr
substr_lem p xs rest i n h k =
    rw (← h, ← k)
      (ground
        (arith, length-append p (xs ++ rest), drop-append p (xs ++ rest), take-append xs rest))

pub uint64_at_lem :
    (p rest : List ℕ) (i n : ℕ)
    → length p ≡ i
    → n < 2 ^ 64
    → uint64_at (p ++ (uint64_to_bytes n ++ rest)) i ≡ ok n
unfolding uint64_at
uint64_at_lem p rest i n h k =
    rw (substr_lem p (uint64_to_bytes n) rest i 8 h (length-uint64_to_bytes n))
      (bytes_to_uint64-uint64_to_bytes n k)

entry_size_lem :
    (p rest : List ℕ) (n : ℕ)
    → n < 2 ^ 32
    → entry_size (p ++ (uint32_to_bytes n ++ rest)) (length p) ≡ ok n
unfolding entry_size
entry_size_lem p rest n h =
    rw (substr_lem p (uint32_to_bytes n) rest (length p) 4 refl (length-uint32_to_bytes n))
      (bytes_to_uint32-uint32_to_bytes n h)

-- The entry is read back, and 4 bytes hold its size.
pub record IsEntry {A : Type 0} (write : A → List ℕ) (read : List ℕ → Result A) (tx : A)
    : Type 0 where
  pub back : read (write tx) ≡ ok tx
  pub small : length (write tx) < 2 ^ 32

module _ {A : Type 0} (write : A → List ℕ) (read : List ℕ → Result A) where
  -- The bytes up to the end of an entry
  abbrev pub up_to : List ℕ → A → List ℕ
  up_to p tx = p ++ (uint32_to_bytes (length (write tx)) ++ write tx)

  length-up_to : (p : List ℕ) (tx : A) → length (up_to p tx) ≡ length p + (length (write tx) + 4)
  length-up_to p tx = omega (
    arith,
    length-append p (uint32_to_bytes (length (write tx)) ++ write tx),
    length-append (uint32_to_bytes (length (write tx))) (write tx),
    length-uint32_to_bytes (length (write tx)),
  )

  -- The bytes from `p` on are an entry and more.
  pub record AtEntry (p : List ℕ) (tx : A) (tail bytes : List ℕ) (index : ℕ) : Type 0 where
    pub size : entry_size bytes index ≡ ok (length (write tx))
    pub content : substr bytes ((index + 4) % 2 ^ 64) (length (write tx)) ≡ ok (write tx)
    pub next : ((index + 4) % 2 ^ 64 + length (write tx)) % 2 ^ 64 ≡ length (up_to p tx)
    pub skipped : (index + (length (write tx) + 4)) % 2 ^ 64 ≡ length (up_to p tx)
    pub after : bytes ≡ up_to p tx ++ tail

  at_entry :
      (p : List ℕ) (tx : A) (tail bytes : List ℕ) (index : ℕ)
      → IsEntry write read tx
      → bytes ≡ p ++ (uint32_to_bytes (length (write tx)) ++ (write tx ++ tail))
      → index ≡ length p
      → length (up_to p tx) < 2 ^ 64
      → AtEntry p tx tail bytes index
  at_entry p tx tail bytes index h split start s =
      let n = length (write tx) in
      let header = p ++ uint32_to_bytes n in
      let grown = length-up_to p tx in
      let header-length : (index + 4) % 2 ^ 64 ≡ length header =
        rw (start, length-append p (uint32_to_bytes n), length-uint32_to_bytes n)
          (omega (arith, grown, s)) in
      record {
        size = rw (split, start) (entry_size_lem p (write tx ++ tail) n h.small);
        content =
            rw (split ∙ sym (append_assoc p (uint32_to_bytes n) (write tx ++ tail)))
              (substr_lem header (write tx) tail ((index + 4) % 2 ^ 64) n (sym header-length) refl);
        next = rw start (omega (arith, grown, s));
        skipped = rw start (omega (arith, grown, s));
        after = split ∙ simp append_assoc refl;
      }

  -- What is before the entries of a list and after it
  pub record Around (p : List ℕ) (txs : List A) (rest bytes : List ℕ) (index : ℕ) : Type 0 where
    pub split : bytes ≡ p ++ (serialize_entries write txs ++ rest)
    pub start : index ≡ length p
    pub small : length p + length (serialize_entries write txs) < 2 ^ 64
    pub entries : All (IsEntry write read) txs

  pub Around-cons :
      (p : List ℕ) (tx : A) (txs : List A) (rest bytes : List ℕ) (index : ℕ)
      → Around p (tx ∷ txs) rest bytes index
      → AtEntry p tx (serialize_entries write txs ++ rest) bytes index
        × Around (up_to p tx) txs rest bytes (length (up_to p tx))
        × (length p + length (serialize_entries write (tx ∷ txs))
            ≡ length (up_to p tx) + length (serialize_entries write txs))
  unfolding serialize_entries
  Around-cons p tx txs rest bytes index a =
      let n = length (write tx) in
      let more = serialize_entries write txs in
      let sizes : length p + length (serialize_entries write (tx ∷ txs))
          ≡ length (up_to p tx) + length more =
        omega (
          arith,
          length-up_to p tx,
          length-append (uint32_to_bytes n) (write tx ++ more),
          length-append (write tx) more,
          length-uint32_to_bytes n,
        ) in
      let small = a.small in
      let here =
        at_entry p tx (more ++ rest) bytes index (a.entries.0) (a.split ∙ simp append_assoc refl)
          a.start (omega (arith, sizes, small)) in
      (
        here,
        record {
          split = here.after;
          start = refl;
          small = omega (arith, sizes, small);
          entries = a.entries.1;
        },
        sizes,
      )

  pub count_entries_lem :
      (txs : List A) (p rest bytes : List ℕ) (index stop f count : ℕ)
      → Around p txs rest bytes index
      → stop ≡ length p + length (serialize_entries write txs)
      → length txs ≤ f
      → count_entries f bytes stop index count ≡ ok (count + length txs)
  unfolding count_entries serialize_entries
  count_entries_lem [] p rest bytes index stop zero count a e k = ap ok (omega arith)
  count_entries_lem [] p rest bytes index stop (suc f) count a e k = ground (arith, a.start, e)
  count_entries_lem (tx ∷ txs) p rest bytes index stop zero count a e k = absurd (omega arith)
  count_entries_lem (tx ∷ txs) p rest bytes index stop (suc f) count a e k =
      let (here, more, sizes) = Around-cons p tx txs rest bytes index a in
      let before : ltb index stop ≡ true = ground (arith, a.start, e, sizes, length-up_to p tx) in
      rw (before, here.size, here.skipped)
        (count_entries_lem txs (up_to p tx) rest bytes (length (up_to p tx)) stop f (count + 1) more
            (e ∙ sizes) (omega arith)
          ∙ ap ok (omega arith))

  pub read_entries_lem :
      (txs : List A) (p rest bytes : List ℕ) (index : ℕ)
      → Around p txs rest bytes index
      → read_entries read (length txs) bytes index ≡ ok txs
  unfolding read_entries
  read_entries_lem [] p rest bytes index a = refl
  read_entries_lem (tx ∷ txs) p rest bytes index a =
      let (here, more, sizes) = Around-cons p tx txs rest bytes index a in
      rw
        (
          here.size,
          here.content,
          a.entries.0.back,
          here.next,
          read_entries_lem txs (up_to p tx) rest bytes (length (up_to p tx)) more,
        )
        refl
