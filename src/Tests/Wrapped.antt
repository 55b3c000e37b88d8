-- ===== src/Tests/Wrapped.antt =====
-- A holder sells tokens of a NativeWrapper.
use orbitersdk_cpp.Prelude.{
  ℕ, ◌+◌, ◌-◌, ◌≡◌, refl, true, false, err, runtime_error, range_error, Assoc, none, lookup, List,
  [], ◌∷◌, ltb, ◌==◌, if◌then◌else◌, arith,
}
use orbitersdk_cpp.Core.Chain.{Account}
use orbitersdk_cpp.Contract.SafeUnorderedMap.{member}
use orbitersdk_cpp.Contract.SafeUnorderedMap.Laws.{shown}
use orbitersdk_cpp.Contract.Erc20.{Erc20}
use orbitersdk_cpp.Contract.Erc20.Transfers.{move_result, after_move}
use orbitersdk_cpp.Contract.Interface.Transfers.{native}
use orbitersdk_cpp.Contract.NativeWrapper.{NativeWrapper, call_deposit, run, withdraw}
use orbitersdk_cpp.Contract.NativeWrapper.Covered.{total, IsCovered, IsCovered-raise}
use orbitersdk_cpp.Contract.NativeWrapper.Backed.{held, received, IsBacked, run-IsBacked}
use orbitersdk_cpp.Contract.NativeWrapper.Withdrawals.{withdraw_moves}

-- Account 1 has 30 tokens of the contract at 9, and 5 native tokens.
abbrev token : Erc20
token = record {
  balances = record {
    base = record { owner = true; registered = false; address = 6 };
    map = (1, 30) ∷ [];
    map_ptr = none;
    erased_keys = none;
  };
  allowed = record {
    base = record { owner = true; registered = false; address = 7 };
    map = [];
    map_ptr = none;
    erased_keys = none;
  };
  used_variables = [];
}

abbrev accounts : Assoc Account
accounts = (1, record { balance = 5; nonce = 2 }) ∷ ((9, record { balance = 34; nonce = 0 }) ∷ [])

abbrev wrapper : NativeWrapper
wrapper = record { token = token; native_balances = [] }

total-zero : (owners : List ℕ) → total (λ a. 0) owners ≡ 0
unfolding total
total-zero [] = refl
total-zero (a ∷ owners) = omega (arith, total-zero owners)

nothing-IsCovered : IsCovered (λ a. 0) 0
unfolding IsCovered
nothing-IsCovered owners distinct = omega (arith, total-zero owners)

held_by : (j : ℕ) → held token j ≡ (if 1 == j then 0 + 30 else 0)
unfolding shown lookup member
held_by j = ground arith

token-IsCovered : IsCovered (held token) 30
token-IsCovered = IsCovered-raise (λ a. 0) (held token) 1 30 0 held_by nothing-IsCovered

-- The 4 native tokens of this call have arrived.
arrived : native accounts [] 9 ≡ 30 + received (call_deposit 4)
unfolding native lookup received
arrived = refl

run-IsBacked_example : IsBacked accounts 9 (run accounts 9 2 (call_deposit 4) wrapper).1
run-IsBacked_example = run-IsBacked accounts 9 2 (call_deposit 4) 30 wrapper token-IsCovered arrived

-- Account 1 has too little to be paid 12.
withdraw_moves_example :
    let (r, w') = withdraw accounts 9 1 12 wrapper in
    let tokens = held token in
    let f = native accounts [] in
    let short = ltb (tokens 1) 12 in
    let refused = ltb (f 1) 12 in
    (r ≡ (
      if short
      then err range_error
      else if refused
      then err runtime_error
      else move_result 9 1 12 f))
    × (held w'.token 1 ≡ (if short then tokens 1 else if 1 == 1 then tokens 1 - 12 else tokens 1))
    × (native accounts w'.native_balances 1
        ≡ (if short then f 1 else if refused then f 1 else after_move 9 1 12 f 1))
withdraw_moves_example = withdraw_moves accounts 9 1 12 1 wrapper

-- The answer to that call is an exception.
withdraw_refused : (withdraw accounts 9 1 12 wrapper).0 ≡ err runtime_error
unfolding shown lookup member native
withdraw_refused = withdraw_moves_example.0
