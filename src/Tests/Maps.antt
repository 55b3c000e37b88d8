-- ===== src/Tests/Maps.antt =====
-- Runs of the maps of contracts and of the token.
use orbitersdk_cpp.Prelude.{
  ℕ, ◌≡◌, ◌-◌, true, false, err, range_error, none, [], ◌∷◌, lookup, ◌&&◌, ◌==◌, ltb, if◌then◌else◌,
}
use orbitersdk_cpp.Contract.SafeBase.{Scope}
use orbitersdk_cpp.Contract.SafeUnorderedMap.{SafeUnorderedMap, member, pointed, commit, revert}
use orbitersdk_cpp.Contract.SafeUnorderedMap.Laws.{
  shown, scratch, erased, answer, after, run, run-shown,
}
use orbitersdk_cpp.Contract.SafeUnorderedMap.Ends.{commit-revert}
use orbitersdk_cpp.Contract.Erc20.{Erc20, transfer_from, balance_of, allowance}
use orbitersdk_cpp.Contract.Erc20.Transfers.{balance, scope_of, move_result, after_move}
use orbitersdk_cpp.Contract.Erc20.Allowances.{transfer_from_moves}

-- A map of one entry.
abbrev entries : SafeUnorderedMap ℕ
entries = record {
  base = record { owner = true; registered = false; address = 6 };
  map = (1, 30) ∷ [];
  map_ptr = none;
  erased_keys = none;
}

abbrev entries_scope : Scope (SafeUnorderedMap ℕ)
entries_scope = record { self = entries; used_variables = [] }

-- A token, of which account 1 has 30 and account 2 may move 10.
abbrev token : Erc20
token = record {
  balances = entries;
  allowed = record {
    base = record { owner = true; registered = false; address = 7 };
    map = (1, (2, 10) ∷ []) ∷ [];
    map_ptr = none;
    erased_keys = none;
  };
  used_variables = [];
}

run-shown_example :
    let (r, s') = run 0 (erased 1) entries_scope in
    (r ≡ answer 0 (erased 1) (shown entries) (scratch entries))
    × (shown s'.self 1 ≡ after 0 (erased 1) (shown entries) (scratch entries) 1)
run-shown_example = run-shown 0 (erased 1) entries_scope 1

commit-revert_example :
    let m = (run 0 (erased 1) entries_scope).1.self in
    let gone = member 1 (pointed m.erased_keys) in
    (lookup 1 (commit m).map ≡ (if gone then none else shown m 1))
    × (shown (commit m) 1 ≡ (if gone then none else shown m 1))
    × (member 1 (pointed (commit m).erased_keys) ≡ gone)
    × (shown (revert m) 1 ≡ lookup 1 m.map)
commit-revert_example = commit-revert (run 0 (erased 1) entries_scope).1.self 1

transfer_from_moves_example :
    let (r, t') = transfer_from 2 1 3 8 token in
    let f = λ (a : ℕ). balance (scope_of token) a in
    let a = allowance 1 2 token in
    (r ≡ (if ltb a 8 then err range_error else move_result 1 3 8 f))
    × (balance_of 3 t' ≡ (if ltb a 8 then f 3 else after_move 1 3 8 f 3))
    × (allowance 1 2 t' ≡ (
        if ltb a 8
        then allowance 1 2 token
        else if 1 == 1 && 2 == 2
        then a - 8
        else allowance 1 2 token))
transfer_from_moves_example = transfer_from_moves 2 1 3 8 3 1 2 token
