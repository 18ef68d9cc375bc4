-- ===== src/Examples/Maps.antt =====
-- redis-2.6.14/src/dict.c: dicts of numbers, one of them in the middle of its rehashing.
use galery.Prelude.{ℕ, ◌-◌, ◌^◌, ◌≤◌, ◌<◌, ◌≡◌, refl, true, false, none, some, arith, ◌==◌}
use galery.Prelude.Int.{negsuc}
use galery.Dict.Chain.{DictType, IsLawful, chain_find}
use galery.Dict.Table.{bucket, index_of, push_at, push_all, push}
use galery.Dict.{
  Dict, empty, dict_add, dict_add_raw, key_index, expand_if_needed, dict_expand, next_power,
  double_until, step_if_rehashing, dict_rehash, find_entry, dict_find, dict_delete, dict_replace,
  int_of_unsigned, push_at_index, rehash_step, rehash_rounds, rehash_round, skip_empty, move_bucket,
}
use galery.Dict.Invariant.{IsDict, view}
use galery.Dict.Rehash.{Keeps, dict_rehash-Keeps}
use galery.Dict.Finish.{dict_rehash-ends, empty-IsDict}
use galery.Dict.Operations.{Adds, prepared, target, dict_add-Adds, dict_find_lem, Deletes}
use galery.Dict.Delete.{dict_delete-Deletes}
use galery.Dict.Replace.{Replaces, dict_replace-Replaces}

abbrev numbers : DictType ℕ
numbers = record { hash_function = λ k. k; key_compare = λ a b. a == b }

-- Equality on numbers is a lawful comparison.
lawful : IsLawful numbers
lawful = record {
  compare_refl = λ a. ground arith;
  compare_cong = λ a b c h. ground arith;
  compare_sym = λ a b. ground arith;
  hash_cong = λ a b h. ground arith;
}

-- The greatest unsigned index is the -1 of a key that is there.
int_of_unsigned-greatest : int_of_unsigned (2 ^ 32 - 1) ≡ negsuc 0
unfolding int_of_unsigned
int_of_unsigned-greatest = refl

abbrev none_added : Dict ℕ ℕ
none_added = empty

abbrev one_added : Dict ℕ ℕ
one_added = (dict_add numbers true none_added 1 10).1

abbrev two_added : Dict ℕ ℕ
two_added = (dict_add numbers true one_added 5 50).1

abbrev three_added : Dict ℕ ℕ
three_added = (dict_add numbers true two_added 9 90).1

abbrev four_added : Dict ℕ ℕ
four_added = (dict_add numbers true three_added 2 20).1

-- The fifth key starts a rehashing.
abbrev five_added : Dict ℕ ℕ
five_added = (dict_add numbers true four_added 3 30).1

none_added-fits : (target numbers lawful true none_added).size ≤ 2 ^ 31
unfolding prepared dict_add dict_add_raw key_index expand_if_needed dict_expand next_power
    double_until step_if_rehashing find_entry bucket index_of push_at push_at_index int_of_unsigned
    chain_find
none_added-fits = omega arith

one_added-fits : (target numbers lawful true one_added).size ≤ 2 ^ 31
unfolding prepared dict_add dict_add_raw key_index expand_if_needed dict_expand next_power
    double_until step_if_rehashing find_entry bucket index_of push_at push_at_index int_of_unsigned
    chain_find
one_added-fits = omega arith

two_added-fits : (target numbers lawful true two_added).size ≤ 2 ^ 31
unfolding prepared dict_add dict_add_raw key_index expand_if_needed dict_expand next_power
    double_until step_if_rehashing find_entry bucket index_of push_at push_at_index int_of_unsigned
    chain_find
two_added-fits = omega arith

three_added-fits : (target numbers lawful true three_added).size ≤ 2 ^ 31
unfolding prepared dict_add dict_add_raw key_index expand_if_needed dict_expand next_power
    double_until step_if_rehashing find_entry bucket index_of push_at push_at_index int_of_unsigned
    chain_find
three_added-fits = omega arith

four_added-fits : (target numbers lawful true four_added).size ≤ 2 ^ 31
unfolding prepared dict_add dict_add_raw key_index expand_if_needed dict_expand next_power
    double_until step_if_rehashing find_entry bucket index_of push_at push_at_index int_of_unsigned
    chain_find
four_added-fits = omega arith

five_added-fits : (target numbers lawful true five_added).size ≤ 2 ^ 31
unfolding prepared dict_add dict_add_raw key_index expand_if_needed dict_expand next_power
    double_until step_if_rehashing find_entry bucket index_of push_at push_at_index int_of_unsigned
    chain_find rehash_step dict_rehash rehash_rounds rehash_round skip_empty move_bucket push_all
    push
five_added-fits = omega arith

five_added-IsDict : IsDict numbers lawful five_added
five_added-IsDict =
    let v0 = empty-IsDict numbers lawful none_added refl in
    let v1 = (dict_add-Adds numbers lawful true none_added 1 10 v0 none_added-fits).valid in
    let v2 = (dict_add-Adds numbers lawful true one_added 5 50 v1 one_added-fits).valid in
    let v3 = (dict_add-Adds numbers lawful true two_added 9 90 v2 two_added-fits).valid in
    let v4 = (dict_add-Adds numbers lawful true three_added 2 20 v3 three_added-fits).valid in
    (dict_add-Adds numbers lawful true four_added 3 30 v4 four_added-fits).valid

five_added-rehashidx : five_added.rehashidx ≡ some 0
unfolding dict_add dict_add_raw key_index expand_if_needed dict_expand next_power double_until
    step_if_rehashing find_entry bucket index_of push_at push_at_index int_of_unsigned chain_find
five_added-rehashidx = refl

five_added-size : five_added.ht0.size ≡ 4
unfolding dict_add dict_add_raw key_index expand_if_needed dict_expand next_power double_until
    step_if_rehashing find_entry bucket index_of push_at push_at_index int_of_unsigned chain_find
five_added-size = refl

five_added-short : five_added.ht0.size - 0 < 10
five_added-short = omega (arith, five_added-size)

dict_add-Adds_example : Adds numbers lawful five_added 7 70 (dict_add numbers true five_added 7 70)
dict_add-Adds_example =
    dict_add-Adds numbers lawful true five_added 7 70 five_added-IsDict five_added-fits

dict_delete-Deletes_example : Deletes numbers lawful five_added 9 (dict_delete numbers five_added 9)
dict_delete-Deletes_example = dict_delete-Deletes numbers lawful five_added 9 five_added-IsDict

dict_replace-Replaces_example :
    Replaces numbers lawful five_added 5 55 (dict_replace numbers true five_added 5 55)
dict_replace-Replaces_example =
    dict_replace-Replaces numbers lawful true five_added 5 55 five_added-IsDict five_added-fits

dict_rehash-Keeps_example : Keeps numbers lawful five_added (dict_rehash numbers five_added 2).1
dict_rehash-Keeps_example = dict_rehash-Keeps numbers lawful five_added 2 five_added-IsDict

dict_find_lem_example :
    ((dict_find numbers five_added 9).0 ≡ view numbers lawful five_added 9)
    × Keeps numbers lawful five_added (dict_find numbers five_added 9).1
dict_find_lem_example = dict_find_lem numbers lawful five_added 9 five_added-IsDict

dict_rehash-ends_example :
    ((dict_rehash numbers five_added 10).0 ≡ false)
    × ((dict_rehash numbers five_added 10).1.rehashidx ≡ none)
dict_rehash-ends_example =
    dict_rehash-ends numbers lawful five_added 10 0 five_added-IsDict five_added-rehashidx
      five_added-short
