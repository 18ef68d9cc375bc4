-- ===== src/Examples/Lists.antt =====
-- redis-2.6.14/src/adlist.c: a list of one value and one of two.
use galery.Prelude.{ℕ, ◌+◌, ◌<◌, ◌≡◌, ◌≢◌, refl, none, some, true, arith, ◌==◌, if◌then◌else◌}
use galery.Adlist.{Heap, AdList, node, list_insert_node, list_del_node, list_next}
use galery.Adlist.Linked.{Linked}
use galery.Adlist.Insert.{Inserted, list_insert_node-Inserted}
use galery.Adlist.Delete.{Deleted, list_del_node-Deleted}
use galery.Adlist.Iterate.{at_place, from_tail, GoesOn, list_next-after_delete}

-- The nodes of two values, 30 and 31, at the addresses 7 and 8.
abbrev address : ℕ → ℕ
address i = i + 7

abbrev number : ℕ → ℕ
number i = i + 30

abbrev pair : Heap ℕ
pair k =
    if k == 7
    then some (node none (some 8) 30)
    else if k == 8
    then some (node (some 7) none 31)
    else none

abbrev two : AdList
two = record { head = some 7; tail = some 8; len = 2 }

pair-Linked : Linked pair two 2 address number
pair-Linked = record {
  nodes = λ i b. ground arith;
  head = refl;
  tail = refl;
  length = refl;
  distinct = λ i j b c e. omega arith;
}

first : 0 < 2
first = omega arith

list_insert_node-Inserted_example :
    Inserted pair two 2 address number 20 99 pair-Linked refl
      (list_insert_node 20 pair two 7 99 true)
      1
list_insert_node-Inserted_example =
    list_insert_node-Inserted pair two 2 address number 20 99 pair-Linked refl 0 true first

list_del_node-Deleted_example :
    Deleted pair two 2 address number pair-Linked 0 first (list_del_node pair two 7)
list_del_node-Deleted_example = list_del_node-Deleted pair two 2 address number pair-Linked 0 first

list_next-after_delete_example :
    (list_next pair (at_place 2 address 0) ≡ some (some 7, at_place 2 address 1))
    × (list_next pair (from_tail address 1) ≡ some (some 7, from_tail address 0))
    × ((d : Deleted pair two 2 address number pair-Linked 0 first (list_del_node pair two 7))
        × GoesOn pair two 2 address number pair-Linked 0 d.heap)
list_next-after_delete_example =
    list_next-after_delete pair two 2 address number pair-Linked 0 first

-- The addresses of the copy.
abbrev copied : ℕ → ℕ
copied i = i + 40

copied-apart : (i k : ℕ) → i < 2 → address i ≢ copied k
copied-apart i k b = λ e. absurd (omega (arith, e))

copied-different : (i j : ℕ) → copied i ≡ copied j → i ≡ j
copied-different i j e = omega arith

copied-unused : (j : ℕ) → pair (copied j) ≡ none
copied-unused j = ground arith
