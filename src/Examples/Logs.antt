-- ===== src/Examples/Logs.antt =====
-- redis-2.6.14/src/slowlog.c and dict.c: a full slow log, and the hash of a command's name.
use galery.Prelude.{◌≡◌, refl, List, [], ◌∷◌, if◌then◌else◌, take}
use galery.Prelude.Int.{pos, leb_ℤ}
use galery.Rdb.Integer.{StringObject, raw}
use galery.Slowlog.{Slowlog, create_entry, push_entry_if_needed}
use galery.Slowlog.Bounded.{push_entry_if_needed_lem}

abbrev get_k : List StringObject
get_k = raw (b'G' ∷ []) ∷ raw (b'k' ∷ []) ∷ []

abbrev full_log : Slowlog
full_log = record {
  entries = record { argv = get_k; id = 0; duration = pos 9 } ∷ [];
  entry_id = 1;
  log_slower_than = pos 5;
  max_len = 1;
}

push_entry_if_needed_lem_example :
    (push_entry_if_needed full_log get_k (pos 7)).entries
    ≡ take 1 (
        if leb_ℤ (pos 5) (pos 7)
        then create_entry full_log get_k (pos 7) ∷ full_log.entries
        else full_log.entries)
push_entry_if_needed_lem_example = push_entry_if_needed_lem full_log get_k (pos 7) refl
