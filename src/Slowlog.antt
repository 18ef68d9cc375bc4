-- ===== src/Slowlog.antt =====
-- redis-2.6.14/src/slowlog.c: the log of slow commands, newest first. The clock is not in the entry.
pub mod Bounded
use galery.Prelude.{
  ℕ, zero, suc, ◌+◌, ◌-◌, List, [], ◌∷◌, ◌++◌, Bool, true, false, ltb, if◌then◌else◌, map, length,
  take,
}
use galery.Prelude.Int.{ℤ, pos, ltb_ℤ, leb_ℤ}
use galery.Util.{sds_from_long_long}
use galery.Rdb.Integer.{StringObject, raw, int}

abbrev pub entry_max_argc : ℕ
entry_max_argc = 32

abbrev pub entry_max_string : ℕ
entry_max_string = 128

pub record Entry : Type 0 where
  pub argv : List StringObject
  pub id : ℕ
  pub duration : ℤ

-- `server.slowlog`, `slowlog_entry_id`, `slowlog_log_slower_than` and `slowlog_max_len`.
pub record Slowlog : Type 0 where
  pub entries : List Entry
  pub entry_id : ℕ
  pub log_slower_than : ℤ
  pub max_len : ℕ

-- "... (%d more arguments)" and "... (%lu more bytes)"
abbrev pub more : ℕ → List ℕ → List ℕ
more n unit =
    b'.'
    ∷ b'.'
    ∷ b'.'
    ∷ b' '
    ∷ b'('
    ∷ (sds_from_long_long (pos n) ++ b' ' ∷ b'm' ∷ b'o' ∷ b'r' ∷ b'e' ∷ b' ' ∷ (unit ++ b')' ∷ []))

abbrev pub arguments : List ℕ
arguments = b'a' ∷ b'r' ∷ b'g' ∷ b'u' ∷ b'm' ∷ b'e' ∷ b'n' ∷ b't' ∷ b's' ∷ []

abbrev pub bytes : List ℕ
bytes = b'b' ∷ b'y' ∷ b't' ∷ b'e' ∷ b's' ∷ []

-- "Trim too long strings as well"
unfoldable pub trim_argument : StringObject → StringObject
trim_argument (raw s) =
    if ltb entry_max_string (length s)
    then raw (take entry_max_string s ++ more (length s - entry_max_string) bytes)
    else raw s
trim_argument (int v) = int v

unfoldable pub create_entry : Slowlog → List StringObject → ℤ → Entry
create_entry s argv duration = record {
  argv =
      if ltb entry_max_argc (length argv)
      then map trim_argument (take (entry_max_argc - 1) argv)
        ++ raw (more (length argv - entry_max_argc + 1) arguments) ∷ []
      else map trim_argument argv;
  id = s.entry_id;
  duration = duration;
}

-- `listDelNode(server.slowlog, listLast(server.slowlog))`
unfoldable pub drop_last {ℓ} : {A : Type ℓ} → List A → List A
drop_last [] = []
drop_last (x ∷ []) = []
drop_last (x ∷ y ∷ xs) = x ∷ drop_last (y ∷ xs)

-- The loop that removes old entries, for at most as many turns as there are entries.
unfoldable pub remove_old {ℓ} : {A : Type ℓ} → ℕ → ℕ → List A → List A
remove_old zero max_len xs = xs
remove_old (suc f) max_len xs =
    let rest = remove_old f max_len (drop_last xs) in if ltb max_len (length xs) then rest else xs

unfoldable pub push_entry_if_needed : Slowlog → List StringObject → ℤ → Slowlog
push_entry_if_needed s argv duration =
    if ltb_ℤ s.log_slower_than (pos 0)
    then s
    else (let slow = leb_ℤ s.log_slower_than duration in
        let entries = if slow then create_entry s argv duration ∷ s.entries else s.entries in
        record s {
          entries = remove_old (length entries) s.max_len entries;
          entry_id = if slow then s.entry_id + 1 else s.entry_id;
        })

-- `slowlogReset`
unfoldable pub slowlog_reset : Slowlog → Slowlog
slowlog_reset s = record s { entries = remove_old (length s.entries) 0 s.entries }
