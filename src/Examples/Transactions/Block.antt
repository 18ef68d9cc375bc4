-- ===== src/Examples/Transactions/Block.antt =====
-- redis-2.6.14/src/redis.c: a call of EXEC with a GET and an INCR in the queue, by the functions of
-- Keyspace.
use galery.Prelude.{
  ℕ, ◌+◌, ◌≡◌, refl, Option, none, some, List, [], ◌∷◌, ◌++◌, Bool, true, false, arith,
  if◌then◌else◌, get_or, same_bytes, sym,
}
use galery.Prelude.Int.{ℤ, pos}
use galery.Commands.{exec, Command, Feed, Server}
use galery.Commands.Call.{call_command, exec_run}
use galery.Commands.Call.Block.{is_del, all_del, Behaves, AllBehave}
use galery.Commands.Call.Block.Exec.{any_write}
use galery.Commands.Call.Block.Whole.{IsBlock, exec-IsBlock}
use galery.Keyspace.{
  Key, Db, lookup_key_read, expire_if_needed, get_expire, expire_key, propagate_expire, db_delete,
}
use galery.Keyspace.Strings.{incr_decr}
use galery.Examples.Transactions.{idle, started_with, write_one}
use galery.Examples.Keys.{counter, counting}
use mathlib.Core.List.{append-nil}

-- The DELs that a function of Keyspace fed to the append only file.
dels : ℕ → List (Bool × Key) → List Feed
dels db [] = []
dels db ((true, k) ∷ ks) = (db, (b'D' ∷ b'E' ∷ b'L' ∷ []) ∷ k ∷ []) ∷ dels db ks
dels db ((false, k) ∷ ks) = dels db ks

dels-del : (db : ℕ) (ks : List (Bool × Key)) → all_del (dels db ks) ≡ true
unfolding dels all_del is_del same_bytes
dels-del db [] = refl
dels-del db ((true, k) ∷ ks) = ground (arith, dels-del db ks)
dels-del db ((false, k) ∷ ks) = dels-del db ks

-- The database as the server lends it to a function, with nothing counted or fed yet.
abbrev lent : Server Db → Db
lent s = record (s.keyspace) { aof = s.aof_on; dirty = 0; deleted = [] }

-- The server with what the function did.
apply : {A : Type 0} → Server Db → ℕ → Option (A × Db) → Server Db
apply s c none = s
apply s c (some (a, db)) = record s {
  keyspace = db;
  dirty = s.dirty + db.dirty;
  aof_log = s.aof_log ++ dels (s.clients c).db db.deleted;
}

dirt : {A : Type 0} → Option (A × Db) → ℕ
dirt none = 0
dirt (some (a, db)) = db.dirty

abbrev key_of : Server Db → ℕ → Key
key_of s c = get_or (s.clients c).argv 1 []

-- GET as far as its lookup, and INCR.
get_or_incr : Command → Server Db → ℕ → Server Db
get_or_incr k s c =
    if k.readonly
    then apply s c (lookup_key_read (pos 6000) (lent s) (key_of s c))
    else apply s c (incr_decr (λ t. none) (pos 6000) (lent s) (key_of s c) (pos 1))

-- A lookup for reading does not count as a change.
lookup-dirt : (db : Db) (k : Key) → db.dirty ≡ 0 → dirt (lookup_key_read (pos 6000) db k) ≡ 0
unfolding dirt lookup_key_read expire_if_needed get_expire expire_key propagate_expire db_delete
lookup-dirt db k h = ground arith

apply-dirty :
    {A : Type 0} (s : Server Db) (c : ℕ) (o : Option (A × Db))
    → (apply s c o).dirty ≡ s.dirty + dirt o
unfolding apply dirt
apply-dirty s c none = omega arith
apply-dirty s c (some (a, db)) = refl

apply-feeds :
    {A : Type 0} (s : Server Db) (c : ℕ) (o : Option (A × Db))
    → (ext : List Feed) × ((apply s c o).aof_log ≡ s.aof_log ++ ext) × (all_del ext ≡ true)
unfolding apply all_del
apply-feeds s c none = ([], sym (append-nil s.aof_log), refl)
apply-feeds s c (some (a, db)) =
    (dels (s.clients c).db db.deleted, refl, dels-del (s.clients c).db db.deleted)

apply-rest :
    {A : Type 0} (s : Server Db) (c : ℕ) (o : Option (A × Db))
    → ((apply s c o).aof_on ≡ s.aof_on) × ((apply s c o).also_propagate ≡ s.also_propagate)
unfolding apply
apply-rest s c none = (refl, refl)
apply-rest s c (some (a, db)) = (refl, refl)

abbrev get_one : Command
get_one = record write_one { write = false; readonly = true; name = b'g' ∷ [] }

get-Behaves : Behaves get_or_incr get_one
unfolding get_or_incr
get-Behaves = record {
  feeds = λ s c. apply-feeds s c _;
  on = λ s c. (apply-rest s c _).0;
  rises = λ s c. omega (arith, apply-dirty s c (lookup_key_read (pos 6000) (lent s) (key_of s c)));
  same_dirty = λ h s c. omega (
    arith,
    apply-dirty s c (lookup_key_read (pos 6000) (lent s) (key_of s c)),
    lookup-dirt (lent s) (key_of s c) refl,
  );
  same_scheduled = λ h s c. (apply-rest s c _).1;
}

incr-Behaves : Behaves get_or_incr write_one
unfolding get_or_incr
incr-Behaves = record {
  feeds = λ s c. apply-feeds s c _;
  on = λ s c. (apply-rest s c _).0;
  rises = λ s c.
      omega
        (arith, apply-dirty s c (incr_decr (λ t. none) (pos 6000) (lent s) (key_of s c) (pos 1)));
  same_dirty = λ h. absurd (cc);
  same_scheduled = λ h. absurd (cc);
}

abbrev tick : Server Db → ℤ
tick s = pos 20

abbrev exec_command_entry : Command
exec_command_entry = record write_one {
  proc = exec;
  write = false;
  skip_monitor = true;
  name = b'e' ∷ [];
}

abbrev counter_args : List (List ℕ)
counter_args = (b'n' ∷ []) ∷ counter ∷ []

-- A client with both in its queue, and the counter is expired when they run.
abbrev queued_two : Server Db
queued_two = record (started_with counting) {
  clients = λ j. record idle {
    multi = true;
    argv = (b'E' ∷ []) ∷ [];
    cmd = some exec_command_entry;
    commands =
        record { cmd = get_one; argv = counter_args }
        ∷ record { cmd = write_one; argv = counter_args }
        ∷ [];
  };
}

both : AllBehave get_or_incr (queued_two.clients 3).commands
unfolding AllBehave
both = (get-Behaves, (incr-Behaves, tt))

exec-IsBlock_example :
    (feeds : List Feed) × ((call_command
        (exec_run get_or_incr tick)
        tick
        exec_command_entry
        queued_two
        3).aof_log
      ≡ queued_two.aof_log ++ feeds)
    × IsBlock ((b'E' ∷ []) ∷ []) true feeds
unfolding any_write
exec-IsBlock_example = exec-IsBlock get_or_incr tick exec_command_entry queued_two 3 both refl
