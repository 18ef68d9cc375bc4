-- ===== src/Commands/Call/Block/Aside.antt =====
-- redis-2.6.14/src/multi.c: what the parts of execCommand around its loop leave to the propagation.
use mathlib.Core.List.{append-nil}
use galery.Prelude.{
  ℕ, ◌+◌, ◌≤◌, ◌≡◌, refl, sym, ◌∙◌, Option, List, [], ◌∷◌, ◌++◌, Bool, true, false, if◌then◌else◌,
  arith,
}
use galery.Commands.{Command, Reply, Feed, Server, set_client, add_reply}
use galery.Commands.Watch.{unwatch_all_keys}
use galery.Commands.Transaction.{discard_transaction, handle_monitor}
use galery.Commands.Call.Block.{all_del, Effect}
use galery.Commands.Call.Block.Exec.{multi_args, Trace, quiet, begins}

-- A property of both branches.
pub if_cases :
    {A : Type 0} (P : A → Type 0) (b : Bool) (x y : A)
    → (b ≡ true → P x)
    → (b ≡ false → P y)
    → P (if b then x else y)
if_cases P true x y p q = p refl
if_cases P false x y p q = q refl

module _ {D : Type 0} where
  -- From `s` to `t` nothing changed that propagation reads, for client `c`.
  pub record Aside (c : ℕ) (s t : Server D) : Type 0 where
    pub log : t.aof_log ≡ s.aof_log
    pub on : t.aof_on ≡ s.aof_on
    pub scheduled : t.also_propagate ≡ s.also_propagate
    pub dirty : t.dirty ≡ s.dirty
    pub argv : (t.clients c).argv ≡ (s.clients c).argv

  pub Aside-trans : (c : ℕ) (s t u : Server D) → Aside c s t → Aside c t u → Aside c s u
  Aside-trans c s t u a b = record {
    log = b.log ∙ a.log;
    on = b.on ∙ a.on;
    scheduled = b.scheduled ∙ a.scheduled;
    dirty = b.dirty ∙ a.dirty;
    argv = b.argv ∙ a.argv;
  }

  pub add_reply-Aside : (s : Server D) (c : ℕ) (r : Reply) → Aside c s (add_reply s c r)
  unfolding add_reply set_client
  add_reply-Aside s c r = record {
    log = refl;
    on = refl;
    scheduled = refl;
    dirty = refl;
    argv = ground arith;
  }

  pub unwatch_all_keys-Aside : (s : Server D) (c : ℕ) → Aside c s (unwatch_all_keys s c)
  unfolding unwatch_all_keys set_client
  unwatch_all_keys-Aside s c = record {
    log = refl;
    on = refl;
    scheduled = refl;
    dirty = refl;
    argv = ground arith;
  }

  pub discard_transaction-Aside : (s : Server D) (c : ℕ) → Aside c s (discard_transaction s c)
  unfolding discard_transaction unwatch_all_keys set_client
  discard_transaction-Aside s c = record {
    log = refl;
    on = refl;
    scheduled = refl;
    dirty = refl;
    argv = ground arith;
  }

  pub handle_monitor-Aside : (s : Server D) (c : ℕ) → Aside c s (handle_monitor s c)
  unfolding handle_monitor
  handle_monitor-Aside s c = record {
    log = ground arith;
    on = ground arith;
    scheduled = ground arith;
    dirty = ground arith;
    argv = ground arith;
  }

  -- What EXEC has fed when its function returns, before its own propagation.
  pub data Opened (s t : Server D) : Bool → List Feed → Type 0 where
    unchanged :
        (before : List Feed) → all_del before ≡ true → t.dirty ≡ s.dirty → Opened s t false before
    opened :
        (before : List Feed) (db : ℕ) (body : List Feed)
        → all_del before ≡ true
        → s.dirty + 1 ≤ t.dirty
        → Opened s t true (before ++ ((db, multi_args) ∷ body))

  pub record Executed (c : ℕ) (s : Server D) (writes : Bool) (t : Server D) : Type 0 where
    pub ext : List Feed
    pub effect : Effect s ext t
    pub state : Opened s t writes ext
    pub argv : (t.clients c).argv ≡ (s.clients c).argv

  pub Aside-Executed :
      (c : ℕ) (s t : Server D) → s.also_propagate ≡ [] → Aside c s t → Executed c s false t
  unfolding all_del
  Aside-Executed c s t none_left a = record {
    ext = [];
    effect = record {
      log = a.log ∙ sym (append-nil s.aof_log);
      on = a.on;
      scheduled = a.scheduled ∙ none_left;
      rises = omega (arith, a.dirty);
    };
    state = unchanged [] refl a.dirty;
    argv = a.argv;
  }

  -- The part of `execCommand` after the loop.
  abbrev pub finished : List (List ℕ) → Option Command → Bool → Server D → ℕ → Server D
  finished argv cmd must_propagate s2 c =
      let s3 = set_client s2 c (record (s2.clients c) { argv = argv; cmd = cmd }) in
      let s4 = discard_transaction s3 c in
      let s5 = if must_propagate then record s4 { dirty = s4.dirty + 1 } else s4 in
      handle_monitor s5 c

  pub finished-Executed :
      (s s1 s2 : Server D) (c : ℕ) (cmd : Option Command) (b : Bool) (ext : List Feed)
      → Aside c s s1
      → Effect s1 ext s2
      → Trace s1 s2 false ext b
      → Executed c s b (finished (s.clients c).argv cmd b s2 c)
  unfolding discard_transaction unwatch_all_keys set_client handle_monitor
  finished-Executed s s1 s2 c cmd true _ a e (begins before db body q) = record {
    ext = before ++ ((db, multi_args) ∷ body);
    effect = record {
      log = ground (arith, e.log, a.log);
      on = ground (arith, e.on, a.on);
      scheduled = ground (arith, e.scheduled);
      rises = ground (arith, e.rises, a.dirty);
    };
    state = opened before db body q (ground (arith, e.rises, a.dirty));
    argv = ground arith;
  }
  finished-Executed s s1 s2 c cmd false ext a e (quiet _ q h) = record {
    ext = ext;
    effect = record {
      log = ground (arith, e.log, a.log);
      on = ground (arith, e.on, a.on);
      scheduled = ground (arith, e.scheduled);
      rises = ground (arith, e.rises, a.dirty);
    };
    state = unchanged ext q (ground (arith, h, a.dirty));
    argv = ground arith;
  }
