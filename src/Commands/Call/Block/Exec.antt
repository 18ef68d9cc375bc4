-- ===== src/Commands/Call/Block/Exec.antt =====
-- redis-2.6.14/src/multi.c and redis.c: EXEC puts its commands between MULTI and EXEC.
use mathlib.Core.List.{append_assoc, append-nil}
use galery.Prelude.{
  ℕ, ◌+◌, ◌≡◌, refl, sym, ap, ◌∙◌, none, some, List, [], ◌∷◌, ◌++◌, Bool, true, false, not, ◌&&◌,
  ◌||◌, if◌then◌else◌, arith, set, subst,
}
use galery.Prelude.Int.{ℤ}
use galery.Commands.{Client, Command, Feed, MultiCmd, Server, set_client}
use galery.Commands.Transaction.{exec_loop}
use galery.Commands.Call.{feed_aof, feed_slaves, propagate, call, propagate_multi}
use galery.Commands.Call.Block.{
  all_del, all_del-append, Effect, Behaves, AllBehave, Effect-trans, call-Effect,
}

-- Whether one of the commands is not read only.
unfoldable pub any_write : List MultiCmd → Bool
any_write [] = false
any_write (m ∷ ms) = not m.cmd.readonly || any_write ms

-- Whether EXEC runs such a command: the client is in MULTI, and neither flag is set.
abbrev pub runs_write : Client → Bool
runs_write x = x.multi && not (x.dirty_cas || x.dirty_exec) && any_write x.commands

abbrev pub multi_args : List (List ℕ)
multi_args = (b'M' ∷ b'U' ∷ b'L' ∷ b'T' ∷ b'I' ∷ []) ∷ []

module _ {D : Type 0} where
  -- What a step of the loop of `execCommand` feeds, with `must_propagate` before and after it: DELs
  -- before the first command that is not read only, and there MULTI first.
  pub data Trace (s t : Server D) : Bool → List Feed → Bool → Type 0 where
    inside : (ext : List Feed) → Trace s t true ext true
    quiet :
        (before : List Feed)
        → all_del before ≡ true
        → t.dirty ≡ s.dirty
        → Trace s t false before false
    begins :
        (before : List Feed) (db : ℕ) (body : List Feed)
        → all_del before ≡ true
        → Trace s t false (before ++ ((db, multi_args) ∷ body)) true

  Trace-trans :
      (s t u : Server D) (b b' b'' : Bool) (xs ys : List Feed)
      → Trace s t b xs b'
      → Trace t u b' ys b''
      → Trace s u b (xs ++ ys) b''
  Trace-trans s t u b b' b'' xs ys (inside _) (inside _) = inside (xs ++ ys)
  Trace-trans s t u b b' b'' xs ys (quiet _ h e) (quiet _ k f) =
      quiet (xs ++ ys) (all_del-append xs ys h k) (f ∙ e)
  Trace-trans s t u b b' b'' xs _ (quiet _ h e) (begins before db body k) =
      subst (λ l. Trace s u false l true) (append_assoc xs before ((db, multi_args) ∷ body))
        (begins (xs ++ before) db body (all_del-append xs before h k))
  Trace-trans s t u b b' b'' _ ys (begins before db body h) (inside _) =
      subst (λ l. Trace s u false l true) (sym (append_assoc before ((db, multi_args) ∷ body) ys))
        (begins before db (body ++ ys) h)

  -- The server before the call of a queued command, and after what follows it.
  abbrev loaded : MultiCmd → Server D → ℕ → Server D
  loaded m s c = set_client s c (record (s.clients c) { argv = m.argv; cmd = some m.cmd })

  abbrev announced : Bool → Server D → ℕ → Server D
  announced first s c = if first then propagate_multi s c else s

  propagate_multi-Effect :
      (s : Server D) (c : ℕ)
      → s.aof_on ≡ true
      → s.also_propagate ≡ []
      → Effect s (((s.clients c).db, multi_args) ∷ []) (propagate_multi s c)
        × ((propagate_multi s c).clients ≡ s.clients)
  unfolding propagate_multi propagate feed_aof feed_slaves
  propagate_multi-Effect s c on none_left = (
    record {
      log = ground (arith, on);
      on = ground arith;
      scheduled = ground (arith, none_left);
      rises = ground arith;
    },
    ground arith,
  )

  -- From `s` to `t` nothing changed but clients.
  Effect-clients :
      (s t : Server D)
      → t.aof_log ≡ s.aof_log
      → t.aof_on ≡ s.aof_on
      → t.also_propagate ≡ s.also_propagate
      → t.dirty ≡ s.dirty
      → s.also_propagate ≡ []
      → Effect s [] t
  Effect-clients s t a b d e none_left = record {
    log = a ∙ sym (append-nil s.aof_log);
    on = b;
    scheduled = d ∙ none_left;
    rises = omega (arith, e);
  }

  loaded-Effect :
      (m : MultiCmd) (s : Server D) (c : ℕ)
      → s.also_propagate ≡ []
      → Effect s [] (loaded m s c) × (((loaded m s c).clients c).cmd ≡ some m.cmd)
  unfolding set_client
  loaded-Effect m s c none_left =
      (Effect-clients s (loaded m s c) refl refl refl refl none_left, ground arith)

  loaded-dirty : (m : MultiCmd) (s : Server D) (c : ℕ) → (loaded m s c).dirty ≡ s.dirty
  unfolding set_client
  loaded-dirty m s c = refl

  announced-Effect :
      (m : MultiCmd) (s : Server D) (c : ℕ)
      → s.aof_on ≡ true
      → s.also_propagate ≡ []
      → Effect s
          ((((loaded m s c).clients c).db, multi_args) ∷ [])
          (propagate_multi (loaded m s c) c)
        × (((propagate_multi (loaded m s c) c).clients c).cmd ≡ some m.cmd)
  announced-Effect m s c on none_left =
      let l = loaded-Effect m s c none_left in
      let p = propagate_multi-Effect (loaded m s c) c (l.0.on ∙ on) l.0.scheduled in
      (Effect-trans s (loaded m s c) _ [] _ l.0 p.0, ap (λ f. (f c).cmd) p.1 ∙ l.1)

  -- The commands get back what their calls made of their arguments.
  abbrev stored : MultiCmd → ℕ → Server D → ℕ → Server D
  stored m j s c =
      let x = s.clients c in
      let back : Command = elim x.cmd [ none ↦ m.cmd | some k ↦ k ] in
      set_client s c
        (record x { commands = set x.commands j (record { cmd = back; argv = x.argv }) })

  stored-Effect :
      (m : MultiCmd) (j : ℕ) (s : Server D) (c : ℕ)
      → s.also_propagate ≡ []
      → Effect s [] (stored m j s c) × ((stored m j s c).dirty ≡ s.dirty)
  unfolding set_client
  stored-Effect m j s c none_left =
      (Effect-clients s (stored m j s c) refl refl refl refl none_left, refl)

module _ {D : Type 0} (run : Command → Server D → ℕ → Server D) (duration : Server D → ℤ) where
  abbrev one : Bool → ℕ → MultiCmd → Server D → ℕ → Server D
  one first j m s c =
      let s1 = loaded m s c in
      stored m j (call run duration (if first then propagate_multi s1 c else s1) c) c

  called-Effect :
      (j : ℕ) (m : MultiCmd) (s : Server D) (c : ℕ)
      → Behaves run m.cmd
      → (s.clients c).cmd ≡ some m.cmd
      → (ext : List Feed) × Effect s ext (stored m j (call run duration s c) c)
        × (m.cmd.readonly ≡ true
            → (all_del ext ≡ true) × ((stored m j (call run duration s c) c).dirty ≡ s.dirty))
  called-Effect j m s c behaves e =
      let k = call-Effect run duration m.cmd behaves s c e in
      let t = call run duration s c in
      let b = stored-Effect m j t c k.1.scheduled in
      (
        k.0 ++ [],
        Effect-trans s t _ k.0 [] k.1 b.0,
        λ h. (ap all_del (append-nil k.0) ∙ (k.2 h).0, b.1 ∙ (k.2 h).1),
      )

  -- One round of the loop, for a command that is read only or not.
  one-Trace :
      (b r : Bool) (j : ℕ) (m : MultiCmd) (s : Server D) (c : ℕ)
      → Behaves run m.cmd
      → m.cmd.readonly ≡ r
      → s.aof_on ≡ true
      → s.also_propagate ≡ []
      → (ext : List Feed) × Effect s ext (one (not b && not r) j m s c)
        × Trace s (one (not b && not r) j m s c) b ext (b || (not b && not r))
  unfolding all_del
  one-Trace true r j m s c p h on none_left =
      let l = loaded-Effect m s c none_left in
      let k = called-Effect j m (loaded m s c) c p l.1 in
      (k.0, Effect-trans s (loaded m s c) _ [] k.0 l.0 k.1, inside k.0)
  one-Trace false true j m s c p h on none_left =
      let l = loaded-Effect m s c none_left in
      let k = called-Effect j m (loaded m s c) c p l.1 in
      (
        k.0,
        Effect-trans s (loaded m s c) (one false j m s c) [] k.0 l.0 k.1,
        quiet k.0 (k.2 h).0 ((k.2 h).1 ∙ loaded-dirty m s c),
      )
  one-Trace false false j m s c p h on none_left =
      let a = announced-Effect m s c on none_left in
      let s2 = propagate_multi (loaded m s c) c in
      let k = called-Effect j m s2 c p a.1 in
      let feed : Feed = (((loaded m s c).clients c).db, multi_args) in
      (
        feed ∷ k.0,
        Effect-trans s s2 (one true j m s c) (feed ∷ []) k.0 a.0 k.1,
        begins [] _ k.0 refl,
      )

  pub exec_loop-Trace :
      (ms : List MultiCmd) (j : ℕ) (b : Bool) (s : Server D) (c : ℕ)
      → AllBehave run ms
      → s.aof_on ≡ true
      → s.also_propagate ≡ []
      → (ext : List Feed) × Effect s ext
          (exec_loop (call run duration) propagate_multi j ms b s c).1
        × Trace s
            (exec_loop (call run duration) propagate_multi j ms b s c).1
            b
            ext
            (exec_loop (call run duration) propagate_multi j ms b s c).0
  unfolding exec_loop AllBehave all_del
  exec_loop-Trace [] j true s c bs on none_left =
      ([], Effect-clients s s refl refl refl refl none_left, inside [])
  exec_loop-Trace [] j false s c bs on none_left =
      ([], Effect-clients s s refl refl refl refl none_left, quiet [] refl refl)
  exec_loop-Trace (m ∷ ms) j b s c bs on none_left =
      let first = not b && not m.cmd.readonly in
      let o = one-Trace b m.cmd.readonly j m s c bs.0 refl on none_left in
      let t = one first j m s c in
      let r = exec_loop-Trace ms (j + 1) (b || first) t c bs.1 (o.1.on ∙ on) o.1.scheduled in
      let u = exec_loop (call run duration) propagate_multi (j + 1) ms (b || first) t c in
      (
        o.0 ++ r.0,
        Effect-trans s t u.1 o.0 r.0 o.1 r.1,
        Trace-trans s t u.1 b (b || first) u.0 o.0 r.0 o.2 r.2,
      )

pub exec_loop-flag :
    {D : Type 0} (call : Server D → ℕ → Server D) (propagate_multi : Server D → ℕ → Server D)
    (ms : List MultiCmd) (j : ℕ) (b : Bool) (s : Server D) (c : ℕ)
    → (exec_loop call propagate_multi j ms b s c).0 ≡ (b || any_write ms)
unfolding exec_loop any_write
exec_loop-flag call propagate_multi [] j b s c = ground arith
exec_loop-flag call propagate_multi (m ∷ ms) j b s c =
    exec_loop-flag call propagate_multi ms (j + 1) (b || (not b && not m.cmd.readonly)) _ c
    ∙ ground arith
