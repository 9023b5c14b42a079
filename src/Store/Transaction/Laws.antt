-- ===== src/Store/Transaction/Laws.antt =====
-- A transaction is all or nothing, and gives its connection back.
use nestjs_microservice_boil.Base.{
  Bool, true, false, ◌⊎◌, inl, inr, ℕ, ◌≤◌, ◌≡◌, ◌+◌, arith, ◌∙◌, refl,
}
use nestjs_microservice_boil.Exception.{Result, ok, err, Exception}
use nestjs_microservice_boil.Exec.{Exec, World, ◌>>=◌, command}
use nestjs_microservice_boil.Store.{handle_database_error, try_catch, try_finally}
use nestjs_microservice_boil.Store.Transaction.{Runner, committed, guarded, run_in_transaction}

-- What a transaction relies on in the client. What others can read, `durable`, is changed by a
-- commit that succeeds and by nothing else, and is then what the transaction has written,
-- `pending`. A transaction is `active` from its start to a commit or a rollback that succeeds;
-- releasing a connection does not end it. The connections that are open are counted.
pub record RunnerLaws {D V : Type 0} (runner : Runner D) (durable pending : D → V)
    (active : D → Bool) (opened : D → ℕ) : Type 0 where
  pub durable-commit :
      (d : D) → (runner.commit d).0 ≡ ok tt → durable (runner.commit d).1 ≡ pending d
  pub active-start : (d : D) → (runner.start d).0 ≡ ok tt → active (runner.start d).1 ≡ true
  pub active-commit : (d : D) → (runner.commit d).0 ≡ ok tt → active (runner.commit d).1 ≡ false
  pub active-rollback :
      (d : D) → (runner.rollback d).0 ≡ ok tt → active (runner.rollback d).1 ≡ false
  pub active-release : (d : D) → active (runner.release d).1 ≡ active d
  pub durable-connect : (d : D) → durable (runner.connect d).1 ≡ durable d
  pub durable-start : (d : D) → durable (runner.start d).1 ≡ durable d
  pub durable-rollback : (d : D) → durable (runner.rollback d).1 ≡ durable d
  pub durable-release : (d : D) → durable (runner.release d).1 ≡ durable d
  pub durable-commit_failed :
      (d : D) (e : Exception)
      → (runner.commit d).0 ≡ err e
      → durable (runner.commit d).1 ≡ durable d
  pub opened-connect :
      (d : D) → (runner.connect d).0 ≡ ok tt → opened (runner.connect d).1 ≡ opened d + 1
  pub opened-start : (d : D) → opened (runner.start d).1 ≡ opened d
  pub opened-commit : (d : D) → opened (runner.commit d).1 ≡ opened d
  pub opened-rollback : (d : D) → opened (runner.rollback d).1 ≡ opened d
  pub opened-release : (d : D) → 1 ≤ opened d → opened (runner.release d).1 + 1 ≡ opened d
  pub release-ok : (d : D) → (runner.release d).0 ≡ ok tt

-- A function that works through the transaction: nobody else sees its writes, and it opens no
-- connection of its own.
pub record IsInside {D V R : Type 0} (durable : D → V) (opened : D → ℕ) (fn : Exec D R)
    : Type 0 where
  pub durable-fn : (w : World D) → durable (fn w).1.db ≡ durable w.db
  pub opened-fn : (w : World D) → opened (fn w).1.db ≡ opened w.db

module _ {D V R : Type 0} (runner : Runner D) (durable pending : D → V) (active : D → Bool)
    (opened : D → ℕ) (laws : RunnerLaws runner durable pending active opened) (fn : Exec D R)
    (inside : IsInside durable opened fn) where
  opened-guarded : (w : World D) → opened (guarded runner fn w).1.db ≡ opened w.db
  unfolding guarded committed ◌>>=◌ try_catch
  opened-guarded w = ground (
    arith,
    inside.opened-fn w,
    laws.opened-commit (fn w).1.db,
    laws.opened-rollback (fn w).1.db,
    laws.opened-rollback (runner.commit (fn w).1.db).1,
  )

  -- All that `fn` wrote in the transaction was committed, what it returned is the result, and the
  -- transaction is over.
  abbrev pub AllKept : Result R → World D → D → Type 0
  AllKept r w d =
      (a : R) × (r ≡ ok a)
      × ((fn w).0 ≡ ok a)
      × (durable d ≡ pending (fn w).1.db)
      × (active d ≡ false)

  -- The call throws, others read what they read in `before`, and the transaction is over unless
  -- what is thrown is the failure of the rollback.
  abbrev pub NoneKept : Result R → D → D → Type 0
  NoneKept r before d =
      (e : Exception) × (r ≡ err e)
      × (durable d ≡ durable before)
      × ((active d ≡ false) ⊎ ((last : D) × ((runner.rollback last).0 ≡ err e)))

  -- What the `catch` throws: the failure of the rollback, or else the error that it handles.
  abbrev thrown : Exception → Result (Unit {0}) → Result R
  thrown x (ok _) = err x
  thrown x (err e) = err e

  rolled_back :
      (b : Result (Unit {0})) (last before : D) (x : Exception)
      → (runner.rollback last).0 ≡ b
      → durable last ≡ durable before
      → NoneKept (thrown x b) before (runner.rollback last).1
  rolled_back (ok _) last before x k same =
      (x, refl, laws.durable-rollback last ∙ same, inl (laws.active-rollback last k))
  rolled_back (err e) last before x k same =
      (e, refl, laws.durable-rollback last ∙ same, inr (last, k))

  -- The function threw.
  guarded-thrown :
      (x : Exception) (w : World D)
      → (fn w).0 ≡ err x
      → NoneKept (guarded runner fn w).0 w.db (guarded runner fn w).1.db
  unfolding guarded committed ◌>>=◌ try_catch
  guarded-thrown x w q =
      let last = (fn w).1.db in
      let kept =
        rolled_back (runner.rollback last).0 last w.db (handle_database_error x) refl
          (inside.durable-fn w) in
      ground (arith, q, kept)

  -- The function returned, and the commit failed.
  guarded-uncommitted :
      (a : R) (x : Exception) (w : World D)
      → (fn w).0 ≡ ok a
      → (runner.commit (fn w).1.db).0 ≡ err x
      → NoneKept (guarded runner fn w).0 w.db (guarded runner fn w).1.db
  unfolding guarded committed ◌>>=◌ try_catch
  guarded-uncommitted a x w q c =
      let last = (runner.commit (fn w).1.db).1 in
      let kept =
        rolled_back (runner.rollback last).0 last w.db (handle_database_error x) refl
          (laws.durable-commit_failed (fn w).1.db x c ∙ inside.durable-fn w) in
      ground (arith, q, c, kept)

  -- What is left of the `try` and the `catch`: all that was written was committed, or none of it.
  guarded_lem :
      (r : Result R) (c : Result (Unit {0})) (w : World D)
      → (fn w).0 ≡ r
      → (runner.commit (fn w).1.db).0 ≡ c
      → AllKept (guarded runner fn w).0 w (guarded runner fn w).1.db
        ⊎ NoneKept (guarded runner fn w).0 w.db (guarded runner fn w).1.db
  unfolding guarded committed ◌>>=◌ try_catch
  guarded_lem (ok a) (ok _) w q k = inl (
    a,
    ground (arith, q, k),
    q,
    ground (arith, q, k, laws.durable-commit (fn w).1.db),
    ground (arith, q, k, laws.active-commit (fn w).1.db),
  )
  guarded_lem (ok a) (err x) w q k = inr (guarded-uncommitted a x w q k)
  guarded_lem (err x) c w q k = inr (guarded-thrown x w q)

  started :
      (w : World D)
      → (runner.connect w.db).0 ≡ ok tt
      → (runner.start (runner.connect w.db).1).0 ≡ ok tt
      → run_in_transaction runner fn w
        ≡ try_finally
            (guarded runner fn)
            (command runner.release)
            (record w { db = (runner.start (runner.connect w.db).1).1 })
  unfolding run_in_transaction ◌>>=◌
  started w c s = ground (arith, c, s)

  -- The `finally`: the connection is given back, and nothing else changes.
  finished :
      (w : World D)
      → ((try_finally (guarded runner fn) (command runner.release) w).0 ≡ (guarded runner fn w).0)
        × ((try_finally (guarded runner fn) (command runner.release) w).1.db
            ≡ (runner.release (guarded runner fn w).1.db).1)
  unfolding try_finally ◌>>=◌
  finished w =
      let k = laws.release-ok (guarded runner fn w).1.db in (ground (arith, k), ground (arith, k))

  released :
      (r : Result R) (u : World D) (before last : D)
      → durable u.db ≡ durable before
      → AllKept r u last ⊎ NoneKept r u.db last
      → AllKept r u (runner.release last).1 ⊎ NoneKept r before (runner.release last).1
  released r u before last same (inl (a, k, q, kept, over)) =
      inl (a, k, q, laws.durable-release last ∙ kept, laws.active-release last ∙ over)
  released r u before last same (inr (e, k, kept, inl over)) =
      inr (e, k, laws.durable-release last ∙ (kept ∙ same), inl (laws.active-release last ∙ over))
  released r u before last same (inr (e, k, kept, inr failed)) =
      inr (e, k, laws.durable-release last ∙ (kept ∙ same), inr failed)

  -- A transaction is all or nothing, once it was started, for a function that works through it and
  -- opens no connection of its own. Either the call returns what the function returned, and others
  -- read all that the function wrote; or it throws, and they read what they read before. The
  -- transaction is over, unless what is thrown is the failure of the rollback. In all cases as many
  -- connections are open as before.
  pub run_in_transaction-atomic :
      (w : World D)
      → (runner.connect w.db).0 ≡ ok tt
      → (runner.start (runner.connect w.db).1).0 ≡ ok tt
      → let u = record w { db = (runner.start (runner.connect w.db).1).1 } in
        let done = run_in_transaction runner fn w in
        (opened done.1.db ≡ opened w.db)
        × (AllKept done.0 u done.1.db ⊎ NoneKept done.0 w.db done.1.db)
  run_in_transaction-atomic w c s =
      let d = (runner.start (runner.connect w.db).1).1 in
      let u : World D = record w { db = d } in
      let last = (guarded runner fn u).1.db in
      let as_before : durable d ≡ durable w.db =
        laws.durable-start (runner.connect w.db).1 ∙ laws.durable-connect w.db in
      let held : opened last ≡ opened w.db + 1 =
        opened-guarded u
        ∙ (laws.opened-start (runner.connect w.db).1 ∙ laws.opened-connect w.db c) in
      let back = laws.opened-release last (omega (arith, held)) in
      let (result, state) = finished u in
      rw (started w c s, result, state)
        (
          omega (arith, back, held),
          released (guarded runner fn u).0 u w.db last as_before
              (guarded_lem (fn u).0 (runner.commit (fn u).1.db).0 u refl refl),
        )

  -- A transaction that cannot be started is thrown at once, with nothing changed; the connection
  -- that was made for it is not given back.
  run_in_transaction-leak :
      (w : World D) (e : Exception)
      → (runner.connect w.db).0 ≡ ok tt
      → (runner.start (runner.connect w.db).1).0 ≡ err e
      → ((run_in_transaction runner fn w).0 ≡ err e)
        × (durable (run_in_transaction runner fn w).1.db ≡ durable w.db)
        × (opened (run_in_transaction runner fn w).1.db ≡ opened w.db + 1)
  unfolding run_in_transaction ◌>>=◌
  run_in_transaction-leak w e c s = ground (
    arith,
    c,
    s,
    laws.durable-start (runner.connect w.db).1,
    laws.durable-connect w.db,
    laws.opened-start (runner.connect w.db).1,
    laws.opened-connect w.db,
  )
