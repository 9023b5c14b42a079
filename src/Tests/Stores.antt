-- ===== src/Tests/Stores.antt =====
-- A database with a connection pool, and a collection of documents, and runs on them.
use nestjs_microservice_boil.Base.{false, ℕ, suc, ◌-◌, ◌≡◌, refl, ◌⊎◌, Bool, true, arith}
use nestjs_microservice_boil.Exec.{Exec}
use nestjs_microservice_boil.Store.Transaction.Laws.{
  IsInside, RunnerLaws, AllKept, NoneKept, run_in_transaction-atomic,
}
use nestjs_microservice_boil.Store.Transaction.{Runner, run_in_transaction}
use nestjs_microservice_boil.Exception.{ok}
use nestjs_microservice_boil.Tests.World.{start}

-- What others read, what the transaction has written, whether it is active, and how many
-- connections are open.
abbrev Client : Type 0
Client = ℕ × ℕ × Bool × ℕ

abbrev runner : Runner Client
runner = record {
  connect = λ (kept, written, begun, n). (ok tt, (kept, kept, begun, suc n));
  start = λ (kept, written, begun, n). (ok tt, (kept, kept, true, n));
  commit = λ (kept, written, begun, n). (ok tt, (written, written, false, n));
  rollback = λ (kept, written, begun, n). (ok tt, (kept, kept, false, n));
  release = λ (kept, written, begun, n). (ok tt, (kept, kept, begun, n - 1));
}

abbrev durable : Client → ℕ
durable (kept, _, _, _) = kept

abbrev pending : Client → ℕ
pending (_, written, _, _) = written

abbrev active : Client → Bool
active (_, _, begun, _) = begun

abbrev opened : Client → ℕ
opened (_, _, _, n) = n

runner_laws : RunnerLaws runner durable pending active opened
runner_laws = record {
  durable-commit = λ d h. refl;
  active-start = λ d h. refl;
  active-commit = λ d h. refl;
  active-rollback = λ d h. refl;
  active-release = λ d. refl;
  durable-connect = λ d. refl;
  durable-start = λ d. refl;
  durable-rollback = λ d. refl;
  durable-release = λ d. refl;
  durable-commit_failed = λ d e h. absurd (ground (arith, h));
  opened-connect = λ d h. omega arith;
  opened-start = λ d. refl;
  opened-commit = λ d. refl;
  opened-rollback = λ d. refl;
  opened-release = λ d h. omega arith;
  release-ok = λ d. refl;
}

-- Writes 7 in the transaction.
abbrev write_seven : Exec Client Bool
write_seven w = (ok true, record w { db = (durable w.db, 7, active w.db, opened w.db) })

write_seven-IsInside : IsInside durable opened write_seven
write_seven-IsInside = record { durable-fn = λ w. refl; opened-fn = λ w. refl }

run_in_transaction-atomic_example :
    let done = run_in_transaction runner write_seven (start (5, 5, false, 0)) in
    (opened done.1.db ≡ 0)
    × (AllKept runner durable pending active opened runner_laws write_seven write_seven-IsInside
          done.0
          (start (5, 5, true, 1))
          done.1.db
        ⊎ NoneKept runner durable pending active opened runner_laws write_seven write_seven-IsInside
            done.0
            (5, 5, false, 0)
            done.1.db)
run_in_transaction-atomic_example =
    run_in_transaction-atomic runner durable pending active opened runner_laws write_seven
      write_seven-IsInside (start (5, 5, false, 0)) refl refl
