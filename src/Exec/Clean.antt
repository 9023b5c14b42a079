-- ===== src/Exec/Clean.antt =====
-- Failing cleanly: a use case that throws has had no effect on another service, and has changed
-- the database at most by a write that itself failed. One rule for each way to build an action.
use nestjs_microservice_boil.Base.{
  ◌≡◌, ◌⊎◌, inl, inr, refl, Bool, true, false, Option, none, some, String, sym, ap, arith, ◌∙◌,
  ◌++◌, ◌∷◌, [],
}
use nestjs_microservice_boil.Exception.{ExceptionClass, Exception, Result, Message, err, ok}
use nestjs_microservice_boil.Exec.{
  Exec, World, query, Effect, command, lift, or_throw, pure, throw_if, validate_schema, perform,
  ◌>>=◌,
}

module _ {D A : Type 0} where
  -- `m` only reads.
  pub record Reads (m : Exec D A) : Type 0 where
    pub unchanged : (w : World D) → (m w).1 ≡ w

  -- `m` returns.
  pub record Returns (m : Exec D A) : Type 0 where
    pub returned : (w : World D) → (a : A) × ((m w).0 ≡ ok a)

  -- `Write e db db'`: a write threw `e` and took the database from `db` to `db'`.
  pub record FailsCleanly (Write : Exception → D → D → Type 0) (m : Exec D A) : Type 0 where
    pub failed :
        (w after : World D) (e : Exception)
        → m w ≡ (err e, after)
        → (after ≡ w) ⊎ ((after.effects ≡ w.effects) × Write e w.db after.db)

  pub Reads-query : (f : D → Result A) → Reads (query f)
  unfolding ◌>>=◌
  Reads-query f = record { unchanged = λ w. refl }

  pub Reads-lift : (r : Result A) → Reads (lift r)
  unfolding ◌>>=◌
  Reads-lift r = record { unchanged = λ w. refl }

  pub Reads-pure : (a : A) → Reads (pure a)
  unfolding ◌>>=◌
  Reads-pure a = record { unchanged = λ w. refl }

  pub Reads-or_throw : (o : Option A) (c : ExceptionClass) (s : String) → Reads (or_throw o c s)
  unfolding ◌>>=◌
  Reads-or_throw none c s = record { unchanged = λ w. refl }
  Reads-or_throw (some a) c s = record { unchanged = λ w. refl }

pub Reads-throw_if :
    {D : Type 0} (b : Bool) (c : ExceptionClass) (s : Message) → Reads {D = D} (throw_if b c s)
unfolding ◌>>=◌
Reads-throw_if true c s = record { unchanged = λ w. refl }
Reads-throw_if false c s = record { unchanged = λ w. refl }

module _ {D A B : Type 0} where
  bind-Reads :
      (f : A → Exec D B) (r : Result A) (w w' : World D)
      → w' ≡ w
      → ((a : A) → Reads (f a))
      → ((lift r >>= f) w').1 ≡ w
  unfolding ◌>>=◌
  bind-Reads f (ok a) w w' same next = (next a).unchanged w' ∙ same
  bind-Reads f (err e) w w' same next = same

  pub Reads-bind :
      (m : Exec D A) (f : A → Exec D B) → Reads m → ((a : A) → Reads (f a)) → Reads (m >>= f)
  unfolding ◌>>=◌
  Reads-bind m f first next = record {
    unchanged = λ w. let (r, w') = m w in bind-Reads f r w w' (first.unchanged w) next;
  }

module _ {D B : Type 0} where
  pub Returns-perform :
      (e : Effect) (f : Unit {0} → Exec D B) → Returns (f tt) → Returns (perform e >>= f)
  unfolding ◌>>=◌
  Returns-perform e f next = record {
    returned = λ w. next.returned (record w { effects = w.effects ++ e ∷ [] });
  }

module _ {D A : Type 0} where
  pub Returns-pure : (a : A) → Returns {D = D} (pure a)
  unfolding ◌>>=◌
  Returns-pure a = record { returned = λ w. (a, refl) }

module _ {D A : Type 0} where
  pub Reads-validate_schema :
      {I : Type 0} (r : Result I) (method : I → Exec D A)
      → ((i : I) → Reads (method i))
      → Reads (validate_schema r method)
  unfolding ◌>>=◌
  Reads-validate_schema (ok i) method h = h i
  Reads-validate_schema (err x) method h = record { unchanged = λ w. refl }

module _ {D A : Type 0} (Write : Exception → D → D → Type 0) where
  pub FailsCleanly-Reads : (m : Exec D A) → Reads m → FailsCleanly Write m
  FailsCleanly-Reads m reads = record {
    failed = λ w after e h. inl (sym (ap (λ (r : Result A × World D). r.1) h) ∙ reads.unchanged w);
  }

  pub FailsCleanly-validate_schema :
      {I : Type 0} (r : Result I) (method : I → Exec D A)
      → ((i : I) → FailsCleanly Write (method i))
      → FailsCleanly Write (validate_schema r method)
  unfolding ◌>>=◌
  FailsCleanly-validate_schema (ok i) method h = h i
  FailsCleanly-validate_schema (err x) method h = record {
    failed = λ w after e k. inl (ground arith);
  }

module _ {D A B : Type 0} (Write : Exception → D → D → Type 0) where
  bind-FailsCleanly :
      (f : A → Exec D B) (r : Result A) (w w' after : World D) (e : Exception)
      → w' ≡ w
      → ((a : A) → FailsCleanly Write (f a))
      → (lift r >>= f) w' ≡ (err e, after)
      → (after ≡ w) ⊎ ((after.effects ≡ w.effects) × Write e w.db after.db)
  unfolding ◌>>=◌
  bind-FailsCleanly f (ok a) w w' after e same next h = rw (← same) ((next a).failed w' after e h)
  bind-FailsCleanly f (err x) w w' after e same next h = inl (ground arith)

  pub FailsCleanly-bind :
      (m : Exec D A) (f : A → Exec D B)
      → Reads m
      → ((a : A) → FailsCleanly Write (f a))
      → FailsCleanly Write (m >>= f)
  unfolding ◌>>=◌
  FailsCleanly-bind m f first next = record {
    failed = λ w after e h.
        let (r, w') = m w in bind-FailsCleanly f r w w' after e (first.unchanged w) next h;
  }

  command-FailsCleanly :
      (f : A → Exec D B) (r : Result A) (d : D) (w after : World D) (e : Exception)
      → ((e : Exception) → r ≡ err e → Write e w.db d)
      → ((a : A) → Returns (f a))
      → (lift r >>= f) (record w { db = d }) ≡ (err e, after)
      → (after ≡ w) ⊎ ((after.effects ≡ w.effects) × Write e w.db after.db)
  unfolding ◌>>=◌
  command-FailsCleanly f (ok a) d w after e written next h =
      let (b, k) = (next a).returned (record w { db = d }) in absurd (ground arith)
  command-FailsCleanly f (err x) d w after e written next h =
      inr (ground arith, ground (arith, written e))

  -- A write is the last step that may throw.
  pub FailsCleanly-command :
      (c : D → Result A × D) (f : A → Exec D B)
      → ((d d' : D) (e : Exception) → c d ≡ (err e, d') → Write e d d')
      → ((a : A) → Returns (f a))
      → FailsCleanly Write (command c >>= f)
  unfolding ◌>>=◌
  FailsCleanly-command c f written next = record {
    failed = λ w after e h.
        command-FailsCleanly f (c w.db).0 (c w.db).1 w after e
          (λ x k. written w.db (c w.db).1 x (ground (arith, k))) next h;
  }

pub ruleset clean_rules = (
  Reads-query, Reads-lift, Reads-pure, Reads-or_throw, Reads-throw_if, Reads-bind,
  Reads-validate_schema, Returns-perform, Returns-pure, FailsCleanly-validate_schema,
  FailsCleanly-bind, FailsCleanly-command,
)
