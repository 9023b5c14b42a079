-- ===== src/Breaker/Laws.antt =====
-- The registry stays consistent, and can be emptied.
use mathlib.Core.Path.{subst}
use nestjs_microservice_boil.Base.{
  All, HasKeyIn, ℕ, suc, ◌+◌, Text, Bool, Option, none, some, List, [], ◌∷◌, put, lookup, map,
  length, ◌===◌, ===_iff, ===_refl, if◌then◌else◌, ◌≡◌, refl, arith, ap, sym, ◌∙◌,
}
use nestjs_microservice_boil.Breaker.{
  Registry, Params, Blueprint, options_of, instance_key, blueprint, call, reset_circuit_breaker,
  cleanup_circuit_breakers, cleanup_from, removed, call_at, reset_at, on_event,
}

-- The keys after a write depend on the keys before it only.
abbrev with_key : Text → List Text → List Text
with_key key [] = key ∷ []
with_key key (k ∷ ks) = let rest = with_key key ks in if k === key then k ∷ ks else k ∷ rest

module _ {V : Type 0} where
  abbrev keys : List (Text × V) → List Text
  keys entries = map (λ (e : Text × V). e.0) entries

  keys-put :
      (key : Text) (v : V) (entries : List (Text × V))
      → keys (put key v entries) ≡ with_key key (keys entries)
  keys-put key v [] = refl
  keys-put key v ((k, w) ∷ entries) = ground (arith, keys-put key v entries)

  keys-put_found :
      (key : Text) (v w : V) (entries : List (Text × V))
      → lookup key entries ≡ some w
      → keys (put key v entries) ≡ keys entries
  keys-put_found key v w [] h = absurd (ground (arith, h))
  keys-put_found key v w ((k, u) ∷ entries) h = ground (arith, h, keys-put_found key v w entries)

  lookup-put :
      (key : Text) (v : V) (entries : List (Text × V)) → lookup key (put key v entries) ≡ some v
  lookup-put key v [] = ground (arith, ===_refl key)
  lookup-put key v ((k, w) ∷ entries) = ground (arith, lookup-put key v entries)

  removed-HasKeyIn :
      (key : Text) (ks : List Text) (entries : List (Text × V))
      → All (HasKeyIn (key ∷ ks)) entries
      → All (HasKeyIn ks) (removed key entries)
  removed-HasKeyIn key ks [] h = tt
  removed-HasKeyIn key ks ((k, v) ∷ entries) h =
      ground (arith, h.0, ===_iff k key, ===_iff key k, removed-HasKeyIn key ks entries h.1)

  nothing_left : (entries : List (Text × V)) → All (HasKeyIn []) entries → entries ≡ []
  nothing_left [] h = refl
  nothing_left (e ∷ entries) h = absurd (ground (arith, h.0))

HasKeyIn-more :
    {V : Type 0} (k : Text) (ks : List Text) (entries : List (Text × V))
    → All (HasKeyIn ks) entries
    → All (HasKeyIn (k ∷ ks)) entries
HasKeyIn-more k ks [] h = tt
HasKeyIn-more k ks ((j, v) ∷ entries) h = (ground (arith, h.0), HasKeyIn-more k ks entries h.1)

HasKeyIn-keys : {V : Type 0} (entries : List (Text × V)) → All (HasKeyIn (keys entries)) entries
HasKeyIn-keys [] = tt
HasKeyIn-keys ((k, v) ∷ entries) =
    (ground (arith, ===_refl k), HasKeyIn-more k (keys entries) entries (HasKeyIn-keys entries))

HasKeyIn-same :
    {V W : Type 0} (xs : List (Text × V)) (ys : List (Text × W))
    → keys xs ≡ keys ys
    → All (HasKeyIn (keys xs)) ys
HasKeyIn-same xs ys h = subst (λ ks. All (HasKeyIn ks) ys) (sym h) (HasKeyIn-keys ys)

-- Every breaker has its options, and every options have a breaker.
abbrev pub IsConsistent : {B : Type 0} → Registry B → Type 0
IsConsistent r = keys r.breaker_instances ≡ keys r.instance_configs

module _ {B : Type 0} where
  cleanup-empty :
      (entries : List (Text × B)) (count : ℕ) (r : Registry B)
      → All (HasKeyIn (keys entries)) r.breaker_instances
      → All (HasKeyIn (keys entries)) r.instance_configs
      → ((cleanup_from entries count r).0 ≡ count + length entries)
        × ((cleanup_from entries count r).1.breaker_instances ≡ [])
        × ((cleanup_from entries count r).1.instance_configs ≡ [])
        × ((cleanup_from entries count r).1.events ≡ r.events)
  cleanup-empty [] count r h k =
      (omega arith, nothing_left r.breaker_instances h, nothing_left r.instance_configs k, refl)
  cleanup-empty ((key, b) ∷ entries) count r h k =
      let (one, two, three, four) =
        cleanup-empty entries (suc count)
          (record r {
            breaker_instances = removed key r.breaker_instances;
            instance_configs = removed key r.instance_configs;
          })
          (removed-HasKeyIn key (keys entries) r.breaker_instances h)
          (removed-HasKeyIn key (keys entries) r.instance_configs k) in
      (omega (arith, one), two, three, four)

  -- Cleaning up a consistent registry leaves neither breakers nor options, keeps the registered
  -- events, and answers how many breakers there were.
  cleanup_circuit_breakers-empty :
      (r : Registry B)
      → IsConsistent r
      → ((cleanup_circuit_breakers r).0 ≡ length r.breaker_instances)
        × ((cleanup_circuit_breakers r).1.breaker_instances ≡ [])
        × ((cleanup_circuit_breakers r).1.instance_configs ≡ [])
        × ((cleanup_circuit_breakers r).1.events ≡ r.events)
  unfolding cleanup_circuit_breakers
  cleanup_circuit_breakers-empty r h =
      let (one, two, three, four) =
        cleanup-empty r.breaker_instances 0 r (HasKeyIn-keys r.breaker_instances)
          (HasKeyIn-same r.breaker_instances r.instance_configs h) in
      (omega (arith, one), two, three, four)

module _ {Object B A I : Type 0} (has_method : Object → Text → Bool) (create : Blueprint Object → B)
    (fire : I → B → A × B) (close : B → B) where
  call_at-IsConsistent :
      (key : Text) (plan : Blueprint Object) (args : I) (r : Registry B) (found : Option B)
      → lookup key r.breaker_instances ≡ found
      → IsConsistent r
      → IsConsistent (call_at has_method create fire key plan args r found).1
  call_at-IsConsistent key plan args r none q h =
      let made = put key (create plan) r.breaker_instances in
      let after = fire args (create plan) in
      keys-put_found key after.1 (create plan) made
        (lookup-put key (create plan) r.breaker_instances)
      ∙ (keys-put key (create plan) r.breaker_instances
          ∙ (ap (with_key key) h ∙ sym (keys-put key plan.options r.instance_configs)))
  call_at-IsConsistent key plan args r (some b) q h =
      keys-put_found key (fire args b).1 b r.breaker_instances q ∙ h

  reset_at-IsConsistent :
      (key : Text) (r : Registry B) (found : Option B)
      → lookup key r.breaker_instances ≡ found
      → IsConsistent r
      → IsConsistent (reset_at close key r found).1
  reset_at-IsConsistent key r none q h = h
  reset_at-IsConsistent key r (some b) q h =
      keys-put_found key (close b) b r.breaker_instances q ∙ h

  -- Calls, resets and registrations of events keep the registry consistent, whatever the breakers
  -- do.
  pub operations-IsConsistent :
      (class_name method_name group event_name : Text) (params : Params) (this : Object) (args : I)
      (r : Registry B)
      → IsConsistent r
      → IsConsistent (call has_method create fire class_name method_name params this args r).1
        × IsConsistent (reset_circuit_breaker close class_name method_name group r).1
        × IsConsistent (on_event class_name group event_name method_name r)
        × IsConsistent (cleanup_circuit_breakers r).1
  unfolding on_event call reset_circuit_breaker
  operations-IsConsistent class_name method_name group event_name params this args r h =
      let (_, two, three, _) = cleanup_circuit_breakers-empty r h in
      (
        call_at-IsConsistent _ _ args r _ refl h,
        reset_at-IsConsistent _ r _ refl h,
        h,
        ap keys two ∙ sym (ap keys three),
      )

  -- A breaker calls the method of the object that it was made for: once there is one for the class,
  -- the method and the group, a call on another object of the class is the call on the first.
  call-shared :
      (class_name method_name : Text) (params : Params) (this that : Object) (args : I)
      (r : Registry B) (b : B)
      → lookup (instance_key class_name method_name (options_of params).group) r.breaker_instances
        ≡ some b
      → call has_method create fire class_name method_name params this args r
        ≡ call has_method create fire class_name method_name params that args r
  unfolding call
  call-shared class_name method_name params this that args r b q =
      let key = instance_key class_name method_name (options_of params).group in
      let plan = λ (o : Object). blueprint has_method class_name (options_of params) o r in
      ap (call_at has_method create fire key (plan this) args r) q
      ∙ sym (ap (call_at has_method create fire key (plan that) args r) q)
