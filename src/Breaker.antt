-- ===== src/Breaker.antt =====
-- utils/decorators/circuit-breaker.decorator.ts: the registry of breakers. A breaker is opossum's; `B` stands
-- for its state, which the library's calls read and change. Log lines and the numbers of
-- `getCircuitBreakerMetrics` are left out.
pub mod Keys
pub mod Laws
use nestjs_microservice_boil.Base.{
  codes, ℕ, suc, zero, Text, Bool, true, false, Option, none, some, List, [], ◌∷◌, ◌++◌, put,
  lookup, ◌===◌, if◌then◌else◌, length, truthy, any, map,
}
use nestjs_microservice_boil.Entity.{or_else}

-- The options that the decorator fills in.
pub record Options : Type 0 where
  pub error_threshold_percentage : ℕ
  pub volume_threshold : ℕ
  pub rolling_count_timeout : ℕ
  pub reset_timeout : ℕ
  pub allow_warm_up : Bool
  pub group : Text

-- `CircuitBreakerInput`: what the caller may give.
pub record Params : Type 0 where
  pub error_threshold_percentage : Option ℕ
  pub volume_threshold : Option ℕ
  pub rolling_count_timeout : Option ℕ
  pub reset_timeout : Option ℕ
  pub allow_warm_up : Option Bool
  pub circuit_group : Option Text

-- `opt`, with `CIRCUIT_CONFIG`
unfoldable pub options_of : Params → Options
options_of params = record {
  error_threshold_percentage = or_else 15 params.error_threshold_percentage;
  volume_threshold = or_else 20 params.volume_threshold;
  rolling_count_timeout = or_else 10000 params.rolling_count_timeout;
  reset_timeout = or_else 30000 params.reset_timeout;
  allow_warm_up = or_else true params.allow_warm_up;
  group = or_else (codes "default") params.circuit_group;
}

-- `${className}:${methodName}:${group}`
unfoldable pub instance_key : (class_name method_name group : Text) → Text
instance_key class_name method_name group = class_name ++ 0x3a ∷ method_name ++ 0x3a ∷ group

-- The three maps of the module. The events of a class and a group are method names by event.
pub record Registry (B : Type 0) : Type 0 where
  pub events : List (Text × List (Text × List (Text × Text)))
  pub breaker_instances : List (Text × B)
  pub instance_configs : List (Text × Options)

-- `onEvent`
unfoldable pub on_event :
    {B : Type 0}
    → (class_name circuit_group event_name method_name : Text) → Registry B
    → Registry B
on_event class_name circuit_group event_name method_name r =
    let class_events = or_else [] (lookup class_name r.events) in
    let circuit_events = or_else [] (lookup circuit_group class_events) in
    record r {
      events =
          put class_name
            (put circuit_group (put event_name method_name circuit_events) class_events) r.events;
    }

-- What a new breaker is made of: the method bound to the object of the call, the options, the
-- handlers of the events that the object has methods for, and the fallback, if it has one.
pub record Blueprint (Object : Type 0) : Type 0 where
  pub bound_to : Object
  pub options : Options
  pub handlers : List (Text × Text)
  pub fallback : Option Text

module _ {Object : Type 0} (has_method : Object → Text → Bool) where
  -- the loop over the events of the class and the group
  abbrev handlers_of : Object → List (Text × Text) → List (Text × Text)
  handlers_of this [] = []
  handlers_of this ((event, name) ∷ events) =
      let rest = handlers_of this events in
      if event === codes "fallback"
      then rest
      else if has_method this name
      then (event, name) ∷ rest
      else rest

  abbrev fallback_of : Object → Option Text → Option Text
  fallback_of this none = none
  fallback_of this (some name) =
      if truthy name then (if has_method this name then some name else none) else none

  unfoldable pub blueprint :
      {B : Type 0} → (class_name : Text) → Options → Object → Registry B → Blueprint Object
  blueprint class_name opt this r =
      let circuit_events =
        or_else [] (lookup opt.group (or_else [] (lookup class_name r.events))) in
      record {
        bound_to = this;
        options = opt;
        handlers = handlers_of this circuit_events;
        fallback = fallback_of this (lookup (codes "fallback") circuit_events);
      }

  module _ {B A I : Type 0} (create : Blueprint Object → B) (fire : I → B → A × B) where
    -- `breaker.fire(...args)`, which leaves the breaker in its next state
    abbrev fired : Text → A × B → Registry B → A × Registry B
    fired key (a, breaker) r =
        (a, record r { breaker_instances = put key breaker r.breaker_instances })

    -- the call, with the breaker that was found under the key
    abbrev call_at : Text → Blueprint Object → I → Registry B → Option B → A × Registry B
    call_at key plan args r none =
        let breaker = create plan in
        fired key (fire args breaker) (record r {
          breaker_instances = put key breaker r.breaker_instances;
          instance_configs = put key plan.options r.instance_configs;
        })
    call_at key plan args r (some breaker) = fired key (fire args breaker) r

    -- the method that the decorator `CircuitBreaker` puts in place; what `fire` throws is its answer
    unfoldable pub call :
        (class_name method_name : Text)
        → Params
        → (this : Object) → (args : I) → Registry B
        → A × Registry B
    unfolding instance_key blueprint options_of
    call class_name method_name params this args r =
        let opt = options_of params in
        let key = instance_key class_name method_name opt.group in
        let plan = blueprint class_name opt this r in
        call_at key plan args r (lookup key r.breaker_instances)

abbrev reset_at : {B : Type 0} → (close : B → B) → Text → Registry B → Option B → Bool × Registry B
reset_at close key r none = (false, r)
reset_at close key r (some breaker) =
    (true, record r { breaker_instances = put key (close breaker) r.breaker_instances })

-- `resetCircuitBreaker`
unfoldable pub reset_circuit_breaker :
    {B : Type 0}
    → (close : B → B) → (class_name method_name group : Text) → Registry B
    → Bool × Registry B
unfolding instance_key
reset_circuit_breaker close class_name method_name group r =
    let key = instance_key class_name method_name group in
    reset_at close key r (lookup key r.breaker_instances)

-- `delete map[key]`
abbrev removed : {V : Type 0} → Text → List (Text × V) → List (Text × V)
removed key [] = []
removed key ((k, v) ∷ entries) =
    let rest = removed key entries in if k === key then rest else (k, v) ∷ rest

-- The loop of `cleanupCircuitBreakers` over the entries; `shutdown` acts on a breaker that then is no
-- longer there.
abbrev cleanup_from : {B : Type 0} → List (Text × B) → ℕ → Registry B → ℕ × Registry B
cleanup_from [] count r = (count, r)
cleanup_from ((key, _) ∷ entries) count r = cleanup_from entries (suc count) (record r {
  breaker_instances = removed key r.breaker_instances;
  instance_configs = removed key r.instance_configs;
})

unfoldable pub cleanup_circuit_breakers : {B : Type 0} → Registry B → ℕ × Registry B
cleanup_circuit_breakers r = cleanup_from r.breaker_instances 0 r
