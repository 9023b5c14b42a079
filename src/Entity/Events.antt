-- ===== src/Entity/Events.antt =====
-- The domain events of utils/entity.ts: a map from the object itself, by its reference, to the list of
-- its events. A list is a value here; the array that `getEvents` returns is the one that is kept.
use mathlib.Core.List.{append_assoc, append-nil}
use nestjs_microservice_boil.Base.{
  ℕ, Text, List, [], ◌∷◌, ◌++◌, ◌==◌, if◌then◌else◌, ◌≡◌, ◌≢◌, refl, arith, ap, sym, ◌∙◌,
}
use nestjs_microservice_boil.Value.{Value}

pub record AddEventInput : Type 0 where
  pub name : Text
  pub payload : Value

pub record DomainEvent : Type 0 where
  pub name : Text
  pub payload : Value
  pub occurred_at : ℕ

-- `eventsMap`: the constructor has put a list there for every object.
abbrev pub EventsMap : Type 0
EventsMap = ℕ → List DomainEvent

abbrev map_set : ℕ → List DomainEvent → EventsMap → EventsMap
map_set this events store that = if that == this then events else store that

unfoldable pub clear_events : ℕ → EventsMap → EventsMap
clear_events this store = map_set this [] store

unfoldable pub add_event : (now this : ℕ) → AddEventInput → EventsMap → EventsMap
add_event now this event store =
    let domain_event : DomainEvent = record {
      name = event.name;
      payload = event.payload;
      occurred_at = now;
    } in
    map_set this (store this ++ domain_event ∷ []) store

unfoldable pub get_events : ℕ → EventsMap → List DomainEvent
get_events this store = store this

unfoldable pub release_events : ℕ → EventsMap → List DomainEvent × EventsMap
unfolding get_events clear_events
release_events this store = (get_events this store, clear_events this store)

-- Events that are added to one object, each at its time.
abbrev add_all : ℕ → List (ℕ × AddEventInput) → EventsMap → EventsMap
add_all this [] store = store
add_all this ((now, event) ∷ events) store = add_all this events (add_event now this event store)

abbrev dated : List (ℕ × AddEventInput) → List DomainEvent
dated [] = []
dated ((now, event) ∷ events) =
    record { name = event.name; payload = event.payload; occurred_at = now } ∷ dated events

add_all-this :
    (this : ℕ) (events : List (ℕ × AddEventInput)) (store : EventsMap)
    → add_all this events store this ≡ store this ++ dated events
unfolding add_event
add_all-this this [] store = sym (append-nil (store this))
add_all-this this ((now, event) ∷ events) store =
    let d : DomainEvent = record {
      name = event.name;
      payload = event.payload;
      occurred_at = now;
    } in
    add_all-this this events (add_event now this event store)
    ∙ ap (λ kept. kept ++ dated events) (ground arith)
    ∙ append_assoc (store this) (d ∷ []) (dated events)

add_all-other :
    (this that : ℕ) (events : List (ℕ × AddEventInput)) (store : EventsMap)
    → that ≢ this
    → add_all this events store that ≡ store that
unfolding add_event
add_all-other this that [] store h = refl
add_all-other this that ((now, event) ∷ events) store h =
    add_all-other this that events (add_event now this event store) h ∙ ground arith

-- What an object releases is every event that was added since it was constructed or last released,
-- with its time and in order; then it has none, and the events of another object are as they were.
pub release_events-add_all :
    (this that : ℕ) (events : List (ℕ × AddEventInput)) (store : EventsMap)
    → that ≢ this
    → let added = add_all this events (clear_events this store) in
      ((release_events this added).0 ≡ dated events)
      × (get_events this (release_events this added).1 ≡ [])
      × (get_events that (release_events this added).1 ≡ get_events that store)
unfolding release_events clear_events get_events
release_events-add_all this that events store h =
    let start = clear_events this store in
    let cleared : start this ≡ [] = ground arith in
    (
      add_all-this this events start ∙ ap (λ kept. kept ++ dated events) cleared,
      ground arith,
      ground (arith, add_all-other this that events start),
    )
