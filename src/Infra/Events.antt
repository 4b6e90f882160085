-- ===== src/Infra/Events.antt =====
-- internal/infra/events/memory_bus.go: the event bus. A handler acts on a state `S`; its error is logged and
-- dropped. The lock makes each method one step, and the handlers are those of the moment of the call.
use dashfetchr.Base.{Option, none, List, [], ◌∷◌, ◌++◌, ◌≡◌, refl, ap}
use dashfetchr.Core.Errors.{Error}
use dashfetchr.Ports.Events.{DomainEvent}

abbrev pub EventHandler : Type 0 → Type 0
EventHandler S = DomainEvent → S → S × Option Error

module _ {S : Type 0} where
  unfoldable pub subscribe : EventHandler S → List (EventHandler S) → List (EventHandler S)
  subscribe h handlers = handlers ++ h ∷ []

  -- One event, to every handler.
  unfoldable pub deliver : List (EventHandler S) → DomainEvent → S → S
  deliver [] e s = s
  deliver (h ∷ hs) e s = deliver hs e (h e s).0

  -- MemoryBus.Publish, which returns no error
  unfoldable pub publish : List (EventHandler S) → List DomainEvent → S → S × Option Error
  publish handlers [] s = (s, none)
  publish handlers (e ∷ es) s = publish handlers es (deliver handlers e s)

  deliver-append :
      (hs ks : List (EventHandler S)) (e : DomainEvent) (s : S)
      → deliver (hs ++ ks) e s ≡ deliver ks e (deliver hs e s)
  unfolding deliver
  deliver-append [] ks e s = refl
  deliver-append (h ∷ hs) ks e s = deliver-append hs ks e (h e s).0

  never_fails :
      (handlers : List (EventHandler S)) (es : List DomainEvent) (s : S)
      → (publish handlers es s).1 ≡ none
  unfolding publish
  never_fails handlers [] s = refl
  never_fails handlers (e ∷ es) s = never_fails handlers es (deliver handlers e s)

  -- The handler that was subscribed last receives an event after all the others, whatever these return; and
  -- publishing never fails.
  pub publish-subscribe :
      (h : EventHandler S) (handlers : List (EventHandler S)) (e : DomainEvent)
      (es : List DomainEvent) (s : S)
      → (publish (subscribe h handlers) (e ∷ es) s
          ≡ publish (subscribe h handlers) es (h e (deliver handlers e s)).0)
        × ((publish handlers es s).1 ≡ none)
  unfolding publish subscribe deliver
  publish-subscribe h handlers e es s = (
    ap (λ t. publish (subscribe h handlers) es t) (deliver-append handlers (h ∷ []) e s),
    never_fails handlers es s,
  )
