-- ===== src/EventEmitter.antt =====
-- lib/borderrouter/src/common/event_emitter.cpp. A callback and a context are pointers, 0 the null
-- pointer; the map is a function. `none` is a failed assertion. The variable arguments of an event
-- are passed on unread, and are left out; a callback that registers another one is not modelled.
pub mod Histories
use commissioner.Prelude.{
  ℕ, Bool, true, false, ◌&&◌, Option, none, some, List, [], ◌∷◌, ◌++◌, ◌==◌, if◌then◌else◌, map,
}

pub record Handler : Type 0 where
  pub callback : ℕ
  pub context : ℕ

abbrev pub same_handler : Handler → Handler → Bool
same_handler a b = a.callback == b.callback && a.context == b.context

abbrev pub Events : Type 0
Events = ℕ → Option (List Handler)

abbrev pub no_events : Events
no_events = λ e. none

abbrev pub insert : ℕ → List Handler → Events → Events
insert event handlers events = λ e. if e == event then some handlers else events e

abbrev pub erase : ℕ → Events → Events
erase event events = λ e. if e == event then none else events e

-- `mEvents[aEvent]`, which makes an empty list for a missing key.
abbrev pub contents : Option (List Handler) → List Handler
contents none = []
contents (some handlers) = handlers

unfoldable pub on : Events → ℕ → Handler → Option Events
on events event h =
    if h.callback == 0 then none else some (insert event (contents (events event) ++ h ∷ []) events)

-- The loop of `Off`: the first equal handler is erased; `none` where there is no such handler.
unfoldable pub erase_first : List Handler → Handler → Option (List Handler)
erase_first [] h = none
erase_first (x ∷ handlers) h =
    let rest = erase_first handlers h in
    if same_handler x h then some handlers else elim rest [ none ↦ none | some r ↦ some (x ∷ r) ]

unfoldable pub off : Events → ℕ → Handler → Option Events
off events event h = if h.callback == 0 then none else elim (events event) [
  | none ↦ some events
  | some handlers ↦ elim (erase_first handlers h) [
    | none ↦ some events
    | some [] ↦ some (erase event events)
    | some (x ∷ left) ↦ some (insert event (x ∷ left) events)
  ]
]

-- The calls that are made, in their order.
unfoldable pub emit : Events → ℕ → Option (List Handler)
emit events event = elim (events event) [
  | none ↦ some []
  | some [] ↦ none
  | some (h ∷ handlers) ↦ some (h ∷ handlers)
]
