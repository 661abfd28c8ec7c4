-- ===== src/Event.antt =====
-- event.c: the event sources of the main loop. The array of sources is the list of its items; what the
-- platform's functions and the allocator return is an argument. A handle is only compared, a function
-- or opaque pointer is a number, 0 for NULL.
mod Lookup
mod Sources
mod Cleanup
mod Handle
mod Keeps
mod Poll
mod Epoll
mod Init
mod Tests
use daemonlib.Base.{
  ℕ, zero, suc, ◌+◌, ◌-◌, ◌^◌, Bool, true, false, not, ◌&&◌, ◌||◌, Option, none, some, List, [],
  ◌∷◌, ◌++◌, get_elem?, set, take, drop, length, ◌==◌, if◌then◌else◌, bit_and, bit_or,
}

-- The values that the Windows branch gives the bits, which are also those of `poll`.
abbrev pub event_read : ℕ
event_read = 0x0001

abbrev pub event_prio : ℕ
event_prio = 0x0002

abbrev pub event_write : ℕ
event_write = 0x0004

abbrev pub event_error : ℕ
event_error = 0x0008

pub data EventSourceType : Type 0 where
  generic usb : EventSourceType

pub data EventSourceState : Type 0 where
  normal added removed readded modified : EventSourceState

-- A callback and its opaque argument.
pub record Callback : Type 0 where
  pub function : ℕ
  pub opaque : ℕ

abbrev pub no_callback : Callback
no_callback = record { function = 0; opaque = 0 }

pub record EventSource : Type 0 where
  pub handle : ℕ
  pub type : EventSourceType
  pub name : ℕ
  pub events : ℕ
  pub state : EventSourceState
  pub read : Callback
  pub write : Callback
  pub prio : Callback
  pub error : Callback

abbrev pub Sources : Type 0
Sources = List EventSource

abbrev pub same_type : EventSourceType → EventSourceType → Bool
same_type generic generic = true
same_type usb usb = true
same_type _ _ = false

abbrev pub is_removed : EventSourceState → Bool
is_removed removed = true
is_removed _ = false

abbrev pub is_normal : EventSourceState → Bool
is_normal normal = true
is_normal _ = false

abbrev pub matches : ℕ → EventSourceType → EventSource → Bool
matches handle type s = s.handle == handle && same_type s.type type

abbrev pub deeper : Option (ℕ × EventSource) → Option (ℕ × EventSource)
deeper none = none
deeper (some (i, s)) = some (suc i, s)

-- `event_find_source(0, count, ...)`: the first match, with its index.
abbrev pub find_first : ℕ → EventSourceType → Sources → Option (ℕ × EventSource)
find_first handle type [] = none
find_first handle type (s ∷ ss) =
    if matches handle type s then some (0, s) else deeper (find_first handle type ss)

-- `event_find_source(count - 1, -1, ...)`: the last match, with its index.
abbrev pub find_last : ℕ → EventSourceType → Sources → Option (ℕ × EventSource)
find_last handle type [] = none
find_last handle type (s ∷ ss) = elim (find_last handle type ss) [
  | some (i, s') ↦ some (suc i, s')
  | none ↦ if matches handle type s then some (0, s) else none
]

-- `(events & event) != 0`
abbrev pub has_event : ℕ → ℕ → Bool
has_event events event = not (bit_and events event == 0)

-- The four blocks that set the functions for the given events.
abbrev pub set_functions : ℕ → Callback → EventSource → EventSource
set_functions events cb s = record s {
  read = if has_event events event_read then cb else s.read;
  write = if has_event events event_write then cb else s.write;
  prio = if has_event events event_prio then cb else s.prio;
  error = if has_event events event_error then cb else s.error;
}

-- What `array_remove` leaves of the items.
abbrev pub array_remove : Sources → ℕ → Sources
array_remove ss i = take i ss ++ drop (suc i) ss

-- The source that `event_add_source` puts into a removed one's place.
abbrev pub readd : EventSource → ℕ → ℕ → Callback → EventSource
readd s name events cb =
    set_functions events cb (record s { name = name; events = events; state = readded })

-- The source that it appends otherwise, in zeroed memory.
abbrev pub new_source : ℕ → EventSourceType → ℕ → ℕ → Callback → EventSource
new_source handle type name events cb = set_functions events cb (record {
  handle = handle;
  type = type;
  name = name;
  events = events;
  state = added;
  read = no_callback;
  write = no_callback;
  prio = no_callback;
  error = no_callback;
})

-- `appended` and `accepted` tell whether `array_append` and `event_source_added_platform` succeed.
pub event_add_source :
    Bool → Bool → ℕ → EventSourceType → ℕ → ℕ → Callback → Sources → Bool × Sources
event_add_source appended accepted handle type name events cb ss =
    elim (find_first handle type ss) [
      | some (i, s) ↦
          if is_removed s.state
          then (if accepted then (true, set ss i (readd s name events cb)) else (false, set ss i s))
          else (false, ss)
      | none ↦
          (let ss' = ss ++ (new_source handle type name events cb ∷ []) in
            if not appended
            then (false, ss)
            else (if accepted then (true, ss') else (false, array_remove ss' (length ss))))
    ]

-- The source after the changes of `event_modify_source`; the bits are those of a `uint32_t`.
abbrev pub modify : EventSource → ℕ → ℕ → Callback → EventSource
modify s to_remove to_add cb =
    let kept = bit_and s.events (2 ^ 32 - 1 - to_remove) in
    let s' = set_functions to_remove no_callback (record s { events = bit_or kept to_add }) in
    record (set_functions to_add cb s') { state = modified }

pub event_modify_source : Bool → ℕ → EventSourceType → ℕ → ℕ → Callback → Sources → Bool × Sources
event_modify_source accepted handle type to_remove to_add cb ss = elim (find_first handle type ss) [
  | none ↦ (false, ss)
  | some (i, s) ↦
      if is_removed s.state
      then (false, ss)
      else (if accepted
          then (true, set ss i (modify s to_remove to_add cb))
          else (false, set ss i s))
]

pub event_remove_source : ℕ → EventSourceType → Sources → Sources
event_remove_source handle type ss = elim (find_last handle type ss) [
  | none ↦ ss
  | some (i, s) ↦ if is_removed s.state then ss else set ss i (record s { state = removed })
]

-- The loop of `event_cleanup_sources`, with the indices below `i` to come.
pub cleanup_loop : ℕ → Sources → Sources
cleanup_loop zero ss = ss
cleanup_loop (suc i) ss = elim (get_elem? ss i) [
  | none ↦ ss
  | some s ↦
      cleanup_loop i
        (if is_removed s.state then array_remove ss i else set ss i (record s { state = normal }))
]

pub event_cleanup_sources : Sources → Sources
event_cleanup_sources ss = cleanup_loop (length ss) ss
