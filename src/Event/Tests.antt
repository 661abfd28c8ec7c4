-- ===== src/Event/Tests.antt =====
-- event.c: a map of two sources, and the theorems at it.
use daemonlib.Base.{◌≤◌, ◌≡◌, refl, true, false, [], ◌∷◌, length, ◌&&◌, arith}
use daemonlib.Event.{
  generic, usb, normal, removed, Callback, EventSource, Sources, event_read, event_write,
  new_source, event_add_source,
}
use daemonlib.Event.Lookup.{lookup, IsUnique}
use daemonlib.Event.Sources.{Puts, addable, added_source, event_add_source_lem}
use daemonlib.Event.Handle.{IsGone, event_handle_source, event_handle_source-AtMostOne}
use daemonlib.Event.Init.{Loop}

abbrev on_read : Callback
on_read = record { function = 7; opaque = 1 }

abbrev client : EventSource
client = record (new_source 5 generic 1 event_read on_read) { state = normal }

abbrev device : EventSource
device = record (new_source 5 usb 2 event_write on_read) { state = removed }

abbrev two_sources : Sources
two_sources = client ∷ device ∷ []

two_sources-IsUnique : IsUnique two_sources
two_sources-IsUnique = (refl, (refl, tt))

event_add_source_lem_example :
    let (ok, ss') = event_add_source true true 5 usb 3 event_read on_read two_sources in
    (ok ≡ (true && addable true (lookup 5 usb two_sources)))
    × Puts ok 5 usb
        (added_source (lookup 5 usb two_sources) 5 usb 3 event_read on_read)
        two_sources
        ss'
    × IsUnique ss'
event_add_source_lem_example =
    event_add_source_lem true true 5 usb 3 event_read on_read two_sources two_sources-IsUnique

-- A callback that closes everything.
abbrev close_all : Callback → Sources → Sources
close_all cb ss = record client { state = removed } ∷ []

close_all-IsGone : (cb : Callback) (ss : Sources) → IsGone 0 (close_all cb ss)
close_all-IsGone cb ss s at = ground arith

event_handle_source-AtMostOne_example :
    length (event_handle_source close_all 0 15 two_sources).calls ≤ 1
event_handle_source-AtMostOne_example =
    event_handle_source-AtMostOne close_all 0 15 two_sources close_all-IsGone

abbrev idle : Loop
idle = record { running = true; stop_requested = false; stop_bytes = 0 }
