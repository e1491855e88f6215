-- ===== src/Tests/Events.antt =====
-- src/ebus/core/bus_handler.cpp on a concrete event: a SYN behind which the device's request is due.
use ebus.Base.{List, [], false, true, ℕ, ◌≡◌, ◌⊎◌}
use ebus.Types.{HandlerState}
use ebus.Sequence.{Sequence}
use ebus.Telegram.{of_bytes}
use ebus.Request
use ebus.Handler.{Handler, initial}
use ebus.Handler.Successors.{follows}
use ebus.BusHandler.{BusEvent, before_run, on_bus_event}
use ebus.BusHandler.Event.{on_bus_event-follows}
use ebus.Request.{Request, start_bit}

abbrev silent : List ℕ → Sequence → Sequence
silent master_view response = of_bytes []

abbrev sending : Handler
unfolding initial
sending = record (initial 0x31 Request.initial) { active_message = true }

abbrev own_byte : BusEvent
own_byte = record { byte = 0x31; bus_request = true; start_bit = false }

on_bus_event-follows_example :
    let t = (before_run own_byte sending).state in
    let (h', info) = on_bus_event silent own_byte sending in
    ((t ≡ sending.state) ⊎ (t ≡ HandlerState.request_bus))
    × (follows t h'.state ≡ true)
    × (info.handler_state ≡ h'.state)
on_bus_event-follows_example = on_bus_event-follows silent own_byte sending
