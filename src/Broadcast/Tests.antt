-- ===== src/Broadcast/Tests.antt =====
-- A loop that meets a failed read and a long datagram, and a channel of one message.
use mathlib.Core.List.{Sublist}
use broadauth.Base.{◌≤◌, ◌≡◌, refl, List, [], ◌∷◌, ◌++◌, length, false}
use broadauth.Broadcast.{UdpConfig, Event, stopped, read_error, datagram, receive_loop, new_channel}
use broadauth.Broadcast.Channel.{Use, arrives, takes, arrivals, run, run-new_channel}

abbrev small : UdpConfig
small = record { broadcast_addr = []; listen_addr = []; buffer_size = 2 }

abbrev events : List Event
events =
    datagram (1 ∷ 2 ∷ 3 ∷ [])
    ∷ read_error false
    ∷ datagram (4 ∷ [])
    ∷ stopped
    ∷ datagram (5 ∷ [])
    ∷ []

receive_loop_test : receive_loop small events ≡ (1 ∷ 2 ∷ []) ∷ (4 ∷ []) ∷ []
unfolding receive_loop
receive_loop_test = refl

abbrev uses : List Use
uses = arrives (1 ∷ []) ∷ arrives (2 ∷ []) ∷ takes ∷ arrives (3 ∷ []) ∷ []

run_test : (run uses (new_channel 1)).0 ≡ (1 ∷ []) ∷ []
unfolding run new_channel
run_test = refl

run-new_channel_example :
    Sublist ((run uses (new_channel 1)).0 ++ (run uses (new_channel 1)).1.messages) (arrivals uses)
    × (length (run uses (new_channel 1)).1.messages ≤ 1)
    × (length (arrivals uses) ≤ 1
        → (run uses (new_channel 1)).0 ++ (run uses (new_channel 1)).1.messages ≡ arrivals uses)
run-new_channel_example = run-new_channel uses 1
