-- ===== src/Broadcast.antt =====
-- internal/broadcast: the UDP sender and receiver and the channel on top of a receiver. A socket is
-- what `net` answers: whether it can be opened, and what is read from it.
pub mod Loop
pub mod Channel
pub mod Shutdown
pub mod Tests
use broadauth.Base.{
  ℕ, ◌+◌, Bytes, List, [], ◌∷◌, ◌++◌, take, length, Option, some, none, Bool, true, false, Result,
  ok, err, panic, ltb, if◌then◌else◌, resolve_failed, socket_failed, buffer_failed, write_failed,
  cancelled, no_handler,
}
use broadauth.Base.State.{M}

pub record UdpConfig : Type 0 where
  pub broadcast_addr : Bytes
  pub listen_addr : Bytes
  pub buffer_size : ℕ

-- The texts `255.255.255.255:8888` and `:8888` are parameters of the configuration here.
unfoldable pub default_udp_config : Bytes → Bytes → UdpConfig
default_udp_config broadcast_addr listen_addr = record {
  broadcast_addr = broadcast_addr;
  listen_addr = listen_addr;
  buffer_size = 1024;
}

-- What `net` answers while a socket is made: whether the address resolves, whether the socket
-- opens, and whether its buffer can be set.
pub record Opening : Type 0 where
  pub resolves : Bool
  pub opens : Bool
  pub buffers : Bool

-- `NewUDPBroadcaster`: the state is whether a socket is left open.
unfoldable pub new_udp : Opening → M Bool (Unit {0})
new_udp o is_open =
    if o.resolves
    then (if o.opens
        then (if o.buffers then (ok tt, true) else (err buffer_failed, false))
        else (err socket_failed, is_open))
    else (err resolve_failed, is_open)

-- `NewUDPReceiver`, which takes the same steps, with `ListenUDP` and the read buffer.
abbrev pub new_udp_receiver : Opening → M Bool (Unit {0})
new_udp_receiver = new_udp

-- `UDPBroadcaster.Broadcast`, by whether the context is done and whether the socket takes the
-- bytes; the state is what has been written, newest first.
unfoldable pub udp_broadcast : Bool → Bool → Bytes → M (List Bytes) (Unit {0})
udp_broadcast done takes bytes written =
    if done
    then (err cancelled, written)
    else (if takes then (ok tt, bytes ∷ written) else (err write_failed, written))

-- What the select of `receiveLoop` sees in a round: the context or the receiver is done, or a read
-- ended, with an error or with a datagram.
pub data Event : Type 0 where
  stopped : Event
  read_error : (shutting_down : Bool) → Event
  datagram : Bytes → Event

-- A read into the buffer: what does not fit is cut off.
unfoldable pub received : UdpConfig → Bytes → Bytes
received config d = take config.buffer_size d

-- `receiveLoop` over what it sees: the bytes of each handler that it starts. Each runs in a
-- goroutine of its own, so that the order in which they are started is not that of their steps.
unfoldable pub receive_loop : UdpConfig → List Event → List Bytes
unfolding received
receive_loop config [] = []
receive_loop config (stopped ∷ events) = []
receive_loop config (read_error shutting_down ∷ events) =
    let rest = receive_loop config events in if shutting_down then [] else rest
receive_loop config (datagram d ∷ events) = received config d ∷ receive_loop config events

-- `UDPReceiver.Start`, by whether a handler is set.
unfoldable pub start_receiver : Option (Bytes → Unit {0}) → Result (Unit {0})
start_receiver none = err no_handler
start_receiver (some handler) = ok tt

-- The struct `ChannelReceiver`: the messages in the channel, oldest first, and its capacity.
pub record ChannelReceiver : Type 0 where
  pub messages : List Bytes
  pub buffer_size : ℕ
  pub closed : Bool

unfoldable pub new_channel : ℕ → ChannelReceiver
new_channel buffer_size = record { messages = []; buffer_size = buffer_size; closed = false }

-- The handler that `NewChannelReceiver` sets; a send into a closed channel panics.
unfoldable pub on_datagram : Bytes → M ChannelReceiver (Unit {0})
on_datagram d c =
    if c.closed
    then (panic, c)
    else (if ltb (length c.messages) c.buffer_size
        then (ok tt, record c { messages = c.messages ++ (d ∷ []) })
        else (ok tt, c))

-- A receive from the channel that does not wait.
unfoldable pub next_message : ChannelReceiver → Option Bytes × ChannelReceiver
next_message c = elim c.messages [ [] ↦ (none, c) | d ∷ ds ↦ (some d, record c { messages = ds }) ]

-- The end of `ChannelReceiver.Close`; a second one panics.
unfoldable pub close_channel : M ChannelReceiver (Unit {0})
close_channel c = if c.closed then (panic, c) else (ok tt, record c { closed = true })
