-- ===== src/Broadcast/Loop.antt =====
-- With what the handlers of a UDP receiver are started.
use broadauth.Base.{
  ℕ, zero, suc, ap₂, ◌≤◌, ◌≡◌, refl, ap, ◌∙◌, Bytes, List, [], ◌∷◌, length, take, All, true, false,
  arith, map,
}
use broadauth.Broadcast.{UdpConfig, Event, stopped, read_error, datagram, receive_loop}

-- The datagrams among the rounds before the loop ends.
abbrev pub live : List Event → List Bytes
live [] = []
live (stopped ∷ events) = []
live (read_error true ∷ events) = []
live (read_error false ∷ events) = live events
live (datagram d ∷ events) = d ∷ live events

whole_take : (n : ℕ) (d : Bytes) → length d ≤ n → take n d ≡ d
whole_take zero [] le = refl
whole_take (suc n) [] le = refl
whole_take zero (x ∷ d) le = absurd (omega arith)
whole_take (suc n) (x ∷ d) le = ap (◌∷◌ x) (whole_take n d (omega arith))

cut :
    (config : UdpConfig) (events : List Event)
    → receive_loop config events ≡ map (take config.buffer_size) (live events)
unfolding receive_loop
cut config [] = refl
cut config (stopped ∷ events) = refl
cut config (read_error true ∷ events) = refl
cut config (read_error false ∷ events) = cut config events
cut config (datagram d ∷ events) = ap (◌∷◌ (take config.buffer_size d)) (cut config events)

map_whole : (n : ℕ) (ds : List Bytes) → All (λ d. length d ≤ n) ds → map (take n) ds ≡ ds
map_whole n [] h = refl
map_whole n (d ∷ ds) h = ap₂ ◌∷◌ (whole_take n d h.0) (map_whole n ds h.1)

-- A handler is started for each datagram that comes before the loop is stopped, whatever reads fail
-- in between, with the datagram cut to the size of the buffer; where every such datagram fits the
-- buffer, with just these.
pub receive_loop-live :
    (config : UdpConfig) (events : List Event)
    → (receive_loop config events ≡ map (take config.buffer_size) (live events))
      × (All (λ d. length d ≤ config.buffer_size) (live events)
          → receive_loop config events ≡ live events)
receive_loop-live config events =
    (cut config events, λ h. cut config events ∙ map_whole config.buffer_size (live events) h)
