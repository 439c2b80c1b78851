-- ===== src/Cmd/Chat.antt =====
-- cmd/chat/main.go: lines from the standard input, broadcast by a `Tx`. The standard input is
-- given by what its reads return, each at least a byte; after these it is at its end.
pub mod Lines
pub mod Tests
use broadauth.Base.{
  ℕ, zero, suc, ◌+◌, Bytes, List, [], ◌∷◌, ◌++◌, Option, some, none, Bool, true, false, Result, ok,
  err, panic, running, ◌>>=◌, ◌==◌, bytes_eq, nat_eqb, if◌then◌else◌,
}
use broadauth.Base.State.{M, carry, pure, when}
use broadauth.Broadcast.{UdpConfig, Opening}
use broadauth.Tx.{Tx, TxOutside, broadcast_data}
use broadauth.Tx.Make.{new_tx}
use broadauth.Rx.{Rx, new_rx}
use broadauth.Cmd.Text.{trim_space}

-- An environment variable that is empty or not set has a default.
abbrev pub or_default : Bytes → Bytes → Bytes
or_default [] default = default
or_default (b ∷ bs) default = b ∷ bs

-- The ports `8080` and `8081`, and the text `255.255.255.255:`.
abbrev pub default_listen_port : Bytes
default_listen_port = 56 ∷ 48 ∷ 56 ∷ 48 ∷ []

abbrev pub default_broadcast_port : Bytes
default_broadcast_port = 56 ∷ 48 ∷ 56 ∷ 49 ∷ []

abbrev pub everyone : Bytes
everyone = 50 ∷ 53 ∷ 53 ∷ 46 ∷ 50 ∷ 53 ∷ 53 ∷ 46 ∷ 50 ∷ 53 ∷ 53 ∷ 46 ∷ 50 ∷ 53 ∷ 53 ∷ 58 ∷ []

unfoldable pub chat_config : Bytes → Bytes → UdpConfig
chat_config listen_port broadcast_port = record {
  broadcast_addr = everyone ++ or_default broadcast_port default_broadcast_port;
  listen_addr = 58 ∷ or_default listen_port default_listen_port;
  buffer_size = 1024;
}

-- The text up to the first line feed and with it, if there is one.
unfoldable pub line_of : Bytes → Option Bytes
line_of [] = none
line_of (b ∷ bs) =
    if nat_eqb b 10
    then some (10 ∷ [])
    else elim (line_of bs) [ none ↦ none | some line ↦ some (b ∷ line) ]

-- `ReadString` of a new `bufio.Reader`, and what is left to read. What a read returned after the
-- line feed stays in the buffer of the reader, which is dropped. `none` is the end of the input.
unfoldable pub read_string : Bytes → List Bytes → Option Bytes × List Bytes
unfolding line_of
read_string before [] = (none, [])
read_string before (chunk ∷ chunks) = elim (line_of chunk) [
  | none ↦ read_string (before ++ chunk) chunks
  | some line ↦ (some (before ++ line), chunks)
]

-- The text `/exit`.
abbrev pub exit_text : Bytes
exit_text = 47 ∷ 101 ∷ 120 ∷ 105 ∷ 116 ∷ []

-- The sender, and how often it was asked to broadcast.
pub record Chat : Type 0 where
  pub tx : Tx
  pub said : ℕ

-- An error is printed, and the loop goes on.
abbrev pub printed : Result (Unit {0}) → Result Bool
printed (ok _) = ok false
printed (err e) = ok false
printed panic = panic
printed running = running

-- The answers of the slot source, and what the disclosure worker does to the `Tx` before each
-- broadcast.
module _ (out : TxOutside) (slot_at : ℕ → Option ℕ) (meanwhile : ℕ → Tx → Tx) where
  unfoldable pub say : Bytes → M Chat Bool
  say text c =
      let (r, tx) = broadcast_data out (slot_at c.said) text (meanwhile c.said c.tx) in
      (printed r, record { tx = tx; said = c.said + 1 })

  -- Whether the loop is left.
  unfoldable pub on_text : Bytes → M Chat Bool
  unfolding say
  on_text text = when (text == []) (pure false) (when (text == exit_text) (pure true) (say text))

  unfoldable pub on_line : Option Bytes → M Chat Bool
  unfolding on_text
  on_line none = pure false
  on_line (some line) = on_text (trim_space line)

  -- The loop of `main`, with fuel for its rounds.
  unfoldable pub chat_loop : ℕ → List Bytes → M Chat (Unit {0})
  unfolding on_line read_string
  chat_loop zero stdin c = (running, c)
  chat_loop (suc fuel) stdin c =
      carry (on_line (read_string [] stdin).0 c)
        λ left. when left (pure tt) (chat_loop fuel (read_string [] stdin).1)

  -- `main`, by what `net` answers for the two sockets. A sender or a receiver that cannot be made
  -- panics. `Start` of both only starts a goroutine, and what is deferred only stops these.
  unfoldable pub main : Bytes → Opening → Opening → ℕ → List Bytes → Result (Chat × Rx)
  unfolding chat_loop
  main id sends receives fuel stdin = new_tx out id sends >>= λ tx. new_rx receives >>= λ rx.
      let (r, c) = chat_loop fuel stdin (record { tx = tx; said = 0 }) in r >>= λ _. ok (c, rx)
