-- ===== src/Cmd/Chat/Tests.antt =====
-- A chat of two texts, with a blank line and the end of one read lost, before `/exit`.
use broadauth.Base.{ℕ, ◌≡◌, refl, Bytes, List, [], ◌∷◌, Option, some, All, map, arith}
use broadauth.Base.State.{carry}
use broadauth.Tx.{Tx}
use broadauth.Tx.Tests.{lossy, tx_0}
use broadauth.Cmd.Text.{trim_space, strip}
use broadauth.Cmd.Chat.{Chat, chat_loop, exit_text, read_string, line_of}
use broadauth.Cmd.Chat.Lines.{
  Input, OneLine, chunk_of, text_of, texts, leaves, say_all, end_of, chat_loop-texts,
}

trim_space_test :
    trim_space (32 ∷ 0xe2 ∷ 0x80 ∷ 0x83 ∷ 104 ∷ 32 ∷ 105 ∷ 0xc2 ∷ 0xa0 ∷ 10 ∷ [])
    ≡ 104 ∷ 32 ∷ 105 ∷ []
unfolding trim_space strip
trim_space_test = refl

-- Two reads make one line, and what follows the line feed is gone.
read_string_test :
    read_string [] ((104 ∷ []) ∷ (105 ∷ 10 ∷ 106 ∷ 10 ∷ []) ∷ []) ≡ (some (104 ∷ 105 ∷ 10 ∷ []), [])
unfolding read_string line_of
read_string_test = refl

abbrev input : Bytes → Input
input line = record { line = line; more = 108 ∷ 111 ∷ 10 ∷ [] }

abbrev inputs : List Input
inputs = input (104 ∷ 105 ∷ []) ∷ input [] ∷ input (106 ∷ 32 ∷ []) ∷ input exit_text ∷ []

abbrev chat_0 : Chat
chat_0 = record { tx = tx_0; said = 0 }

abbrev at_five : ℕ → Option ℕ
at_five n = some 5

abbrev left_alone : ℕ → Tx → Tx
left_alone n t = t

inputs-OneLine : All OneLine inputs
inputs-OneLine = ground arith

chat_loop-texts_example :
    chat_loop lossy at_five left_alone 5 (map chunk_of inputs) chat_0
    ≡ carry
        (say_all lossy at_five left_alone (texts (map text_of inputs)) chat_0)
        (λ _. end_of lossy at_five left_alone (leaves (map text_of inputs)))
chat_loop-texts_example =
    chat_loop-texts lossy at_five left_alone inputs 5 chat_0 inputs-OneLine (omega arith)

texts_test : texts (map text_of inputs) ≡ (104 ∷ 105 ∷ []) ∷ (106 ∷ []) ∷ []
unfolding trim_space strip
texts_test = refl
