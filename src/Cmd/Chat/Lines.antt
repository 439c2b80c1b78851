-- ===== src/Cmd/Chat/Lines.antt =====
-- What the chat says of the lines that it reads, and that it never ends at the end of its input.
use broadauth.Base.{
  ℕ, zero, suc, ◌<◌, ◌≡◌, ◌≢◌, refl, sym, ◌∙◌, Bytes, List, [], ◌∷◌, ◌++◌, length, map, All, Option,
  some, Bool, true, false, Result, ok, err, panic, running, ◌==◌, bytes_eq, nat_eqb, nat_eqb_iff,
  if◌then◌else◌, arith, Bool-cases, inl, inr,
}
use broadauth.Base.State.{M, carry, pure, when}
use broadauth.Tx.{Tx, TxOutside}
use broadauth.Cmd.Text.{trim_space}
use broadauth.Cmd.Chat.{
  line_of, read_string, exit_text, Chat, say, on_text, on_line, chat_loop, printed,
}

-- A line without its line feed, and what the same read returned after it.
pub record Input : Type 0 where
  pub line : Bytes
  pub more : Bytes

abbrev pub chunk_of : Input → Bytes
chunk_of i = i.line ++ (10 ∷ i.more)

abbrev pub OneLine : Input → Type 0
OneLine i = All (λ b. b ≢ 10) i.line

-- What a line asks to be broadcast.
abbrev pub text_of : Input → Bytes
text_of i = trim_space (i.line ++ (10 ∷ []))

-- The texts before the first `/exit` that are not blank, and whether there is an `/exit`.
abbrev pub texts : List Bytes → List Bytes
texts [] = []
texts (text ∷ rest) =
    let later = texts rest in
    if text == [] then later else (if text == exit_text then [] else text ∷ later)

abbrev pub leaves : List Bytes → Bool
leaves [] = false
leaves (text ∷ rest) =
    let later = leaves rest in
    if text == [] then later else (if text == exit_text then true else later)

line_of_lem :
    (line more : Bytes)
    → All (λ b. b ≢ 10) line
    → line_of (line ++ (10 ∷ more)) ≡ some (line ++ (10 ∷ []))
unfolding line_of
line_of_lem [] more h = refl
line_of_lem (b ∷ line) more (ne, h) = elim (Bool-cases (nat_eqb b 10)) [
  | inl same ↦ absurd (ne ((nat_eqb_iff b 10).0 same))
  | inr other ↦ rw (other, line_of_lem line more h) refl
]

read_string_lem :
    (i : Input) (chunks : List Bytes)
    → OneLine i
    → read_string [] (chunk_of i ∷ chunks) ≡ (some (i.line ++ (10 ∷ [])), chunks)
unfolding read_string
read_string_lem i chunks h = rw (line_of_lem i.line i.more h, read_string) refl

module _ (out : TxOutside) (slot_at : ℕ → Option ℕ) (meanwhile : ℕ → Tx → Tx) where
  -- Texts broadcast in turn.
  unfoldable pub say_all : List Bytes → M Chat (Unit {0})
  unfolding say
  say_all [] c = (ok tt, c)
  say_all (text ∷ rest) c = carry (say out slot_at meanwhile text c) λ _. say_all rest

  -- At the end of the input the loop goes on for ever and says nothing.
  pub chat_loop-spins :
      (fuel : ℕ) (c : Chat) → chat_loop out slot_at meanwhile fuel [] c ≡ (running, c)
  unfolding chat_loop
  chat_loop-spins zero c = refl
  chat_loop-spins (suc fuel) c = chat_loop-spins fuel c

  -- Whether the loop ends.
  abbrev pub end_of : Bool → M Chat (Unit {0})
  end_of true c = (ok tt, c)
  end_of false c = (running, c)

  carry-carry :
      (r : Result Bool × Chat) (f : M Chat (Unit {0})) (g : Unit {0} → M Chat (Unit {0}))
      → carry (carry r (λ _. f)) g ≡ carry r (λ _ c. carry (f c) g)
  carry-carry (ok b, c) f g = refl
  carry-carry (err e, c) f g = refl
  carry-carry (panic, c) f g = refl
  carry-carry (running, c) f g = refl

  -- A broadcast never leaves the loop.
  goes_on :
      (r : Result (Unit {0})) (c : Chat) (f g : M Chat (Unit {0}))
      → ((c' : Chat) → f c' ≡ g c')
      → carry (printed r, c) (λ left. when left (pure tt) f) ≡ carry (printed r, c) (λ _. g)
  goes_on (ok _) c f g e = e c
  goes_on (err x) c f g e = e c
  goes_on panic c f g e = refl
  goes_on running c f g e = refl

  -- A round whose line is `text`, where the rounds after it do what `rest` asks.
  loop_step :
      (text line : Bytes) (stdin chunks rest : List Bytes) (fuel : ℕ) (c : Chat)
      → read_string [] stdin ≡ (some line, chunks)
      → trim_space line ≡ text
      → ((c' : Chat)
          → chat_loop out slot_at meanwhile fuel chunks c'
            ≡ carry (say_all (texts rest) c') (λ _. end_of (leaves rest)))
      → chat_loop out slot_at meanwhile (suc fuel) stdin c
        ≡ carry (say_all (texts (text ∷ rest)) c) (λ _. end_of (leaves (text ∷ rest)))
  loop_step text line stdin chunks rest fuel c read trimmed later =
      run ∙ elim (Bool-cases (text == [])) [
        | inl blank ↦ unfold on_text in rw blank (later c)
        | inr shown ↦ elim (Bool-cases (text == exit_text)) [
          | inl leave ↦ unfold on_text say_all in rw (shown, leave) refl
          | inr stay ↦ unfold on_text in rw (shown, stay) (spoken ∙ sym joined)
        ]
      ]
    where
      next : M Chat (Unit {0})
      next = chat_loop out slot_at meanwhile fuel chunks

      run :
          chat_loop out slot_at meanwhile (suc fuel) stdin c
          ≡ carry (on_text out slot_at meanwhile text c) (λ left. when left (pure tt) next)
      run = unfold chat_loop on_line in rw (read, trimmed) refl

      spoken :
          carry (say out slot_at meanwhile text c) (λ left. when left (pure tt) next)
          ≡ carry
              (say out slot_at meanwhile text c)
              (λ _ c'. carry (say_all (texts rest) c') (λ _. end_of (leaves rest)))
      spoken = unfold say in goes_on _ _ _ _ later

      joined :
          carry (say_all (text ∷ texts rest) c) (λ _. end_of (leaves rest))
          ≡ carry
              (say out slot_at meanwhile text c)
              (λ _ c'. carry (say_all (texts rest) c') (λ _. end_of (leaves rest)))
      joined =
          unfold say_all in
          carry-carry (say out slot_at meanwhile text c) (say_all (texts rest))
            (λ _. end_of (leaves rest))

  -- Where each read returns a line, whatever it returned after the line feed, the chat broadcasts
  -- in order the texts of these lines that are not blank, up to the first `/exit`, and ends there;
  -- without an `/exit` it is still running after any number of rounds. It stops earlier only if a
  -- broadcast panics.
  pub chat_loop-texts :
      (inputs : List Input) (fuel : ℕ) (c : Chat)
      → All OneLine inputs
      → length inputs < fuel
      → chat_loop out slot_at meanwhile fuel (map chunk_of inputs) c
        ≡ carry (say_all (texts (map text_of inputs)) c) (λ _. end_of (leaves (map text_of inputs)))
  chat_loop-texts [] fuel c h enough = unfold say_all in chat_loop-spins fuel c
  chat_loop-texts (i ∷ inputs) zero c h enough = absurd (omega arith)
  chat_loop-texts (i ∷ inputs) (suc fuel) c (one, h) enough =
      loop_step (text_of i) (i.line ++ (10 ∷ [])) (chunk_of i ∷ map chunk_of inputs)
        (map chunk_of inputs) (map text_of inputs) fuel c
        (read_string_lem i (map chunk_of inputs) one) refl
        (λ c'. chat_loop-texts inputs fuel c' h (omega arith))
