-- ===== src/Broadcast/Channel.antt =====
-- The channel of received messages against what arrives: it drops, and never repeats or reorders.
use mathlib.Core.List.{Sublist}
use mathlib.Core.List.Sublist
use broadauth.Base.{
  ℕ, ◌+◌, ◌≤◌, ◌≡◌, sym, ap, ◌∙◌, subst, Bytes, List, [], ◌∷◌, ◌++◌, append-nil, append_assoc,
  length, length-append, Option, some, none, false, arith, ltb, ltb→lt, ltb→le, Bool-cases, inl,
  inr,
}
use broadauth.Broadcast.{ChannelReceiver, new_channel, on_datagram, next_message}

-- What happens at an open channel: a datagram arrives, or its reader takes a message.
pub data Use : Type 0 where
  arrives : Bytes → Use
  takes : Use

abbrev pub arrivals : List Use → List Bytes
arrivals [] = []
arrivals (arrives d ∷ uses) = d ∷ arrivals uses
arrivals (takes ∷ uses) = arrivals uses

abbrev taken :
    Option Bytes × ChannelReceiver
    → (ChannelReceiver → List Bytes × ChannelReceiver)
    → List Bytes × ChannelReceiver
taken (none, c) run = run c
taken (some d, c) run = (d ∷ (run c).0, (run c).1)

-- What the reader has taken, in order, and the channel after it.
unfoldable pub run : List Use → ChannelReceiver → List Bytes × ChannelReceiver
unfolding on_datagram next_message
run [] c = ([], c)
run (arrives d ∷ uses) c = run uses (on_datagram d c).1
run (takes ∷ uses) c = taken (next_message c) (λ c'. run uses c')

-- The taken messages and those still in the channel, of all that was there or arrived.
record Kept (before : List Bytes) (size : ℕ) (uses : List Use) (done : List Bytes × ChannelReceiver)
    : Type 0 where
  part : Sublist (done.0 ++ done.1.messages) (before ++ arrivals uses)
  within : length done.1.messages ≤ size
  all :
      length before + length (arrivals uses) ≤ size
      → done.0 ++ done.1.messages ≡ before ++ arrivals uses

channel : List Bytes → ℕ → ChannelReceiver
channel ms size = record { messages = ms; buffer_size = size; closed = false }

run-Kept :
    (uses : List Use) (ms : List Bytes) (size : ℕ)
    → length ms ≤ size
    → Kept ms size uses (run uses (channel ms size))
unfolding run channel
run-Kept [] ms size le = record {
  part = subst (λ xs. Sublist ms xs) (sym (append-nil ms)) (Sublist.refl ms);
  within = le;
  all = λ _. sym (append-nil ms);
}
run-Kept (arrives d ∷ uses) ms size le = elim (Bool-cases (ltb (length ms) size)) [
  | inl room ↦
      let lt = ltb→lt (length ms) size room in
      let longer = length-append ms (d ∷ []) in
      let k = run-Kept uses (ms ++ (d ∷ [])) size (omega arith) in
      let out = run uses (channel (ms ++ (d ∷ [])) size) in
      rw room (record {
        part =
            subst (λ xs. Sublist (out.0 ++ out.1.messages) xs)
              (append_assoc ms (d ∷ []) (arrivals uses)) k.part;
        within = k.within;
        all = λ few. k.all (omega arith) ∙ append_assoc ms (d ∷ []) (arrivals uses);
      })
  | inr full ↦
      let ge = ltb→le (length ms) size full in
      let k = run-Kept uses ms size le in
      rw full (record {
        part =
            Sublist.trans k.part
              (Sublist.append (Sublist.refl ms) (Sublist.cons d (Sublist.refl (arrivals uses))));
        within = k.within;
        all = λ few. absurd (omega arith);
      })
]
run-Kept (takes ∷ uses) [] size le =
    let k = run-Kept uses [] size le in record { part = k.part; within = k.within; all = k.all }
run-Kept (takes ∷ uses) (d ∷ ds) size le =
    let k = run-Kept uses ds size (omega arith) in
    record {
      part = Sublist.cons-cons d k.part;
      within = k.within;
      all = λ few. ap (◌∷◌ d) (k.all (omega arith));
    }

-- Whatever arrives at a new channel and whenever its reader takes a message, the messages that
-- were taken, followed by those in the channel, are among the arrivals, each at most once and in
-- order, and the channel is within its size; if no more arrive than the size, they are all there.
pub run-new_channel :
    (uses : List Use) (size : ℕ)
    → Sublist
        ((run uses (new_channel size)).0 ++ (run uses (new_channel size)).1.messages)
        (arrivals uses)
      × (length (run uses (new_channel size)).1.messages ≤ size)
      × (length (arrivals uses) ≤ size
          → (run uses (new_channel size)).0 ++ (run uses (new_channel size)).1.messages
            ≡ arrivals uses)
unfolding new_channel channel
run-new_channel uses size =
    let k = run-Kept uses [] size (omega arith) in (k.part, k.within, λ few. k.all (omega arith))
