-- ===== src/Rcd/Send/Batch.antt =====
-- What `flushBatch` sends and queues for the messages of a slot.
use broadauth.Base.{
  ℕ, ◌+◌, ◌^◌, ◌<◌, ◌≡◌, sym, ap, subst, ◌∙◌, Bytes, List, [], ◌∷◌, ◌++◌, length, All, some, true,
  Result, Error, ok, err, ltb, if◌then◌else◌, queue_full,
}
use broadauth.Message.{Message, new_message, kind_hmac}
use broadauth.Bloom.{Filter, new_filter, to_bytes}
use broadauth.Bloom.Filled.{IsFilter, Grows, Passes, add_all, add_all_total, new_filter-IsFilter}
use broadauth.Rcd.{Env, Rcd, KeyState}
use broadauth.Rcd.Keys.{current_slot_key}
use broadauth.Rcd.Metered.{slot_key}
use broadauth.Rcd.Send.{announce, flush_items, flush_batch}
use broadauth.Rcd.Send.Deterministic.{payload, announce-Announced}

module _ (env : Env) where
  -- Every message can be marshalled, and the network takes every datagram.
  pub record Up : Type 0 where
    pub marshals : (m : Message) → (b : Bytes) × (env.codec.marshal m ≡ some b)
    pub delivers : (i : ℕ) (b : Bytes) → env.network i b ≡ true

  -- The filter that `flushBatch` starts from, for so many messages.
  abbrev pub fresh_filter : ℕ → Filter
  fresh_filter n = new_filter env.float64 n env.error_rate

  -- A batch that was announced: its filter, and the datagram with the HMAC of the filter.
  pub record Flushed (slot : ℕ) (key : Bytes) (items : List Bytes) (r : Rcd)
      (done : Result (Unit {0}) × Rcd) : Type 0 where
    pub filter : Filter
    pub out : Bytes
    pub is_filter : IsFilter filter
    pub same_m : filter.m ≡ (fresh_filter (length items)).m
    pub same_k : filter.k ≡ (fresh_filter (length items)).k
    pub passes : All (λ item. Passes item filter) items
    pub is_hmac :
        env.codec.marshal (new_message r.id slot kind_hmac (env.hmac key (to_bytes filter)))
        ≡ some out
    pub result :
        done.0 ≡ (if ltb (length r.disclosure_messages) r.queue_cap then ok tt else err queue_full)
    pub sent : done.1.sent ≡ out ∷ r.sent
    pub queued : done.1.disclosure_messages ≡ (
        if ltb (length r.disclosure_messages) r.queue_cap
        then r.disclosure_messages ++ (payload env r slot key (to_bytes filter) ∷ [])
        else r.disclosure_messages)
    pub emptied : done.1.message_buffer ≡ []

  -- With a key at hand, a network that takes all that is marshalled, and a filter size that is
  -- positive and does not overflow, one HMAC covers a filter that every buffered message passes;
  -- the filter is queued with the key, or the result is the queue's error, and the buffer is
  -- empty.
  pub flush_batch-Flushed :
      (fuel slot now : ℕ) (item : Bytes) (items : List Bytes) (r : Rcd) (key : Bytes)
      (ks : KeyState)
      → Up
      → r.message_buffer ≡ item ∷ items
      → 0 < (fresh_filter (length (item ∷ items))).m
      → (fresh_filter (length (item ∷ items))).m + 7 < 2 ^ 64
      → current_slot_key env fuel r.id r.hashchain_len r.keys ≡ (ok (now, key), ks)
      → Flushed slot key (item ∷ items) r (flush_batch env fuel slot r)
  flush_batch-Flushed fuel slot now item items r key ks up e pos fits keyed =
      let (filter, run, grown, passes) =
        add_all_total (fresh_filter (length (item ∷ items))) (item ∷ items)
          (new_filter-IsFilter env.float64 (length (item ∷ items)) env.error_rate pos fits) in
      announced filter run grown passes
    where
      emptied : Rcd
      emptied = record r { message_buffer = []; keys = ks }

      announced :
          (filter : Filter)
          → add_all (fresh_filter (length (item ∷ items))) (item ∷ items) ≡ ok filter
          → Grows (fresh_filter (length (item ∷ items))) filter
          → All (λ x. Passes x filter) (item ∷ items)
          → Flushed slot key (item ∷ items) r (flush_batch env fuel slot r)
      announced filter run grown passes =
          let (out, is_hmac) =
            up.marshals (new_message r.id slot kind_hmac (env.hmac key (to_bytes filter))) in
          let a =
            announce-Announced env slot key (to_bytes filter) out emptied is_hmac
              (up.delivers r.sends out) in
          let run' : flush_batch env fuel slot r ≡ announce env slot key (to_bytes filter) emptied =
            unfold flush_batch in
            ap (λ b. flush_items env fuel slot b r) e
            ∙ unfold flush_items slot_key in rw (run, keyed) in
          subst (Flushed slot key (item ∷ items) r) (sym run') (record {
            filter = filter;
            out = out;
            is_filter = grown.well;
            same_m = grown.same_m;
            same_k = grown.same_k;
            passes = passes;
            is_hmac = is_hmac;
            result = a.result;
            sent = a.sent;
            queued = a.queued;
            emptied = a.same_buffer;
          })

  -- If CurrentSlotKey returns an error, and the filter size is positive and does not overflow,
  -- the batch is lost: that error is returned, the buffer is empty, and nothing was sent or
  -- queued.
  pub flush_batch_lost :
      (fuel slot : ℕ) (item : Bytes) (items : List Bytes) (r : Rcd) (x : Error) (ks : KeyState)
      → r.message_buffer ≡ item ∷ items
      → 0 < (fresh_filter (length (item ∷ items))).m
      → (fresh_filter (length (item ∷ items))).m + 7 < 2 ^ 64
      → current_slot_key env fuel r.id r.hashchain_len r.keys ≡ (err x, ks)
      → flush_batch env fuel slot r ≡ (err x, record r { message_buffer = []; keys = ks })
  flush_batch_lost fuel slot item items r x ks e pos fits keyless =
      let (filter, run, _, _) =
        add_all_total (fresh_filter (length (item ∷ items))) (item ∷ items)
          (new_filter-IsFilter env.float64 (length (item ∷ items)) env.error_rate pos fits) in
      unfold flush_batch in
      ap (λ b. flush_items env fuel slot b r) e ∙ unfold flush_items slot_key in rw (run, keyless)
