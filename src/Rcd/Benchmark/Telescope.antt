-- ===== src/Rcd/Benchmark/Telescope.antt =====
-- What the lines of `benchmarkWorker` add up to.
use broadauth.Base.{ℕ, ◌+◌, ◌%◌, ◌^◌, ◌≡◌, refl, ap₂, List, [], ◌∷◌, map, arith}
use broadauth.Rcd.{Metrics}
use broadauth.Rcd.Receive.{sub_64}
use broadauth.Rcd.Benchmark.{
  Floats, Seen, Deltas, deltas, Report, rate, average, benchmark_worker, line,
}

-- The differences that a run of the worker reports.
unfoldable pub all_deltas : List Metrics → Metrics → List Deltas
all_deltas [] prev = []
all_deltas (current ∷ ms) prev = deltas current prev ∷ all_deltas ms current

abbrev pub last_of : Metrics → List Metrics → Metrics
last_of prev [] = prev
last_of prev (m ∷ ms) = last_of m ms

abbrev pub sum : List ℕ → ℕ
sum [] = 0
sum (x ∷ xs) = x + sum xs

telescope :
    (f : Metrics → ℕ) (g : Deltas → ℕ)
    → ((current prev : Metrics) → g (deltas current prev) ≡ sub_64 (f current) (f prev))
    → (ms : List Metrics) (prev : Metrics)
    → (f prev + sum (map g (all_deltas ms prev))) % 2 ^ 64 ≡ f (last_of prev ms) % 2 ^ 64
unfolding all_deltas
telescope f g h [] prev = omega arith
telescope f g h (m ∷ ms) prev = omega (arith, telescope f g h ms m, h m prev)

abbrev metrics_of {ℓ} : {A : Type ℓ} → List (A × Metrics) → List Metrics
metrics_of = map (λ t. t.1)

-- What a counter was, the differences that a run reports of it, and what it is in the end.
abbrev Totals : (Metrics → ℕ) → (Deltas → ℕ) → Metrics → List Metrics → Type 0
Totals f g prev ms =
    (f prev + sum (map g (all_deltas ms prev))) % 2 ^ 64 ≡ f (last_of prev ms) % 2 ^ 64

-- The lines of a run and its differences `ds`.
pub record AddsUp (fl : Floats) (ticks : List (Seen fl × Metrics)) (prev : Metrics) : Type 0 where
  pub tx_rates :
      map (λ r. r.tx_rate) (benchmark_worker fl ticks prev)
      ≡ map (λ d. rate fl d.bytes_sent) (all_deltas (metrics_of ticks) prev)
  pub rx_rates :
      map (λ r. r.rx_rate) (benchmark_worker fl ticks prev)
      ≡ map (λ d. rate fl d.bytes_received) (all_deltas (metrics_of ticks) prev)
  pub msg_rates :
      map (λ r. r.msg_rate) (benchmark_worker fl ticks prev)
      ≡ map (λ d. rate fl d.messages_sent) (all_deltas (metrics_of ticks) prev)
  pub averages :
      map (λ r. r.avg_hmac) (benchmark_worker fl ticks prev)
      ≡ map (λ d. average fl d.hmac) (all_deltas (metrics_of ticks) prev)
  pub bytes_sent : Totals (λ m. m.bytes_sent) (λ d. d.bytes_sent) prev (metrics_of ticks)
  pub bytes_received :
      Totals (λ m. m.bytes_received) (λ d. d.bytes_received) prev (metrics_of ticks)
  pub messages_sent : Totals (λ m. m.messages_sent) (λ d. d.messages_sent) prev (metrics_of ticks)
  pub hmac_count : Totals (λ m. m.hmac_count) (λ d. d.hmac.count) prev (metrics_of ticks)

module _ (fl : Floats) {A : Type 0} (column : Report fl → A) (g : Deltas → A)
    (reads : (seen : Seen fl) (current : Metrics) (d : Deltas)
      → column (line fl seen current d) ≡ g d) where
  columns :
      (ticks : List (Seen fl × Metrics)) (prev : Metrics)
      → map column (benchmark_worker fl ticks prev) ≡ map g (all_deltas (metrics_of ticks) prev)
  unfolding benchmark_worker all_deltas
  columns [] prev = refl
  columns ((seen, current) ∷ ticks) prev =
      ap₂ (λ x xs. x ∷ xs) (reads seen current (deltas current prev)) (columns ticks current)

-- The rates and averages of the lines of any run are those of the differences between the counters
-- of one line and the next, and these differences add up, modulo 2^64, to the whole change of the
-- counter: no byte, message or HMAC is reported twice or left out, a wrap of a counter included.
pub benchmark_worker-AddsUp :
    (fl : Floats) (ticks : List (Seen fl × Metrics)) (prev : Metrics) → AddsUp fl ticks prev
unfolding line deltas
benchmark_worker-AddsUp fl ticks prev = record {
  tx_rates = columns fl (λ r. r.tx_rate) (λ d. rate fl d.bytes_sent) (λ _ _ _. refl) ticks prev;
  rx_rates = columns fl (λ r. r.rx_rate) (λ d. rate fl d.bytes_received) (λ _ _ _. refl) ticks prev;
  msg_rates =
      columns fl (λ r. r.msg_rate) (λ d. rate fl d.messages_sent) (λ _ _ _. refl) ticks prev;
  averages = columns fl (λ r. r.avg_hmac) (λ d. average fl d.hmac) (λ _ _ _. refl) ticks prev;
  bytes_sent =
      telescope (λ m. m.bytes_sent) (λ d. d.bytes_sent) (λ _ _. refl) (metrics_of ticks) prev;
  bytes_received =
      telescope (λ m. m.bytes_received) (λ d. d.bytes_received) (λ _ _. refl) (metrics_of ticks)
        prev;
  messages_sent =
      telescope (λ m. m.messages_sent) (λ d. d.messages_sent) (λ _ _. refl) (metrics_of ticks) prev;
  hmac_count =
      telescope (λ m. m.hmac_count) (λ d. d.hmac.count) (λ _ _. refl) (metrics_of ticks) prev;
}
