-- ===== src/Lib.antt =====
-- broadauth: broadcast authentication with hash chains of delayed keys, one key for each slot.
--
-- A device (RCD) asks its owner for a chain of hashes h_0, h_1, ..., h_n, each the SHA-256 of the
-- next. The owner puts h_0 into a contract. The device gives h_1, h_2, ... to the slots from its
-- request on, signs each message by an HMAC under the key of the slot and discloses the key
-- `disclosureDelay` slots later; a receiver accepts a disclosed key if it hashes to the last one that
-- it knows, its commitment. In deterministic mode one HMAC covers a message; in probabilistic mode
-- it covers a Bloom filter of the messages of a slot.
--
-- The files, with the code that each models:
--   Base        what the modules share: lists, Go's `int`, outcomes of calls (a value, an error,
--               a panic, a loop out of fuel), `sync.Map`, methods that change an object
--   Hashchain   pkg/hashchain/hashchain.go: NewLinear (`new_linear`), First, Last, Next
--               (`next_hash`), Remaining, verifyChain, NewLinearFromExisting
--   Bloom       pkg/bloom/bloom.go: New, Add, Check, Bytes, FromBytes
--   Message     internal/message/message.go: the envelope of a datagram
--   Rcd         internal/rcd/rcd.go: the struct `RCD`, with the calls that it makes of the outside
--     Keys      RequestHashChain, requestHashChainOnce, CurrentSlotKey
--     Metered   the counters, and the steps that the senders share
--     Send      broadcast, broadcastDeterministic, bufferForBatch, flushBatch, broadcastLoop
--     Disclose  disclosureWorker, a slot at a time
--     Receive   handleMessage, storeUnverifiedMessage, getUnverifiedMessages, verifyKey; its child
--               `Race` has two calls of storeUnverifiedMessage at once
--     Cleanup   cleanupWorker, a tick at a time
--     System    the goroutines together: turns in any order, and what every turn keeps
--     Life      New, Start, Stop, with the handles that each leaves open
--     Benchmark benchmarkWorker
--     Delivery  a message, and a batch, from its sender to its receiver
--   Owner       internal/owner/owner.go: NewRCD, registerRCD, handleRCD; the calls of the contract
--               that got a receipt are a log of the owner
--     Life      New, Close
--     Listen    ListenAndServe, one handler after the other
--     Race      two handlers of one RCD at once
--     Lasting   that no handler panics
--   Slot        internal/slot: the sources of slots and what their tickers emit
--   Broadcast   internal/broadcast: the UDP sockets, receiveLoop, Close beside it, the channel
--               on top of a receiver
--   Tx          internal/tx/tx.go: NewTx, Broadcast, DisclosureBroadcastWorker, a slot at a time
--   Rx          internal/rx/rx.go: NewRx, the handler, VerifyKeyMessage, one datagram after the other;
--               its child `Race` has two calls of VerifyKeyMessage at once
--   Cm          cmd/cm/main.go: handleConnection, sendResponse
--   Contract    contracts/src/InfTESLAPlusPlus.sol: regOwner, storeKey, getKey, changeCurrentIndex
--   Cmd         the programs under cmd, from their parsed flags to their end
--     RunRcd    cmd/rcd/main.go, on top of `Rcd/Life`
--     RunOwner  cmd/owner/main.go, on top of `Owner/Life` and `Owner/Listen`
--     RunCm     cmd/cm/main.go: main and its loop over connections, on top of `Cm`
--     Chat      cmd/chat/main.go, on top of `Tx`
--     CmTest    cmd/cmtest/main.go
--     Text      `strings.TrimSpace`, for the chat
-- The children of a module hold its theorems, and a child `Tests` runs it on concrete inputs.
--
-- An RCD and an owner are records of their fields; a method takes the record and gives an outcome
-- with the record left behind, also after an error. What leaves the process is part of the record
-- (the datagrams sent, the messages reported as authentic, the calls of the contract), and what comes in
-- is an answer of a parameter (`Env`, `Outside`), given by the number of the call, so that a second
-- call can answer otherwise. SHA-256, HMAC, JSON and floats are parameters with the laws that the code
-- relies on: lengths of digests, an answer of the owner as long as `io.ReadFull` read, and a message
-- that reads back as it was marshalled.
--
-- Numbers of 64 bits keep their wrap-around where the code adds or subtracts slots and counters.
-- `Next`, `n` and the lengths of chains are an `int` in the code, may be negative where a flag gives
-- them, and do not come near its bounds.
-- Some loops have fuel. CurrentSlotKey's runs out where it spins; two rounds are enough where the
-- outside answers. The owner's sending loop has one round for each byte of the chain, which is more
-- than its hashes. The chat's loop has no end of its own, so that a round for each line and one more
-- show all that it does. `TrimSpace` has a round for each byte of the text.
--
-- Each method runs to its end before the next: `chainMutex` and `bufferMutex` give this for the
-- fields that they guard. Each datagram and each connection has a goroutine of its own; the theorems
-- on whole handlers take them one after the other. Where two calls can interleave on what they share,
-- `Rcd/Receive/Race`, `Rx/Race` and `Owner/Race` have their steps in any order. The goroutine that flushes a batch is run when
-- its slot comes. `Rcd/System` lets the goroutines of an RCD take such turns in any order. A
-- socket is a flag, with what `net` answers when it is opened and used; a receiving loop is a
-- function of what its select sees. `Cm` is tied to `Owner` by the answers of the registration,
-- `Contract` to `Owner` by running the calls that a served request adds to the owner's log, and `Tx` to `Rx` by the
-- datagrams; in `Owner` and `Rcd` themselves the calls of the contract are parameters.
--
-- Not modelled: the parsing of flags, what is logged, and contexts and deadlines but for their effect
-- as an error; two handlers at once but for what the three modules `Race` have; what makes a worker of
-- an RCD stay after its context is cancelled, which is a parameter of `Cmd/RunRcd`; the data race of
-- two connections of the contract manager or the owner on the context of their shared transactor; and
-- contracts/src/Counter.sol with the scripts beside it, which are no part of the system.
pub mod Base
pub mod Hashchain
pub mod Bloom
pub mod Message
pub mod Rcd
pub mod Owner
pub mod Slot
pub mod Broadcast
pub mod Tx
pub mod Rx
pub mod Cm
pub mod Contract
pub mod Cmd
