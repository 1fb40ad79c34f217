-- ===== src/Lib.antt =====
-- Verification of the Ryvo protocol client: the TypeScript of scripts/ and shared/, and the parts of
-- programs/ryvo-protocol that read what the client writes and settle it.
--
-- Parts, and how they interact:
--   Base          shared tests, lists, sorting, bytes, bits, integers, and `Outcome` with one `Fault` for
--                 each throw. Number: doubles. Reordered: what a permutation of a list keeps
--   Compact       encodeCompactU64 (scripts/ryvo-protocol-demo.ts) and read_varint_u64, read_varint_u32
--                 (programs/ryvo-protocol/src/instructions/clearing_round_message.rs)
--   Message       Client: createClearingRoundMessage and createCommitmentMessage of
--                 scripts/ryvo-protocol-demo.ts. Program: clearing_round_message.rs,
--                 parse_commitment_message of settle_individual.rs, and the two passes of
--                 settle_clearing_round.rs over a message. Both stand on Compact
--   Ed25519       createMultiMessageEd25519Instruction of scripts/ryvo-protocol-demo.ts, and the parser
--                 of programs/ryvo-protocol/src/ed25519.rs. Bundle: the commitments that the client
--                 signs with it, and the loop of settle_commitment_bundle.rs that reads them
--   Pair          participantBucketIdForParticipantId, pairOrdinal, channelBucketIdForPair and their
--                 slot indices (scripts/ryvo-protocol-demo.ts), getCanonicalChannelParticipants
--   Channel       shared/channel-bucket-state.ts, on a lane of any type
--   Account       Buffer: reads from a Node buffer. Lane: the channel bucket readers of
--                 scripts/ryvo-protocol-demo.ts, scripts/colosseum-channels-setup.ts and
--                 scripts/colosseum-drain-current.ts. They find slots by Pair and lanes by Channel
--                 Participant: the participant bucket readers of the same scripts. Slot: the reader of a
--                 whole slot. Bucket: the reader of scripts/yield-bearing-demo.ts
--   Capacity      Round, Measure, Search: scripts/lib/clearing-round-capacity.ts. Unilateral:
--                 scripts/lib/unilateral-settlement-capacity.ts, which shares the loop `grow`
--   Graph         buildOrderedParticipantPairs and buildBoundedDenseGraphPairs of
--                 scripts/ryvo-protocol-demo.ts
--   Multilateral  of scripts/ryvo-protocol-demo.ts: the binary search for an executable round and its
--                 targets. Edges: the channels of a candidate and the rings that are supported.
--                 Obligation, Round: deterministicRawChannelAmount and prepareMultilateralRound, which
--                 reads channels by Account and writes the message by Message. Submit: the search over
--                 participant counts and the submission of what it finds
--   Keys, Rpc     of scripts/ryvo-protocol-demo.ts: lists of public keys without duplicates; the retries,
--                 the wait for a confirmation, the fee sponsor and the lookup tables
--   Settlement    programs/ryvo-protocol/src/instructions/settle_clearing_round.rs with the accounts of
--                 programs/ryvo-protocol/src/state/bucket_state.rs, on the round that Message.Program read
--   Yield         the conversions between USDC and shares of shared/yield.ts
--   Bls           the scalars and the registration message of shared/protocol-bls.ts
--   Tests         runs at concrete inputs
--
-- Conventions. Code that throws gives an `Outcome`. A `number` or `bigint` that is never negative is a
-- native number; one that may be negative is an integer. `as_number` of Base/Number rounds to the nearest
-- double where the code makes a number from a bigint or adds what may pass 2 ^ 53 (channel buckets, the
-- targets and totals of a round); other numbers are taken to be exact. A buffer is the list of its
-- bytes. Third-party code is a record: `BigNumber` and `BigToNumber` (bn.js), `Web3` and `SettlementWeb3`
-- (@solana/web3.js), `Bls` (the curve operations of the program), and the nodes of Rpc, which hold the
-- answers of the RPC node. SHA-256 and the signing of a message are functions, as is the evaluation of a
-- candidate round, which simulates a transaction, and its submission. A key is a number, or the list of
-- its bytes where the bytes matter.
--
-- Loops. Those over lists and counts are structural. `encode_loop` is allowed `value + 1` rounds, which
-- are never used up: each round makes the value smaller. `shortvec_loop` is allowed 5, which use up 32
-- bits. `search_loop` is allowed as many rounds as there are candidates; each leaves fewer.
-- `reduce_loop` is allowed as many rounds as the order goes into the value, which it needs.
-- `supported_loop` is allowed one round for each count from the lower bound on, `decimal_loop` one more
-- than the value, whose digits are fewer. `retry_loop` counts down from the number of attempts.
-- `chunk_loop` is allowed one round for each element, and each takes at least one. `poll_loop` is
-- allowed one round for each second of the timeout and two more, since each round sleeps one second.
--
-- Not modelled: transactions and files; addresses derived by hashing, and that an account stands at the
-- address that it should; the curve operations of BLS; option parsing, wallet manifests, the formatting
-- of amounts and what is written to the log; and the program's instructions other than the settlement of
-- a clearing round, without its CPI guard and its token registry, and the loop that reads a bundle.
pub mod Base
pub mod Compact
pub mod Message
pub mod Pair
pub mod Channel
pub mod Account
pub mod Capacity
pub mod Yield
pub mod Keys
pub mod Settlement
pub mod Ed25519
pub mod Rpc
pub mod Multilateral
pub mod Bls
pub mod Graph
pub mod Tests
