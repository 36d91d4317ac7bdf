-- ===== src/Lib.antt =====
-- straitsx-888: payments with x402 and XSGD that an agent asks for and a mandate of its owner bounds.
--
-- These services carry a payment, and this library models their core:
--   * services/ledger-service keeps the intents, the decision log, the policies, the escalations and
--     the standing approvals, and gives the spending of a window;
--   * services/policy-service runs nine checks on a payment, puts some of them to the owner, and asks
--     for a signature;
--   * services/signer-service has the key: it refuses what its own rail does not allow, and turns the
--     key source's answer into a signature;
--   * services/chain-gateway reads the chain, and confirms that a settlement moved what it should;
--   * services/agent-orchestrator runs a payment: it finds the item, has it decided and signed, pays
--     the card's issuer, checks out at the merchant, and records and confirms the settlement.
-- packages/contracts is what they share.
--
-- Which file models what:
--   * Prelude, Text, Dict: numbers, JavaScript strings (UTF-16 code units), BigInt and Map;
--   * Contracts/Types, Contracts/Validation, Contracts/Mandate: packages/contracts/src types.ts,
--     validation.ts and mandate.ts (serialise, hashPolicy, buildCommitmentNonce);
--     Contracts/Json, Contracts/X402: x402.ts (parseX402Challenge) over a JSON value;
--   * Ledger/State: services/ledger-service/src/store.ts; Ledger/Intents, Ledger/Outcomes,
--     Ledger/Window, Ledger/Storage: the routes of app.ts, one function each, from the time in
--     milliseconds, the body and the state to the state and the reply; Ledger/Service: the routes
--     together, and runs of requests; Ledger/Lifecycle: the transitions of one intent;
--   * Signer/Der: services/signer-service/src/keys/der.ts; Signer/Rail: sign/rail.ts;
--     Signer/Spki: keys/derive-address.ts;
--     Signer/Pipeline: sign/typed-data.ts and sign/pipeline.ts; Signer/Sign: routes/sign.ts, cut in
--     two where the handler waits for the key source;
--   * Policy/Checks: services/policy-service/src/checks; Policy/Signing: signing.ts, typedData.ts and
--     the clients; Policy/Answers, Policy/Payment, Policy/Resolve, Policy/Drift: the routes of
--     app.ts;
--     Policy/Matcher: matcher.ts; Policy/Approval: packages/contracts/src/escalation.ts;
--   * Chain/Settlement: services/chain-gateway/src/routes/settlement.ts and withRpc of chain.ts;
--   * Agent/Step: asynchronous code that changes a state and may throw, with its rules; Agent/Run:
--     services/agent-orchestrator/src/run/store.ts; Agent/Price, Agent/Discovery, Agent/Checkout: its
--     src/discovery, src/checkout and src/post-issuance; Agent/Pipeline: run/pipeline.ts with the
--     clients, Agent/Pipeline/Execution from startRun to continueSignedRun, and
--     Agent/Pipeline/Escalation for what ends an escalated run; Agent/CardGateway: src/card-gateway,
--     which the run takes as a parameter;
--   * Examples: the theorems at concrete inputs.
--
-- The policy service calls the ledger's routes in place, on the state that the ledger keeps, and so
-- does the run, which calls the policy service and the chain gateway too; it is seen under its own
-- id, and every await is one step. A request runs without another one in between, except where
-- Signer/Sign separates the two parts of its handler. Numbers of the wire are natural, a chain id is
-- Number of what was sent, and an amount of dollars is the double that the source has, in units of
-- 2^-50; `bigint` is ℤ. A timestamp is its instant or a text that Date.parse cannot read;
-- toLowerCase is the ASCII one.
--
-- Fuel: the digits of a number n are read off with fuel n + 1 or more, and each step divides by 10 or
-- 16, so it does not run out before the number is 0.
--
-- Parameters stand for what is outside the repository: the key source (AWS KMS), viem's keccak256,
-- EIP-712 hash, address checksum and message verification, the public key recovery, the chain's
-- registry as the chain gateway reads it, the RPC node and viem's decodeEventLog, the browser, the URL
-- parser and regular expressions of profiles, the MCP server, the card's issuer, the merchant's
-- server, and the clock. Policy/Payment takes the matcher of check 9 as a parameter too, which
-- Policy/Matcher can be.
--
-- Not modelled: the dashboard (a user interface), the Solidity registry (another language) and its
-- vendored test library, the infrastructure and the scripts, the transport of the agent's MCP client
-- and its list of runs, the chain gateway's reads of the node, the base64 header of a challenge, the key
-- sources, and the read of a policy with its drift.
pub mod Prelude
pub mod Text
pub mod Dict
pub mod Contracts
pub mod Ledger
pub mod Signer
pub mod Policy
pub mod Chain
pub mod Agent
pub mod Examples
