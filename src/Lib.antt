-- ===== src/Lib.antt =====
-- Verification of auth-scope: a host certificate authority that issues certificates with
-- capability tokens to the VMs of the host over vsock, and the evaluator by which a service asks
-- what a peer's certificate allows.
--
-- The program's parts, and the files that model them:
-- - libs/rust-libs/auth-scope-proto: the claims and messages (Proto/Caps, Proto/Wire) and the framed
--   codec (Proto/Codec: `send_json`, `recv_json`). A frame is a four-byte big-endian length and JSON.
-- - libs/rust-libs/auth-scope-ca: errors (Ca/Error), signed capability tokens (Ca/Jwt: `sign`,
--   `verify_cap_jwt`), the DER helpers (Ca/Der; Ca/Der/Standard has DER's OCTET STRINGs as a
--   relation) and `sign_csr` (Ca/Signing), the authority's struct and what signing uses of it
--   (Ca/Authority), and its `load` and `init` (Ca/Storage).
-- - libs/rust-libs/auth-scope-evaluator: `from_cert_pem` (Evaluator/Certificate, with the unwrapping
--   of the extension in Evaluator/OctetString) and the grants (Evaluator/Grants: `can_call_rpc`,
--   `can_access_path`). Evaluator/EndToEnd joins it to the authority.
-- - apps/rust-apps/auth-scope-server: the configuration (Server/Config), the policy lookup
--   (Server/Policy: `resolve`), the handler of a connection (Server/Handler: `handle_connection`,
--   `handle_inner`, whose early returns make `serve`, `decide` and `issue`) and the accept loop
--   (Server/Listener), and `main` (Server/Main). Server/Listener/Schedule is the daemon as a step
--   relation, in which accepted connections and the ends of the spawned tasks come in any order, and
--   Server/Listener/Schedule/Bags its specification by multisets, which forget that order.
--   Server/Listener/Admitted says, apart from the loop, which connections are served.
-- - apps/rust-apps/auth-scope-agent: the configuration (Agent/Config), the dialling over the calls of
--   libc (Agent/Dial: `connect_with_local_port`), the request for one entity (Agent/Csr:
--   `generate_csr`; Agent/Client: `request_cert`), the storing of its credentials (Agent/Store:
--   `store_entity_credentials`, `write_file`, `parse_octal_mode`), the loop over the entities with
--   the listener that then holds the port (Agent/Loop: `run_agent`), and `main` (Agent/Main).
-- - libs/rust-libs/auth-scope-evaluator/src/bin/auth-scope-eval-test.rs: Evaluator/Driver. The unit
--   test of the evaluator is Evaluator/UnitTest.
-- - libs/go-libs/auth-scope-evaluator, the evaluator in Go: `CanCallRpc` and `CanAccessPath` (Go/Grants),
--   `NewEvaluator` (Go/Evaluator; Go/Evaluator/Agreed joins it to the authority and to the evaluator in
--   Rust), and its test program cmd/auth-scope-eval-test-go/main.go (Go/Command).
-- - Deployment joins the agent's end of a connection to the server's, and the certificate that comes of
--   it to the evaluator; Deployment/Fresh does so for an authority that `init` made.
-- Base has the shared types, tests, numbers and lemmas; Io the errors and stateful calls; Tests the
-- concrete crates, connections and requests at which the theorems are applied.
--
-- State and errors. A call that may fail gives a `Result`, with a third outcome for a panic; a call
-- on a connection gives also the state that it leaves (`Run`). Texts are their UTF-8 bytes. A
-- `HashMap` is a list of keys and values, of which the first with the key counts
-- (Server/Config/Order). Logging is left
-- out. Numbers are natural numbers: the length of a frame is cut to 32 bits, times and lengths to 64
-- bits, as in the source; where a debug build panics at an overflow and a release build wraps, the
-- release build is modelled, and the file says so.
--
-- Code outside the repository is a parameter: tokio's streams (Io/Stream: what a call does to the
-- unread and the sent bytes), the file system (Io/Files: what a call leaves under a path),
-- the calls of libc on sockets (Agent/Dial; Agent/Dial/Descriptors says which descriptors they leave
-- open), clap (what it makes of the command line),
-- serde_json (Proto/Json: what is written is read back), ring and base64
-- (Ca/Tokens: a signature verifies under the key's public half, and decoding undoes encoding), rcgen
-- (Ca/Pki) and x509_parser (Evaluator/X509; Evaluator/EndToEnd states how the two fit together),
-- and Go's library (Go/Library; Go/Evaluator/Agreed states how it reads what the crates write).
-- Tests has an instance of each. No law says that a signature cannot be forged: the theorems say what
-- is verified, not that nobody else can make it.
--
-- Bounds. `recv_json` refuses frames above 4 MiB (`max_msg_bytes`). The decimal printer of
-- Base/Number runs on fuel one above the number, which is enough as each step divides it. The loops
-- that dial and that bind the agent's port repeat at most ten times, and are recursion on what is
-- left of that. No other definition runs on fuel.
--
-- Not modelled: the Nix modules and the scripts. Of the programs, logging and the setting up of the
-- command line and of tokio are left out.
pub mod Base
pub mod Go
pub mod Io
pub mod Proto
pub mod Ca
pub mod Evaluator
pub mod Server
pub mod Agent
pub mod Deployment
mod Tests
