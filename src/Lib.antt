-- ===== src/Lib.antt =====
-- Verification library of the attestation verifiers: the Rust crates under rust/ and the Move packages
-- under move/.
--
-- The program has five parts. `attest-android` verifies an Android Key Attestation: it validates the
-- certificate chain against pinned roots, checks the serial numbers against a revocation list, decodes
-- the key description on the leaf and holds it against a policy. `attest-apple` verifies App Attest
-- attestations, in the same manner, and the assertions made later with an attested key.
-- `attestation-core` has the outcome that both return. `enclave-server` decodes requests, calls a
-- verifier and has the Nitro Security Module sign a document over the digest of the outcome's payload.
-- The Move packages accept such a document on the chain for a payload that the caller gives, return a
-- witness of the attestation, bind the attested key to an account, and check the device's signature on
-- each action.
--
-- Which file models which part:
--   Core                    rust/attestation-core/src/lib.rs: `Outcome`, the source names
--   X509, X509.Checks       what both files roots.rs share: validity, CA flag, signature checks
--   Android.Errors          rust/attest-android/src/errors.rs
--   Android.Der             the `der` crate, as a record of operations, and its laws in Android.Der.Laws
--   Android.Tlv             key_description.rs: `parse_tlv_header`
--   Android.Integers        key_description.rs: `decode_i32`, `decode_u64`, `decode_enumerated`,
--                           `decode_i64_from_int`
--   Android.Authorizations  key_description.rs: `decode_authorization_list`, `decode_root_of_trust`
--   Android.Description     key_description.rs: `KeyDescription::from_der`, `SecurityLevel`
--   Android.Application     key_description.rs: `attestation_application_id`
--   Android.Revocation      rust/attest-android/src/status_list.rs
--   Android.Chain           rust/attest-android/src/roots.rs: `validate_chain`, `verify_signature`
--   Android.Verify          rust/attest-android/src/lib.rs: `verify_attestation`, `check_status`
--   Apple.AuthData          rust/attest-apple/src/authdata.rs: `parse`
--   Apple.Cbor, Apple.Cose  cbor.rs and cose.rs, over the values of the crate `ciborium`
--   Apple.Entries           the loops over a CBOR map in cbor.rs, cose.rs and assertion.rs
--   Apple.Nonce             oids.rs: `extract_nonce_extension`
--   Apple.Chain             rust/attest-apple/src/roots.rs: `validate_x5c_chain`
--   Apple.Assertion         assertion.rs: `verify_assertion`
--   Apple.Verify            rust/attest-apple/src/lib.rs: `verify_app_attest`
--   Server.Data             rust/enclave-server/src/main.rs: errors, requests, responses, payloads
--   Server.Start            main.rs: `main`, `setup_loopback`, `vsock_to_tcp_bridge`
--   Server.Device           main.rs: `health`, `attestation_doc`, `request_nsm_attestation`
--   Server.Apple            main.rs: `attest_apple_attestation`, `attest_apple_assertion`
--   Server.Android          main.rs: `attest_android_attestation`
--   Server.App              main.rs: `app`, the route table, and what becomes of a request
--   Move.Framework          what the packages use of Sui and `kagi`, and aborts
--   Move.Witness            move/attestation/sources/witness.move and both source.move
--   Move.Documents          what the three `verify` functions share: `assert_pcrs_match`, freshness
--   Move.AttestAndroid      move/attest_android/sources/attestation.move
--   Move.AttestApple        move/attest_apple/sources/attestation.move
--   Move.Assertion          move/attest_apple/sources/assertion.move
--   Move.Enclave            the documents of the server's handlers, loaded on the chain
--   Move.DeviceBinding      move/device_binding/sources/device_binding.move
--   Move.Schemes            the packages move/device_binding_ed25519, _secp256k1 and _secp256r1
--   Move.Lifecycle          the calls that enroll, hand over and destroy bindings, as a step relation
--   Examples                runs on small concrete inputs
-- A definition bears the name of the function it models; the loop of a function is a function of its
-- own. Modules below a component's hold its proofs.
--
-- How state is modelled: a reader, a cursor into bytes, or the variables of a loop are arguments and
-- results; `?` is the bind of `Result`, and an error is kept up to the text of a foreign error. A `u8`
-- is a number below 256, which `IsByte` says; the 32-bit tag number and the 64-bit length keep their
-- wrap-around and their checked operations. The loops over an AuthorizationList, an application id and
-- the status list run on fuel, one round for each byte and one more: each round takes a byte at least.
-- The handlers keep no state between requests, so that a request is served by a function of the server's
-- key, the host and the request. On the chain an abort is an error with its code, `+` on a `u64` is
-- checked, an object is a record whose identity the transaction gives, and an event is a result.
--
-- What is a parameter: the crates `der`, `x509_cert`, `p256`, `p384`, `rsa`, `sha2`, `ciborium`,
-- `hex`, `bcs` and `axum`, the case table of Unicode outside ASCII, the pinned certificate files, the
-- clock, the security module, processes and sockets; on the chain, SHA-256, BCS, the native signature
-- checks, the loading of a document and the measurements of the policy. Most theorems assume nothing
-- of them but their types. Those on encoded key descriptions and application ids assume `DerLaws`,
-- that the reader reads what X.690 encodes and moves forward; those on the user data assume `BcsLaws`,
-- that a struct is written field by field, and that the digest does not collide on the texts at hand.
-- Those on the server and the chain together assume `Bridge`: digests and fields are the same on both
-- sides, and a loaded document says what the module was asked to sign. Those on messages assume
-- `MessageLaws`, the sizes of an identity and of a `u64` in BCS. A certificate's times are seconds
-- since the epoch and the clock is in milliseconds.
--
-- What is not modelled: the copying of bytes between sockets, and logging; the JSON of requests and
-- responses, which the framework reads and writes; `to_bcs` and `from_bcs` of the outcome, which only call
-- the crate `bcs`; the publishing of the policy's package; the proxy and the demo app.
pub mod Common
pub mod Core
pub mod X509
pub mod Android
pub mod Apple
pub mod Server
pub mod Move
mod Examples
