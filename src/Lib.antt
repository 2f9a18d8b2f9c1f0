-- ===== src/Lib.antt =====
-- A model of the Nodima runner protocol, from runner/v1 and go, and what holds of it.
--
-- A guest runs a node of a data pipeline and talks to its host over a pair of byte streams. Each
-- message is checked (runner/v1/message.go, runner/v1/session.go), written as a frame
-- (runner/v1/codec.go, runner/v1/transport.go), read back and checked again; the guest's session
-- (go/sdk.go) hands inputs to a runner, sends its outputs, and calls the host for capabilities over
-- the same streams.
--
-- The files, and what they model:
--   Base: Go's `(value, error)` results with the chain of early returns, methods that change an
--     object and may fail, lists over the native numbers, Go's `map[string]struct{}` as a list of
--     keys, and Go's int.
--   Capability: runner/v1/message.go, `CapabilityRequest.Validate` and `CapabilityResponse.Validate`
--     (`validate_request`, `validate_response`), and `Capability.Validate` of runner/v1/manifest.go.
--     Capability/Request and Capability/Response give the tagged unions that these records encode.
--   Batch: runner/v1/message.go, `Batch.Validate` (`validate_batch`).
--   Session: runner/v1/session.go. Session/Limits is `SpillLimits`, Session/Nodes and Session/Start
--     are `SessionStart.Validate`, Session/Connect, Session/Preview and Session/Credits the others.
--   Message: runner/v1/message.go, `Message` and `Message.Validate` (`validate_message`);
--     Message/Content is its switch on the type.
--   Wire: `io.ReadFull`, writers, and `writeAll` of runner/v1/codec.go.
--   Codec: runner/v1/codec.go, `Encoder.Encode` and `Decoder.Decode` (`encode`, `decode`).
--   Metadata, Transport: runner/v1/transport.go, `EncodeControl`, `EncodeBatch`, `writeFrame`,
--     `Decode` and what they call, under their names.
--     Transport/Messages is `EncodeMessage` and `DecodeMessage`, and Transport/Messages/Channel two
--     peers that send and receive over one pipe.
--   Arrow: runner/v1/arrow_batch.go, `ValidateArrowRecord`; Arrow/Convert is `BatchToArrow` and
--     `ArrowToBatch`, and Arrow/Convert/Normal what they make of a batch.
--   Sdk: go/sdk.go, the protocol session: `next`, `emit`, `capability`, the five capability calls,
--     `identify`, `fail`, and Sdk/Requests for the IDs of requests.
--   Regex: Go's package regexp as runner/v1 uses it, on whole texts, by taking the expression apart
--     one code point after the other; Regex/Language says what an expression stands for.
--   Manifest: runner/v1/manifest.go, `Manifest.Validate` (`validate_manifest`); Manifest/Patterns has
--     the regular expressions, Manifest/Digest `FileIntegrity.Validate`, Manifest/Ports what depends
--     on the ports, and Manifest itself `PackageLimits.Validate` and `validateCapabilities`.
--   PackagePath: runner/v1/manifest.go, `ValidatePackagePath` on the code points of a path, with
--     Go's `path.Clean`, `path.IsAbs` and `strings.HasPrefix`.
--   Ui: runner/v1/ui.go, `UIManifest.Validate` (`validate_ui`).
--   PackageKit: packagekit, over its interfaces to the file system, JSON, SHA-256 and the JavaScript
--     compiler. PackageKit/Reading is `readRegularFile`, PackageKit/Documents `decodeManifest`,
--     `validateConfigSchema` and `decodeUIManifest`, PackageKit/Loader `LoadDirectory`,
--     PackageKit/Archive `LoadArchive`, PackageKit/Archive/Create `ArchiveDirectory` as a trace of the
--     steps that were taken, and PackageKit/Template `loadManifestTemplate` and the loop of
--     `BuildGo` that checksums the built files, of packagekit/builder.go.
--   The files called Tests run the definitions on small inputs, those called Samples hold the inputs.
--
-- How Go's values are read. A string is a text, whose `len` counts its bytes in UTF-8, so texts are
-- taken to be valid UTF-8. A byte is a number below 256, and conversions to uint32 and the count of
-- requests wrap as written. A pointer is an option, a slice a list, a map the list of its entries
-- in the order in which a loop meets them. An error is its format and arguments; the nil
-- dereference is an error of its own, `panic`. A reader is the bytes to come and the error behind
-- them. A writer is the list of its answers to come, which may be short, wrong or failing, and what
-- it has taken. The locks of the session guard different fields, so a run is taken as a sequence of
-- operations.
--
-- Loops are recursion on their lists. `writeAll` recurses on fuel, one round for each byte, and
-- `write_rounds-enough` states that more fuel changes nothing.
--
-- Parameters, for code outside the repository: the CBOR library (`Cbor`) and the Arrow library
-- (`Arrow`), as records of functions; what a theorem takes of them, that a value is read back as it
-- was written, is among its hypotheses for the values at hand; `Builds` says what the Arrow library
-- documents of its builders. The package kit takes what the operating system answers (`FileSystem`,
-- `Disk`, `Machine`), the JSON decoders, SHA-256 and the JavaScript compiler (`Tools`), and the order in which a
-- loop meets the entries of a map; nothing is assumed of what a file system answers, and `Visits` and
-- `ReadsMaps` say that a map has each key once and that a loop meets each entry. The session takes `EncodeMessage` and the results of `DecodeMessage` as
-- parameters.
--
-- Not modelled: the steps of `BuildGo` and `Assemble` that drive the Go toolchain and write to the file system, and the command line; `NewSession`, `Run` and `Main` of go/sdk.go; the
-- memory that `Release` returns to the Arrow library; the Rust crate.
pub mod Base
pub mod Capability
pub mod Batch
pub mod Session
pub mod Message
pub mod Wire
pub mod Metadata
pub mod Cbor
pub mod Arrow
pub mod Codec
pub mod Transport
pub mod Sdk
pub mod Manifest
pub mod PackageKit
pub mod PackagePath
pub mod Regex
pub mod Ui
