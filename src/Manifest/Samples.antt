-- ===== src/Manifest/Samples.antt =====
-- A small manifest for the tests.
use nodima_sdk.Base.{[], ◌∷◌, true, false, none}
use nodima_sdk.Session.{abi_version}
use nodima_sdk.Manifest.Types.{
  FileIntegrity, Manifest, ImplementationKind, ExecutionBehavior, PortDirection,
}
use nodima_sdk.Manifest.Validate.{package_format_version}
use nodima_sdk.Manifest.{PackageLimits}

abbrev pub two_pages : PackageLimits
two_pages = record {
  memory_bytes = 131072;
  wall_time_millis = 1000;
  max_output_bytes = 4096;
  max_output_messages = 8;
  stderr_bytes = 0;
}

abbrev pub digest : FileIntegrity
digest = record { sha256 = "0123456789abcdef0123456789abcdef0123456789abcdef0123456789abcdef" }

-- A JavaScript package with a README.
abbrev pub filter : Manifest
filter = record {
  format_version = package_format_version;
  id = "studio.f-1";
  version = "1.0.2-a";
  abi = abi_version;
  implementation = ImplementationKind.javascript;
  entrypoint = "a.js";
  config_schema = "c/s.json";
  icon = "";
  ui = "";
  readme = "R.md";
  behavior = ExecutionBehavior.streaming;
  stop_when_unused = false;
  distribution = none;
  ports =
      record { id = "output"; direction = PortDirection.output; required = true }
      ∷ (record { id = "input"; direction = PortDirection.input; required = true } ∷ []);
  capabilities = [];
  limits = two_pages;
  files = ("R.md", digest) ∷ (("a.js", digest) ∷ (("c/s.json", digest) ∷ []));
}
