-- ===== src/Manifest/Types.antt =====
-- runner/v1/manifest.go: the types of a package manifest.
use nodima_sdk.Base.{String, Bool, Option, List}
use nodima_sdk.Capability.{Capability}
use nodima_sdk.Manifest.{PackageLimits}

pub data ImplementationKind : Type 0 where
  wasm javascript native : ImplementationKind
  other : String → ImplementationKind

pub data ExecutionBehavior : Type 0 where
  streaming blocking spilling : ExecutionBehavior
  other : String → ExecutionBehavior

pub data DistributionMode : Type 0 where
  singleton batch_parallel : DistributionMode
  other : String → DistributionMode

pub record Distribution : Type 0 where
  pub mode : DistributionMode

pub data PortDirection : Type 0 where
  input output : PortDirection
  other : String → PortDirection

pub record Port : Type 0 where
  pub id : String
  pub direction : PortDirection
  pub required : Bool

pub record FileIntegrity : Type 0 where
  pub sha256 : String

-- `files` is the map as the list of its entries, in the order in which a loop over it finds them.
pub record Manifest : Type 0 where
  pub format_version : String
  pub id : String
  pub version : String
  pub abi : String
  pub implementation : ImplementationKind
  pub entrypoint : String
  pub config_schema : String
  pub icon : String
  pub ui : String
  pub readme : String
  pub behavior : ExecutionBehavior
  pub stop_when_unused : Bool
  pub distribution : Option Distribution
  pub ports : List Port
  pub capabilities : List Capability
  pub limits : PackageLimits
  pub files : List (String × FileIntegrity)

unfoldable pub implementation_text : ImplementationKind → String
implementation_text wasm = "wasm"
implementation_text javascript = "javascript"
implementation_text native = "native"
implementation_text (other k) = k

unfoldable pub behavior_text : ExecutionBehavior → String
behavior_text streaming = "streaming"
behavior_text blocking = "blocking"
behavior_text spilling = "spilling"
behavior_text (other b) = b

unfoldable pub direction_text : PortDirection → String
direction_text input = "input"
direction_text output = "output"
direction_text (other d) = d
