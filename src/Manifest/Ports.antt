-- ===== src/Manifest/Ports.antt =====
-- runner/v1/manifest.go: what `Manifest.Validate` asks of the ports, and of the implementation and the
-- distribution that depend on them.
pub mod Valid
use nodima_sdk.Base.{
  ℕ, suc, ◌+◌, String, Bool, true, false, not, ◌&&◌, ◌||◌, eqb, Option, some, none, List, [], ◌∷◌,
  Check, ok, err, errorf, str, num, reject, ◌>>=◌, ◌>>◌, ◌==◌, if◌then◌else◌, length, is_empty,
  contains, codes,
}
use nodima_sdk.Capability.{Capability}
use nodima_sdk.Regex.{match_string}
use nodima_sdk.Manifest.Patterns.{port_id_pattern}
use nodima_sdk.Manifest.Types.{
  ImplementationKind, ExecutionBehavior, DistributionMode, Distribution, PortDirection, Port,
  direction_text,
}

abbrev pub is_streaming : ExecutionBehavior → Bool
is_streaming ExecutionBehavior.streaming = true
is_streaming _ = false

abbrev pub is_input : PortDirection → Bool
is_input PortDirection.input = true
is_input _ = false

abbrev pub is_output : PortDirection → Bool
is_output PortDirection.output = true
is_output _ = false

-- `ports[id]` after the loop that enters every port under its ID: the last with that ID.
unfoldable pub last_port : String → Option Port → List Port → Option Port
last_port id found [] = found
last_port id found (p ∷ ps) = last_port id (if p.id == id then some p else found) ps

-- `ports[id] == Port{ID: id, Direction: …, Required: true}`; a missing entry is the zero port.
unfoldable pub is_port : (PortDirection → Bool) → String → Option Port → Bool
is_port is_directed id none = false
is_port is_directed id (some p) = p.id == id && is_directed p.direction && p.required

abbrev pub is_singleton : Option Distribution → Bool
is_singleton none = true
is_singleton (some d) = elim d.mode [ DistributionMode.singleton ↦ true | _ ↦ false ]

-- The checks of a JavaScript package.
unfoldable pub validate_javascript :
    ExecutionBehavior → List Capability → Option Distribution → List Port → Check
validate_javascript behavior capabilities distribution ports = do
  reject (not (is_streaming behavior))
      (errorf "JavaScript runner packages require streaming behavior" [])
  reject (not (is_empty capabilities))
      (errorf "JavaScript runner packages cannot declare capabilities" [])
  reject (not (is_singleton distribution))
      (errorf "JavaScript runner packages require singleton distribution" [])
  reject
      (not (eqb (length ports) 2)
        || not (is_port is_input "input" (last_port "input" none ports))
        || not (is_port is_output "output" (last_port "output" none ports)))
      (errorf
        "JavaScript runner packages require one required input port and one required output port"
        [])

abbrev pub check_javascript :
    ImplementationKind
    → ExecutionBehavior
    → List Capability
    → Option Distribution
    → List Port
    → Check
check_javascript ImplementationKind.javascript behavior capabilities distribution ports =
    validate_javascript behavior capabilities distribution ports
check_javascript _ behavior capabilities distribution ports = ok tt

-- The loop that counts the inputs, and those of them that are required.
unfoldable pub count_inputs : List Port → ℕ
count_inputs [] = 0
count_inputs (p ∷ ps) =
    let more = count_inputs ps in if is_input p.direction then suc more else more

unfoldable pub count_required : List Port → ℕ
count_required [] = 0
count_required (p ∷ ps) =
    let more = count_required ps in if is_input p.direction && p.required then suc more else more

-- `switch m.Distribution.Mode`
unfoldable pub check_mode :
    ExecutionBehavior → List Capability → List Port → DistributionMode → Check
check_mode behavior capabilities ports DistributionMode.singleton = ok tt
check_mode behavior capabilities ports DistributionMode.batch_parallel = do
  reject (not (is_streaming behavior))
      (errorf "batch-parallel distribution requires streaming behavior" [])
  reject (not (is_empty capabilities))
      (errorf "batch-parallel distribution does not support capabilities" [])
  reject (not (eqb (count_inputs ports) 1) || not (eqb (count_required ports) 1))
      (errorf "batch-parallel distribution requires exactly one required input" [])
check_mode behavior capabilities ports (DistributionMode.other mode) =
    err (errorf "invalid runner distribution mode %q" (str mode ∷ []))

unfoldable pub check_distribution :
    ExecutionBehavior → List Capability → List Port → Option Distribution → Check
check_distribution behavior capabilities ports none = ok tt
check_distribution behavior capabilities ports (some d) =
    check_mode behavior capabilities ports d.mode

-- The loop over the ports; `seen` is the map of the IDs seen.
unfoldable pub check_ports : ℕ → List String → List Port → Check
check_ports index seen [] = ok tt
check_ports index seen (p ∷ ps) = do
  reject (not (match_string port_id_pattern (codes p.id)))
      (errorf "port %d has invalid ID %q" (num index ∷ (str p.id ∷ [])))
  reject (contains seen p.id) (errorf "duplicate port ID %q" (str p.id ∷ []))
  reject (not (is_input p.direction) && not (is_output p.direction)) (
      errorf "port %q has invalid direction %q"
        (str p.id ∷ (str (direction_text p.direction) ∷ [])))
  check_ports (index + 1) (p.id ∷ seen) ps
