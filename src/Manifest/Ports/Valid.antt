-- ===== src/Manifest/Ports/Valid.antt =====
-- Which ports, and which implementation and distribution over them, a manifest may declare.
use nodima_sdk.Base.{
  ℕ, ◌+◌, ◌≤◌, String, Bool, true, false, ◌&&◌, ◌==◌, if◌then◌else◌, Option, some, none, List, [],
  ◌∷◌, map, ◌≡◌, ◌≢◌, ◌↔◌, ◌⊎◌, inl, inr, refl, ok, length, is_empty, All, IsDistinct, IsFresh,
  IsFresh-iff, Bool-cases, codes, arith, eq_iff,
}
use nodima_sdk.Capability.{Capability}
use nodima_sdk.Regex.Language.{Matches, match_string_iff}
use nodima_sdk.Manifest.Patterns.{port_id_pattern}
use nodima_sdk.Manifest.Types.{
  ImplementationKind, ExecutionBehavior, DistributionMode, Distribution, PortDirection, Port,
}
use nodima_sdk.Manifest.Ports.{
  is_streaming, is_input, is_output, last_port, is_port, is_singleton, validate_javascript,
  check_javascript, count_inputs, count_required, check_mode, check_distribution, check_ports,
}

abbrev pub IsRequired : PortDirection → String → Port → Type 0
IsRequired d id p = (p.id ≡ id) × (p.direction ≡ d) × (p.required ≡ true)

-- Two ports, a required input and a required output, in either order.
abbrev pub IsPair : List Port → Type 0
IsPair (p ∷ (q ∷ [])) =
    (IsRequired PortDirection.input "input" p × IsRequired PortDirection.output "output" q)
    ⊎ (IsRequired PortDirection.output "output" p × IsRequired PortDirection.input "input" q)
IsPair _ = ⊥

abbrev pub IsSingleton : Option Distribution → Type 0
IsSingleton none = Unit
IsSingleton (some d) = d.mode ≡ DistributionMode.singleton

-- A JavaScript package streams, uses no capability, is not distributed, and has one required input
-- and one required output.
abbrev pub IsJavaScript :
    ExecutionBehavior → List Capability → Option Distribution → List Port → Type 0
IsJavaScript behavior capabilities distribution ports =
    (behavior ≡ ExecutionBehavior.streaming)
    × (capabilities ≡ [])
    × IsSingleton distribution
    × IsPair ports

abbrev pub IsImplemented :
    ImplementationKind
    → ExecutionBehavior
    → List Capability
    → Option Distribution
    → List Port
    → Type 0
IsImplemented ImplementationKind.javascript behavior capabilities distribution ports =
    IsJavaScript behavior capabilities distribution ports
IsImplemented _ behavior capabilities distribution ports = Unit

abbrev pub NoInput : Port → Type 0
NoInput p = is_input p.direction ≡ false

-- One port is an input, and it is required.
abbrev pub HasOneInput : List Port → Type 0
HasOneInput [] = ⊥
HasOneInput (p ∷ ps) =
    ((p.direction ≡ PortDirection.input) × (p.required ≡ true) × All NoInput ps)
    ⊎ (NoInput p × HasOneInput ps)

abbrev pub IsDistributed :
    ExecutionBehavior → List Capability → List Port → Option Distribution → Type 0
IsDistributed behavior capabilities ports none = Unit
IsDistributed behavior capabilities ports (some d) =
    (d.mode ≡ DistributionMode.singleton)
    ⊎ ((d.mode ≡ DistributionMode.batch_parallel)
        × (behavior ≡ ExecutionBehavior.streaming)
        × (capabilities ≡ [])
        × HasOneInput ports)

-- A port with a well-formed ID and a known direction.
abbrev pub IsPort : Port → Type 0
IsPort p =
    Matches port_id_pattern (codes p.id)
    × ((p.direction ≡ PortDirection.input) ⊎ (p.direction ≡ PortDirection.output))

abbrev pub ids_of : List Port → List String
ids_of = map (λ p. p.id)

is_streaming_iff :
    (b : ExecutionBehavior) → (is_streaming b ≡ true) ↔ (b ≡ ExecutionBehavior.streaming)
is_streaming_iff b = ground arith

is_input_iff : (d : PortDirection) → (is_input d ≡ true) ↔ (d ≡ PortDirection.input)
is_input_iff d = ground arith

is_output_iff : (d : PortDirection) → (is_output d ≡ true) ↔ (d ≡ PortDirection.output)
is_output_iff d = ground arith

is_empty_iff {ℓ} : {A : Type ℓ} (xs : List A) → (is_empty xs ≡ true) ↔ (xs ≡ [])
is_empty_iff xs = ground arith

is_singleton_iff : (d : Option Distribution) → (is_singleton d ≡ true) ↔ IsSingleton d
is_singleton_iff none = ground arith
is_singleton_iff (some d) = ground arith

no_inputs_iff : (ps : List Port) → (count_inputs ps ≡ 0) ↔ All NoInput ps
unfolding count_inputs
no_inputs_iff [] = ground arith
no_inputs_iff (p ∷ ps) = ground (arith, no_inputs_iff ps)

required_inputs : (ps : List Port) → count_required ps ≤ count_inputs ps
unfolding count_inputs count_required
required_inputs [] = omega arith
required_inputs (p ∷ ps) = ground (arith, required_inputs ps)

one_input_iff :
    (ps : List Port) → ((count_inputs ps ≡ 1) × (count_required ps ≡ 1)) ↔ HasOneInput ps
unfolding count_inputs count_required
one_input_iff [] = ground arith
one_input_iff (p ∷ ps) =
    ground (arith, one_input_iff ps, no_inputs_iff ps, required_inputs ps, is_input_iff p.direction)

-- The entry of an ID among two ports, tested.
pair_entry :
    (f : PortDirection → Bool) (id : String) (p q : Port)
    → is_port f id (last_port id none (p ∷ (q ∷ []))) ≡ (
        if q.id == id
        then f q.direction && q.required
        else (p.id == id && f p.direction && p.required))
unfolding is_port last_port
pair_entry f id p q = elim (Bool-cases (q.id == id)) [
  | inl a ↦ rw (a, is_port, a) refl
  | inr a ↦ elim (Bool-cases (p.id == id)) [
    | inl b ↦ rw (a, b, is_port, b) refl
    | inr b ↦ rw (a, b, is_port) refl
  ]
]

ways_differ : ◌≢◌ {A = String} "input" "output"
ways_differ e = cc ((eq_iff "input" "output").1 e)

IsPair-iff :
    (ps : List Port)
    → ((length ps ≡ 2)
        × (is_port is_input "input" (last_port "input" none ps) ≡ true)
        × (is_port is_output "output" (last_port "output" none ps) ≡ true))
      ↔ IsPair ps
IsPair-iff [] = ground arith
IsPair-iff (p ∷ []) = ground arith
IsPair-iff (p ∷ (q ∷ [])) =
    rw (pair_entry is_input "input" p q, pair_entry is_output "output" p q)
      (ground (
        arith,
        ways_differ,
        eq_iff p.id "input",
        eq_iff p.id "output",
        eq_iff q.id "input",
        eq_iff q.id "output",
        is_input_iff p.direction,
        is_input_iff q.direction,
        is_output_iff p.direction,
        is_output_iff q.direction,
      ))
IsPair-iff (p ∷ (q ∷ (r ∷ more))) = ground arith

pub check_javascript_iff :
    (i : ImplementationKind) (behavior : ExecutionBehavior) (capabilities : List Capability)
    (distribution : Option Distribution) (ports : List Port)
    → (check_javascript i behavior capabilities distribution ports ≡ ok tt)
      ↔ IsImplemented i behavior capabilities distribution ports
unfolding validate_javascript
check_javascript_iff ImplementationKind.wasm b c d ps = ground arith
check_javascript_iff ImplementationKind.native b c d ps = ground arith
check_javascript_iff (ImplementationKind.other k) b c d ps = ground arith
check_javascript_iff ImplementationKind.javascript b c d ps =
    ground (arith, is_streaming_iff b, is_empty_iff c, is_singleton_iff d, IsPair-iff ps)

pub check_distribution_iff :
    (behavior : ExecutionBehavior) (capabilities : List Capability) (ports : List Port)
    (distribution : Option Distribution)
    → (check_distribution behavior capabilities ports distribution ≡ ok tt)
      ↔ IsDistributed behavior capabilities ports distribution
unfolding check_distribution check_mode
check_distribution_iff b c ps none = ground arith
check_distribution_iff b c ps (some d) =
    ground (arith, is_streaming_iff b, is_empty_iff c, one_input_iff ps)

check_ports-IsFresh :
    (index : ℕ) (seen : List String) (ps : List Port)
    → (check_ports index seen ps ≡ ok tt) ↔ (All IsPort ps × IsFresh seen (ids_of ps))
unfolding check_ports
check_ports-IsFresh index seen [] = ground arith
check_ports-IsFresh index seen (p ∷ ps) = ground (
  arith,
  match_string_iff port_id_pattern (codes p.id),
  is_input_iff p.direction,
  is_output_iff p.direction,
  check_ports-IsFresh (index + 1) (p.id ∷ seen) ps,
)

pub check_ports_iff :
    (ps : List Port) → (check_ports 0 [] ps ≡ ok tt) ↔ (All IsPort ps × IsDistinct (ids_of ps))
check_ports_iff ps = ground (arith, check_ports-IsFresh 0 [] ps, IsFresh-iff (ids_of ps))
