-- ===== src/Envelope/Enums.antt =====
-- The enumerations of the envelope (sip/envelope/models.py), Python's `==` on those that the
-- program compares, their `value` texts, and the order of the trust levels.
use semantic_intent_protocol.Base.{ℕ, String, ◌≡◌, Bool, true, false, List, [], ◌∷◌, ◌↔◌, arith, Eq}

pub data ActorType : Type 0 where
  human ai_agent service system : ActorType

pub data TargetType : Type 0 where
  capability agent service registry broadcast : TargetType

pub data OperationClass : Type 0 where
  read write execute analyze retrieve delegate : OperationClass

pub data Priority : Type 0 where
  low normal high critical : Priority

pub data DeterminismLevel : Type 0 where
  strict bounded advisory : DeterminismLevel

pub data TrustLevel : Type 0 where
  public internal privileged admin : TrustLevel

pub data DataSensitivity : Type 0 where
  public internal confidential restricted : DataSensitivity

pub data BindingType : Type 0 where
  rest grpc mcp a2a rag : BindingType

pub data MessageType : Type 0 where
  intent_request intent_response capability_query capability_response : MessageType
  negotiation_result execution_plan audit_record : MessageType

-- `_TRUST_ORDER`; every level has an entry, so the default of `get` is never read.
abbrev pub trust_order : TrustLevel → ℕ
trust_order TrustLevel.public = 0
trust_order TrustLevel.internal = 1
trust_order TrustLevel.privileged = 2
trust_order TrustLevel.admin = 3

abbrev pub operation_classes : List OperationClass
operation_classes =
    OperationClass.read ∷ OperationClass.write ∷ OperationClass.execute ∷ OperationClass.analyze
    ∷ OperationClass.retrieve ∷ OperationClass.delegate ∷ []

-- `set(BindingType)`
abbrev pub binding_types : List BindingType
binding_types =
    BindingType.rest ∷ BindingType.grpc ∷ BindingType.mcp ∷ BindingType.a2a ∷ BindingType.rag ∷ []

abbrev pub actor_type_value : ActorType → String
actor_type_value ActorType.human = "human"
actor_type_value ActorType.ai_agent = "ai_agent"
actor_type_value ActorType.service = "service"
actor_type_value ActorType.system = "system"

abbrev pub operation_class_value : OperationClass → String
operation_class_value OperationClass.read = "read"
operation_class_value OperationClass.write = "write"
operation_class_value OperationClass.execute = "execute"
operation_class_value OperationClass.analyze = "analyze"
operation_class_value OperationClass.retrieve = "retrieve"
operation_class_value OperationClass.delegate = "delegate"

abbrev pub priority_value : Priority → String
priority_value Priority.low = "low"
priority_value Priority.normal = "normal"
priority_value Priority.high = "high"
priority_value Priority.critical = "critical"

abbrev pub determinism_value : DeterminismLevel → String
determinism_value DeterminismLevel.strict = "strict"
determinism_value DeterminismLevel.bounded = "bounded"
determinism_value DeterminismLevel.advisory = "advisory"

abbrev pub trust_level_value : TrustLevel → String
trust_level_value TrustLevel.public = "public"
trust_level_value TrustLevel.internal = "internal"
trust_level_value TrustLevel.privileged = "privileged"
trust_level_value TrustLevel.admin = "admin"

abbrev pub binding_type_value : BindingType → String
binding_type_value BindingType.rest = "rest"
binding_type_value BindingType.grpc = "grpc"
binding_type_value BindingType.mcp = "mcp"
binding_type_value BindingType.a2a = "a2a"
binding_type_value BindingType.rag = "rag"

abbrev binding_beq : BindingType → BindingType → Bool
binding_beq BindingType.rest BindingType.rest = true
binding_beq BindingType.grpc BindingType.grpc = true
binding_beq BindingType.mcp BindingType.mcp = true
binding_beq BindingType.a2a BindingType.a2a = true
binding_beq BindingType.rag BindingType.rag = true
binding_beq _ _ = false

pub binding_beq_iff : (a b : BindingType) → (binding_beq a b ≡ true) ↔ (a ≡ b)
binding_beq_iff a b = ground arith

instance abbrev pub binding_eq : Eq BindingType
binding_eq = record { beq = binding_beq; beq_iff = binding_beq_iff }

abbrev operation_beq : OperationClass → OperationClass → Bool
operation_beq OperationClass.read OperationClass.read = true
operation_beq OperationClass.write OperationClass.write = true
operation_beq OperationClass.execute OperationClass.execute = true
operation_beq OperationClass.analyze OperationClass.analyze = true
operation_beq OperationClass.retrieve OperationClass.retrieve = true
operation_beq OperationClass.delegate OperationClass.delegate = true
operation_beq _ _ = false

pub operation_beq_iff : (a b : OperationClass) → (operation_beq a b ≡ true) ↔ (a ≡ b)
operation_beq_iff a b = ground arith

instance abbrev pub operation_eq : Eq OperationClass
operation_eq = record { beq = operation_beq; beq_iff = operation_beq_iff }

abbrev determinism_beq : DeterminismLevel → DeterminismLevel → Bool
determinism_beq DeterminismLevel.strict DeterminismLevel.strict = true
determinism_beq DeterminismLevel.bounded DeterminismLevel.bounded = true
determinism_beq DeterminismLevel.advisory DeterminismLevel.advisory = true
determinism_beq _ _ = false

pub determinism_beq_iff : (a b : DeterminismLevel) → (determinism_beq a b ≡ true) ↔ (a ≡ b)
determinism_beq_iff a b = ground arith

instance abbrev pub determinism_eq : Eq DeterminismLevel
determinism_eq = record { beq = determinism_beq; beq_iff = determinism_beq_iff }
