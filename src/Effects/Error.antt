-- ===== src/Effects/Error.antt =====
-- Go errors: the cause that `errors.Is`, `errors.As` and `status.FromError` find through every
-- `%w`, and the text of `Error()`. The predicates are those of internal/talos/context.go and of
-- apimachinery's errors package.
use yk_talos_management.Prelude.{String, ◌<>◌, Bool, true, false}

-- gRPC status codes, as far as they are told apart
pub data Code : Type 0 where
  canceled deadline_exceeded already_exists unavailable : Code

-- reasons of a Kubernetes API status
pub data Reason : Type 0 where
  not_found already_exists conflict too_many_requests other : Reason

pub data Cause : Type 0 where
  context_canceled context_deadline_exceeded plain : Cause
  grpc : Code → Cause
  api : Reason → Cause

pub record Error : Type 0 where
  pub cause : Cause
  pub message : String

-- A result of type `(A, error)`.
pub data Answer {ℓ} (A : Type ℓ) : Type ℓ where
  ok : A → Answer A
  err : Error → Answer A

-- `fmt.Errorf("…")` and `fmt.Errorf("…: %w", err)`
abbrev pub errorf : String → Error
errorf text = record { cause = plain; message = text }

abbrev pub wrap : String → Error → Error
wrap text e = record e { message = text <> ": " <> e.message }

-- `IsContextCancelled`
unfoldable pub is_context_cancelled : Error → Bool
is_context_cancelled e = elim (e.cause) [
  | context_canceled ↦ true
  | context_deadline_exceeded ↦ true
  | plain ↦ false
  | grpc c ↦ elim c [ canceled ↦ true | deadline_exceeded ↦ true | _ ↦ false ]
  | api r ↦ false
]

-- `talos.IsAlreadyExists`, which reads gRPC errors only
unfoldable pub is_grpc_already_exists : Error → Bool
is_grpc_already_exists e = elim (e.cause) [
  | grpc c ↦ elim c [ already_exists ↦ true | _ ↦ false ]
  | _ ↦ false
]

-- apierrors.IsNotFound, IsAlreadyExists, IsConflict, IsTooManyRequests
abbrev pub has_reason : (Reason → Bool) → Error → Bool
has_reason test e = elim (e.cause) [ api r ↦ test r | _ ↦ false ]

abbrev pub is_not_found : Error → Bool
is_not_found = has_reason (elim [ not_found ↦ true | _ ↦ false ])

abbrev pub is_already_exists : Error → Bool
is_already_exists = has_reason (elim [ already_exists ↦ true | _ ↦ false ])

abbrev pub is_conflict : Error → Bool
is_conflict = has_reason (elim [ conflict ↦ true | _ ↦ false ])

abbrev pub is_too_many_requests : Error → Bool
is_too_many_requests = has_reason (elim [ too_many_requests ↦ true | _ ↦ false ])
