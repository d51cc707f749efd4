-- ===== src/Api/Enums.antt =====
-- The enumerations on the wire: ErrorCode and Status of internal/api/contract/contract.gen.go, and the
-- texts of the statuses in internal/domain/task.go, which dto.go hands on unchanged.
use currency_quotes_service.Prelude.{
  ◌≡◌, refl, sym, subst, ◌↔◌, inl, inr, Bool, true, ◌||◌, Text, codes, text_eq, text_eq_iff,
  Bool-cases, arith,
}
use currency_quotes_service.Domain.Task.{Status, pending, in_progress, done, failed}
use currency_quotes_service.Api.{
  ErrorCode, error_code_internal_error, error_code_invalid_pair, error_code_invalid_request,
  error_code_key_conflict, error_code_not_found,
}

-- The constants of `domain.Status`.
unfoldable pub status_text : Status → Text
status_text pending = codes "pending"
status_text in_progress = codes "in_progress"
status_text done = codes "done"
status_text failed = codes "failed"

-- `Status.Valid`.
unfoldable pub valid_status : Text → Bool
valid_status s =
    text_eq s (codes "done")
    || text_eq s (codes "failed")
    || text_eq s (codes "in_progress")
    || text_eq s (codes "pending")

-- The constants of `contract.ErrorCode`.
unfoldable pub error_code_text : ErrorCode → Text
error_code_text error_code_internal_error = codes "internal_error"
error_code_text error_code_invalid_pair = codes "invalid_pair"
error_code_text error_code_invalid_request = codes "invalid_request"
error_code_text error_code_key_conflict = codes "key_conflict"
error_code_text error_code_not_found = codes "not_found"

-- `ErrorCode.Valid`.
unfoldable pub valid_error_code : Text → Bool
valid_error_code s =
    text_eq s (codes "internal_error")
    || text_eq s (codes "invalid_pair")
    || text_eq s (codes "invalid_request")
    || text_eq s (codes "key_conflict")
    || text_eq s (codes "not_found")

same_text : (s t : Text) → text_eq s t ≡ true → t ≡ s
same_text s t e = sym ((text_eq_iff s t).0 e)

status_of_text : (s : Text) → valid_status s ≡ true → (t : Status) × (status_text t ≡ s)
unfolding valid_status status_text
status_of_text s h = elim (Bool-cases (text_eq s (codes "done"))) [
  | inl e ↦ (done, same_text s (codes "done") e)
  | inr n0 ↦ elim (Bool-cases (text_eq s (codes "failed"))) [
    | inl e ↦ (failed, same_text s (codes "failed") e)
    | inr n1 ↦ elim (Bool-cases (text_eq s (codes "in_progress"))) [
      | inl e ↦ (in_progress, same_text s (codes "in_progress") e)
      | inr n2 ↦ (pending, same_text s (codes "pending") (ground (arith, h, n0, n1, n2)))
    ]
  ]
]

code_of_text : (s : Text) → valid_error_code s ≡ true → (c : ErrorCode) × (error_code_text c ≡ s)
unfolding valid_error_code error_code_text
code_of_text s h = elim (Bool-cases (text_eq s (codes "internal_error"))) [
  | inl e ↦ (error_code_internal_error, same_text s (codes "internal_error") e)
  | inr n0 ↦ elim (Bool-cases (text_eq s (codes "invalid_pair"))) [
    | inl e ↦ (error_code_invalid_pair, same_text s (codes "invalid_pair") e)
    | inr n1 ↦ elim (Bool-cases (text_eq s (codes "invalid_request"))) [
      | inl e ↦ (error_code_invalid_request, same_text s (codes "invalid_request") e)
      | inr n2 ↦ elim (Bool-cases (text_eq s (codes "key_conflict"))) [
        | inl e ↦ (error_code_key_conflict, same_text s (codes "key_conflict") e)
        | inr n3 ↦ (
          error_code_not_found,
          same_text s (codes "not_found") (ground (arith, h, n0, n1, n2, n3)),
        )
      ]
    ]
  ]
]

text-valid_status : (t : Status) → valid_status (status_text t) ≡ true
unfolding valid_status status_text text_eq
text-valid_status pending = refl
text-valid_status in_progress = refl
text-valid_status done = refl
text-valid_status failed = refl

text-valid_code : (c : ErrorCode) → valid_error_code (error_code_text c) ≡ true
unfolding valid_error_code error_code_text text_eq
text-valid_code error_code_internal_error = refl
text-valid_code error_code_invalid_pair = refl
text-valid_code error_code_invalid_request = refl
text-valid_code error_code_key_conflict = refl
text-valid_code error_code_not_found = refl

-- A text is a valid status of the contract exactly when it is the text of a status of a task, and a valid
-- code of an error exactly when it is the text of one.
pub texts-valid_status :
    (s : Text)
    → ((valid_status s ≡ true) ↔ (t : Status) × (status_text t ≡ s))
      × ((valid_error_code s ≡ true) ↔ (c : ErrorCode) × (error_code_text c ≡ s))
texts-valid_status s = (
  (status_of_text s, λ (t, e). subst (λ x. valid_status x ≡ true) e (text-valid_status t)),
  (code_of_text s, λ (c, e). subst (λ x. valid_error_code x ≡ true) e (text-valid_code c)),
)
