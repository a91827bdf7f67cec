-- ===== src/Fault.antt =====
-- The errors that the code meets, makes and compares (pkg/helper/openstack.go, pkg/helper/cluster.go,
-- pkg/constants/const.go), and what a Go call ends in.
use gardener_extension_priva.Base.{
  ℕ, String, ◌≡◌, ◌⊎◌, inl, inr, refl, Bool, true, false, List, nat_eq,
}

-- An error made by `fmt.Errorf` keeps its format and arguments. The constructors name the sentinel
-- values that the code compares with, and gophercloud's error types that it tests for.
pub data Error : Type 0 where
  err_not_found err_multiple_results : Error
  consts_err_not_found consts_err_multiple_results : Error
  err_cluster_object_not_complete : Error
  err_default_404 err_resource_not_found : Error
  err_unexpected_response_code : ℕ → Error
  other : String → Error
  errorf : String → List String → Error
  errorf_cause : String → List String → Error → Error

-- A call that returns a value or a non-nil error.
pub data Result {ℓ} (A : Type ℓ) : Type ℓ where
  ok : A → Result A
  err : Error → Result A

pub Result-cases {ℓ} :
    {A : Type ℓ} (r : Result A) → ((a : A) × (r ≡ ok a)) ⊎ ((e : Error) × (r ≡ err e))
Result-cases (ok a) = inl (a, refl)
Result-cases (err e) = inr (e, refl)

-- What a call of this program ends in: its value, a non-nil error, or a run-time panic.
pub data Outcome {ℓ} (A : Type ℓ) : Type ℓ where
  returned : A → Outcome A
  failed : Error → Outcome A
  panicked : Outcome A

abbrev pub http_status_not_found : ℕ
http_status_not_found = 404

-- The type assertions look at the error itself, not at what it wraps.
unfoldable pub is_not_found : Error → Bool
is_not_found err_not_found = true
is_not_found err_default_404 = true
is_not_found err_resource_not_found = true
is_not_found (err_unexpected_response_code actual) = nat_eq actual http_status_not_found
is_not_found _ = false

-- `err == ErrNotFound`, for the sentinel of pkg/helper.
abbrev pub is_err_not_found : Error → Bool
is_err_not_found err_not_found = true
is_err_not_found _ = false
