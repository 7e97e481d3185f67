-- ===== src/Domain/Checks.antt =====
-- What the check of tenant identifiers accepts.
use kokoro_scheduler.Domain.Identity.{validate_tenant_id, has_control, is_control}
use kokoro_scheduler.Base.{ℕ, ◌≤◌, ◌≡◌, refl, ◌↔◌, false, [], ◌∷◌, arith, Text, ok, length, All}

has_control_iff : (s : Text) → (has_control s ≡ false) ↔ All (λ (c : ℕ). is_control c ≡ false) s
unfolding has_control
has_control_iff [] = (λ h. tt, λ h. refl)
has_control_iff (c ∷ s) =
    let (to, from) = has_control_iff s in
    (
      λ h. (ground arith, to (ground arith)),
      λ v. let rest = from v.1 in let first = v.0 in ground (arith, first, rest),
    )

-- A tenant identifier is accepted exactly if it has between 1 and 128 bytes and no control character.
pub validate_tenant_id_iff :
    (s : Text)
    → (validate_tenant_id s ≡ ok tt)
      ↔ ((1 ≤ length s) × (length s ≤ 128) × All (λ (c : ℕ). is_control c ≡ false) s)
unfolding validate_tenant_id
validate_tenant_id_iff s =
    let (to, from) = has_control_iff s in
    (
      λ h. (ground arith, ground arith, to (ground arith)),
      λ v.
          let clean = from v.2 in
          let low = v.0 in let high = v.1 in ground (arith, clean, low, high),
    )
